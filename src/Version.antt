-- ===== src/Version.antt =====
-- ui/src/version-source.js: the stored versions of all configurations as one list, its order and its
-- search. `localeCompare` with its options, and `Date.parse` as milliseconds or `NaN`, are parameters.
pub mod Laws
use otel_opamp_control_plane.Js.Text.{includes as contains, trim, to_lower, join, is_space}
use Prim.Native.Nat.{compare as compare_nat}
use Prim.Native.String.{compare}
use Prim.Native.String
use otel_opamp_control_plane.Prelude.{
  Ordering, ℕ, zero, suc, ◌+◌, ◌-◌, ◌*◌, ◌/◌, ◌%◌, ◌≤◌, ◌<◌, Char, code, String, ◌≡◌, refl, sym, ap,
  ◌∙◌, subst, ◌≢◌, ◌↔◌, ◌⊎◌, inl, inr, Bool, true, false, not, ◌&&◌, ◌||◌, Option, none, some, List,
  [], ◌∷◌, ◌++◌, map, reverse, foldl, arith, ◌==◌, starts_with, eq_iff, eq_refl, ltb, leb, eqb,
  is_empty, empty_lem, if◌then◌else◌, Bool-cases, Option-cases, leb→le, ltb→lt, tests, length,
  get_elem?, concat_map, any, all, filter, count, length-filter, All, All-filter, All-append,
  count-le, All-of_count_eq, count_congr, All-intro, All-map, All-zip, count-eq-length_iff,
  count-le-length, then_iff, both_iff, not-false, not_below, same_iff, not_equal_iff,
  equal_false_iff, not_or, not_zero,
}
use otel_opamp_control_plane.Js.{
  Value, Num, nan, whole, str, num, bool, undefined, null, to_string, to_number, nullish, or_else,
  truthy, num_eq,
}
use otel_opamp_control_plane.Js.Sort.{or_then, sort}
use otel_opamp_control_plane.Account.{number_or_zero}
use otel_opamp_control_plane.Deployment.{Fields}
use otel_opamp_control_plane.Events.{array}

-- The attributes and arrays of a selector are spelled in two ways.
pub record StoredSelector : Type 0 where
  pub services_upper : Option (List Value)
  pub services : Option (List Value)
  pub instance_uids_upper : Option (List Value)
  pub instance_uids : Option (List Value)
  pub attributes_upper : Option Fields
  pub attributes : Option Fields

pub record Version : Type 0 where
  pub version_upper : Value
  pub version : Value
  pub config_id : Value
  pub config_id_upper : Value
  pub id : Value
  pub updated_at : Value
  pub created_at : Value
  pub target : Value
  pub action : Value
  pub created_by : Value
  pub hash : Value
  pub selector_upper : Option StoredSelector
  pub selector : Option StoredSelector
  pub is_latest : Value

-- A deployment record, as the list of destinations sorts it.
pub record DestinationRecord : Type 0 where
  pub config_id : Value
  pub version : Value
  pub service : Value
  pub agent_uid : Value

unfoldable pub text : Value → String
text v = trim (to_string (nullish v (str "")))

unfoldable pub version_number : Version → Num
version_number v = to_number (nullish v.version_upper (nullish v.version (num (whole 0))))

unfoldable pub config_id : Version → String
config_id v = text (or_else v.config_id (or_else v.config_id_upper v.id))

abbrev pub no_selector : StoredSelector
no_selector = record {
  services_upper = none;
  services = none;
  instance_uids_upper = none;
  instance_uids = none;
  attributes_upper = none;
  attributes = none;
}

-- `a || b || c` on objects that may be missing, and `a ?? b` on arrays.
abbrev pub first_object {ℓ} : {A : Type ℓ} → Option A → Option A → A → A
first_object (some a) b c = a
first_object none (some b) c = b
first_object none none c = c

unfoldable pub selector_of : Version → StoredSelector
selector_of v = first_object v.selector_upper v.selector no_selector

unfoldable pub selector_attributes : StoredSelector → Fields
selector_attributes s = first_object s.attributes_upper s.attributes []

-- The sign of `b - a`; with `NaN` it is none.
abbrev pub descending : Num → Num → Ordering
descending (whole a) (whole b) = compare_nat b a
descending _ _ = Ordering.eq

-- `Math.max`
abbrev pub max_num : Num → Num → Num
max_num (whole a) (whole b) = if ltb a b then whole b else whole a
max_num _ _ = nan

-- The `reduce` over the versions of a configuration.
unfoldable pub latest : Num → List Version → Num
latest current [] = current
latest current (v ∷ vs) = latest (max_num current (version_number v)) vs

abbrev pub mark : String → Num → Version → Version
mark id newest v = record v {
  config_id = str id;
  is_latest = bool (num_eq (version_number v) newest);
}

unfoldable pub marked : String → List Version → List Version
marked id versions = map (mark id (latest (whole 0) versions)) versions

-- The texts of `s.split(/\s+/)` that are not empty: the words of a text. The word so far stands in front.
abbrev word_before : Char → List String → List String
word_before c [] = String.◌∷◌ c "" ∷ []
word_before c (word ∷ words) = String.◌∷◌ c word ∷ words

unfoldable pub split_words : String → List String
split_words String.[] = "" ∷ []
split_words (String.◌∷◌ c s) =
    let rest = split_words s in if is_space c then "" ∷ rest else word_before c rest

unfoldable pub tokens : Value → List String
tokens query = filter (λ word. not (is_empty word)) (split_words (to_lower (text query)))

abbrev pub Compare : Type 0
Compare = String → String → Ordering

unfoldable pub compare_text : Compare → Value → Value → Ordering
compare_text locale_compare left right = locale_compare (text left) (text right)

module _ (locale_compare : Compare) (date_parse : Value → Num) where
  -- `Date.parse(value) || 0`, or 0 without a date.
  unfoldable pub version_timestamp : Version → Num
  version_timestamp v =
      let value = or_else v.updated_at v.created_at in
      if truthy value then whole (number_or_zero (date_parse value)) else whole 0

  unfoldable pub compare_stored_versions : Version → Version → Ordering
  compare_stored_versions left right =
      or_then (descending (version_timestamp left) (version_timestamp right)) (
        or_then (compare_text locale_compare (str (config_id left)) (str (config_id right)))
          (descending (version_number left) (version_number right)))

  unfoldable pub flatten_stored_versions : List (String × Option (List Version)) → List Version
  flatten_stored_versions configs =
      sort compare_stored_versions
        (concat_map (λ (id, versions). marked id (array versions)) configs)

  unfoldable pub selector_texts : StoredSelector → List String
  selector_texts s =
      map (λ pair. String.◌++◌ pair.0 (String.◌++◌ "=" (to_string pair.1)))
        (sort (λ left right. compare_text locale_compare (str left.0) (str right.0))
          (selector_attributes s))

  pub record SelectorSummary : Type 0 where
    pub services : List Value
    pub instances : List Value
    pub attributes : List String

  unfoldable pub stored_version_selector_summary : Version → SelectorSummary
  stored_version_selector_summary v =
      let s = selector_of v in
      record {
        services = first_object s.services_upper s.services [];
        instances = first_object s.instance_uids_upper s.instance_uids [];
        attributes = selector_texts s;
      }

  unfoldable pub stored_version_search_text : Version → String
  stored_version_search_text v =
      let summary = stored_version_selector_summary v in
      let number = num (version_number v) in
      to_lower (
        join " " (
          map to_string (
            filter (λ value. not (is_empty (text value)))
              (str (config_id v)
                ∷ number
                ∷ str (String.◌++◌ "v" (to_string number))
                ∷ v.target
                ∷ v.action
                ∷ v.created_by
                ∷ v.hash
                ∷ (summary.services ++ (summary.instances ++ map str summary.attributes))))))

  unfoldable pub matches_tokens : List String → Version → Bool
  matches_tokens words v = all (λ word. contains (stored_version_search_text v) word) words

  unfoldable pub filter_stored_versions : List Version → Value → List Version
  filter_stored_versions versions query =
      let sorted = sort compare_stored_versions versions in
      let words = tokens query in
      let found = filter (matches_tokens words) sorted in
      if eqb (length words) 0 then sorted else found

module _ (locale_compare : Compare) where
  abbrev pub number_or : Value → Num
  number_or v = to_number (or_else v (num (whole 0)))

  unfoldable pub compare_destination_records : DestinationRecord → DestinationRecord → Ordering
  compare_destination_records left right =
      or_then (compare_text locale_compare left.config_id right.config_id) (
        or_then (descending (number_or left.version) (number_or right.version)) (
          or_then (compare_text locale_compare left.service right.service)
            (compare_text locale_compare left.agent_uid right.agent_uid)))

  unfoldable pub sort_destination_records : List DestinationRecord → List DestinationRecord
  sort_destination_records records = sort compare_destination_records records
