-- ===== src/Yaml.antt =====
-- ui/src/collector-effective-config.js: the configuration that a collector reports, without what its
-- supervisor added to it. A document is its list of lines; `collectorConfigId` names one.
pub mod Left
pub mod Laws
pub mod Cleaned
pub mod Bounds
use Prim.Native.String
use otel_opamp_control_plane.Js.{Value, text_of}
use otel_opamp_control_plane.Js.Text.{trim, trim_start, trim_end, to_lower, join, is_space}
use otel_opamp_control_plane.Js.Regex.{is_lower, is_char}
use otel_opamp_control_plane.Js.Decimal.{is_digit}
use otel_opamp_control_plane.Js.Set.{unique}
use otel_opamp_control_plane.Deployment.{Agent, field}
use otel_opamp_control_plane.Prelude.{
  ℕ, zero, suc, ◌+◌, ◌-◌, ◌*◌, ◌/◌, ◌%◌, ◌≤◌, ◌<◌, Char, code, String, ◌≡◌, refl, sym, ap, ◌∙◌,
  subst, ◌≢◌, ◌↔◌, ◌⊎◌, inl, inr, Bool, true, false, not, ◌&&◌, ◌||◌, Option, none, some, List, [],
  ◌∷◌, ◌++◌, map, reverse, foldl, arith, ◌==◌, starts_with, eq_iff, eq_refl, ltb, leb, eqb,
  is_empty, empty_lem, if◌then◌else◌, Bool-cases, Option-cases, leb→le, ltb→lt, tests, length,
  get_elem?, concat_map, any, all, filter, count, length-filter, All, All-filter, All-append,
  count-le, All-of_count_eq, count_congr, All-intro, All-map, All-zip, count-eq-length_iff,
  count-le-length, then_iff, both_iff, not-false, not_below, same_iff, not_equal_iff,
  equal_false_iff, not_or, not_zero,
}

unfoldable pub yaml_indent : String → ℕ
yaml_indent String.[] = 0
yaml_indent (String.◌∷◌ c s) = let rest = yaml_indent s in if is_space c then suc rest else 0

-- Index of its line, index behind its last line, and its indentation.
pub record Block : Type 0 where
  pub start : ℕ
  pub end : ℕ
  pub indent : ℕ

abbrev pub is_blank : String → Bool
is_blank line = is_empty (trim line)

-- The inner `while`: how many lines belong to an entry of this indentation.
unfoldable pub entry_length : ℕ → List String → ℕ
entry_length indent [] = 0
entry_length indent (line ∷ lines) =
    let rest = entry_length indent lines in
    if is_blank line || ltb indent (yaml_indent line) then suc rest else 0

-- `indent <= parentIndent`, where `none` is -1.
abbrev pub not_inside : Option ℕ → ℕ → Bool
not_inside none indent = false
not_inside (some parent) indent = leb indent parent

-- A line that the search passes over.
abbrev pub passes : String → Option ℕ → String → Bool
passes key parent line =
    (is_blank line || starts_with (trim_start line) "#")
    || (not_inside parent (yaml_indent line) || not (trim line == String.◌++◌ key ":"))

-- The entry that begins with the line at an index, with the lines behind it.
abbrev pub block_at : ℕ → String → List String → Block
block_at index line lines = record {
  start = index;
  end = index + 1 + entry_length (yaml_indent line) lines;
  indent = yaml_indent line;
}

-- The first entry of a key among the lines from an index on.
unfoldable pub find_block : String → Option ℕ → ℕ → List String → Option Block
find_block key parent index [] = none
find_block key parent index (line ∷ lines) =
    let later = find_block key parent (index + 1) lines in
    if passes key parent line then later else some (block_at index line lines)

abbrev pub take {ℓ} : {A : Type ℓ} → ℕ → List A → List A
take zero xs = []
take (suc n) [] = []
take (suc n) (x ∷ xs) = x ∷ take n xs

abbrev pub drop {ℓ} : {A : Type ℓ} → ℕ → List A → List A
drop zero xs = xs
drop (suc n) [] = []
drop (suc n) (x ∷ xs) = drop n xs

-- The lines from one index to another.
abbrev pub slice : ℕ → ℕ → List String → List String
slice start end lines = take (end - start) (drop start lines)

-- Each key of the path is searched among the lines under the one before.
unfoldable pub block_from : List String → ℕ → ℕ → Option ℕ → List String → Option Block
block_from lines search_start search_end parent [] = none
block_from lines search_start search_end parent (key ∷ []) =
    find_block key parent search_start (slice search_start search_end lines)
block_from lines search_start search_end parent (key ∷ next ∷ keys) =
    elim (find_block key parent search_start (slice search_start search_end lines)) [
      | none ↦ none
      | some block ↦ block_from lines (block.start + 1) block.end (some block.indent) (next ∷ keys)
    ]

unfoldable pub yaml_mapping_block : List String → List String → Option Block
yaml_mapping_block lines path = block_from lines 0 (length lines) none path

-- The lines that are left, and whether any was removed.
unfoldable pub remove_yaml_mapping_path : List String → List String → List String × Bool
remove_yaml_mapping_path lines path = elim (yaml_mapping_block lines path) [
  | none ↦ (lines, false)
  | some block ↦ (take block.start lines ++ drop block.end lines, true)
]

-- The loop from the last line of the block back to the one behind its first: every line of a text goes.
unfoldable pub remove_lines : List String → List String → String → List String × Bool
remove_lines lines path text = elim (yaml_mapping_block lines path) [
  | none ↦ (lines, false)
  | some block ↦
      let inside = slice (block.start + 1) block.end lines in
      (
        take (block.start + 1) lines
            ++ (filter (λ line. not (trim line == text)) inside ++ drop block.end lines),
        any (λ line. trim line == text) inside,
      )
]

unfoldable pub remove_yaml_list_value : List String → List String → String → List String × Bool
remove_yaml_list_value lines path value = remove_lines lines path (String.◌++◌ "- " value)

unfoldable pub remove_yaml_null_key : List String → List String → String → List String × Bool
remove_yaml_null_key lines path key = remove_lines lines path (String.◌++◌ key ": null")

-- One step of the clean-up: the lines, and the names of what was removed so far.
abbrev pub then_remove :
    (List String → List String × Bool)
    → String
    → List String × List String
    → List String × List String
then_remove remove name (lines, removed) =
    let (left, done) = remove lines in (left, if done then removed ++ (name ∷ []) else removed)

unfoldable pub sanitize_lines : List String → List String × List String
sanitize_lines lines =
    then_remove (λ ls. remove_yaml_null_key ls ("extensions" ∷ "health_check" ∷ []) "grpc")
      "extensions.health_check.grpc=null"
      (then_remove (λ ls. remove_yaml_null_key ls ("extensions" ∷ "health_check" ∷ []) "http")
        "extensions.health_check.http=null"
        (then_remove (λ ls. remove_yaml_list_value ls ("service" ∷ "extensions" ∷ []) "opamp")
          "service.extensions[opamp]"
          (then_remove (λ ls. remove_yaml_mapping_path ls ("extensions" ∷ "opamp" ∷ []))
            "extensions.opamp"
            (then_remove
              (λ ls. remove_yaml_mapping_path ls ("service" ∷ "telemetry" ∷ "resource" ∷ []))
              "service.telemetry.resource" (lines, [])))))

-- `.replace(/\r\n/g, "\n")`
unfoldable pub unix_newlines : String → String
unix_newlines String.[] = ""
unix_newlines (String.◌∷◌ c String.[]) = String.◌∷◌ c ""
unix_newlines (String.◌∷◌ c (String.◌∷◌ d s)) =
    let rest = unix_newlines (String.◌∷◌ d s) in
    if eqb (code c) 13 && eqb (code d) 10 then rest else String.◌∷◌ c rest

-- `.split("\n")`
abbrev pub before_first : Char → List String → List String
before_first c [] = String.◌∷◌ c "" ∷ []
before_first c (line ∷ lines) = String.◌∷◌ c line ∷ lines

unfoldable pub split_lines : String → List String
split_lines String.[] = "" ∷ []
split_lines (String.◌∷◌ c s) =
    let rest = split_lines s in if eqb (code c) 10 then "" ∷ rest else before_first c rest

pub record Sanitized : Type 0 where
  pub body : String
  pub removed : List String

unfoldable pub sanitize_effective_collector_config : Value → Sanitized
sanitize_effective_collector_config body =
    let (lines, removed) = sanitize_lines (split_lines (unix_newlines (text_of body))) in
    record { body = String.◌++◌ (trim_end (join "\n" lines)) "\n"; removed = removed }

-- The characters that a slug keeps.
abbrev pub is_slug_char : Char → Bool
is_slug_char c = is_lower c || is_digit c

-- `.replace(/[^a-z0-9]+/g, "-")`: a run of other characters gives one dash. The flag says that the
-- character before is one of the run.
unfoldable pub dashes : Bool → String → String
dashes inside String.[] = ""
dashes inside (String.◌∷◌ c s) =
    let kept = dashes false s in
    let run = dashes true s in
    if is_slug_char c then String.◌∷◌ c kept else if inside then run else String.◌++◌ "-" run

-- `.replace(/^-|-$/g, "")`: after the runs are joined, at most one dash stands at either end.
unfoldable pub strip_last_dash : String → String
strip_last_dash String.[] = ""
strip_last_dash (String.◌∷◌ c String.[]) = if is_char "-" c then "" else String.◌∷◌ c ""
strip_last_dash (String.◌∷◌ c (String.◌∷◌ d s)) = String.◌∷◌ c (strip_last_dash (String.◌∷◌ d s))

unfoldable pub strip_dashes : String → String
strip_dashes String.[] = ""
strip_dashes (String.◌∷◌ c s) =
    if is_char "-" c then strip_last_dash s else strip_last_dash (String.◌∷◌ c s)

unfoldable pub slug : Value → String
slug value = strip_dashes (dashes false (to_lower (text_of value)))

-- `.replace(/-supervisor$/, "")`
unfoldable pub without_supervisor : String → String
without_supervisor String.[] = ""
without_supervisor (String.◌∷◌ c s) =
    let rest = without_supervisor s in
    if String.◌∷◌ c s == "-supervisor" then "" else String.◌∷◌ c rest

-- `a || b` on texts.
abbrev pub text_or : String → String → String
text_or a b = if is_empty a then b else a

unfoldable pub collector_config_id : Agent → String
collector_config_id agent =
    let cluster = slug (field agent.attributes "k8s.cluster.name") in
    let role = slug (field agent.attributes "collector.role") in
    let service = without_supervisor (slug agent.service) in
    join "-" (
      unique (
        filter (λ value. not (is_empty value))
          (text_or cluster (text_or service "collector") ∷ text_or role "config" ∷ "config" ∷ [])))
