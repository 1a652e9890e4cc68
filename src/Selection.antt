-- ===== src/Selection.antt =====
-- ui/src/multi-select-filter.js: the selection of a multiple-choice filter. A selection is one value
-- or an array of values; every operation works on its normal form, the distinct trimmed texts.
pub mod Laws
use otel_opamp_control_plane.Prelude.{
  ℕ, String, Bool, true, false, not, List, [], ◌∷◌, ◌++◌, ◌==◌, Option, none, some, is_empty, any,
  filter, map, eqb, length, if◌then◌else◌,
}
use Prim.Native.String
use otel_opamp_control_plane.Js.{Value, str, nullish, to_string, one_of}
use otel_opamp_control_plane.Js.Text.{trim}
use otel_opamp_control_plane.Js.Decimal.{decimal}
use otel_opamp_control_plane.Js.Set.{unique, non_empty}

pub data Selection : Type 0 where
  single : Value → Selection
  array : List Value → Selection

-- An option is a scalar, or an object with a value and perhaps a label.
pub data Choice : Type 0 where
  plain : Value → Choice
  object : (value label : Value) → Choice

abbrev pub option_value : Choice → Value
option_value (plain v) = v
option_value (object v l) = v

abbrev pub option_label : Choice → Value
option_label (plain v) = v
option_label (object v l) = nullish l v

unfoldable pub normalized_value : Value → String
normalized_value v = trim (to_string (nullish v (str "")))

abbrev pub selection_values : Selection → List Value
selection_values (single v) = v ∷ []
selection_values (array vs) = vs

unfoldable pub normalize_selection : Selection → List String
normalize_selection s = unique (non_empty (map normalized_value (selection_values s)))

abbrev pub texts : List String → Selection
texts xs = array (map str xs)

unfoldable pub reconcile_selection : Selection → List Choice → List String
reconcile_selection s options =
    let available = unique (non_empty (map (λ o. normalized_value (option_value o)) options)) in
    filter (one_of available) (normalize_selection s)

unfoldable pub toggle_selection : Selection → Value → Bool → List String
toggle_selection s value checked =
    let normalized = normalize_selection s in
    let candidate = normalized_value value in
    if is_empty candidate
    then []
    else if checked
    then normalize_selection (texts (normalized ++ candidate ∷ []))
    else filter (λ item. not (item == candidate)) normalized

unfoldable pub matches_any_selection : Selection → Selection → Bool
matches_any_selection s value = elim (normalize_selection s) [
  | [] ↦ true
  | x ∷ xs ↦ any (one_of (unique (normalize_selection value))) (x ∷ xs)
]

-- `new Map(pairs).get(key)`: the last pair of a key wins.
label_of : List Choice → String → Option String
label_of [] key = none
label_of (o ∷ os) key = elim (label_of os key) [
  | some label ↦ some label
  | none ↦
      if normalized_value (option_value o) == key
      then some (normalized_value (option_label o))
      else none
]

-- `labels.get(value) || value`
abbrev label_or : Option String → String → String
label_or none value = value
label_or (some label) value = if is_empty label then value else label

unfoldable pub selection_summary : Selection → List Choice → String → String
unfolding label_of
selection_summary s options all_label = elim (normalize_selection s) [
  | [] ↦ all_label
  | x ∷ [] ↦ label_or (label_of options x) x
  | x ∷ y ∷ xs ↦ String.◌++◌ (decimal (length (x ∷ y ∷ xs))) " seleccionados"
]
