-- ===== src/Tests/Filters.antt =====
-- The theorems on selections, applied to a concrete selection.
use otel_opamp_control_plane.Selection.{
  Selection, Choice, single, array, plain, object, normalized_value, normalize_selection,
  toggle_selection, matches_any_selection,
}
use otel_opamp_control_plane.Js.Text.{trim, trim_start, trim_end, is_space}
use otel_opamp_control_plane.Js.{to_string, str, one_of}
use otel_opamp_control_plane.Selection.Laws.{
  one_of-normalize_selection, one_of-toggle_selection, matches_any_selection_iff,
}
use otel_opamp_control_plane.Prelude.{
  String, ◌≡◌, refl, ◌↔◌, ◌⊎◌, true, false, List, [], ◌∷◌, ◌==◌, is_empty, if◌then◌else◌,
}

abbrev selection : Selection
selection = array (str " java " ∷ str "collector" ∷ str "java" ∷ [])

abbrev options : List Choice
options = plain (str "java") ∷ object (str "gateway") (str "Gateway") ∷ []

gateway_given : is_empty (normalized_value (str "gateway")) ≡ false
unfolding normalized_value trim trim_start trim_end is_space to_string
gateway_given = refl

gateway_new : one_of (normalize_selection selection) (normalized_value (str "gateway")) ≡ false
unfolding normalized_value trim trim_start trim_end is_space to_string
gateway_new = one_of-normalize_selection selection (normalized_value (str "gateway"))

one_of-toggle_selection_example :
    one_of (toggle_selection selection (str "gateway") true) "java" ≡ (
      if "java" == normalized_value (str "gateway")
      then true
      else one_of (normalize_selection selection) "java")
one_of-toggle_selection_example =
    one_of-toggle_selection selection (str "gateway") gateway_given true "java"

matches_any_selection_iff_example :
    (matches_any_selection selection (single (str "java")) ≡ true) ↔ (
      (normalize_selection selection ≡ [])
      ⊎ ((y : String) × (one_of (normalize_selection selection) y ≡ true)
          × (one_of (normalize_selection (single (str "java"))) y ≡ true)))
matches_any_selection_iff_example = matches_any_selection_iff selection (single (str "java"))
