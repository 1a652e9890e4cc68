-- ===== src/Provider/Mappings.antt =====
-- The role mappings of a provider: rows in the form, an object from external to local roles on the wire.
pub mod Laws
pub mod Again
use otel_opamp_control_plane.Js.Object.{from_entries}
use otel_opamp_control_plane.Js.{Value, str}
use otel_opamp_control_plane.Js.Text.{trim}
use otel_opamp_control_plane.Deployment.{Fields}
use otel_opamp_control_plane.Account.{text_value, first_value}
use otel_opamp_control_plane.Prelude.{
  ℕ, zero, suc, ◌+◌, ◌-◌, ◌*◌, ◌/◌, ◌%◌, ◌≤◌, ◌<◌, Char, code, String, ◌≡◌, refl, sym, ap, ◌∙◌,
  subst, ◌≢◌, ◌↔◌, ◌⊎◌, inl, inr, Bool, true, false, not, ◌&&◌, ◌||◌, Option, none, some, List, [],
  ◌∷◌, ◌++◌, map, reverse, foldl, arith, ◌==◌, starts_with, eq_iff, eq_refl, ltb, leb, eqb,
  is_empty, empty_lem, if◌then◌else◌, Bool-cases, Option-cases, leb→le, ltb→lt, tests, length,
  get_elem?, concat_map, any, all, filter, count, length-filter, All, All-filter, All-append,
  count-le, All-of_count_eq, count_congr, All-intro, All-map, All-zip, count-eq-length_iff,
  count-le-length, then_iff, both_iff, not-false, not_below, same_iff, not_equal_iff,
  equal_false_iff, not_or, not_zero,
}

pub record Row : Type 0 where
  pub external_role : String
  pub local_role : String

-- An array of objects, or an object with its entries in their order.
pub data MappingSource : Type 0 where
  rows : List Fields → MappingSource
  entries : List (String × Value) → MappingSource

-- A value that is neither is `none`.
unfoldable pub normalize_role_mappings : Option MappingSource → List Row
normalize_role_mappings none = []
normalize_role_mappings (some (rows items)) =
    map
      (λ mapping. record {
        external_role = text_value (
            first_value mapping ("externalRole" ∷ "ExternalRole" ∷ "external" ∷ "External" ∷ [])
              (str ""));
        local_role = text_value (
            first_value mapping ("localRole" ∷ "LocalRole" ∷ "local" ∷ "Local" ∷ [])
              (str "viewer"));
      })
      items
normalize_role_mappings (some (entries pairs)) =
    map (λ (external, local). record { external_role = external; local_role = text_value local })
      pairs

unfoldable pub trimmed : Row → String × String
trimmed row = (trim row.external_role, trim row.local_role)

abbrev pub given : String × String → Bool
given (external, local) = not (is_empty external) && not (is_empty local)

unfoldable pub role_mappings_payload : List Row → List (String × String)
role_mappings_payload items = from_entries [] (filter given (map trimmed items))
