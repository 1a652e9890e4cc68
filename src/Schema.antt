-- ===== src/Schema.antt =====
-- The schema version that a policy needs and an agent supports: `policySchemaRank`,
-- `ensurePolicySchema` and `agentSupportsPolicySchema` (ui/src/telemetry-events.js).
pub mod Laws
pub mod Rank
use Prim.Native.String
use otel_opamp_control_plane.Js.{Value, undefined, str, or_else, to_string}
use otel_opamp_control_plane.Js.Text.{trim, to_lower}
use otel_opamp_control_plane.Js.Decimal.{parse}
use otel_opamp_control_plane.Js.Double.{Double, to_double, times, plus, double_leb}
use otel_opamp_control_plane.Deployment.{Fields}
use otel_opamp_control_plane.Prelude.{
  ℕ, zero, suc, ◌+◌, ◌-◌, ◌*◌, ◌/◌, ◌%◌, ◌≤◌, ◌<◌, Char, code, String, ◌≡◌, refl, sym, ap, ◌∙◌,
  subst, ◌≢◌, ◌↔◌, ◌⊎◌, inl, inr, Bool, true, false, not, ◌&&◌, ◌||◌, Option, none, some, List, [],
  ◌∷◌, ◌++◌, map, reverse, foldl, arith, ◌==◌, starts_with, eq_iff, eq_refl, ltb, leb, eqb,
  is_empty, empty_lem, if◌then◌else◌, Bool-cases, Option-cases, leb→le, ltb→lt, tests, length,
  get_elem?, any, all, filter, count, length-filter, All, All-filter, All-append, count-le,
  All-of_count_eq, count_congr, All-intro, All-map, All-zip, count-eq-length_iff, count-le-length,
}

-- The text before and after the first dot.
unfoldable pub split_dot : String → Option (String × String)
split_dot String.[] = none
split_dot (String.◌∷◌ c s) =
    let rest = split_dot s in
    if eqb (code c) 46
    then some ("", s)
    else elim rest [ none ↦ none | some (before, after) ↦ some (String.◌∷◌ c before, after) ]

-- The rank of a trimmed text; `none` is the rank -1 of a text that is no version. `Number` and the
-- arithmetic round as those of doubles do.
abbrev pub rank_of : Option ℕ → Option ℕ → Option Double
rank_of (some major) (some minor) = some (plus (times (to_double major) 1000) (to_double minor))
rank_of _ _ = none

unfoldable pub rank_of_text : String → Option Double
rank_of_text s = elim (split_dot s) [
  | none ↦ none
  | some (major, minor) ↦ rank_of (parse major) (parse minor)
]

unfoldable pub policy_schema_rank : Value → Option Double
policy_schema_rank v = rank_of_text (trim (to_string (or_else v (str ""))))

-- `a >= b` on ranks, where `none` is -1.
abbrev pub at_least : Option Double → Option Double → Bool
at_least _ none = true
at_least none (some b) = false
at_least (some a) (some b) = double_leb b a

unfoldable pub ensure_policy_schema : Value → Value → Value
ensure_policy_schema current required =
    if at_least (policy_schema_rank current) (policy_schema_rank required)
    then current
    else required

-- `Object.entries(attributes).find(…)?.[1]`
unfoldable pub advertised_schema : Fields → Value
advertised_schema [] = undefined
advertised_schema ((key, value) ∷ fields) =
    let rest = advertised_schema fields in
    if to_lower (trim key) == "o11y.policy.schema" then value else rest

-- The tests on the rank that is required, given the ranks of "1.3" and of what is advertised.
abbrev pub supports : Option Double → Option Double → Option Double → Bool
supports base advertised none = false
supports base advertised (some rank) = at_least base (some rank) || at_least advertised (some rank)

unfoldable pub agent_supports_policy_schema : Fields → String → Bool
agent_supports_policy_schema attributes required =
    let advertised = trim (to_string (or_else (advertised_schema attributes) (str ""))) in
    supports (policy_schema_rank (str "1.3")) (policy_schema_rank (str advertised))
      (policy_schema_rank (str required))
