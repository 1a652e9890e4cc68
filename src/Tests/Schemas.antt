-- ===== src/Tests/Schemas.antt =====
-- The theorems on schema versions, applied to concrete versions.
use otel_opamp_control_plane.Js.Decimal.{decimal, parse, is_digit}
use otel_opamp_control_plane.Schema.Rank.{policy_schema_rank-version}
use otel_opamp_control_plane.Js.Double.{
  finite, to_double, round_from, bounded, nearest, times, plus,
}
use Prim.Native.String
use otel_opamp_control_plane.Schema.{
  rank_of_text, policy_schema_rank, at_least, agent_supports_policy_schema, split_dot,
  advertised_schema,
}
use otel_opamp_control_plane.Js.{str, to_string}
use otel_opamp_control_plane.Js.Text.{trim, trim_start, trim_end, is_space, to_lower}
use otel_opamp_control_plane.Prelude.{◌≡◌, refl, true, some, [], ◌∷◌, arith}

low_rank : policy_schema_rank (str "1.4") ≡ some (finite 1004)
unfolding policy_schema_rank rank_of_text to_string trim trim_start trim_end is_space split_dot
    parse is_digit to_double round_from bounded nearest times plus
low_rank = refl

high_rank : at_least (policy_schema_rank (str "1.5")) (some (finite 1004)) ≡ true
unfolding policy_schema_rank rank_of_text to_string trim trim_start trim_end is_space split_dot
    parse is_digit to_double round_from bounded nearest times plus
high_rank = refl

supported : agent_supports_policy_schema (("o11y.policy.schema", str " 1.5") ∷ []) "1.5" ≡ true
unfolding policy_schema_rank rank_of_text to_string trim trim_start trim_end is_space split_dot
    parse is_digit to_double round_from bounded nearest times plus agent_supports_policy_schema
    advertised_schema to_lower
supported = refl

policy_schema_rank-version_example :
    policy_schema_rank (str (String.◌++◌ (decimal 1) (String.◌++◌ "." (decimal 7))))
    ≡ some (finite 1007)
policy_schema_rank-version_example = policy_schema_rank-version 1 7 (omega arith)

-- A larger number is rounded.
huge_rank : policy_schema_rank (str "9007199254740993.0") ≡ some (finite 9007199254740992000)
unfolding policy_schema_rank rank_of_text to_string trim trim_start trim_end is_space split_dot
    parse is_digit to_double round_from bounded nearest times plus
huge_rank = refl
