-- ===== src/Schema/Laws.antt =====
-- Raising a schema version gives the higher one, and support is closed downwards.
use otel_opamp_control_plane.Schema.{
  supports, policy_schema_rank, at_least, ensure_policy_schema, agent_supports_policy_schema,
}
use otel_opamp_control_plane.Js.{str, Value}
use otel_opamp_control_plane.Deployment.{Fields}
use otel_opamp_control_plane.Js.Double.{Double, finite, infinite, double_leb}
use otel_opamp_control_plane.Prelude.{
  String, ◌≡◌, refl, ◌⊎◌, inl, inr, true, false, Option, none, some, arith, Bool-cases,
  Option-cases,
}

at_least_refl : (a : Option Double) → at_least a a ≡ true
at_least_refl none = refl
at_least_refl (some infinite) = refl
at_least_refl (some (finite a)) = ground arith

at_least_total : (a b : Option Double) → at_least a b ≡ false → at_least b a ≡ true
at_least_total none none h = refl
at_least_total (some a) none h = cc
at_least_total none (some b) h = refl
at_least_total (some infinite) (some b) h = cc
at_least_total (some (finite a)) (some infinite) h = refl
at_least_total (some (finite a)) (some (finite b)) h = ground arith

double_leb_trans :
    (a b c : Double) → double_leb a b ≡ true → double_leb b c ≡ true → double_leb a c ≡ true
double_leb_trans a b infinite h k = refl
double_leb_trans a infinite (finite c) h k = cc
double_leb_trans infinite (finite b) (finite c) h k = cc
double_leb_trans (finite a) (finite b) (finite c) h k = ground arith

at_least_trans :
    (a b c : Option Double) → at_least a b ≡ true → at_least b c ≡ true → at_least a c ≡ true
at_least_trans a b none h k = refl
at_least_trans a none (some c) h k = cc
at_least_trans none (some b) (some c) h k = cc
at_least_trans (some a) (some b) (some c) h k = double_leb_trans c b a k h

-- `ensurePolicySchema` gives one of its two versions, and its rank is at least that of either.
pub ensure_policy_schema_bound :
    (current required : Value)
    → let raised = ensure_policy_schema current required in
      ((raised ≡ current) ⊎ (raised ≡ required))
      × (at_least (policy_schema_rank raised) (policy_schema_rank current) ≡ true)
      × (at_least (policy_schema_rank raised) (policy_schema_rank required) ≡ true)
unfolding ensure_policy_schema
ensure_policy_schema_bound current required =
    let a = policy_schema_rank current in
    let b = policy_schema_rank required in
    elim (Bool-cases (at_least a b)) [
      | inl enough ↦ rw enough (inl refl, at_least_refl a, enough)
      | inr lower ↦ rw lower (inr refl, at_least_total a b lower, at_least_refl b)
    ]

supports-lower :
    (base advertised : Option Double) (required lower : Double)
    → double_leb lower required ≡ true
    → supports base advertised (some required) ≡ true
    → supports base advertised (some lower) ≡ true
supports-lower base advertised required lower h k = ground (
  arith,
  at_least_trans base (some required) (some lower),
  at_least_trans advertised (some required) (some lower),
)

-- An agent that supports a schema version supports every version whose rank is not higher.
pub agent_supports_policy_schema-lower :
    (attributes : Fields) (required lower : String) (rank : Double)
    → policy_schema_rank (str lower) ≡ some rank
    → at_least (policy_schema_rank (str required)) (some rank) ≡ true
    → agent_supports_policy_schema attributes required ≡ true
    → agent_supports_policy_schema attributes lower ≡ true
unfolding agent_supports_policy_schema
agent_supports_policy_schema-lower attributes required lower rank known less h =
    elim (Option-cases (policy_schema_rank (str required))) [
      | inl missing ↦ cc (rw missing at less)
      | inr (high, found) ↦
          rw known (supports-lower _ _ high rank (rw found at less) (rw found at h))
    ]
