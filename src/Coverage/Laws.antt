-- ===== src/Coverage/Laws.antt =====
-- What coverage and confirmation mean, for every record that the server can send.
use otel_opamp_control_plane.Prelude.{Bool, true, false, ◌⊎◌, ◌≡◌, arith}
use otel_opamp_control_plane.Js.{Value, bool}
use otel_opamp_control_plane.Coverage.{DeploymentRecord, deployment_coverage}

-- `typeof v === "boolean"`
abbrev pub is_bool : Value → Bool
is_bool (bool b) = true
is_bool _ = false

-- Without a word of the server the browser never asserts a lifecycle state: the state is one of
-- three, and it is in scope exactly if the record counts.
pub legacy_state :
    (r : DeploymentRecord)
    → (deployment_coverage r).explicit ≡ false
    → (((deployment_coverage r).state ≡ "IN_SCOPE") × ((deployment_coverage r).counts ≡ true))
      ⊎ (((deployment_coverage r).state ≡ "IN_SCOPE_DEGRADED")
          × ((deployment_coverage r).counts ≡ false))
      ⊎ (((deployment_coverage r).state ≡ "UNKNOWN") × ((deployment_coverage r).counts ≡ false))
unfolding deployment_coverage
legacy_state r h = ground arith
