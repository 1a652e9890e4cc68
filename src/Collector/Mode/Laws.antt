-- ===== src/Collector/Mode/Laws.antt =====
-- A collector runs its base or a managed configuration, and its status says which.
use otel_opamp_control_plane.Js.{str, or_else, to_string, text_of}
use otel_opamp_control_plane.Js.Text.{to_upper}
use otel_opamp_control_plane.Collector.Mode.{
  CollectorAgent, Base, base_live_status, collector_agent_mode,
}
use otel_opamp_control_plane.Prelude.{
  String, ◌≡◌, refl, inl, inr, Bool, true, false, not, ◌&&◌, ◌||◌, List, arith, ◌==◌, starts_with,
  Bool-cases,
}

base_status-starts : (s : String) → starts_with (base_live_status s) "BASE_" ≡ true
base_status-starts s = elim (Bool-cases (s == "FAILED" || s == "BASE_FAILED")) [
  | inl failed ↦ rw failed refl
  | inr running ↦ rw running (elim (Bool-cases (s == "CONFIG_PENDING" || s == "BASE_PENDING")) [
    | inl pending ↦ rw pending refl
    | inr applied ↦ rw applied refl
  ])
]

or_false : (a b : Bool) → (a || b) ≡ false → b ≡ false
or_false a b h = ground arith

not_both_active : (a b : Bool) → (a && (not a && b)) ≡ false
not_both_active a b = ground arith

-- A collector is never shown as running its base and a managed configuration at once, and the status
-- that is shown begins with `BASE_` exactly if its base is active.
pub collector_agent_mode_lem :
    (agent : CollectorAgent) (bases : List Base)
    → let mode = collector_agent_mode agent bases in
      ((mode.base_active && mode.managed_active) ≡ false)
      × (starts_with mode.live_status "BASE_" ≡ mode.base_active)
unfolding collector_agent_mode
collector_agent_mode_lem agent bases =
    let origin = to_upper (text_of agent.effective_config_origin) in
    let status = to_upper (to_string (or_else agent.config_status (str "NOT_REPORTED"))) in
    let base_active = origin == "BASE" || starts_with status "BASE_" in
    (
      not_both_active base_active _,
      elim (Bool-cases base_active) [
        | inl active ↦ rw active (base_status-starts status)
        | inr other ↦ rw other (or_false (origin == "BASE") (starts_with status "BASE_") other)
      ],
    )
