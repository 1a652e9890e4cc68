-- ===== src/Policy/Record/Laws.antt =====
-- When a record is reported as applied.
use otel_opamp_control_plane.Prelude.{
  Bool, List, [], ◌∷◌, Bool-cases, inl, inr, ◌||◌, is_empty, String, true, false, ◌⊎◌, ◌↔◌, not,
  ◌&&◌, ◌==◌, ◌≡◌, arith, refl,
}
use otel_opamp_control_plane.Policy.Record.{
  reports_version, withdrawal_status, presence_status, base_record_status, deployment_record_status,
  connected_statuses, java_record_status, java_removal_status, java_presence_status,
}
use otel_opamp_control_plane.Js.{
  Value, undefined, null, bool, num, str, is, is_other, truthy, one_of, push_tests, eq_given,
  is_false, eq_other, has_text,
}
use otel_opamp_control_plane.Coverage.{DeploymentRecord, upper_text}

-- What has to hold for a Java target that the backend has not judged.
abbrev pub JavaApplied : DeploymentRecord → Type 0
JavaApplied r =
    (is_empty (upper_text r.live_status) ≡ true)
    × (is_false r.desired_presence ≡ false)
    × ((upper_text r.observed_status == "APPLIED") ≡ true)
    × ((upper_text r.current_config_status == "FAILED") ≡ false)
    × (has_text connected_statuses r.connection_status ≡ true)

java_removal-ne-applied :
    (observed current : String) → (java_removal_status observed current == "APPLIED") ≡ false
unfolding java_removal_status
java_removal-ne-applied observed current = simp push_tests (ground arith)

java_presence_applied :
    (r : DeploymentRecord) (live observed current : String)
    → is_empty live ≡ true
    → (java_presence_status r live observed current == "APPLIED") ≡ (
        (observed == "APPLIED")
        && (not (current == "FAILED") && has_text connected_statuses r.connection_status))
unfolding java_presence_status
java_presence_applied r live observed current none = simp push_tests (
    ground (
      arith,
      eq_other observed "APPLIED" "FAILED" refl,
      eq_given observed "APPLIED" refl,
      eq_given live "APPLIED" refl,
    ))

java_record_status_iff :
    (r : DeploymentRecord)
    → ((java_record_status r == "APPLIED") ≡ true)
      ↔ (((upper_text r.live_status == "APPLIED") ≡ true) ⊎ JavaApplied r)
unfolding java_record_status
java_record_status_iff r =
    let live = upper_text r.live_status in
    let observed = upper_text r.observed_status in
    let current = upper_text r.current_config_status in
    simp push_tests (
      ground (
        arith,
        eq_other live "APPLIED" "NOT_APPLIED" refl,
        eq_given live "APPLIED" refl,
        eq_given live "NOT_APPLIED" refl,
        java_removal-ne-applied observed current,
        java_presence_applied r live observed current,
      ))

abbrev pub final_statuses : List String
final_statuses = "BASE_PENDING" ∷ "BASE_APPLIED" ∷ "BASE_FAILED" ∷ []

-- What has to hold for a target that is no Java extension: the record is not about a base
-- configuration or a withdrawal, the target reports this version, and either it reports it as
-- applied while connected, or it reports no status and the observation is the text "APPLIED".
abbrev pub BaseApplied : DeploymentRecord → Type 0
BaseApplied r =
    (one_of ("BASE_PENDING" ∷ "BASE_APPLIED" ∷ "BASE_FAILED" ∷ []) (upper_text r.live_status)
      ≡ false)
    × (is_false r.desired_presence ≡ false)
    × (reports_version r ≡ true)
    × (((is r.current_config_status "APPLIED" ≡ true)
          × (has_text connected_statuses r.connection_status ≡ true))
        ⊎ ((truthy r.current_config_status ≡ false) × (is r.observed_status "APPLIED" ≡ true)))

withdrawal-ne-applied : (r : DeploymentRecord) → (withdrawal_status r == "APPLIED") ≡ false
unfolding withdrawal_status
withdrawal-ne-applied r = simp push_tests (ground arith)

truthy_of_is : (v : Value) (t : String) → is_empty t ≡ false → is v t ≡ true → truthy v ≡ true
truthy_of_is (str s) t given h = ground (arith, eq_given s t)
truthy_of_is undefined t given h = cc
truthy_of_is null t given h = cc
truthy_of_is (bool b) t given h = cc
truthy_of_is (num n) t given h = cc

presence_applied :
    (r : DeploymentRecord)
    → is (presence_status r) "APPLIED" ≡ (
        reports_version r
        && ((is r.current_config_status "APPLIED"
              && has_text connected_statuses r.connection_status)
            || (not (truthy r.current_config_status) && is r.observed_status "APPLIED")))
unfolding presence_status
presence_applied r = simp push_tests (
    ground (
      arith,
      is_other r.current_config_status "APPLIED" "FAILED" refl,
      truthy_of_is r.current_config_status "APPLIED" refl,
      truthy_of_is r.current_config_status "FAILED" refl,
      truthy_of_is r.observed_status "APPLIED" refl,
    ))

base_applied :
    (r : DeploymentRecord)
    → is (base_record_status r) "APPLIED" ≡ (
        not (one_of final_statuses (upper_text r.live_status))
        && (not (is_false r.desired_presence) && is (presence_status r) "APPLIED"))
unfolding base_record_status
base_applied r =
    let live = upper_text r.live_status in
    simp push_tests (
      ground (
        arith,
        eq_other live "BASE_PENDING" "APPLIED" refl,
        eq_other live "BASE_APPLIED" "APPLIED" refl,
        eq_other live "BASE_FAILED" "APPLIED" refl,
        withdrawal-ne-applied r,
      ))

all_tests_iff :
    (a b c d e f g : Bool)
    → ((not a && (not b && (c && ((d && e) || (not f && g))))) ≡ true) ↔ (
        (a ≡ false)
        × (b ≡ false)
        × (c ≡ true)
        × (((d ≡ true) × (e ≡ true)) ⊎ ((f ≡ false) × (g ≡ true))))
all_tests_iff a b c d e f g = ground arith

base_record_status_iff :
    (r : DeploymentRecord) → (is (base_record_status r) "APPLIED" ≡ true) ↔ BaseApplied r
base_record_status_iff r = rw (base_applied r, presence_applied r) (all_tests_iff _ _ _ _ _ _ _)

-- A record is reported as applied exactly if: for a Java extension, the backend says so, or it says
-- nothing and a connected target that is to hold the version has observed it as applied with no
-- failed configuration; for any other target, `BaseApplied` holds.
pub record_applied_iff :
    (r : DeploymentRecord)
    → (is (deployment_record_status r) "APPLIED" ≡ true) ↔ (
        ((is r.target "java-extension" ≡ true)
          × (((upper_text r.live_status == "APPLIED") ≡ true) ⊎ JavaApplied r))
        ⊎ ((is r.target "java-extension" ≡ false) × BaseApplied r))
unfolding deployment_record_status
record_applied_iff r = elim (Bool-cases (is r.target "java-extension")) [
  | inl java ↦
      rw (java, deployment_record_status)
        (
          λ h. inl (refl, (java_record_status_iff r).0 h),
          elim [ inl (_, a) ↦ (java_record_status_iff r).1 a | inr (clash, _) ↦ cc ],
        )
  | inr other ↦
      rw (other, deployment_record_status)
        (
          λ h. inr (refl, (base_record_status_iff r).0 h),
          elim [ inl (clash, _) ↦ cc | inr (_, a) ↦ (base_record_status_iff r).1 a ],
        )
]
