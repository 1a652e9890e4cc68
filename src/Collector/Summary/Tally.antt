-- ===== src/Collector/Summary/Tally.antt =====
-- What each count of a collector summary counts, and that the counts add up.
use otel_opamp_control_plane.Prelude.{
  ℕ, ◌+◌, String, ◌≡◌, refl, sym, ap, ◌∙◌, subst, inl, inr, Bool, false, not, ◌||◌, List, [], ◌∷◌,
  foldl, if◌then◌else◌, Bool-cases, count,
}
use native.Mathlib.Nat.{add-zero, add_assoc}
use otel_opamp_control_plane.Js.{Value, is, is_lem, is_false, str}
use otel_opamp_control_plane.Coverage.{DeploymentRecord}
use otel_opamp_control_plane.Collector.Record.{collector_record_status}
use otel_opamp_control_plane.Collector.Summary.{Counts, tally_presence, tally_status, tally_live}

abbrev pub one : Bool → ℕ
one b = if b then 1 else 0

-- No status that the loop tests for.
abbrev pub other_status : Value → Bool
other_status v = not (
    is v "APPLIED"
    || (is v "APPLIED_OFFLINE"
        || (is v "FAILED"
            || (is v "SUPERSEDED"
                || (is v "BASE_PENDING"
                    || (is v "BASE_APPLIED" || (is v "BASE_FAILED" || is v "REMOVED")))))))

abbrev status_counted : Value → Counts → Counts
status_counted v s = record s {
  applied = s.applied + one (is v "APPLIED");
  offline = s.offline + one (is v "APPLIED_OFFLINE");
  failed = s.failed + one (is v "FAILED");
  superseded = s.superseded + one (is v "SUPERSEDED");
  base_pending = s.base_pending + one (is v "BASE_PENDING");
  base_applied = s.base_applied + one (is v "BASE_APPLIED");
  base_failed = s.base_failed + one (is v "BASE_FAILED");
  removed = s.removed + one (is v "REMOVED");
  pending = s.pending + one (other_status v);
}

-- For a property of a value it is enough to look at each text that the code tests for, and at the
-- values that pass no test.
by_text : (P : Value → Type 0) (v : Value) (t : String) → P (str t) → (is v t ≡ false → P v) → P v
by_text P v t yes_case no_case = elim (Bool-cases (is v t)) [
  | inl h ↦ subst P (sym (is_lem v t h)) yes_case
  | inr h ↦ no_case h
]

tally_status_form : (v : Value) (s : Counts) → tally_status v s ≡ status_counted v s
unfolding tally_status
tally_status_form v s =
    let P : Value → Type 0 = λ w. tally_status w s ≡ status_counted w s in
    by_text P v "APPLIED" (simp add-zero) λ a. by_text P v "APPLIED_OFFLINE" (simp add-zero) λ b.
      by_text P v "FAILED" (simp add-zero) λ c. by_text P v "SUPERSEDED" (simp add-zero) λ d.
        by_text P v "BASE_PENDING" (simp add-zero) λ e.
          by_text P v "BASE_APPLIED" (simp add-zero) λ f.
            by_text P v "BASE_FAILED" (simp add-zero) λ g.
              by_text P v "REMOVED" (simp add-zero) λ h. rw (a, b, c, d, e, f, g, h) (simp add-zero)

pub status_sum :
    (v : Value)
    → one (is v "APPLIED")
        + one (is v "APPLIED_OFFLINE")
        + one (is v "FAILED")
        + one (is v "SUPERSEDED")
        + one (is v "BASE_PENDING")
        + one (is v "BASE_APPLIED")
        + one (is v "BASE_FAILED")
        + one (is v "REMOVED")
        + one (other_status v)
      ≡ 1
status_sum v =
    let P : Value → Type 0 = λ w.
      one (is w "APPLIED")
        + one (is w "APPLIED_OFFLINE")
        + one (is w "FAILED")
        + one (is w "SUPERSEDED")
        + one (is w "BASE_PENDING")
        + one (is w "BASE_APPLIED")
        + one (is w "BASE_FAILED")
        + one (is w "REMOVED")
        + one (other_status w)
      ≡ 1 in
    by_text P v "APPLIED" refl λ a. by_text P v "APPLIED_OFFLINE" refl λ b.
      by_text P v "FAILED" refl λ c. by_text P v "SUPERSEDED" refl λ d.
        by_text P v "BASE_PENDING" refl λ e. by_text P v "BASE_APPLIED" refl λ f.
          by_text P v "BASE_FAILED" refl
            λ g. by_text P v "REMOVED" refl λ h. rw (a, b, c, d, e, f, g, h) refl

tally_presence_form :
    (r : DeploymentRecord) (s : Counts)
    → tally_presence r s ≡ record s {
      removal_matched = s.removal_matched + one (is_false r.desired_presence);
      desired_matched = s.desired_matched + one (not (is_false r.desired_presence));
    }
unfolding tally_presence
tally_presence_form r s = elim (Bool-cases (is_false r.desired_presence)) [
  | inl e ↦ rw e (simp add-zero)
  | inr e ↦ rw e (simp add-zero)
]

-- The status and the presence of a record, tested.
abbrev pub reports : String → DeploymentRecord → Bool
reports t r = is (collector_record_status r) t

abbrev pub withdrawn : DeploymentRecord → Bool
withdrawn r = is_false r.desired_presence

-- What the second loop counts in a list of records.
abbrev pub live_counted : List DeploymentRecord → Counts → Counts
live_counted rs s = record s {
  removal_matched = s.removal_matched + count withdrawn rs;
  desired_matched = s.desired_matched + count (λ r. not (withdrawn r)) rs;
  applied = s.applied + count (reports "APPLIED") rs;
  offline = s.offline + count (reports "APPLIED_OFFLINE") rs;
  failed = s.failed + count (reports "FAILED") rs;
  superseded = s.superseded + count (reports "SUPERSEDED") rs;
  base_pending = s.base_pending + count (reports "BASE_PENDING") rs;
  base_applied = s.base_applied + count (reports "BASE_APPLIED") rs;
  base_failed = s.base_failed + count (reports "BASE_FAILED") rs;
  removed = s.removed + count (reports "REMOVED") rs;
  pending = s.pending + count (λ r. other_status (collector_record_status r)) rs;
}

tally_live-counted : (s : Counts) (r : DeploymentRecord) → tally_live s r ≡ live_counted (r ∷ []) s
unfolding tally_live
tally_live-counted s r = rw (tally_status_form, tally_presence_form) (simp add-zero)

pub foldl-live_counted :
    (s : Counts) (rs : List DeploymentRecord) → foldl tally_live s rs ≡ live_counted rs s
foldl-live_counted s [] = simp add-zero
foldl-live_counted s (r ∷ rs) =
    foldl-live_counted (tally_live s r) rs
    ∙ ap (live_counted rs) (tally_live-counted s r)
    ∙ simp (add-zero, add_assoc)
