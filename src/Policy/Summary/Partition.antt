-- ===== src/Policy/Summary/Partition.antt =====
-- The counts of a summary add up: no record is lost, and none is counted twice.
use otel_opamp_control_plane.Coverage.{deployment_coverage, DeploymentRecord}
use otel_opamp_control_plane.Prelude.{
  ◌+◌, String, ◌≡◌, refl, ◌∙◌, inl, inr, Bool, true, false, not, ◌&&◌, ◌||◌, List, [], ◌∷◌, arith,
  ◌==◌, eqb, if◌then◌else◌, Bool-cases, length, filter, count,
}
use otel_opamp_control_plane.Js.{Value, is_false, apart_texts, is}
use otel_opamp_control_plane.Policy.Summary.Counts.{
  outside_state, no_known_scope, counted, live, summarize-counted, other_status, is-apart, Apart,
  one,
}
use otel_opamp_control_plane.Policy.Record.{deployment_record_status}
use otel_opamp_control_plane.Policy.Summary.{
  is, DeploymentRecord, SummaryStatus, Summary, counts, start, settle, withdrawn_status,
  active_status, summarize_policy_destinations,
}

-- The counts of the summary stay as the loop left them.
abbrev pub settled : Bool → Summary → SummaryStatus
settled withdrawn s =
    if eqb s.matched 0
    then (if withdrawn then SummaryStatus.deactivated else s.status)
    else if withdrawn
    then withdrawn_status s
    else active_status s

settle_form :
    (withdrawn : Bool) (s : Summary)
    → settle withdrawn s ≡ record s { status = settled withdrawn s }
unfolding settle
settle_form true s = ground arith
settle_form false s = ground arith

sum_exclusive :
    (a b c d e f g : Bool)
    → Apart a b c d e f g
    → one a
        + one b
        + one c
        + one (d || e)
        + one f
        + one g
        + one (not (a || (b || (c || (d || (e || (f || g)))))))
      ≡ 1
sum_exclusive true b c d e f g h = ground arith
sum_exclusive false true c d e f g h = ground arith
sum_exclusive false false c d e f g h = ground arith

module _ (rs : List DeploymentRecord) (withdrawn : Bool) where
  pub summary_form :
      summarize_policy_destinations rs withdrawn
      ≡ record (counted rs (start rs)) { status = settled withdrawn (counted rs (start rs)) }
  summary_form = summarize-counted rs withdrawn ∙ settle_form withdrawn _

status_sum :
    (v : Value)
    → one (is v "APPLIED")
        + one (is v "APPLIED_PENDING_REPLACEMENT")
        + one (is v "FAILED")
        + one (is v "SUPERSEDED" || is v "NOT_IN_USE")
        + one (is v "REMOVED")
        + one (is v "REMOVAL_PENDING")
        + one (other_status v)
      ≡ 1
status_sum v =
    sum_exclusive _ _ _ (is v "SUPERSEDED") (is v "NOT_IN_USE") (is v "REMOVED")
      (is v "REMOVAL_PENDING") (is-apart v)

-- Every live record has one status, and stands on one side of the withdrawal.
status_partition :
    (rs : List DeploymentRecord)
    → count (live (λ v. is v "APPLIED")) rs
        + count (live (λ v. is v "APPLIED_PENDING_REPLACEMENT")) rs
        + count (live (λ v. is v "FAILED")) rs
        + count (live (λ v. is v "SUPERSEDED" || is v "NOT_IN_USE")) rs
        + count (live (λ v. is v "REMOVED")) rs
        + count (live (λ v. is v "REMOVAL_PENDING")) rs
        + count (live other_status) rs
      ≡ length (filter counts rs)
status_partition [] = refl
status_partition (r ∷ rs) = elim (Bool-cases (counts r)) [
  | inl h ↦ rw h (omega (arith, status_partition rs, status_sum (deployment_record_status r)))
  | inr h ↦ rw h (omega (arith, status_partition rs))
]

pub presence_partition :
    (rs : List DeploymentRecord)
    → count (λ r. counts r && not (is_false r.desired_presence)) rs
        + count (λ r. counts r && is_false r.desired_presence) rs
      ≡ length (filter counts rs)
presence_partition [] = refl
presence_partition (r ∷ rs) = elim (Bool-cases (counts r)) [
  | inl h ↦ elim (Bool-cases (is_false r.desired_presence)) [
    | inl k ↦ rw (h, k) (omega (arith, presence_partition rs))
    | inr k ↦ rw (h, k) (omega (arith, presence_partition rs))
  ]
  | inr h ↦ rw h (omega (arith, presence_partition rs))
]

scope_bits : (a b : Bool) → (a && b) ≡ false → one a + one b + one (not (a || b)) ≡ 1
scope_bits true b h = ground arith
scope_bits false b h = ground arith

scope_sum :
    (t : String)
    → one (t == "HISTORICAL") + one (t == "IN_SCOPE_DEGRADED") + one (no_known_scope t) ≡ 1
scope_sum t =
    scope_bits (t == "HISTORICAL") (t == "IN_SCOPE_DEGRADED")
      (apart_texts t "HISTORICAL" "IN_SCOPE_DEGRADED" refl)

scope_partition :
    (rs : List DeploymentRecord)
    → length (filter counts rs)
        + count (outside_state (λ t. t == "HISTORICAL")) rs
        + count (outside_state (λ t. t == "IN_SCOPE_DEGRADED")) rs
        + count (outside_state no_known_scope) rs
      ≡ length rs
scope_partition [] = refl
scope_partition (r ∷ rs) = elim (Bool-cases (counts r)) [
  | inl h ↦ rw h (omega (arith, scope_partition rs))
  | inr h ↦ rw h (omega (arith, scope_partition rs, scope_sum (deployment_coverage r).state))
]

-- A summary loses no record: the seven counts by status make up the matched records, and so do those
-- to be present and those withdrawn; with the three counts of records outside the live coverage
-- they make up all records observed.
pub summary_partition :
    (rs : List DeploymentRecord) (withdrawn : Bool)
    → let s = summarize_policy_destinations rs withdrawn in
      (s.applied + s.pending_replacement + s.failed + s.not_in_use + s.removed + s.removal_pending
          + s.pending
        ≡ s.matched)
      × (s.desired_matched + s.removal_matched ≡ s.matched)
      × (s.matched + s.historical + s.degraded + s.unknown ≡ s.observed)
      × (s.observed ≡ length rs)
summary_partition rs withdrawn = rw (summary_form rs withdrawn) (
  omega (arith, status_partition rs),
  omega (arith, presence_partition rs),
  omega (arith, scope_partition rs),
  refl,
)
