-- ===== src/Policy/Summary/Status.antt =====
-- What the status of a summary says about the records.
use otel_opamp_control_plane.Policy.Summary.{
  is_false, deployment_record_status, is, counts, SummaryStatus, Summary, start, withdrawn_status,
  active_status, summarize_policy_destinations,
}
use otel_opamp_control_plane.Policy.Summary.Partition.{presence_partition, settled, summary_form}
use otel_opamp_control_plane.Prelude.{
  ◌<◌, String, ◌≡◌, refl, sym, ap, ◌↔◌, Bool, true, false, not, ◌&&◌, List, arith, count,
  length-filter, All, All-of_count_eq, count_congr, All-intro, All-map, All-zip,
}
use otel_opamp_control_plane.Policy.Summary.Counts.{live, counted}
use otel_opamp_control_plane.Coverage.{DeploymentRecord}

-- An active version is reported as applied exactly by these three counts.
active_applied_iff :
    (s : Summary)
    → s.status ≡ SummaryStatus.no_live_targets
    → (settled false s ≡ SummaryStatus.applied) ↔ (
        (0 < s.matched)
        × (0 < s.desired_matched)
        × (s.applied ≡ s.desired_matched)
        × (s.removed ≡ s.removal_matched))
unfolding active_status
active_applied_iff s initial = ground arith

withdrawn_removed_iff :
    (s : Summary)
    → s.status ≡ SummaryStatus.no_live_targets
    → (settled true s ≡ SummaryStatus.removed) ↔ ((0 < s.matched) × (s.removed ≡ s.matched))
unfolding withdrawn_status
withdrawn_removed_iff s initial = ground arith

status_form :
    (rs : List DeploymentRecord) (withdrawn : Bool)
    → (summarize_policy_destinations rs withdrawn).status
      ≡ settled withdrawn (counted rs (start rs))
status_form rs withdrawn = ap (λ (s : Summary). s.status) (summary_form rs withdrawn)

-- A live record has the status.
abbrev pub Reports : String → DeploymentRecord → Type 0
Reports t r = counts r ≡ true → is (deployment_record_status r) t ≡ true

and_implied : (a b : Bool) → (a ≡ true → b ≡ true) → (a && b) ≡ a
and_implied true b h = h refl
and_implied false b h = refl

and_left : (a b : Bool) → (a && b) ≡ true → a ≡ true
and_left true b h = refl
and_left false b h = h

and_right : (a b : Bool) → (a && b) ≡ true → b ≡ true
and_right true b h = h
and_right false b h = cc

removed_everywhere :
    (rs : List DeploymentRecord)
    → (count (live (λ v. is v "REMOVED")) rs ≡ count counts rs) ↔ All (Reports "REMOVED") rs
removed_everywhere rs = (
  λ e.
      All-map (λ r h c. and_right _ _ (h c)) rs
        (All-of_count_eq (live (λ v. is v "REMOVED")) counts rs
          (All-intro _ (λ r h. and_left _ _ h) rs) e),
  λ h. count_congr _ _ rs (All-map (λ r k. and_implied _ _ k) rs h),
)

-- A withdrawn version is reported as removed exactly if some record counts for the live coverage
-- and every such record has the status REMOVED.
pub summary_removed_iff :
    (rs : List DeploymentRecord)
    → ((summarize_policy_destinations rs true).status ≡ SummaryStatus.removed)
      ↔ ((0 < count counts rs) × All (Reports "REMOVED") rs)
summary_removed_iff rs =
    rw (status_form rs true, ← length-filter counts rs)
      (
        λ h.
            let (some_live, e) = (withdrawn_removed_iff _ refl).0 h in
            (some_live, (removed_everywhere rs).0 (omega (arith, e, length-filter counts rs))),
        λ (some_live, h).
            (withdrawn_removed_iff _ refl).1
              (some_live, omega (arith, (removed_everywhere rs).1 h, length-filter counts rs)),
      )

-- Live records to be present, and live records withdrawn.
abbrev pub desired : DeploymentRecord → Bool
desired r = counts r && not (is_false r.desired_presence)

abbrev pub withdrawing : DeploymentRecord → Bool
withdrawing r = counts r && is_false r.desired_presence

-- The server reports a record as applied only if it is to be present, and as removed only if it is
-- withdrawn.
abbrev pub Consistent : DeploymentRecord → Type 0
Consistent r =
    counts r ≡ true
    → (is (deployment_record_status r) "APPLIED" ≡ true → is_false r.desired_presence ≡ false)
      × (is (deployment_record_status r) "REMOVED" ≡ true → is_false r.desired_presence ≡ true)

-- The record has reached what is asked of it: applied if it is to be present, removed if withdrawn.
abbrev pub Reached : DeploymentRecord → Type 0
Reached r =
    (desired r ≡ true → is (deployment_record_status r) "APPLIED" ≡ true)
    × (withdrawing r ≡ true → is (deployment_record_status r) "REMOVED" ≡ true)

applied_desired :
    (l a w : Bool) → (l ≡ true → a ≡ true → w ≡ false) → (l && a) ≡ true → (l && not w) ≡ true
applied_desired true true w c h = rw (c refl refl)
applied_desired true false w c h = cc
applied_desired false a w c h = cc

removed_withdrawing :
    (l a w : Bool) → (l ≡ true → a ≡ true → w ≡ true) → (l && a) ≡ true → (l && w) ≡ true
removed_withdrawing true true w c h = c refl refl
removed_withdrawing true false w c h = cc
removed_withdrawing false a w c h = cc

applied_same :
    (l a w : Bool)
    → (l ≡ true → a ≡ true → w ≡ false)
    → ((l && not w) ≡ true → a ≡ true)
    → (l && a) ≡ (l && not w)
applied_same true true w c k = rw (c refl refl)
applied_same true false true c k = refl
applied_same true false false c k = k refl
applied_same false a w c k = refl

removed_same :
    (l a w : Bool)
    → (l ≡ true → a ≡ true → w ≡ true)
    → ((l && w) ≡ true → a ≡ true)
    → (l && a) ≡ (l && w)
removed_same true true w c k = sym (c refl refl)
removed_same true false true c k = k refl
removed_same true false false c k = refl
removed_same false a w c k = refl

sums_met :
    (rs : List DeploymentRecord)
    → All Consistent rs
    → ((count (live (λ v. is v "APPLIED")) rs ≡ count desired rs)
        × (count (live (λ v. is v "REMOVED")) rs ≡ count withdrawing rs))
      ↔ All Reached rs
sums_met rs consistent = (
  λ (applied, removed).
      All-zip (λ r a b. (λ d. and_right _ _ (a d), λ d. and_right _ _ (b d))) rs
        (All-of_count_eq (live (λ v. is v "APPLIED")) desired rs
          (All-map (λ r c h. applied_desired _ _ _ (λ l. (c l).0) h) rs consistent) applied)
        (All-of_count_eq (live (λ v. is v "REMOVED")) withdrawing rs
          (All-map (λ r c h. removed_withdrawing _ _ _ (λ l. (c l).1) h) rs consistent) removed),
  λ h. (
    count_congr _ _ rs (All-zip (λ r c k. applied_same _ _ _ (λ l. (c l).0) k.0) rs consistent h),
    count_congr _ _ rs (All-zip (λ r c k. removed_same _ _ _ (λ l. (c l).1) k.1) rs consistent h),
  ),
)

-- For records that the server reports consistently, an active version is reported as applied exactly
-- if some live record is to hold it, every such record has applied it, and every live record that
-- is withdrawn has removed it.
pub summary_applied_iff :
    (rs : List DeploymentRecord)
    → All Consistent rs
    → ((summarize_policy_destinations rs false).status ≡ SummaryStatus.applied)
      ↔ ((0 < count desired rs) × All Reached rs)
summary_applied_iff rs consistent = rw (status_form rs false) (
  λ h.
      let (some_live, some_desired, a, b) = (active_applied_iff _ refl).0 h in
      (
        omega (arith, some_desired),
        (sums_met rs consistent).0 (omega (arith, a), omega (arith, b)),
      ),
  λ (some_desired, h).
      let (a, b) = (sums_met rs consistent).1 h in
      (active_applied_iff _ refl).1 (
        omega (arith, some_desired, presence_partition rs),
        omega (arith, some_desired),
        omega (arith, a),
        omega (arith, b),
      ),
)
