-- ===== src/Collector/Summary/Verdict.antt =====
-- What the status of a collector summary says about the records.
use otel_opamp_control_plane.Prelude.{
  ◌↔◌, ℕ, ◌+◌, ◌<◌, ◌≡◌, refl, sym, ap, ◌⊎◌, inl, inr, Bool, true, false, not, ◌&&◌, ◌||◌, List, [],
  ◌∷◌, arith, if◌then◌else◌, Bool-cases, filter, count, length-filter, All, All-of_count_eq,
  count_congr, All-map, All-zip, count-eq-length_iff,
}
use otel_opamp_control_plane.Js.{apart_values}
use otel_opamp_control_plane.Coverage.{DeploymentRecord}
use otel_opamp_control_plane.Collector.Record.{collector_record_status}
use otel_opamp_control_plane.Collector.Summary.{
  CollectorStatus, Counts, covers, no_counts, collector_status, summarize_collector_records,
}
use otel_opamp_control_plane.Collector.Summary.Tally.{live_counted, reports, withdrawn}
use otel_opamp_control_plane.Collector.Summary.Partition.{
  count_collector_records_form, outside_counted, presence_partition,
}

-- The target has confirmed that the configuration is gone.
abbrev pub confirmed_gone : DeploymentRecord → Bool
confirmed_gone r = reports "BASE_APPLIED" r || reports "REMOVED" r

or_bits :
    (a b : Bool) (m n k : ℕ)
    → (a && b) ≡ false
    → m + n ≡ k
    → ((if a then 1 else 0) + m) + ((if b then 1 else 0) + n) ≡ (if a || b then 1 else 0) + k
or_bits true true m n k h e = cc
or_bits true false m n k h e = omega (arith, e)
or_bits false b m n k h e = elim (Bool-cases b) [
  | inl t ↦ rw t (omega (arith, e))
  | inr f ↦ rw f (omega (arith, e))
]

confirmed_sum :
    (rs : List DeploymentRecord)
    → count (reports "BASE_APPLIED") rs + count (reports "REMOVED") rs ≡ count confirmed_gone rs
confirmed_sum [] = refl
confirmed_sum (r ∷ rs) =
    or_bits _ _ _ _ _ (apart_values (collector_record_status r) "BASE_APPLIED" "REMOVED" refl)
      (confirmed_sum rs)

inactive_done_iff :
    (s : Counts)
    → ((collector_status false s ≡ CollectorStatus.removed)
        ⊎ (collector_status false s ≡ CollectorStatus.base_applied))
      ↔ ((0 < s.matched) × (s.base_applied + s.removed ≡ s.matched))
unfolding collector_status
inactive_done_iff s = ground arith

active_applied_iff :
    (s : Counts)
    → (collector_status true s ≡ CollectorStatus.applied) ↔ (
        (0 < s.matched)
        × (0 < s.desired_matched)
        × (s.applied ≡ s.desired_matched)
        × (s.base_applied + s.removed ≡ s.removal_matched))
unfolding collector_status
active_applied_iff s = ground arith

-- The counts of a summary.
abbrev summed : List DeploymentRecord → Counts
summed rs = live_counted (filter covers rs) (outside_counted rs (no_counts rs))

status_form :
    (rs : List DeploymentRecord) (active : Bool)
    → (summarize_collector_records rs active).status ≡ collector_status active (summed rs)
unfolding summarize_collector_records
status_form rs active = ap (collector_status active) (count_collector_records_form rs)

-- A configuration that is withdrawn is reported as gone, by one status or the other, exactly if some
-- record counts for the live coverage and the target of every such record has confirmed it, by its
-- base configuration or by another managed one.
pub collector_gone_iff :
    (rs : List DeploymentRecord)
    → (((summarize_collector_records rs false).status ≡ CollectorStatus.removed)
        ⊎ ((summarize_collector_records rs false).status ≡ CollectorStatus.base_applied))
      ↔ ((0 < count covers rs) × All (λ r. confirmed_gone r ≡ true) (filter covers rs))
collector_gone_iff rs =
    let rest = filter covers rs in
    rw (status_form rs false, ← length-filter covers rs)
      (
        λ h.
            let (some_live, e) = (inactive_done_iff _).0 h in
            (
              omega (arith, some_live),
              (count-eq-length_iff confirmed_gone rest).0 (omega (arith, e, confirmed_sum rest)),
            ),
        λ (some_live, h). (inactive_done_iff _).1 (
          omega (arith, some_live),
          omega (arith, (count-eq-length_iff confirmed_gone rest).1 h, confirmed_sum rest),
        ),
      )

-- The server reports a record as applied only if it is to be present, and as gone only if it is
-- withdrawn.
abbrev pub Consistent : DeploymentRecord → Type 0
Consistent r =
    (reports "APPLIED" r ≡ true → not (withdrawn r) ≡ true)
    × (confirmed_gone r ≡ true → withdrawn r ≡ true)

-- The record has reached what is asked of it.
abbrev pub Reached : DeploymentRecord → Type 0
Reached r =
    (not (withdrawn r) ≡ true → reports "APPLIED" r ≡ true)
    × (withdrawn r ≡ true → confirmed_gone r ≡ true)

bits_eq : (a b : Bool) → (a ≡ true → b ≡ true) → (b ≡ true → a ≡ true) → a ≡ b
bits_eq true b h k = sym (h refl)
bits_eq false true h k = k refl
bits_eq false false h k = refl

sums_met :
    (rs : List DeploymentRecord)
    → All Consistent rs
    → ((count (reports "APPLIED") rs ≡ count (λ r. not (withdrawn r)) rs)
        × (count confirmed_gone rs ≡ count withdrawn rs))
      ↔ All Reached rs
sums_met rs consistent = (
  λ (applied, gone).
      All-zip (λ r a b. (a, b)) rs
        (All-of_count_eq (reports "APPLIED") (λ r. not (withdrawn r)) rs
          (All-map (λ r c. c.0) rs consistent) applied)
        (All-of_count_eq confirmed_gone withdrawn rs (All-map (λ r c. c.1) rs consistent) gone),
  λ h. (
    count_congr _ _ rs (All-zip (λ r c k. bits_eq _ _ c.0 k.0) rs consistent h),
    count_congr _ _ rs (All-zip (λ r c k. bits_eq _ _ c.1 k.1) rs consistent h),
  ),
)

-- For live records that the server reports consistently, an active configuration is reported as
-- applied exactly if some live record is to hold it, every such record has applied it, and every
-- withdrawn one has confirmed that it is gone.
pub collector_applied_iff :
    (rs : List DeploymentRecord)
    → All Consistent (filter covers rs)
    → ((summarize_collector_records rs true).status ≡ CollectorStatus.applied)
      ↔ ((0 < count (λ r. not (withdrawn r)) (filter covers rs)) × All Reached (filter covers rs))
collector_applied_iff rs consistent =
    let rest = filter covers rs in
    rw (status_form rs true) (
      λ h.
          let (some_live, some_desired, a, b) = (active_applied_iff _).0 h in
          (
            omega (arith, some_desired),
            (sums_met rest consistent).0 (omega (arith, a), omega (arith, b, confirmed_sum rest)),
          ),
      λ (some_desired, h).
          let (a, b) = (sums_met rest consistent).1 h in
          (active_applied_iff _).1 (
            omega (arith, some_desired, presence_partition rest),
            omega (arith, some_desired),
            omega (arith, a),
            omega (arith, b, confirmed_sum rest),
          ),
    )
