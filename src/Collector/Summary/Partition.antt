-- ===== src/Collector/Summary/Partition.antt =====
-- The two loops of a collector summary together, and that their counts add up.
use otel_opamp_control_plane.Prelude.{
  ◌+◌, String, ◌≡◌, refl, ap, ◌∙◌, inl, inr, Bool, true, false, not, ◌&&◌, ◌||◌, List, [], ◌∷◌,
  foldl, arith, ◌==◌, if◌then◌else◌, Bool-cases, length, filter, count, length-filter,
}
use native.Mathlib.Nat.{add-zero, add_assoc}
use otel_opamp_control_plane.Js.{apart_texts}
use otel_opamp_control_plane.Coverage.{DeploymentRecord, deployment_coverage}
use otel_opamp_control_plane.Collector.Record.{collector_record_status}
use otel_opamp_control_plane.Collector.Summary.{
  Counts, covers, no_counts, tally_outside, count_collector_records, summarize_collector_records,
}
use otel_opamp_control_plane.Collector.Summary.Tally.{
  live_counted, foldl-live_counted, reports, withdrawn, other_status, one, status_sum,
}

-- A record outside the live coverage, with a state.
abbrev pub outside : (String → Bool) → DeploymentRecord → Bool
outside p r = not (covers r) && p (deployment_coverage r).state

abbrev pub no_known_scope : String → Bool
no_known_scope t = not (t == "HISTORICAL" || t == "IN_SCOPE_DEGRADED")

abbrev pub outside_counted : List DeploymentRecord → Counts → Counts
outside_counted rs s = record s {
  historical = s.historical + count (outside (λ t. t == "HISTORICAL")) rs;
  degraded = s.degraded + count (outside (λ t. t == "IN_SCOPE_DEGRADED")) rs;
  unknown = s.unknown + count (outside no_known_scope) rs;
}

scope_chain :
    (a b : Bool) (s : Counts)
    → (a && b) ≡ false
    → (if a
        then record s { historical = s.historical + 1 }
        else if b
        then record s { degraded = s.degraded + 1 }
        else record s { unknown = s.unknown + 1 })
      ≡ record s {
        historical = s.historical + one a;
        degraded = s.degraded + one b;
        unknown = s.unknown + one (not (a || b));
      }
scope_chain true b s h = ground arith
scope_chain false b s h = ground arith

tally_outside-counted :
    (s : Counts) (r : DeploymentRecord) → tally_outside s r ≡ outside_counted (r ∷ []) s
unfolding tally_outside
tally_outside-counted s r = elim (Bool-cases (covers r)) [
  | inl h ↦ rw h (simp add-zero)
  | inr h ↦ rw h (
      scope_chain _ _ s
        (apart_texts (deployment_coverage r).state "HISTORICAL" "IN_SCOPE_DEGRADED" refl)
      ∙ simp add-zero)
]

foldl-outside_counted :
    (s : Counts) (rs : List DeploymentRecord) → foldl tally_outside s rs ≡ outside_counted rs s
foldl-outside_counted s [] = simp add-zero
foldl-outside_counted s (r ∷ rs) =
    foldl-outside_counted (tally_outside s r) rs
    ∙ ap (outside_counted rs) (tally_outside-counted s r)
    ∙ simp (add-zero, add_assoc)

-- Both loops together count the records of each kind.
pub count_collector_records_form :
    (rs : List DeploymentRecord)
    → count_collector_records rs
      ≡ live_counted (filter covers rs) (outside_counted rs (no_counts rs))
unfolding count_collector_records
count_collector_records_form rs =
    foldl-live_counted _ (filter covers rs)
    ∙ ap (live_counted (filter covers rs)) (foldl-outside_counted (no_counts rs) rs)

status_partition :
    (rs : List DeploymentRecord)
    → count (reports "APPLIED") rs
        + count (reports "APPLIED_OFFLINE") rs
        + count (reports "FAILED") rs
        + count (reports "SUPERSEDED") rs
        + count (reports "BASE_PENDING") rs
        + count (reports "BASE_APPLIED") rs
        + count (reports "BASE_FAILED") rs
        + count (reports "REMOVED") rs
        + count (λ r. other_status (collector_record_status r)) rs
      ≡ length rs
status_partition [] = refl
status_partition (r ∷ rs) =
    omega (arith, status_partition rs, status_sum (collector_record_status r))

pub presence_partition :
    (rs : List DeploymentRecord)
    → count (λ r. not (withdrawn r)) rs + count withdrawn rs ≡ length rs
presence_partition [] = refl
presence_partition (r ∷ rs) = elim (Bool-cases (withdrawn r)) [
  | inl h ↦ rw h (omega (arith, presence_partition rs))
  | inr h ↦ rw h (omega (arith, presence_partition rs))
]

-- The nine counts by status make up the matched records, and so do the records to be present and
-- those withdrawn.
pub collector_partition :
    (rs : List DeploymentRecord) (active : Bool)
    → let s = (summarize_collector_records rs active).counts in
      (s.applied + s.offline + s.failed + s.superseded + s.base_pending + s.base_applied
          + s.base_failed + s.removed + s.pending
        ≡ s.matched)
      × (s.desired_matched + s.removal_matched ≡ s.matched)
      × (s.matched ≡ count covers rs)
unfolding summarize_collector_records
collector_partition rs active = rw (count_collector_records_form rs) (
  omega (arith, status_partition (filter covers rs)),
  omega (arith, presence_partition (filter covers rs)),
  length-filter covers rs,
)
