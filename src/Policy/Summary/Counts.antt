-- ===== src/Policy/Summary/Counts.antt =====
-- What each count of a summary counts.
use otel_opamp_control_plane.Policy.Summary.{
  start, settle, summarize_policy_destinations, deployment_record_status, counts, tally_scope,
  tally_retained, tally_presence, tally_status, tally, Summary, tally_all,
}
use otel_opamp_control_plane.Prelude.{
  ap, ◌∙◌, ◌==◌, String, refl, Bool-cases, inl, inr, sym, subst, ℕ, ◌+◌, Bool, true, false, not,
  ◌&&◌, ◌||◌, List, [], ◌∷◌, count, ◌≡◌, arith, if◌then◌else◌,
}
use native.Mathlib.Nat.{add-zero, add_assoc}
use otel_opamp_control_plane.Coverage.{deployment_coverage, DeploymentRecord}
use otel_opamp_control_plane.Js.{Value, is_lem, is, str, is_false, apart_texts, apart_values}

abbrev pub one : Bool → ℕ
one b = if b then 1 else 0

-- The counts that `tally_status` changes, over its tests.
abbrev chain : (a b c d e f g : Bool) → Summary → Summary
chain a b c d e f g s =
    if a
    then record s { applied = s.applied + 1 }
    else if b
    then record s { pending_replacement = s.pending_replacement + 1 }
    else if c
    then record s { failed = s.failed + 1 }
    else if d || e
    then record s { not_in_use = s.not_in_use + 1 }
    else if f
    then record s { removed = s.removed + 1 }
    else if g
    then record s { removal_pending = s.removal_pending + 1 }
    else record s { pending = s.pending + 1 }

-- At most one of the tests passes.
abbrev pub Apart : (a b c d e f g : Bool) → Type 0
Apart a b c d e f g =
    ((a && (b || (c || (d || (e || (f || g)))))) ≡ false)
    × ((b && (c || (d || (e || (f || g))))) ≡ false)
    × ((c && (d || (e || (f || g)))) ≡ false)
    × (((d || e) && (f || g)) ≡ false)
    × ((f && g) ≡ false)

chain_form :
    (a b c d e f g : Bool) (s : Summary)
    → Apart a b c d e f g
    → chain a b c d e f g s ≡ record s {
      applied = s.applied + one a;
      pending_replacement = s.pending_replacement + one b;
      failed = s.failed + one c;
      not_in_use = s.not_in_use + one (d || e);
      removed = s.removed + one f;
      removal_pending = s.removal_pending + one g;
      pending = s.pending + one (not (a || (b || (c || (d || (e || (f || g)))))));
    }
chain_form true b c d e f g s h = ground arith
chain_form false true c d e f g s h = ground arith
chain_form false false true d e f g s h = ground arith
chain_form false false false d e f g s h = ground arith

abbrev pub ApartAt : Value → Type 0
ApartAt v =
    Apart (is v "APPLIED") (is v "APPLIED_PENDING_REPLACEMENT") (is v "FAILED") (is v "SUPERSEDED")
      (is v "NOT_IN_USE") (is v "REMOVED") (is v "REMOVAL_PENDING")

closed_apart : (v : Value) (t : String) → is v t ≡ true → ApartAt (str t) → ApartAt v
closed_apart v t h closed = subst ApartAt (sym (is_lem v t h)) closed

last_other :
    (a b c d e f g : Bool)
    → a ≡ false
    → b ≡ false
    → c ≡ false
    → f ≡ false
    → g ≡ false
    → Apart a b c d e f g
last_other a b c d e f g ha hb hc hf hg = ground arith

pub is-apart : (v : Value) → ApartAt v
is-apart v = elim (Bool-cases (is v "APPLIED")) [
  | inl h ↦ closed_apart v _ h (refl, refl, refl, refl, refl)
  | inr a ↦ elim (Bool-cases (is v "APPLIED_PENDING_REPLACEMENT")) [
    | inl h ↦ closed_apart v _ h (refl, refl, refl, refl, refl)
    | inr b ↦ elim (Bool-cases (is v "FAILED")) [
      | inl h ↦ closed_apart v _ h (refl, refl, refl, refl, refl)
      | inr c ↦ elim (Bool-cases (is v "REMOVED")) [
        | inl h ↦ closed_apart v _ h (refl, refl, refl, refl, refl)
        | inr f ↦ elim (Bool-cases (is v "REMOVAL_PENDING")) [
          | inl h ↦ closed_apart v _ h (refl, refl, refl, refl, refl)
          | inr g ↦ last_other _ _ _ _ _ _ _ a b c f g
        ]
      ]
    ]
  ]
]

-- No status that the loop tests for.
abbrev pub other_status : Value → Bool
other_status v = not (
    is v "APPLIED"
    || (is v "APPLIED_PENDING_REPLACEMENT"
        || (is v "FAILED"
            || (is v "SUPERSEDED"
                || (is v "NOT_IN_USE" || (is v "REMOVED" || is v "REMOVAL_PENDING"))))))

tally_status_form :
    (v : Value) (s : Summary)
    → tally_status v s ≡ record s {
      applied = s.applied + one (is v "APPLIED");
      pending_replacement = s.pending_replacement + one (is v "APPLIED_PENDING_REPLACEMENT");
      failed = s.failed + one (is v "FAILED");
      not_in_use = s.not_in_use + one (is v "SUPERSEDED" || is v "NOT_IN_USE");
      removed = s.removed + one (is v "REMOVED");
      removal_pending = s.removal_pending + one (is v "REMOVAL_PENDING");
      pending = s.pending + one (other_status v);
    }
unfolding tally_status
tally_status_form v s = chain_form _ _ _ _ _ _ _ s (is-apart v)

tally_presence_form :
    (r : DeploymentRecord) (s : Summary)
    → tally_presence r s ≡ record s {
      removal_matched = s.removal_matched + one (is_false r.desired_presence);
      desired_matched = s.desired_matched + one (not (is_false r.desired_presence));
    }
unfolding tally_presence
tally_presence_form r s = elim (Bool-cases (is_false r.desired_presence)) [
  | inl e ↦ rw e (ground arith)
  | inr e ↦ rw e (ground arith)
]

scope_chain :
    (a b : Bool) (s : Summary)
    → (a && b) ≡ false
    → (if a
        then record s { historical = s.historical + 1 }
        else if b
        then record s { degraded = s.degraded + 1 }
        else record s { unknown = s.unknown + 1 })
      ≡ record s {
        historical = s.historical + one a;
        degraded = s.degraded + one b;
        unknown = s.unknown + one (not (a || b));
      }
scope_chain true b s h = ground arith
scope_chain false b s h = ground arith

tally_scope_form :
    (state : String) (s : Summary)
    → tally_scope state s ≡ record s {
      historical = s.historical + one (state == "HISTORICAL");
      degraded = s.degraded + one (state == "IN_SCOPE_DEGRADED");
      unknown = s.unknown + one (not (state == "HISTORICAL" || state == "IN_SCOPE_DEGRADED"));
    }
unfolding tally_scope
tally_scope_form state s =
    scope_chain _ _ s (apart_texts state "HISTORICAL" "IN_SCOPE_DEGRADED" refl)

retained_chain :
    (a b : Bool) (s : Summary)
    → (a && b) ≡ false
    → (if a
        then record s { applied_offline = s.applied_offline + 1 }
        else if b
        then record s { applied_stale = s.applied_stale + 1 }
        else s)
      ≡ record s {
        applied_offline = s.applied_offline + one a;
        applied_stale = s.applied_stale + one b;
      }
retained_chain true b s h = ground arith
retained_chain false b s h = ground arith

tally_retained_form :
    (v : Value) (s : Summary)
    → tally_retained v s ≡ record s {
      applied_offline = s.applied_offline + one (is v "APPLIED_OFFLINE");
      applied_stale = s.applied_stale + one (is v "APPLIED_STALE");
    }
unfolding tally_retained
tally_retained_form v s =
    retained_chain _ _ s (apart_values v "APPLIED_OFFLINE" "APPLIED_STALE" refl)

-- A live record with a status, and a record outside the live coverage with a state or a status.
abbrev pub live : (Value → Bool) → DeploymentRecord → Bool
live p r = counts r && p (deployment_record_status r)

abbrev pub outside_state : (String → Bool) → DeploymentRecord → Bool
outside_state p r = not (counts r) && p (deployment_coverage r).state

abbrev pub outside : (Value → Bool) → DeploymentRecord → Bool
outside p r = not (counts r) && p (deployment_record_status r)

abbrev pub no_known_scope : String → Bool
no_known_scope state = not (state == "HISTORICAL" || state == "IN_SCOPE_DEGRADED")

-- What each count is to count, by the records alone.
abbrev pub counted : List DeploymentRecord → Summary → Summary
counted rs s = record s {
  removal_matched = s.removal_matched + count (λ r. counts r && is_false r.desired_presence) rs;
  desired_matched =
      s.desired_matched + count (λ r. counts r && not (is_false r.desired_presence)) rs;
  historical = s.historical + count (outside_state (λ t. t == "HISTORICAL")) rs;
  degraded = s.degraded + count (outside_state (λ t. t == "IN_SCOPE_DEGRADED")) rs;
  unknown = s.unknown + count (outside_state no_known_scope) rs;
  applied_offline = s.applied_offline + count (outside (λ v. is v "APPLIED_OFFLINE")) rs;
  applied_stale = s.applied_stale + count (outside (λ v. is v "APPLIED_STALE")) rs;
  applied = s.applied + count (live (λ v. is v "APPLIED")) rs;
  pending_replacement =
      s.pending_replacement + count (live (λ v. is v "APPLIED_PENDING_REPLACEMENT")) rs;
  failed = s.failed + count (live (λ v. is v "FAILED")) rs;
  not_in_use = s.not_in_use + count (live (λ v. is v "SUPERSEDED" || is v "NOT_IN_USE")) rs;
  removed = s.removed + count (live (λ v. is v "REMOVED")) rs;
  removal_pending = s.removal_pending + count (live (λ v. is v "REMOVAL_PENDING")) rs;
  pending = s.pending + count (live other_status) rs;
}

tally-counted : (s : Summary) (r : DeploymentRecord) → tally s r ≡ counted (r ∷ []) s
unfolding tally
tally-counted s r = elim (Bool-cases (counts r)) [
  | inl h ↦ rw (h, tally_status_form, tally_presence_form) (simp add-zero)
  | inr h ↦ rw (h, tally_retained_form, tally_scope_form) (simp add-zero)
]

tally_all-counted : (s : Summary) (rs : List DeploymentRecord) → tally_all s rs ≡ counted rs s
unfolding tally_all
tally_all-counted s [] = simp add-zero
tally_all-counted s (r ∷ rs) =
    tally_all-counted (tally s r) rs
    ∙ ap (counted rs) (tally-counted s r)
    ∙ simp (add-zero, add_assoc)

-- The summary of a version is settled from counts that depend on the records alone: of the records
-- that count for the live coverage those withdrawn and those to be present, and those with each
-- status; of the others those in each state, and those that were applied before.
pub summarize-counted :
    (rs : List DeploymentRecord) (withdrawn : Bool)
    → summarize_policy_destinations rs withdrawn ≡ settle withdrawn (counted rs (start rs))
unfolding summarize_policy_destinations
summarize-counted rs withdrawn = ap (settle withdrawn) (tally_all-counted (start rs) rs)
