-- ===== src/Policy/Summary/Order.antt =====
-- The order in which the server lists the records does not matter.
use otel_opamp_control_plane.Prelude.{
  ℕ, ◌≡◌, refl, sym, ap, ◌∙◌, Bool, true, not, ◌&&◌, ◌||◌, List, [], ◌∷◌, arith, ◌==◌, length,
  count, length-filter,
}
use mathlib.Core.List.{Perm, Permᴰ}
use mathlib.Core.Logic.{∥∥₁_elim}
use mathlib.Core.Path.{fun_ext}
use native.Mathlib.Nat.{ℕ_set, zero-add}
use otel_opamp_control_plane.Js.{is, is_false}
use otel_opamp_control_plane.Coverage.{DeploymentRecord}
use otel_opamp_control_plane.Policy.Summary.{
  SummaryStatus, Summary, counts, start, settle, summarize_policy_destinations,
}
use otel_opamp_control_plane.Policy.Summary.Counts.{
  counted, live, outside, outside_state, no_known_scope, other_status, summarize-counted,
}

-- The counts, from a way to count.
abbrev counted_by : ((DeploymentRecord → Bool) → ℕ) → Summary
counted_by c = record {
  status = SummaryStatus.no_live_targets;
  observed = c (λ r. true);
  matched = c counts;
  removal_matched = c (λ r. counts r && is_false r.desired_presence);
  desired_matched = c (λ r. counts r && not (is_false r.desired_presence));
  historical = c (outside_state (λ t. t == "HISTORICAL"));
  degraded = c (outside_state (λ t. t == "IN_SCOPE_DEGRADED"));
  unknown = c (outside_state no_known_scope);
  applied_offline = c (outside (λ v. is v "APPLIED_OFFLINE"));
  applied_stale = c (outside (λ v. is v "APPLIED_STALE"));
  applied = c (live (λ v. is v "APPLIED"));
  pending_replacement = c (live (λ v. is v "APPLIED_PENDING_REPLACEMENT"));
  failed = c (live (λ v. is v "FAILED"));
  not_in_use = c (live (λ v. is v "SUPERSEDED" || is v "NOT_IN_USE"));
  removed = c (live (λ v. is v "REMOVED"));
  removal_pending = c (live (λ v. is v "REMOVAL_PENDING"));
  pending = c (live other_status);
}

count-true {ℓ} : {A : Type ℓ} (xs : List A) → length xs ≡ count (λ x. true) xs
count-true [] = refl
count-true (x ∷ xs) = omega (arith, count-true xs)

counted-counted_by :
    (rs : List DeploymentRecord) → counted rs (start rs) ≡ counted_by (λ p. count p rs)
counted-counted_by rs = simp (zero-add, length-filter, count-true)

count-Permᴰ {ℓ} :
    {A : Type ℓ} (p : A → Bool) {xs ys : List A} → Permᴰ xs ys → count p xs ≡ count p ys
count-Permᴰ p Permᴰ.nil = refl
count-Permᴰ p (Permᴰ.cons e h) = rw e (omega (arith, count-Permᴰ p h))
count-Permᴰ p (Permᴰ.swap e k) = rw (e, k) (omega arith)
count-Permᴰ p (Permᴰ.trans h k) = count-Permᴰ p h ∙ count-Permᴰ p k

-- A summary is the same for every order of the records.
pub summarize-perm :
    (xs ys : List DeploymentRecord) (withdrawn : Bool)
    → Perm xs ys
    → summarize_policy_destinations xs withdrawn ≡ summarize_policy_destinations ys withdrawn
summarize-perm xs ys withdrawn h =
    summarize-counted xs withdrawn
    ∙ ap (settle withdrawn) (
        counted-counted_by xs
        ∙ ap counted_by (fun_ext (λ p. ∥∥₁_elim h (ℕ_set _ _) (count-Permᴰ p)))
        ∙ sym (counted-counted_by ys))
    ∙ sym (summarize-counted ys withdrawn)
