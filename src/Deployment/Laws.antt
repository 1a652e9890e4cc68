-- ===== src/Deployment/Laws.antt =====
-- What the status of a stored version says about the agents.
use otel_opamp_control_plane.Prelude.{
  ℕ, ◌+◌, ◌<◌, ◌≡◌, refl, ap, ◌∙◌, ◌↔◌, Bool, true, false, not, ◌&&◌, ◌||◌, List, [], ◌∷◌, foldl,
  arith, if◌then◌else◌, length, count, All, count-eq-length_iff,
}
use native.Mathlib.Nat.{add-zero, add_assoc}
use otel_opamp_control_plane.Js.{is, apart_values}
use otel_opamp_control_plane.Deployment.{
  Agent, StoredVersion, references_version, DeploymentStatus, Deployment, tally, destinations,
  start, settle, deployment_status_for_version,
}

-- What an agent that counts reports of the version.
abbrev pub holds : StoredVersion → Agent → Bool
holds v a = references_version a v && is a.config_status "APPLIED"

abbrev pub rejects : StoredVersion → Agent → Bool
rejects v a = references_version a v && is a.config_status "FAILED"

abbrev pub waits : StoredVersion → Agent → Bool
waits v a =
    references_version a v && not (is a.config_status "APPLIED" || is a.config_status "FAILED")

abbrev one : Bool → ℕ
one b = if b then 1 else 0

chain :
    (refs a b : Bool) (d : Deployment)
    → (a && b) ≡ false
    → (if not refs
        then record d { not_in_use = d.not_in_use + 1 }
        else if a
        then record d { applied = d.applied + 1 }
        else if b
        then record d { failed = d.failed + 1 }
        else record d { pending = d.pending + 1 })
      ≡ record d {
        applied = d.applied + one (refs && a);
        failed = d.failed + one (refs && b);
        pending = d.pending + one (refs && not (a || b));
        not_in_use = d.not_in_use + one (not refs);
      }
chain true true b d h = ground arith
chain true false b d h = ground arith
chain false a b d h = ground arith

abbrev pub counted : StoredVersion → List Agent → Deployment → Deployment
counted v rest d = record d {
  applied = d.applied + count (holds v) rest;
  failed = d.failed + count (rejects v) rest;
  pending = d.pending + count (waits v) rest;
  not_in_use = d.not_in_use + count (λ a. not (references_version a v)) rest;
}

tally-counted :
    (v : StoredVersion) (d : Deployment) (a : Agent) → tally v d a ≡ counted v (a ∷ []) d
unfolding tally
tally-counted v d a =
    chain (references_version a v) _ _ d (apart_values a.config_status "APPLIED" "FAILED" refl)
    ∙ simp add-zero

foldl-counted :
    (v : StoredVersion) (d : Deployment) (rest : List Agent)
    → foldl (tally v) d rest ≡ counted v rest d
foldl-counted v d [] = simp add-zero
foldl-counted v d (a ∷ rest) =
    foldl-counted v (tally v d a) rest
    ∙ ap (counted v rest) (tally-counted v d a)
    ∙ simp (add-zero, add_assoc)

summary_form :
    (v : StoredVersion) (agents : List Agent)
    → deployment_status_for_version v agents
      ≡ settle v (counted v (destinations v agents) (start v agents))
unfolding deployment_status_for_version
summary_form v agents = ap (settle v) (foldl-counted v (start v agents) (destinations v agents))

-- The status and the counts of a settled deployment, by the counts before.
settle_lem :
    (v : StoredVersion) (d : Deployment)
    → d.status ≡ DeploymentStatus.no_live_targets
    → d.applied + d.failed + d.pending + d.not_in_use ≡ d.matched
    → (((settle v d).status ≡ DeploymentStatus.no_live_targets) ↔ (d.matched ≡ 0))
      × (((settle v d).status ≡ DeploymentStatus.applied)
          ↔ ((0 < d.matched) × (d.applied ≡ d.matched)))
      × (((settle v d).status ≡ DeploymentStatus.failed) ↔ ((0 < d.failed) × (d.applied ≡ 0)))
      × (((settle v d).status ≡ DeploymentStatus.partial)
          ↔ ((0 < d.applied) × (d.applied < d.matched)))
unfolding settle
settle_lem v d initial total = ground arith

partition_step :
    (refs a b : Bool)
    → (a && b) ≡ false
    → one (refs && a) + one (refs && b) + one (refs && not (a || b)) + one (not refs) ≡ 1
partition_step true true b h = ground arith
partition_step true false b h = ground arith
partition_step false a b h = ground arith

agent_sum :
    (v : StoredVersion) (a : Agent)
    → one (holds v a) + one (rejects v a) + one (waits v a) + one (not (references_version a v)) ≡ 1
agent_sum v a =
    partition_step (references_version a v) (is a.config_status "APPLIED")
      (is a.config_status "FAILED") (apart_values a.config_status "APPLIED" "FAILED" refl)

partition :
    (v : StoredVersion) (rest : List Agent)
    → count (holds v) rest
        + count (rejects v) rest
        + count (waits v) rest
        + count (λ a. not (references_version a v)) rest
      ≡ length rest
partition v [] = refl
partition v (a ∷ rest) = omega (arith, partition v rest, agent_sum v a)

-- The status of a version over its destinations, the compatible agents that are live, is
-- `no_live_targets` exactly if there are none, `applied` exactly if there are some and each has applied the version,
-- `failed` exactly if some have rejected it and none has applied it, and `partial` exactly if some but
-- not all have applied it.
pub deployment_status_iff :
    (v : StoredVersion) (agents : List Agent)
    → let rest = destinations v agents in
      let status = (deployment_status_for_version v agents).status in
      ((status ≡ DeploymentStatus.no_live_targets) ↔ (length rest ≡ 0))
      × ((status ≡ DeploymentStatus.applied)
          ↔ ((0 < length rest) × All (λ a. holds v a ≡ true) rest))
      × ((status ≡ DeploymentStatus.failed)
          ↔ ((0 < count (rejects v) rest) × (count (holds v) rest ≡ 0)))
      × ((status ≡ DeploymentStatus.partial)
          ↔ ((0 < count (holds v) rest) × (count (holds v) rest < length rest)))
deployment_status_iff v agents =
    let rest = destinations v agents in
    let d = counted v rest (start v agents) in
    let (none_there, all_hold, rejected, some_hold) =
      settle_lem v d refl (omega (arith, partition v rest)) in
    rw (summary_form v agents) (
      none_there,
      (
        λ h.
            let (live, e) = all_hold.0 h in
            (live, (count-eq-length_iff (holds v) rest).0 (omega (arith, e))),
        λ (live, h). all_hold.1 (live, omega (arith, (count-eq-length_iff (holds v) rest).1 h)),
      ),
      (λ h. omega (arith, rejected.0 h), λ (a, b). rejected.1 (omega (arith, a), omega (arith, b))),
      (
        λ h. omega (arith, some_hold.0 h),
        λ (a, b). some_hold.1 (omega (arith, a), omega (arith, b)),
      ),
    )
