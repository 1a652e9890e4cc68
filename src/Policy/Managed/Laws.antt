-- ===== src/Policy/Managed/Laws.antt =====
-- What may be done with a managed policy: the version that is in force, and the one that it can be taken
-- back to.
use otel_opamp_control_plane.Policy.Managed.{
  action_of, num_below, PolicyVersion, Group, ManagedPolicy, is_earlier, last, last_or,
  policy_version_number, policy_version_action, sort_policy_versions, managed_policy,
  is_deactivated_policy_version,
}
use otel_opamp_control_plane.Policy.Managed.Last.{
  last-none, last-All, filter-All, All-In, All-filter_of,
}
use otel_opamp_control_plane.Policy.Managed.Sorted.{
  IsNumbered, number, last-highest, sort_policy_versions-Ranked, sorted_back, sorted_forth,
  latest_found,
}
use otel_opamp_control_plane.Account.{number_or_zero}
use otel_opamp_control_plane.Js.{
  Value, Num, nan, whole, num, bool, str, undefined, null, is_false, nullish, to_number,
}
use otel_opamp_control_plane.Js.Sort.Laws.{Ranked, filter-Ranked}
use otel_opamp_control_plane.Coverage.{DeploymentRecord}
use otel_opamp_control_plane.Version.{Compare}
use otel_opamp_control_plane.Prelude.{
  ℕ, ◌≤◌, ◌<◌, inl, inr, ◌⊎◌, ◌↔◌, true, false, ◌&&◌, if◌then◌else◌, not, refl, String, ◌≡◌, Bool,
  Option, none, some, List, ◌∷◌, ◌==◌, eq_iff, arith, ltb, filter, All, All-map, All-filter,
  All-zip, In, then_iff, both_iff,
}

-- A version that takes the policy back from its destinations.
abbrev pub IsRetirement : PolicyVersion → Type 0
IsRetirement v =
    (policy_version_action v ≡ "DEACTIVATED")
    ⊎ ((v.active_upper ≡ bool false) ⊎ (v.active ≡ bool false))

-- The number of the version whose content is in force: the source of the latest version, or itself.
abbrev pub content_number : PolicyVersion → Num
content_number latest = to_number (
    nullish latest.source_version_upper
      (nullish latest.source_version (num (policy_version_number latest))))

-- A version that was published before the content in force.
abbrev pub IsPrevious : PolicyVersion → PolicyVersion → Type 0
IsPrevious latest v =
    (policy_version_action v ≡ "PUBLISHED")
    × ((n : ℕ) × (content_number latest ≡ whole n) × (number v < n))

-- What is offered from the stored versions, by the version to restore, if any.
abbrev pub OfferOf :
    Bool → String → PolicyVersion → List PolicyVersion → Option PolicyVersion → Type 0
OfferOf active action latest stored (some v) =
    ¬ IsRetirement latest
    × (active ≡ true)
    × (action ≡ "REVERT")
    × In v stored
    × IsPrevious latest v
    × All (λ w. IsPrevious latest w → number w ≤ number v) stored
OfferOf active action latest stored none =
    (IsRetirement latest × (active ≡ false) × (action ≡ "NONE"))
    ⊎ (¬ IsRetirement latest
        × (active ≡ true)
        × (action ≡ "DEACTIVATE")
        × All (λ w. ¬ IsPrevious latest w) stored)

abbrev pub Offer : List PolicyVersion → ManagedPolicy → Type 0
Offer stored m =
    In m.latest_version stored
    × All (λ w. number w ≤ number m.latest_version) stored
    × OfferOf m.active m.action m.latest_version stored m.previous_version

false_iff : (v : Value) → (is_false v ≡ true) ↔ (v ≡ bool false)
false_iff undefined = (λ h. cc, λ h. cc)
false_iff null = (λ h. cc, λ h. cc)
false_iff (bool true) = (λ h. cc, λ h. cc)
false_iff (bool false) = (λ h. refl, λ h. refl)
false_iff (num n) = (λ h. cc, λ h. cc)
false_iff (str t) = (λ h. cc, λ h. cc)

retired_iff : (v : PolicyVersion) → (is_deactivated_policy_version v ≡ true) ↔ IsRetirement v
unfolding is_deactivated_policy_version
retired_iff v = ground (
  arith,
  eq_iff (policy_version_action v) "DEACTIVATED",
  false_iff v.active_upper,
  false_iff v.active,
)

below_intro : (k m n : ℕ) → k < m → whole n ≡ whole m → ltb k n ≡ true
below_intro k m n h same = ground (arith, h, same)

below_iff :
    (a c : Num) (k : ℕ)
    → a ≡ whole k
    → (num_below a c ≡ true) ↔ ((n : ℕ) × (c ≡ whole n) × (number_or_zero a < n))
below_iff a nan k h = rw h (λ less. cc, λ less. cc (less.1))
below_iff a (whole n) k h =
    rw h
      (λ less. (n, refl, ground (arith, less)), λ less. below_intro k less.0 n less.2 (cc (less.1)))

and_iff : (a b : Bool) → ((a && b) ≡ true) ↔ ((a ≡ true) × (b ≡ true))
and_iff a b = ground arith

IsPrevious-iff :
    (latest v : PolicyVersion) → IsNumbered v → (is_earlier latest v ≡ true) ↔ IsPrevious latest v
unfolding is_earlier
IsPrevious-iff latest v (k, numbered) =
    then_iff (and_iff (policy_version_action v == "PUBLISHED") _) (
      both_iff (eq_iff (policy_version_action v) "PUBLISHED")
        (below_iff (policy_version_number v) (content_number latest) k numbered))

-- The offer of the code, for versions sorted by their numbers.
module _ (latest : PolicyVersion) (stored sorted : List PolicyVersion)
    (of_sorted : (P : PolicyVersion → Type 0) → All P sorted → All P stored)
    (to_sorted : (P : PolicyVersion → Type 0) → All P stored → All P sorted)
    (numbered : All IsNumbered stored) (ranked : Ranked number sorted) where
  each-IsPrevious_iff : All (λ w. (is_earlier latest w ≡ true) ↔ IsPrevious latest w) stored
  each-IsPrevious_iff = All-map (λ w. λ h. IsPrevious-iff latest w h) stored numbered

  restores :
      (o : Option PolicyVersion)
      → last (filter (is_earlier latest) sorted) ≡ o
      → ¬ IsRetirement latest
      → OfferOf true (action_of o) latest stored o
  restores none h current = inr (
    current,
    refl,
    refl,
    All-zip
        (λ w. λ (fails : is_earlier latest w ≡ false).
          λ (iff : (is_earlier latest w ≡ true) ↔ IsPrevious latest w).
            λ previous. cc (fails, iff.1 previous))
        stored
        (of_sorted (λ w. is_earlier latest w ≡ false) (last-none (is_earlier latest) sorted h))
        each-IsPrevious_iff,
  )
  restores (some v) h current =
      let earlier = filter (is_earlier latest) sorted in
      let v_in : In v stored =
        last-All (λ w. In w stored) earlier v
          (All-filter (λ w. In w stored) (is_earlier latest) sorted
            (to_sorted (λ w. In w stored) (All-In stored)))
          h in
      let passes : is_earlier latest v ≡ true =
        last-All (λ w. is_earlier latest w ≡ true) earlier v (filter-All (is_earlier latest) sorted)
          h in
      let v_numbered : IsNumbered v =
        last-All IsNumbered earlier v
          (All-filter IsNumbered (is_earlier latest) sorted (to_sorted IsNumbered numbered)) h in
      let highest : All (λ w. number w ≤ number v) earlier =
        last-highest earlier v (filter-Ranked number (is_earlier latest) sorted ranked) h in
      (
        current,
        refl,
        refl,
        v_in,
        (IsPrevious-iff latest v v_numbered).0 passes,
        All-zip
            (λ w. λ (low : is_earlier latest w ≡ true → number w ≤ number v).
              λ (iff : (is_earlier latest w ≡ true) ↔ IsPrevious latest w).
                λ previous. low (iff.1 previous))
            stored
            (of_sorted (λ w. is_earlier latest w ≡ true → number w ≤ number v)
              (All-filter_of (λ w. number w ≤ number v) (is_earlier latest) sorted highest))
            each-IsPrevious_iff,
      )

  offers :
      (retired : Bool)
      → (retired ≡ true) ↔ IsRetirement latest
      → let active = not retired in
        let previous : Option PolicyVersion =
          (if active then last (filter (is_earlier latest) sorted) else none) in
        OfferOf active (if active then action_of previous else "NONE") latest stored previous
  offers true retired = inl (retired.0 refl, refl, refl)
  offers false retired =
      restores (last (filter (is_earlier latest) sorted)) refl (λ h. cc (retired.1 h))

module _ (locale_compare : Compare) (date_parse : Value → Num) where
  -- Where the versions of a policy are all numbered, the latest one is stored and none has a higher
  -- number, and the policy is active exactly if that one is no retirement. An active policy offers to
  -- restore its immediate previous version: a stored one, published with a lower number than the
  -- content in force, and of those none has a higher number. It offers to retire the policy where no
  -- such version is stored. A policy that is retired offers nothing.
  pub managed_policy-Offer :
      (deployments : List DeploymentRecord) (g : Group)
      → All IsNumbered (g.first ∷ g.others)
      → Offer (g.first ∷ g.others) (managed_policy locale_compare date_parse deployments g)
  unfolding managed_policy
  managed_policy-Offer deployments g numbered =
      let stored = g.first ∷ g.others in
      let sorted = sort_policy_versions locale_compare date_parse stored in
      let latest = last_or g.first sorted in
      let ranked = sort_policy_versions-Ranked locale_compare date_parse stored numbered in
      let of_sorted : (P : PolicyVersion → Type 0) → All P sorted → All P stored =
        λ P h. sorted_back locale_compare date_parse P stored h in
      let to_sorted : (P : PolicyVersion → Type 0) → All P stored → All P sorted =
        λ P h. sorted_forth locale_compare date_parse P stored h in
      (
        last-All (λ w. In w stored) sorted latest (to_sorted (λ w. In w stored) (All-In stored))
            (latest_found locale_compare date_parse g),
        of_sorted (λ w. number w ≤ number latest)
            (last-highest sorted latest ranked (latest_found locale_compare date_parse g)),
        offers latest stored sorted of_sorted to_sorted numbered ranked
            (is_deactivated_policy_version latest) (retired_iff latest),
      )
