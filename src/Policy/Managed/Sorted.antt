-- ===== src/Policy/Managed/Sorted.antt =====
-- The versions of a policy in the order of `sortPolicyVersions`.
use otel_opamp_control_plane.Policy.Managed.{
  PolicyVersion, Group, last, last_or, policy_version_number, compare_policy_versions,
  sort_policy_versions,
}
use otel_opamp_control_plane.Account.{number_or_zero}
use otel_opamp_control_plane.Js.{Value, Num, whole}
use otel_opamp_control_plane.Js.Sort.{after, or_then, insert, sort}
use Prim.Native.Nat.{compare as compare_nat}
use otel_opamp_control_plane.Js.Sort.Laws.{Ranked, sort-Ranked, All-sort, sort-All_of}
use otel_opamp_control_plane.Version.{Compare, descending}
use otel_opamp_control_plane.Prelude.{
  ℕ, ◌≤◌, inl, inr, true, false, if◌then◌else◌, ◌≢◌, subst, sym, ap, ◌∙◌, ◌≡◌, Bool, Option, none,
  some, List, [], ◌∷◌, arith, Bool-cases, Option-cases, All, Ordering,
}
use otel_opamp_control_plane.Policy.Managed.Last.{last-given, last-All}

-- A version with a number.
abbrev pub IsNumbered : PolicyVersion → Type 0
IsNumbered v = (n : ℕ) × (policy_version_number v ≡ whole n)

abbrev pub number : PolicyVersion → ℕ
number v = number_or_zero (policy_version_number v)

pub last-highest :
    (versions : List PolicyVersion) (v : PolicyVersion)
    → Ranked number versions
    → last versions ≡ some v
    → All (λ w. number w ≤ number v) versions
last-highest [] v h found = tt
last-highest (w ∷ []) v h found =
    let same : w ≡ v = cc found in (subst (λ u. number w ≤ number u) same (omega arith), tt)
last-highest (w ∷ u ∷ versions) v (low, h) found = (
  last-All (λ x. number w ≤ number x) (u ∷ versions) v low found,
  last-highest (u ∷ versions) v h found,
)

above_lem :
    (k j : ℕ) (rest : Ordering)
    → elim (or_then (compare_nat k j) rest) [ Ordering.gt ↦ true | _ ↦ false ] ≡ true
    → j ≤ k
above_lem k j rest h = ground (arith, h)

below_lem :
    (k j : ℕ) (rest : Ordering)
    → elim (or_then (compare_nat k j) rest) [ Ordering.gt ↦ true | _ ↦ false ] ≡ false
    → k ≤ j
below_lem k j rest h = ground (arith, h)

abbrev is_after : Ordering → Bool
is_after sign = elim sign [ Ordering.gt ↦ true | _ ↦ false ]

above_numbers :
    (a b : Num) (k j : ℕ) (rest : Ordering)
    → a ≡ whole k
    → b ≡ whole j
    → is_after (or_then (descending b a) rest) ≡ true
    → number_or_zero b ≤ number_or_zero a
above_numbers a b k j rest ha hb = rw (ha, hb) (above_lem k j rest)

below_numbers :
    (a b : Num) (k j : ℕ) (rest : Ordering)
    → a ≡ whole k
    → b ≡ whole j
    → is_after (or_then (descending b a) rest) ≡ false
    → number_or_zero a ≤ number_or_zero b
below_numbers a b k j rest ha hb = rw (ha, hb) (below_lem k j rest)

abbrev given_or : PolicyVersion → Option PolicyVersion → PolicyVersion
given_or default o = elim o [ none ↦ default | some x ↦ x ]

insert-given :
    (compare : PolicyVersion → PolicyVersion → Ordering) (x : PolicyVersion)
    (versions : List PolicyVersion)
    → last (insert compare x versions) ≢ none
unfolding insert
insert-given compare x [] h = cc h
insert-given compare x (y ∷ ys) h = elim (Bool-cases (after compare x y)) [
  | inl moves ↦
      last-given (insert compare x ys) y
        (subst (λ b. last (if b then y ∷ insert compare x ys else x ∷ y ∷ ys) ≡ none) moves h)
  | inr stays ↦
      last-given (y ∷ ys) x
        (subst (λ b. last (if b then y ∷ insert compare x ys else x ∷ y ∷ ys) ≡ none) stays h)
]

module _ (locale_compare : Compare) (date_parse : Value → Num) where
  pub sort_policy_versions-Ranked :
      (versions : List PolicyVersion)
      → All IsNumbered versions
      → Ranked number (sort_policy_versions locale_compare date_parse versions)
  unfolding sort_policy_versions compare_policy_versions
  sort_policy_versions-Ranked versions h =
      sort-Ranked (compare_policy_versions locale_compare date_parse) number IsNumbered
        (λ x y. λ (k, x_number) (j, y_number).
          above_numbers (policy_version_number x) (policy_version_number y) k j _ x_number y_number)
        (λ x y. λ (k, x_number) (j, y_number).
          below_numbers (policy_version_number x) (policy_version_number y) k j _ x_number y_number)
        versions h

  pub sorted_back :
      (P : PolicyVersion → Type 0) (versions : List PolicyVersion)
      → All P (sort_policy_versions locale_compare date_parse versions)
      → All P versions
  unfolding sort_policy_versions
  sorted_back P versions h =
      sort-All_of (compare_policy_versions locale_compare date_parse) P versions h

  pub sorted_forth :
      (P : PolicyVersion → Type 0) (versions : List PolicyVersion)
      → All P versions
      → All P (sort_policy_versions locale_compare date_parse versions)
  unfolding sort_policy_versions
  sorted_forth P versions h =
      All-sort (compare_policy_versions locale_compare date_parse) P versions h

  -- There is a last version.
  pub latest_found :
      (g : Group)
      → let sorted = sort_policy_versions locale_compare date_parse (g.first ∷ g.others) in
        last sorted ≡ some (last_or g.first sorted)
  unfolding sort_policy_versions sort
  latest_found g =
      let compare = compare_policy_versions locale_compare date_parse in
      let sorted = insert compare g.first (sort compare g.others) in
      elim (Option-cases (last sorted)) [
        | inl missing ↦ absurd (insert-given compare g.first (sort compare g.others) missing)
        | inr (v, found) ↦ found ∙ ap some (sym (ap (given_or g.first) found))
      ]
