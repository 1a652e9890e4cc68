-- ===== src/Version/Laws.antt =====
-- Which version of a configuration is marked as the latest, and what the search keeps.
use otel_opamp_control_plane.Js.{is_true, Value, Num, nan, whole, num_eq}
use otel_opamp_control_plane.Version.{
  mark, Version, Compare, version_number, latest, tokens, matches_tokens, filter_stored_versions,
  compare_stored_versions,
}
use otel_opamp_control_plane.Prelude.{
  count-filter, subst, sym, All-intro, count_congr, length, eqb, suc, ℕ, zero, ◌≤◌, String, ◌≡◌,
  refl, ◌∙◌, ◌↔◌, inl, inr, Bool, true, false, ◌&&◌, some, List, [], ◌∷◌, arith, ltb, if◌then◌else◌,
  Bool-cases, get_elem?, filter, count, All, All-map, then_iff,
}
use otel_opamp_control_plane.Account.{number_or_zero}
use otel_opamp_control_plane.Js.Sort.Laws.{count-sort}
use otel_opamp_control_plane.Js.Sort.{sort}

-- A version with a number.
abbrev pub IsNumbered : Version → Type 0
IsNumbered v = (n : ℕ) × (version_number v ≡ whole n)

number_of : Num → ℕ
number_of nan = 0
number_of (whole n) = n

abbrev pub rank : Version → ℕ
rank v = number_or_zero (version_number v)

highest : ℕ → List Version → ℕ
highest n [] = n
highest n (v ∷ vs) = highest (if ltb n (rank v) then rank v else n) vs

latest_form :
    (n : ℕ) (vs : List Version) → All IsNumbered vs → latest (whole n) vs ≡ whole (highest n vs)
unfolding latest highest
latest_form n [] h = refl
latest_form n (v ∷ vs) ((k, number), h) = elim (Bool-cases (ltb n k)) [
  | inl less ↦ rw (number, less) (latest_form k vs h)
  | inr other ↦ rw (number, other) (latest_form n vs h)
]

highest-above :
    (n : ℕ) (vs : List Version) → (n ≤ highest n vs) × All (λ v. rank v ≤ highest n vs) vs
unfolding highest
highest-above n [] = (omega arith, tt)
highest-above n (v ∷ vs) = elim (Bool-cases (ltb n (rank v))) [
  | inl less ↦
      let (above, others) = highest-above (rank v) vs in
      let step : highest n (v ∷ vs) ≡ highest (rank v) vs = rw less refl in
      subst (λ k. (n ≤ k) × ((rank v ≤ k) × All (λ w. rank w ≤ k) vs)) (sym step)
        (ground (arith, above, less), (above, others))
  | inr other ↦
      let (above, others) = highest-above n vs in
      let step : highest n (v ∷ vs) ≡ highest n vs = rw other refl in
      subst (λ k. (n ≤ k) × ((rank v ≤ k) × All (λ w. rank w ≤ k) vs)) (sym step)
        (above, (ground (arith, above, other), others))
]

highest-least : (n m : ℕ) (vs : List Version) → n ≤ m → All (λ v. rank v ≤ m) vs → highest n vs ≤ m
unfolding highest
highest-least n m [] h hs = h
highest-least n m (v ∷ vs) h (hv, hs) = elim (Bool-cases (ltb n (rank v))) [
  | inl less ↦ rw less (highest-least (rank v) m vs hv hs)
  | inr other ↦ rw other (highest-least n m vs h hs)
]

All-at :
    (P : Version → Type 0) (vs : List Version) (i : ℕ) (v : Version)
    → All P vs
    → get_elem? vs i ≡ some v
    → P v
All-at P [] i v h at_i = cc
All-at P (w ∷ vs) zero v (hw, h) at_i = let same : w ≡ v = cc at_i in subst P same hw
All-at P (w ∷ vs) (suc i) v (hw, h) at_i = All-at P vs i v h at_i

same_number : (a b : ℕ) → (num_eq (whole a) (whole b) ≡ true) ↔ (a ≡ b)
same_number a b = ground arith

-- A version of a configuration whose versions are all numbered is marked as the latest exactly if no
-- version of the configuration has a higher number.
pub is_latest_iff :
    (id : String) (vs : List Version) (i : ℕ) (v : Version)
    → All IsNumbered vs
    → get_elem? vs i ≡ some v
    → (is_true (mark id (latest (whole 0) vs) v).is_latest ≡ true) ↔ All (λ w. rank w ≤ rank v) vs
is_latest_iff id vs i v numbered at_i =
    let (n, number) = All-at IsNumbered vs i v numbered at_i in
    let (bottom, above) = highest-above 0 vs in
    let mine : rank v ≤ highest 0 vs = All-at (λ w. rank w ≤ highest 0 vs) vs i v above at_i in
    let rank_lem : rank v ≡ n = rw number refl in
    let equal_iff : (num_eq (version_number v) (latest (whole 0) vs) ≡ true) ↔ (n ≡ highest 0 vs) =
      rw (number, latest_form 0 vs numbered) (same_number n (highest 0 vs)) in
    then_iff equal_iff (
      λ equal. All-map (λ w. λ low. omega (arith, low, equal, rank_lem)) vs above,
      λ top. omega (arith, mine, rank_lem, highest-least 0 (rank v) vs (omega arith) top),
    )

and_true : (b : Bool) → b ≡ (b && true)
and_true b = ground arith

positive : (n : ℕ) → eqb (suc n) 0 ≡ false
positive n = ground arith

module _ (locale_compare : Compare) (date_parse : Value → Num) (p : Version → Bool)
    (versions : List Version) where
  abbrev sorted : List Version
  sorted = sort (compare_stored_versions locale_compare date_parse) versions

  count_found :
      (words : List String)
      → count p (
          if eqb (length words) 0
          then sorted
          else filter (matches_tokens locale_compare date_parse words) sorted)
        ≡ count (λ v. p v && matches_tokens locale_compare date_parse words v) versions
  unfolding matches_tokens
  count_found [] =
      count-sort (compare_stored_versions locale_compare date_parse) p versions
      ∙ count_congr p (λ v. p v && true) versions
          (All-intro (λ v. p v ≡ (p v && true)) (λ v. and_true (p v)) versions)
  count_found (word ∷ words) = rw (positive (length words)) (
      count-filter p (matches_tokens locale_compare date_parse (word ∷ words)) sorted
      ∙ count-sort (compare_stored_versions locale_compare date_parse)
          (λ v. p v && matches_tokens locale_compare date_parse (word ∷ words) v) versions)

-- The search keeps each version, as often as it stands in the list, exactly if its text contains every
-- word of the query.
pub count-filter_stored_versions :
    (locale_compare : Compare) (date_parse : Value → Num) (p : Version → Bool)
    (versions : List Version) (query : Value)
    → count p (filter_stored_versions locale_compare date_parse versions query)
      ≡ count (λ v. p v && matches_tokens locale_compare date_parse (tokens query) v) versions
unfolding filter_stored_versions
count-filter_stored_versions locale_compare date_parse p versions query =
    count_found locale_compare date_parse p versions (tokens query)
