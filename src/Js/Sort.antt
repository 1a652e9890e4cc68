-- ===== src/Js/Sort.antt =====
-- `xs.sort(compare)` as an insertion sort: it is stable, as the language demands, and every stable sort
-- gives the same list. The sign of the comparison stands for its number.
pub mod Laws
-- `a || b` of two comparisons.
use Prim.Native.Nat.{Ordering}
use otel_opamp_control_plane.Prelude.{
  ℕ, zero, suc, ◌+◌, ◌-◌, ◌*◌, ◌/◌, ◌%◌, ◌≤◌, ◌<◌, Char, code, String, ◌≡◌, refl, sym, ap, ◌∙◌,
  subst, ◌≢◌, ◌↔◌, ◌⊎◌, inl, inr, Bool, true, false, not, ◌&&◌, ◌||◌, Option, none, some, List, [],
  ◌∷◌, ◌++◌, map, reverse, foldl, arith, ◌==◌, starts_with, eq_iff, eq_refl, ltb, leb, eqb,
  is_empty, empty_lem, if◌then◌else◌, Bool-cases, Option-cases, leb→le, ltb→lt, tests, length,
  get_elem?, concat_map, any, all, filter, count, length-filter, All, All-filter, All-append,
  count-le, All-of_count_eq, count_congr, All-intro, All-map, All-zip, count-eq-length_iff,
  count-le-length, then_iff, both_iff, not-false, not_below, same_iff, not_equal_iff,
  equal_false_iff, not_or, not_zero,
}

abbrev pub or_then : Ordering → Ordering → Ordering
or_then Ordering.eq other = other
or_then sign other = sign

module _ {A : Type 0} (compare : A → A → Ordering) where
  abbrev pub after : A → A → Bool
  after x y = elim (compare x y) [ Ordering.gt ↦ true | _ ↦ false ]

  -- In front of the first element that it may precede.
  unfoldable pub insert : A → List A → List A
  insert x [] = x ∷ []
  insert x (y ∷ ys) = let rest = insert x ys in if after x y then y ∷ rest else x ∷ y ∷ ys

  unfoldable pub sort : List A → List A
  unfolding insert
  sort [] = []
  sort (x ∷ xs) = insert x (sort xs)
