-- ===== src/Js/Object.antt =====
-- Objects as dictionaries: `Object.fromEntries`, and the value of a key.
pub mod Laws
use otel_opamp_control_plane.Prelude.{
  ℕ, zero, suc, ◌+◌, ◌-◌, ◌*◌, ◌/◌, ◌%◌, ◌≤◌, ◌<◌, Char, code, String, ◌≡◌, refl, sym, ap, ◌∙◌,
  subst, ◌≢◌, ◌↔◌, ◌⊎◌, inl, inr, Bool, true, false, not, ◌&&◌, ◌||◌, Option, none, some, List, [],
  ◌∷◌, ◌++◌, map, reverse, foldl, arith, ◌==◌, starts_with, eq_iff, eq_refl, ltb, leb, eqb,
  is_empty, empty_lem, if◌then◌else◌, Bool-cases, Option-cases, leb→le, ltb→lt, tests, length,
  get_elem?, concat_map, any, all, filter, count, length-filter, All, All-filter, All-append,
  count-le, All-of_count_eq, count_congr, All-intro, All-map, All-zip, count-eq-length_iff,
  count-le-length, then_iff, both_iff, not-false, not_below, same_iff, not_equal_iff,
  equal_false_iff, not_or, not_zero,
}

module _ {A : Type 0} where
  -- An assignment to a key of an object: a key that is there keeps its place.
  unfoldable pub assign : List (String × A) → String → A → List (String × A)
  assign [] key value = (key, value) ∷ []
  assign ((k, v) ∷ pairs) key value =
      let rest = assign pairs key value in if k == key then (key, value) ∷ pairs else (k, v) ∷ rest

  -- `Object.fromEntries(pairs)`, from the object so far.
  unfoldable pub from_entries : List (String × A) → List (String × A) → List (String × A)
  unfolding assign
  from_entries object [] = object
  from_entries object ((key, value) ∷ pairs) = from_entries (assign object key value) pairs

  -- The value of a key of an object.
  abbrev pub get : List (String × A) → String → Option A
  get [] key = none
  get ((k, v) ∷ pairs) key = let rest = get pairs key in if k == key then some v else rest
