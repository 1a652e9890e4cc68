-- ===== src/Provider/Gate.antt =====
-- `createLatestRequestGate`: which of the requests that a page has begun is the latest. The counter is
-- the state.
pub mod Laws
use otel_opamp_control_plane.Prelude.{
  ℕ, zero, suc, ◌+◌, ◌-◌, ◌*◌, ◌/◌, ◌%◌, ◌≤◌, ◌<◌, Char, code, String, ◌≡◌, refl, sym, ap, ◌∙◌,
  subst, ◌≢◌, ◌↔◌, ◌⊎◌, inl, inr, Bool, true, false, not, ◌&&◌, ◌||◌, Option, none, some, List, [],
  ◌∷◌, ◌++◌, map, reverse, foldl, arith, ◌==◌, starts_with, eq_iff, eq_refl, ltb, leb, eqb,
  is_empty, empty_lem, if◌then◌else◌, Bool-cases, Option-cases, leb→le, ltb→lt, tests, length,
  get_elem?, concat_map, any, all, filter, count, length-filter, All, All-filter, All-append,
  count-le, All-of_count_eq, count_congr, All-intro, All-map, All-zip, count-eq-length_iff,
  count-le-length, then_iff, both_iff, not-false, not_below, same_iff, not_equal_iff,
  equal_false_iff, not_or, not_zero,
}

pub data Event : Type 0 where
  begin invalidate : Event

-- The state after an event; `begin` also returns it as the request's number.
unfoldable pub step : ℕ → Event → ℕ
step generation begin = generation + 1
step generation invalidate = generation + 1

unfoldable pub begun : ℕ → ℕ
begun generation = step generation begin

unfoldable pub is_current : ℕ → ℕ → Bool
is_current generation candidate = eqb candidate generation

unfoldable pub run : ℕ → List Event → ℕ
unfolding step
run generation [] = generation
run generation (event ∷ events) = run (step generation event) events
