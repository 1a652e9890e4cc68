-- ===== src/Js/Double.antt =====
-- The doubles that are whole and not negative, with the rounding of their arithmetic: to the nearest
-- one, to the even one of two that are as near, and to infinity from 2 ^ 1024 on.
use otel_opamp_control_plane.Prelude.{
  ℕ, zero, suc, ◌+◌, ◌-◌, ◌*◌, ◌/◌, ◌%◌, ◌^◌, ◌≤◌, ◌<◌, ◌≡◌, refl, ap, ◌∙◌, Bool, true, false,
  arith, ltb, leb, eqb, if◌then◌else◌,
}

pub data Double : Type 0 where
  finite : ℕ → Double
  infinite : Double

-- The nearest multiple of a unit.
unfoldable pub nearest : (unit n : ℕ) → ℕ
nearest unit n =
    let below = n / unit in
    let rest = n % unit in
    if ltb (2 * rest) unit
    then below * unit
    else if ltb unit (2 * rest)
    then (below + 1) * unit
    else if eqb (below % 2) 0
    then below * unit
    else (below + 1) * unit

unfoldable pub bounded : ℕ → Double
bounded n = if ltb n (2 ^ 1024) then finite n else infinite

-- The unit is doubled until 53 binary digits are enough.
unfoldable pub round_from : (fuel unit n : ℕ) → Double
unfolding nearest bounded
round_from zero unit n = infinite
round_from (suc fuel) unit n =
    let coarser = round_from fuel (2 * unit) n in
    if ltb (n / unit) (2 ^ 53) then bounded (nearest unit n) else coarser

-- The units of the finite doubles are those from 1 to 2 ^ 971.
unfoldable pub to_double : ℕ → Double
unfolding round_from
to_double n = round_from 972 1 n

-- `a * n` for a positive `n`, and `a + b`.
unfoldable pub times : Double → ℕ → Double
times (finite a) n = to_double (a * n)
times infinite n = infinite

unfoldable pub plus : Double → Double → Double
plus (finite a) (finite b) = to_double (a + b)
plus _ _ = infinite

-- `a <= b`
abbrev pub double_leb : Double → Double → Bool
double_leb _ infinite = true
double_leb infinite (finite b) = false
double_leb (finite a) (finite b) = leb a b

nearest-one : (n : ℕ) → nearest 1 n ≡ n
unfolding nearest
nearest-one n = ground arith

below_bound : (n bound limit : ℕ) → n < bound → bound ≤ limit → ltb n limit ≡ true
below_bound n bound limit h k = ground arith

bounded_small : (n : ℕ) → n < 2 ^ 53 → bounded n ≡ finite n
unfolding bounded
bounded_small n h = rw (below_bound n (2 ^ 53) (2 ^ 1024) h (omega arith)) refl

over_one : (n bound : ℕ) → n < bound → ltb (n / 1) bound ≡ true
over_one n bound h = ground arith

round_from_small : (fuel n : ℕ) → n < 2 ^ 53 → round_from (suc fuel) 1 n ≡ finite n
unfolding round_from
round_from_small fuel n h =
    rw (over_one n (2 ^ 53) h) (ap bounded (nearest-one n) ∙ bounded_small n h)

-- A number below 2 ^ 53 is a double.
pub to_double_small : (n : ℕ) → n < 2 ^ 53 → to_double n ≡ finite n
unfolding to_double
to_double_small n h = round_from_small 971 n h

-- Two neighbours are as near: the even one is taken.
rounds_to_even : to_double 9007199254740993 ≡ finite 9007199254740992
unfolding to_double round_from bounded nearest
rounds_to_even = refl

overflows : to_double (2 ^ 1024) ≡ infinite
unfolding to_double round_from bounded nearest
overflows = refl

largest : to_double (2 ^ 1024 - 2 ^ 970 - 1) ≡ finite (2 ^ 1024 - 2 ^ 971)
unfolding to_double round_from bounded nearest
largest = refl
