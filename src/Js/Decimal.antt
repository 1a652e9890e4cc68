-- ===== src/Js/Decimal.antt =====
-- Whole numbers in decimal, as a template prints them and as `Number` reads them back.
use otel_opamp_control_plane.Prelude.{
  ℕ, zero, suc, ◌-◌, ◌+◌, ◌*◌, ◌/◌, ◌%◌, ◌<◌, Char, code, String, Bool, true, false, ◌&&◌, is_empty,
  leb, ltb, if◌then◌else◌, Option, none, some, ◌≡◌, refl, arith, ap, ◌∙◌, sym, inl, inr, Bool-cases,
  tests,
}
use Prim.Native.String

digit : ℕ → Char
digit d = String.char_at "0123456789" d

-- `acc` holds the digits behind those still to be written.
print_from : ℕ → ℕ → String → String
print_from zero n acc = acc
print_from (suc fuel) n acc =
    let rest = print_from fuel (n / 10) (String.◌∷◌ (digit (n % 10)) acc) in
    if ltb n 10 then String.◌∷◌ (digit n) acc else rest

-- `${n}`; every round divides by ten, so `n + 1` rounds are enough.
unfoldable pub decimal : ℕ → String
unfolding print_from digit
decimal n = print_from (suc n) n ""

unfoldable pub is_digit : Char → Bool
is_digit c = leb b'0' (code c) && leb (code c) b'9'

parse_from : ℕ → String → Option ℕ
parse_from acc String.[] = some acc
parse_from acc (String.◌∷◌ c s) =
    let rest = parse_from (acc * 10 + (code c - b'0')) s in if is_digit c then rest else none

-- The number that a text of decimal digits stands for.
unfoldable pub parse : String → Option ℕ
unfolding parse_from is_digit
parse s = if is_empty s then none else parse_from 0 s

-- Digits, one by one.
digit_table : (d : ℕ) → d < 10 → (is_digit (digit d) ≡ true) × (code (digit d) - b'0' ≡ d)
unfolding digit is_digit
digit_table zero h = (refl, refl)
digit_table (suc zero) h = (refl, refl)
digit_table (suc (suc zero)) h = (refl, refl)
digit_table (suc (suc (suc zero))) h = (refl, refl)
digit_table (suc (suc (suc (suc zero)))) h = (refl, refl)
digit_table (suc (suc (suc (suc (suc zero))))) h = (refl, refl)
digit_table (suc (suc (suc (suc (suc (suc zero)))))) h = (refl, refl)
digit_table (suc (suc (suc (suc (suc (suc (suc zero))))))) h = (refl, refl)
digit_table (suc (suc (suc (suc (suc (suc (suc (suc zero)))))))) h = (refl, refl)
digit_table (suc (suc (suc (suc (suc (suc (suc (suc (suc zero))))))))) h = (refl, refl)
digit_table (suc (suc (suc (suc (suc (suc (suc (suc (suc (suc n)))))))))) h = absurd (omega arith)

parse_from-digit :
    (acc d : ℕ) (s : String)
    → d < 10
    → parse_from acc (String.◌∷◌ (digit d) s) ≡ parse_from (acc * 10 + d) s
unfolding parse_from
parse_from-digit acc d s h =
    let (ok, value) = digit_table d h in rw ok (ap (λ k. parse_from (acc * 10 + k) s) value)

parse_from-print_from :
    (fuel n : ℕ) (acc : String) → n < fuel → parse_from 0 (print_from fuel n acc) ≡ parse_from n acc
unfolding print_from
parse_from-print_from zero n acc h = elim h [ ]
parse_from-print_from (suc fuel) n acc h = elim (Bool-cases (ltb n 10)) [
  | inl small ↦
      rw small (parse_from-digit 0 n acc (omega tests) ∙ ap (λ k. parse_from k acc) (omega arith))
  | inr big ↦ rw big (
      parse_from-print_from fuel (n / 10) (String.◌∷◌ (digit (n % 10)) acc) (ground arith)
      ∙ parse_from-digit (n / 10) (n % 10) acc (omega arith)
      ∙ ap (λ k. parse_from k acc) (omega arith))
]

print_from-ne-nil :
    (fuel n : ℕ) (acc : String) → n < fuel → is_empty (print_from fuel n acc) ≡ false
unfolding print_from
print_from-ne-nil zero n acc h = elim h [ ]
print_from-ne-nil (suc fuel) n acc h = elim (Bool-cases (ltb n 10)) [
  | inl small ↦ rw small refl
  | inr big ↦
      rw big (print_from-ne-nil fuel (n / 10) (String.◌∷◌ (digit (n % 10)) acc) (ground arith))
]

-- What a template prints, `Number` reads back.
pub parse-decimal : (n : ℕ) → parse (decimal n) ≡ some n
unfolding parse decimal
parse-decimal n =
    rw (print_from-ne-nil (suc n) n "" (omega arith))
      (parse_from-print_from (suc n) n "" (omega arith))

some_injective : {a b : ℕ} → some a ≡ some b → a ≡ b
some_injective h = cc

-- So different numbers print differently.
pub decimal-injective : (a b : ℕ) → decimal a ≡ decimal b → a ≡ b
decimal-injective a b h = some_injective (sym (parse-decimal a) ∙ ap parse h ∙ parse-decimal b)

decimal_runs : decimal 10307 ≡ "10307"
unfolding decimal
decimal_runs = refl

abbrev pub all_digits : String → Bool
all_digits String.[] = true
all_digits (String.◌∷◌ c s) = is_digit c && all_digits s

parse_from-digits : (s : String) (acc n : ℕ) → parse_from acc s ≡ some n → all_digits s ≡ true
unfolding parse_from
parse_from-digits String.[] acc n h = refl
parse_from-digits (String.◌∷◌ c s) acc n h = elim (Bool-cases (is_digit c)) [
  | inl numeral ↦
      rw numeral
        (parse_from-digits s (acc * 10 + (code c - b'0')) n (rw (numeral, parse_from) at h))
  | inr other ↦ cc (rw (other, parse_from) at h)
]

parse-digits : (s : String) (n : ℕ) → parse s ≡ some n → all_digits s ≡ true
unfolding parse
parse-digits s n h = elim (Bool-cases (is_empty s)) [
  | inl empty ↦ cc (rw (empty, parse) at h)
  | inr given ↦ parse_from-digits s 0 n (rw (given, parse) at h)
]

pub decimal-digits : (n : ℕ) → all_digits (decimal n) ≡ true
decimal-digits n = parse-digits (decimal n) n (parse-decimal n)
