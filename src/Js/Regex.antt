-- ===== src/Js/Regex.antt =====
-- The regular expressions of the code, each anchored at both ends: classes of characters, sequences,
-- choices, and a class repeated. `test` runs on derivatives.
pub mod Meaning
use Prim.Native.String
use otel_opamp_control_plane.Prelude.{
  ℕ, zero, suc, ◌+◌, ◌-◌, ◌*◌, ◌/◌, ◌%◌, ◌≤◌, ◌<◌, Char, code, String, ◌≡◌, refl, sym, ap, ◌∙◌,
  subst, ◌≢◌, ◌↔◌, ◌⊎◌, inl, inr, Bool, true, false, not, ◌&&◌, ◌||◌, Option, none, some, List, [],
  ◌∷◌, ◌++◌, map, reverse, foldl, arith, ◌==◌, starts_with, eq_iff, eq_refl, ltb, leb, eqb,
  is_empty, empty_lem, if◌then◌else◌, Bool-cases, Option-cases, leb→le, ltb→lt, tests, length,
  get_elem?, concat_map, any, all, filter, count, length-filter, All, All-filter, All-append,
  count-le, All-of_count_eq, count_congr, All-intro, All-map, All-zip, count-eq-length_iff,
  count-le-length,
}

pub data Regex : Type 0 where
  nothing empty : Regex
  one : (Char → Bool) → Regex
  many : (Char → Bool) → Regex
  seq : Regex → Regex → Regex
  alt : Regex → Regex → Regex

unfoldable pub nullable : Regex → Bool
nullable nothing = false
nullable empty = true
nullable (one p) = false
nullable (many p) = true
nullable (seq r t) = nullable r && nullable t
nullable (alt r t) = nullable r || nullable t

-- What may follow a character.
unfoldable pub derivative : Char → Regex → Regex
unfolding nullable
derivative c nothing = nothing
derivative c empty = nothing
derivative c (one p) = if p c then empty else nothing
derivative c (many p) = if p c then many p else nothing
derivative c (seq r t) =
    let behind = seq (derivative c r) t in
    let skipped = alt behind (derivative c t) in if nullable r then skipped else behind
derivative c (alt r t) = alt (derivative c r) (derivative c t)

-- `/^…$/.test(s)`
unfoldable pub test : Regex → String → Bool
unfolding derivative nullable
test r String.[] = nullable r
test r (String.◌∷◌ c s) = test (derivative c r) s

-- `[…]+`, `[…]{n}`, `[…]{0,n}`, `[…]{m,m+n}` and a literal
abbrev pub some_of : (Char → Bool) → Regex
some_of p = seq (one p) (many p)

unfoldable pub exactly : ℕ → (Char → Bool) → Regex
exactly zero p = empty
exactly (suc n) p = seq (one p) (exactly n p)

unfoldable pub up_to : ℕ → (Char → Bool) → Regex
up_to zero p = empty
up_to (suc n) p = alt empty (seq (one p) (up_to n p))

unfoldable pub between : ℕ → ℕ → (Char → Bool) → Regex
unfolding up_to
between zero n p = up_to n p
between (suc m) n p = seq (one p) (between m n p)

-- The character of a text of one character.
abbrev pub is_char : String → Char → Bool
is_char t c = String.◌∷◌ c "" == t

abbrev pub in_range : ℕ → ℕ → Char → Bool
in_range low high c = leb low (code c) && leb (code c) high

abbrev pub is_lower : Char → Bool
is_lower = in_range b'a' b'z'

abbrev pub is_upper : Char → Bool
is_upper = in_range b'A' b'Z'
