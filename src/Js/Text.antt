-- ===== src/Js/Text.antt =====
-- The `String` methods that the code calls. Case mapping is that of ASCII, which all tokens of the
-- control plane's protocol are; other characters are left as they are.
pub mod Laws
use otel_opamp_control_plane.Prelude.{
  ℕ, ◌-◌, ◌+◌, Char, code, String, Bool, is_empty, ◌&&◌, ◌||◌, eqb, leb, ltb, if◌then◌else◌,
  starts_with, List, [], ◌∷◌,
}
use Prim.Native.String

-- White space and line terminators, as `trim` and `\s` take them.
unfoldable pub is_space : Char → Bool
is_space c =
    let n = code c in
    leb 9 n && leb n 13
    || eqb n 32
    || eqb n 160
    || eqb n 0x1680
    || leb 0x2000 n && leb n 0x200a
    || eqb n 0x2028
    || eqb n 0x2029
    || eqb n 0x202f
    || eqb n 0x205f
    || eqb n 0x3000
    || eqb n 0xfeff

unfoldable pub trim_start : String → String
trim_start String.[] = String.[]
trim_start (String.◌∷◌ c s) = let rest = trim_start s in if is_space c then rest else String.◌∷◌ c s

-- A character joined to what is left of the text behind it.
abbrev close : Char → String → String
close c String.[] = if is_space c then String.[] else String.◌∷◌ c String.[]
close c (String.◌∷◌ d s) = String.◌∷◌ c (String.◌∷◌ d s)

unfoldable pub trim_end : String → String
trim_end String.[] = String.[]
trim_end (String.◌∷◌ c s) = close c (trim_end s)

unfoldable pub trim : String → String
unfolding trim_start trim_end
trim s = trim_end (trim_start s)

upper_char : Char → Char
upper_char c =
    if leb b'a' (code c) && leb (code c) b'z'
    then String.char_at "ABCDEFGHIJKLMNOPQRSTUVWXYZ" (code c - b'a')
    else c

lower_char : Char → Char
lower_char c =
    if leb b'A' (code c) && leb (code c) b'Z'
    then String.char_at "abcdefghijklmnopqrstuvwxyz" (code c - b'A')
    else c

unfoldable pub to_upper : String → String
unfolding upper_char
to_upper String.[] = String.[]
to_upper (String.◌∷◌ c s) = String.◌∷◌ (upper_char c) (to_upper s)

unfoldable pub to_lower : String → String
unfolding lower_char
to_lower String.[] = String.[]
to_lower (String.◌∷◌ c s) = String.◌∷◌ (lower_char c) (to_lower s)

-- `s.includes(t)`
unfoldable pub includes : String → String → Bool
includes String.[] t = is_empty t
includes (String.◌∷◌ c s) t = starts_with (String.◌∷◌ c s) t || includes s t

-- `parts.join(sep)`
unfoldable pub join : String → List String → String
join sep [] = ""
join sep (s ∷ []) = s
join sep (s ∷ t ∷ ts) = String.◌++◌ s (String.◌++◌ sep (join sep (t ∷ ts)))

-- `s.length`: UTF-16 code units.
unfoldable pub utf16_length : String → ℕ
utf16_length String.[] = 0
utf16_length (String.◌∷◌ c s) = (if ltb (code c) 0x10000 then 1 else 2) + utf16_length s

-- `new TextEncoder().encode(s).length`
utf8_units : ℕ → ℕ
utf8_units n = if ltb n 0x80 then 1 else if ltb n 0x800 then 2 else if ltb n 0x10000 then 3 else 4

unfoldable pub utf8_length : String → ℕ
unfolding utf8_units
utf8_length String.[] = 0
utf8_length (String.◌∷◌ c s) = utf8_units (code c) + utf8_length s
