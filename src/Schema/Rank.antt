-- ===== src/Schema/Rank.antt =====
-- The rank of a version that is printed as a template prints it.
use otel_opamp_control_plane.Schema.{rank_of_text, policy_schema_rank, split_dot}
use otel_opamp_control_plane.Js.{text_of_given, str}
use otel_opamp_control_plane.Js.Decimal.{
  all_digits, decimal-digits, is_digit, decimal, parse-decimal,
}
use otel_opamp_control_plane.Js.Double.{to_double, times, plus, to_double_small, finite}
use Prim.Native.String
use text.Mathlib.TextLemmas.{nil-append, cons-append}
use otel_opamp_control_plane.Js.Text.{trim, trim_start, trim_end, is_space}
use otel_opamp_control_plane.Prelude.{
  ℕ, ◌+◌, ◌*◌, ◌^◌, ◌<◌, Char, code, String, ◌≡◌, refl, ap, ◌∙◌, Bool, true, false, not, ◌&&◌, some,
  arith, eqb,
}

solid : String → Bool
solid String.[] = true
solid (String.◌∷◌ c s) = not (is_space c) && solid s

solid_head : (space rest : Bool) → (not space && rest) ≡ true → space ≡ false
solid_head space rest h = ground arith

solid_tail : (space rest : Bool) → (not space && rest) ≡ true → rest ≡ true
solid_tail space rest h = ground arith

trim_start_of_solid : (s : String) → solid s ≡ true → trim_start s ≡ s
unfolding trim_start solid
trim_start_of_solid String.[] h = refl
trim_start_of_solid (String.◌∷◌ c s) h =
    let inner = solid_head (is_space c) (solid s) h in rw inner refl

trim_end_of_solid : (s : String) → solid s ≡ true → trim_end s ≡ s
unfolding trim_end solid
trim_end_of_solid String.[] h = refl
trim_end_of_solid (String.◌∷◌ c String.[]) h =
    let inner = solid_head (is_space c) true h in rw inner refl
trim_end_of_solid (String.◌∷◌ c (String.◌∷◌ d s)) h =
    let rest = solid_tail (is_space c) (solid (String.◌∷◌ d s)) h in
    rw (trim_end_of_solid (String.◌∷◌ d s) rest) refl

digit-solid : (c : Char) → is_digit c ≡ true → is_space c ≡ false
unfolding is_digit is_space
digit-solid c h = ground arith

digits-solid : (s : String) → all_digits s ≡ true → solid s ≡ true
unfolding solid
digits-solid String.[] h = refl
digits-solid (String.◌∷◌ c s) h = ground (arith, digit-solid c, digits-solid s)

solid-append : (s t : String) → solid s ≡ true → solid t ≡ true → solid (String.◌++◌ s t) ≡ true
unfolding solid
solid-append String.[] t h k = rw (nil-append t) k
solid-append (String.◌∷◌ c s) t h k = rw (cons-append c s t) (ground (arith, solid-append s t))

digits_tail : (head rest : Bool) → (head && rest) ≡ true → rest ≡ true
digits_tail head rest h = ground arith

digit-ne-dot : (c : Char) → is_digit c ≡ true → eqb (code c) 46 ≡ false
unfolding is_digit
digit-ne-dot c h = ground arith

digits_head : (head rest : Bool) → (head && rest) ≡ true → head ≡ true
digits_head head rest h = ground arith

dot : Char
dot = String.char_at "." 0

dot_append : (t : String) → String.◌++◌ "." t ≡ String.◌∷◌ dot t
unfolding dot
dot_append t = cons-append (String.char_at "." 0) "" t ∙ ap (String.◌∷◌ dot) (nil-append t)

split_dot-append :
    (s t : String)
    → all_digits s ≡ true
    → split_dot (String.◌++◌ s (String.◌∷◌ dot t)) ≡ some (s, t)
unfolding split_dot dot
split_dot-append String.[] t h = rw (nil-append (String.◌∷◌ dot t)) refl
split_dot-append (String.◌∷◌ c s) t h =
    let rest = split_dot-append s t (digits_tail (is_digit c) (all_digits s) h) in
    let other = digit-ne-dot c (digits_head (is_digit c) (all_digits s) h) in
    rw (cons-append c s (String.◌∷◌ dot t)) (rw (other, rest) refl)

dot-solid : (t : String) → solid t ≡ true → solid (String.◌∷◌ dot t) ≡ true
unfolding solid dot is_space
dot-solid t h = h

trim_of_solid : (s : String) → solid s ≡ true → trim s ≡ s
unfolding trim
trim_of_solid s h = rw (trim_start_of_solid s h) (trim_end_of_solid s h)

rank-exact :
    (major minor : ℕ)
    → major * 1000 + minor < 2 ^ 53
    → plus (times (to_double major) 1000) (to_double minor) ≡ finite (major * 1000 + minor)
unfolding plus times
rank-exact major minor h =
    ap (λ d. plus (times d 1000) (to_double minor)) (to_double_small major (omega (arith, h)))
    ∙ ap (λ d. plus d (to_double minor)) (to_double_small (major * 1000) (omega (arith, h)))
    ∙ ap (plus (finite (major * 1000))) (to_double_small minor (omega (arith, h)))
    ∙ to_double_small (major * 1000 + minor) h

rank_of_text-version :
    (major minor : ℕ)
    → major * 1000 + minor < 2 ^ 53
    → rank_of_text (String.◌++◌ (decimal major) (String.◌∷◌ dot (decimal minor)))
      ≡ some (finite (major * 1000 + minor))
unfolding rank_of_text
rank_of_text-version major minor h =
    rw (split_dot-append (decimal major) (decimal minor) (decimal-digits major), rank_of_text)
      (rw (parse-decimal major, parse-decimal minor) (ap some (rank-exact major minor h)))

-- The rank of a version that is printed as `major.minor` is `major * 1000 + minor`, where that is less
-- than 2 ^ 53.
pub policy_schema_rank-version :
    (major minor : ℕ)
    → major * 1000 + minor < 2 ^ 53
    → policy_schema_rank (str (String.◌++◌ (decimal major) (String.◌++◌ "." (decimal minor))))
      ≡ some (finite (major * 1000 + minor))
unfolding policy_schema_rank
policy_schema_rank-version major minor h =
    let text = String.◌++◌ (decimal major) (String.◌∷◌ dot (decimal minor)) in
    let hard : solid text ≡ true =
      solid-append (decimal major) (String.◌∷◌ dot (decimal minor))
        (digits-solid _ (decimal-digits major))
        (dot-solid (decimal minor) (digits-solid _ (decimal-digits minor))) in
    rw (dot_append (decimal minor)) (
      ap rank_of_text (ap trim (text_of_given text) ∙ trim_of_solid text hard)
      ∙ rank_of_text-version major minor h)
