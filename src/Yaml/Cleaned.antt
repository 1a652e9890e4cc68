-- ===== src/Yaml/Cleaned.antt =====
-- What `sanitizeEffectiveCollectorConfig` makes of a configuration.
use Prim.Native.String
use text.Mathlib.TextLemmas.{nil-append, cons-append}
use text.Mathlib.TextEquality.{Char-path}
use otel_opamp_control_plane.Yaml.{
  before_first, sanitize_lines, split_lines, unix_newlines, Sanitized,
  sanitize_effective_collector_config,
}
use otel_opamp_control_plane.Yaml.Left.{Left}
use otel_opamp_control_plane.Yaml.Laws.{IsClean, IsCleaned, sanitize_lines-IsCleaned}
use otel_opamp_control_plane.Js.{Value, text_of}
use otel_opamp_control_plane.Js.Text.{trim_end, join}
use otel_opamp_control_plane.Prelude.{
  ◌<◌, Char, code, String, ◌≡◌, refl, sym, ap, ◌∙◌, ◌≢◌, ◌⊎◌, inl, inr, true, List, [], ◌∷◌, arith,
  eqb, Bool-cases, length,
}

newline : Char
newline = String.char_at "\n" 0

is_newline : (c : Char) → eqb (code c) 10 ≡ true → c ≡ newline
unfolding newline
is_newline c h = Char-path c (String.char_at "\n" 0) (ground (arith, h))

join-before_first :
    (c : Char) (lines : List String)
    → join "\n" (before_first c lines) ≡ String.◌∷◌ c (join "\n" lines)
unfolding join
join-before_first c [] = refl
join-before_first c (line ∷ []) = refl
join-before_first c (line ∷ next ∷ lines) = cons-append c line _

before_first-given : (c : Char) (lines : List String) → before_first c lines ≢ []
before_first-given c [] h = cc h
before_first-given c (line ∷ lines) h = cc h

split_lines-given : (s : String) → split_lines s ≢ []
unfolding split_lines
split_lines-given String.[] h = cc h
split_lines-given (String.◌∷◌ c s) h = elim (Bool-cases (eqb (code c) 10)) [
  | inl ends ↦ cc (rw ends at h)
  | inr other ↦ before_first-given c (split_lines s) (rw other at h)
]

newline_append : (s : String) → String.◌++◌ "\n" s ≡ String.◌∷◌ newline s
unfolding newline
newline_append s = cons-append newline "" s ∙ ap (String.◌∷◌ newline) (nil-append s)

join-empty :
    (lines : List String)
    → lines ≢ []
    → join "\n" ("" ∷ lines) ≡ String.◌∷◌ newline (join "\n" lines)
unfolding join
join-empty [] h = absurd (h refl)
join-empty (line ∷ lines) h = nil-append _ ∙ newline_append _

join-split_lines : (s : String) → join "\n" (split_lines s) ≡ s
unfolding split_lines join
join-split_lines String.[] = refl
join-split_lines (String.◌∷◌ c s) = elim (Bool-cases (eqb (code c) 10)) [
  | inl ends ↦ rw ends (
      join-empty (split_lines s) (split_lines-given s)
      ∙ ap (λ d. String.◌∷◌ d (join "\n" (split_lines s))) (sym (is_newline c ends))
      ∙ ap (String.◌∷◌ c) (join-split_lines s))
  | inr other ↦
      rw other (join-before_first c (split_lines s) ∙ ap (String.◌∷◌ c) (join-split_lines s))
]

-- A clean document is left as it is, and nothing is reported; of any other one something is reported,
-- and it has fewer lines afterwards.
abbrev pub Outcome : (document : String) (left : List String) → Sanitized → Type 0
Outcome document left result =
    (IsClean (split_lines document)
      × (result.removed ≡ [])
      × (result.body ≡ String.◌++◌ (trim_end document) "\n"))
    ⊎ ((¬ IsClean (split_lines document))
        × (result.removed ≢ [])
        × (length left < length (split_lines document)))

outcome_lem :
    (document : String) (result : List String × List String)
    → IsCleaned (IsClean (split_lines document)) (split_lines document) result
    → Outcome document result.0
        (record { body = String.◌++◌ (trim_end (join "\n" result.0)) "\n"; removed = result.1 })
outcome_lem document (left, removed) (h, said) = elim said [
  | inl (given, unclean, fewer) ↦ inr (unclean, given, fewer)
  | inr (empty, clean, same) ↦ inl (
    clean,
    empty,
    ap (λ ls. String.◌++◌ (trim_end (join "\n" ls)) "\n") same
        ∙ ap (λ t. String.◌++◌ (trim_end t) "\n") (join-split_lines document),
  )
]

-- `sanitizeEffectiveCollectorConfig` keeps some of the lines of the document in their order, adds none,
-- and ends with one line break in place of the white space at the end. It reports nothing exactly if the
-- document has no entry of `service.telemetry.resource` and of `extensions.opamp`, no use of `opamp`
-- in `service.extensions`, and neither `http: null` nor `grpc: null` in `extensions.health_check`; then
-- only the white space at its end goes. Otherwise it has fewer lines, before its end is trimmed.
pub sanitize_effective_collector_config_lem :
    (body : Value)
    → let document = unix_newlines (text_of body) in
      let result = sanitize_effective_collector_config body in
      (left : List String) × Left left (split_lines document)
      × (result.body ≡ String.◌++◌ (trim_end (join "\n" left)) "\n")
      × Outcome document left result
unfolding sanitize_effective_collector_config
sanitize_effective_collector_config_lem body =
    let document = unix_newlines (text_of body) in
    let lines = split_lines document in
    let cleaned = sanitize_lines-IsCleaned lines in
    ((sanitize_lines lines).0, cleaned.0, refl, outcome_lem document (sanitize_lines lines) cleaned)
