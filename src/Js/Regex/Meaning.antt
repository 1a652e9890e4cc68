-- ===== src/Js/Regex/Meaning.antt =====
-- What a regular expression means, and that `test` decides it.
use otel_opamp_control_plane.Prelude.{
  zero, suc, ◌≤◌, is_empty, ℕ, ◌+◌, Char, String, ◌≡◌, refl, sym, ap, ◌∙◌, subst, ◌↔◌, ◌⊎◌, inl,
  inr, Bool, true, false, ◌&&◌, ◌||◌, arith, Bool-cases,
}
use otel_opamp_control_plane.Js.Regex.{
  between, some_of, exactly, up_to, Regex, nothing, empty, one, many, seq, alt, nullable,
  derivative, test,
}
use text.Mathlib.TextLemmas.{nil-append, cons-append}
use Prim.Native.String

-- All characters of a text pass.
abbrev pub AllChars : (Char → Bool) → String → Type 0
AllChars p String.[] = Unit
AllChars p (String.◌∷◌ c s) = (p c ≡ true) × AllChars p s

abbrev pub Matches : Regex → String → Type 0
Matches nothing s = ⊥
Matches empty s = s ≡ ""
Matches (one p) s = (c : Char) × ((s ≡ String.◌∷◌ c "") × (p c ≡ true))
Matches (many p) s = AllChars p s
Matches (seq r t) s =
    (u : String) × ((v : String) × ((String.◌++◌ u v ≡ s) × (Matches r u × Matches t v)))
Matches (alt r t) s = Matches r s ⊎ Matches t s

head_eq : (c d : Char) (s t : String) → String.◌∷◌ c s ≡ String.◌∷◌ d t → c ≡ d
head_eq c d s t h = cc

tail_eq : (c d : Char) (s t : String) → String.◌∷◌ c s ≡ String.◌∷◌ d t → s ≡ t
tail_eq c d s t h = cc

and_true : (a b : Bool) → (a && b) ≡ true → (a ≡ true) × (b ≡ true)
and_true a b h = ground arith

and_intro : (a b : Bool) → a ≡ true → b ≡ true → (a && b) ≡ true
and_intro a b h k = ground arith

or_true : (a b : Bool) → (a || b) ≡ true → (a ≡ true) ⊎ (b ≡ true)
or_true a b h = ground arith

or_left : (a b : Bool) → a ≡ true → (a || b) ≡ true
or_left a b h = ground arith

or_right : (a b : Bool) → b ≡ true → (a || b) ≡ true
or_right a b h = ground arith

append_nothing : (u v : String) → String.◌++◌ u v ≡ "" → (u ≡ "") × (v ≡ "")
append_nothing String.[] v h = (refl, sym (nil-append v) ∙ h)
append_nothing (String.◌∷◌ c u) v h = cc (sym (cons-append c u v) ∙ h)

nullable_iff : (r : Regex) → (nullable r ≡ true) ↔ Matches r ""
unfolding nullable
nullable_iff nothing = (λ h. cc, λ h. absurd h)
nullable_iff empty = (λ h. refl, λ h. refl)
nullable_iff (one p) = (λ h. cc, λ h. cc (h.1.0))
nullable_iff (many p) = (λ h. tt, λ h. refl)
nullable_iff (seq r t) = (
  λ h.
      let (hr, ht) = and_true _ _ h in
      ("", ("", (nil-append "", ((nullable_iff r).0 hr, (nullable_iff t).0 ht)))),
  λ (u, (v, (whole, (hr, ht)))).
      let (no_u, no_v) = append_nothing u v whole in
      and_intro _ _ ((nullable_iff r).1 (subst (Matches r) no_u hr))
        ((nullable_iff t).1 (subst (Matches t) no_v ht)),
)
nullable_iff (alt r t) = (
  λ h. elim (or_true (nullable r) (nullable t) h) [
    | inl hr ↦ inl ((nullable_iff r).0 hr)
    | inr ht ↦ inr ((nullable_iff t).0 ht)
  ],
  λ h. elim h [
    | inl hr ↦ or_left _ _ ((nullable_iff r).1 hr)
    | inr ht ↦ or_right _ _ ((nullable_iff t).1 ht)
  ],
)

-- A sequence that begins with the character: its first part does, or that part is empty.
seq_of_behind :
    (c : Char) (r t : Regex) (s : String)
    → ((u : String) → Matches (derivative c r) u → Matches r (String.◌∷◌ c u))
    → Matches (seq (derivative c r) t) s
    → Matches (seq r t) (String.◌∷◌ c s)
seq_of_behind c r t s onto (u, (v, (whole, (hr, ht)))) =
    (String.◌∷◌ c u, (v, (cons-append c u v ∙ ap (String.◌∷◌ c) whole, (onto u hr, ht))))

seq_of_skipped :
    (c : Char) (r t : Regex) (s : String)
    → nullable r ≡ true
    → Matches t (String.◌∷◌ c s)
    → Matches (seq r t) (String.◌∷◌ c s)
seq_of_skipped c r t s h ht =
    ("", (String.◌∷◌ c s, (nil-append (String.◌∷◌ c s), ((nullable_iff r).0 h, ht))))

seq_split :
    (c : Char) (r t : Regex) (s : String)
    → ((u : String) → Matches r (String.◌∷◌ c u) → Matches (derivative c r) u)
    → Matches (seq r t) (String.◌∷◌ c s)
    → Matches (seq (derivative c r) t) s ⊎ (Matches r "" × Matches t (String.◌∷◌ c s))
seq_split c r t s back (String.[], (v, (whole, (hr, ht)))) =
    inr (hr, subst (Matches t) (sym (nil-append v) ∙ whole) ht)
seq_split c r t s back (String.◌∷◌ d u, (v, (whole, (hr, ht)))) =
    let joined = sym (cons-append d u v) ∙ whole in
    let same : d ≡ c = head_eq d c (String.◌++◌ u v) s joined in
    inl (
      u,
      (
        v,
        (
          tail_eq d c (String.◌++◌ u v) s joined,
          (back u (subst (λ e. Matches r (String.◌∷◌ e u)) same hr), ht),
        ),
      ),
    )

derivative_iff :
    (c : Char) (r : Regex) (s : String) → Matches (derivative c r) s ↔ Matches r (String.◌∷◌ c s)
unfolding derivative
derivative_iff c nothing s = (λ h. h, λ h. h)
derivative_iff c empty s = (λ h. absurd h, λ h. cc)
derivative_iff c (one p) s = elim (Bool-cases (p c)) [
  | inl passes ↦
      rw passes (λ h. (c, (ap (String.◌∷◌ c) h, passes)), λ (d, (same, hd)). tail_eq c d s "" same)
  | inr fails ↦ rw fails (
    λ h. absurd h,
    λ (d, (same, hd)).
        let equal : c ≡ d = head_eq c d s "" same in cc (subst (λ e. p e ≡ false) equal fails, hd),
  )
]
derivative_iff c (many p) s = elim (Bool-cases (p c)) [
  | inl passes ↦ rw passes (λ h. (refl, h), λ h. h.1)
  | inr fails ↦ rw fails (λ h. absurd h, λ h. cc (h.0))
]
derivative_iff c (seq r t) s = elim (Bool-cases (nullable r)) [
  | inl skips ↦ rw skips (
    λ h. elim h [
      | inl behind ↦ seq_of_behind c r t s (λ u. (derivative_iff c r u).0) behind
      | inr skipped ↦ seq_of_skipped c r t s skips ((derivative_iff c t s).0 skipped)
    ],
    λ h. elim (seq_split c r t s (λ u. (derivative_iff c r u).1) h) [
      | inl behind ↦ inl behind
      | inr (nothing_first, rest) ↦ inr ((derivative_iff c t s).1 rest)
    ],
  )
  | inr stays ↦ rw stays (
    λ behind. seq_of_behind c r t s (λ u. (derivative_iff c r u).0) behind,
    λ h. elim (seq_split c r t s (λ u. (derivative_iff c r u).1) h) [
      | inl behind ↦ behind
      | inr (nothing_first, rest) ↦ cc (stays, (nullable_iff r).1 nothing_first)
    ],
  )
]
derivative_iff c (alt r t) s = (
  λ h. elim h [
    | inl hr ↦ inl ((derivative_iff c r s).0 hr)
    | inr ht ↦ inr ((derivative_iff c t s).0 ht)
  ],
  λ h. elim h [
    | inl hr ↦ inl ((derivative_iff c r s).1 hr)
    | inr ht ↦ inr ((derivative_iff c t s).1 ht)
  ],
)

-- `test` says whether the text matches.
pub test_iff : (r : Regex) (s : String) → (test r s ≡ true) ↔ Matches r s
unfolding test
test_iff r String.[] = nullable_iff r
test_iff r (String.◌∷◌ c s) =
    let (sound, complete) = test_iff (derivative c r) s in
    let (onto, back) = derivative_iff c r s in (λ h. onto (sound h), λ h. complete (back h))

-- The number of characters.
abbrev pub size : String → ℕ
size String.[] = 0
size (String.◌∷◌ c s) = suc (size s)

-- A text that is not empty and whose characters all pass.
abbrev pub Part : (Char → Bool) → String → Type 0
Part p s = (is_empty s ≡ false) × AllChars p s

module _ (p : Char → Bool) where
  -- A class and then the rest: the first character passes, and what is behind it matches.
  abbrev First : Regex → String → Type 0
  First r String.[] = ⊥
  First r (String.◌∷◌ c s) = (p c ≡ true) × Matches r s

  head_of_seq : (r : Regex) (s : String) → Matches (seq (one p) r) s → First r s
  head_of_seq r s (u, (v, (whole, ((c, (head, passes)), rest)))) =
      let spelled : String.◌∷◌ c v ≡ s =
        sym (cons-append c "" v ∙ ap (String.◌∷◌ c) (nil-append v))
        ∙ sym (ap (λ w. String.◌++◌ w v) head)
        ∙ whole in
      subst (First r) spelled (passes, rest)

  seq_of_head : (r : Regex) (s : String) → First r s → Matches (seq (one p) r) s
  seq_of_head r String.[] h = absurd h
  seq_of_head r (String.◌∷◌ c s) (passes, rest) = (
    String.◌∷◌ c "",
    (s, (cons-append c "" s ∙ ap (String.◌∷◌ c) (nil-append s), ((c, (refl, passes)), rest))),
  )

  pub head_iff : (r : Regex) (s : String) → Matches (seq (one p) r) s ↔ First r s
  head_iff r s = (head_of_seq r s, seq_of_head r s)

  pub some_of_iff : (s : String) → Matches (some_of p) s ↔ Part p s
  some_of_iff String.[] = (λ h. absurd (head_of_seq (many p) "" h), λ h. cc (h.0))
  some_of_iff (String.◌∷◌ c s) =
      (λ h. (refl, head_of_seq (many p) _ h), λ h. seq_of_head (many p) (String.◌∷◌ c s) h.1)

  pub exactly_iff : (n : ℕ) (s : String) → Matches (exactly n p) s ↔ (AllChars p s × (size s ≡ n))
  unfolding exactly
  exactly_iff zero String.[] = (λ h. (tt, refl), λ h. refl)
  exactly_iff zero (String.◌∷◌ c s) = (λ h. cc, λ h. absurd (omega (arith, h.1)))
  exactly_iff (suc n) String.[] =
      (λ h. absurd (head_of_seq (exactly n p) "" h), λ h. absurd (omega (arith, h.1)))
  exactly_iff (suc n) (String.◌∷◌ c s) = (
    λ h.
        let (passes, rest) = head_of_seq (exactly n p) (String.◌∷◌ c s) h in
        let (others, count) = (exactly_iff n s).0 rest in ((passes, others), omega (arith, count)),
    λ ((passes, others), count).
        seq_of_head (exactly n p) (String.◌∷◌ c s)
          (passes, (exactly_iff n s).1 (others, omega (arith, count))),
  )

  pub up_to_iff : (n : ℕ) (s : String) → Matches (up_to n p) s ↔ (AllChars p s × (size s ≤ n))
  unfolding up_to
  up_to_iff zero String.[] = (λ h. (tt, omega arith), λ h. refl)
  up_to_iff zero (String.◌∷◌ c s) = (λ h. cc, λ h. absurd (omega (arith, h.1)))
  up_to_iff (suc n) String.[] = (λ h. (tt, omega arith), λ h. inl refl)
  up_to_iff (suc n) (String.◌∷◌ c s) = (
    λ h. elim h [
      | inl nothing_left ↦ cc nothing_left
      | inr more ↦
          let (passes, rest) = head_of_seq (up_to n p) (String.◌∷◌ c s) more in
          let (others, count) = (up_to_iff n s).0 rest in ((passes, others), omega (arith, count))
    ],
    λ ((passes, others), count). inr (
        seq_of_head (up_to n p) (String.◌∷◌ c s)
          (passes, (up_to_iff n s).1 (others, omega (arith, count)))),
  )

  pub between_iff :
      (m n : ℕ) (s : String)
      → Matches (between m n p) s ↔ (AllChars p s × ((m ≤ size s) × (size s ≤ m + n)))
  unfolding between
  between_iff zero n s =
      let (sound, complete) = up_to_iff n s in
      (
        λ h. let (passes, few) = sound h in (passes, (omega arith, omega (arith, few))),
        λ (passes, (low, high)). complete (passes, omega (arith, high)),
      )
  between_iff (suc m) n String.[] =
      (λ h. absurd (head_of_seq (between m n p) "" h), λ h. absurd (omega (arith, h.1.0)))
  between_iff (suc m) n (String.◌∷◌ c s) = (
    λ h.
        let (passes, rest) = head_of_seq (between m n p) (String.◌∷◌ c s) h in
        let (others, (low, high)) = (between_iff m n s).0 rest in
        ((passes, others), (omega (arith, low), omega (arith, high))),
    λ ((passes, others), (low, high)).
        seq_of_head (between m n p) (String.◌∷◌ c s)
          (passes, (between_iff m n s).1 (others, (omega (arith, low), omega (arith, high)))),
  )
