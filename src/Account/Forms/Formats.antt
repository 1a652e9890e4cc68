-- ===== src/Account/Forms/Formats.antt =====
-- What the formats of an e-mail address and of a user name accept.
use otel_opamp_control_plane.Prelude.{
  eq_refl, then_iff, both_iff, ◌≤◌, Char, String, ◌≡◌, refl, sym, ap, ◌∙◌, ◌↔◌, Bool, true, eq_iff,
}
use Prim.Native.String
use otel_opamp_control_plane.Js.Regex.{Regex, one, seq, some_of, is_char, test}
use otel_opamp_control_plane.Js.Regex.Meaning.{
  AllChars, Matches, Part, size, test_iff, some_of_iff, head_iff, between_iff,
}
use otel_opamp_control_plane.Account.Forms.{
  email_format, username_format, is_mail_char, is_user_char, is_user_start,
}

-- An `@` between a local part and a domain, and in the domain a dot with something on both sides; no
-- part has white space or a further `@`.
abbrev pub IsEmail : String → Type 0
IsEmail s =
    (local : String) × ((domain : String) × ((end : String) × ((String.◌++◌ local
              (String.◌++◌ "@" (String.◌++◌ domain (String.◌++◌ "." end)))
            ≡ s)
          × (Part is_mail_char local × (Part is_mail_char domain × Part is_mail_char end)))))

-- A letter or a digit, and then 2 to 63 characters.
abbrev pub IsUsername : String → Type 0
IsUsername String.[] = ⊥
IsUsername (String.◌∷◌ c s) =
    (is_user_start c ≡ true) × (AllChars is_user_char s × ((2 ≤ size s) × (size s ≤ 63)))

-- A part, a separator, and what is behind it.
module _ (p : Char → Bool) (c : Char) (r : Regex) where
  abbrev Separated : String → Type 0
  Separated s =
      (u : String) × ((v : String) × ((String.◌++◌ u (String.◌++◌ (String.◌∷◌ c "") v) ≡ s)
          × (Part p u × Matches r v)))

  seq_mark_iff :
      (s : String)
      → Matches (seq (some_of p) (seq (one (is_char (String.◌∷◌ c ""))) r)) s ↔ Separated s
  seq_mark_iff s = (
    λ (u, (w, (whole, (hu, (t, (v, (rest, ((d, (same, passes)), hv)))))))).
        let mark : t ≡ String.◌∷◌ c "" =
          same ∙ (eq_iff (String.◌∷◌ d "") (String.◌∷◌ c "")).0 passes in
        (
          u,
          (
            v,
            (
              ap (λ x. String.◌++◌ u (String.◌++◌ x v)) (sym mark)
                  ∙ ap (String.◌++◌ u) rest
                  ∙ whole,
              ((some_of_iff p u).0 hu, hv),
            ),
          ),
        ),
    λ (u, (v, (whole, (hu, hv)))). (
      u,
      (
        String.◌++◌ (String.◌∷◌ c "") v,
        (
          whole,
          (
            (some_of_iff p u).1 hu,
            (String.◌∷◌ c "", (v, (refl, ((c, (refl, eq_refl (String.◌∷◌ c ""))), hv)))),
          ),
        ),
      ),
    ),
  )

abbrev at_sign : Char
at_sign = String.char_at "@" 0

abbrev dot : Char
dot = String.char_at "." 0

-- What is behind the `@`.
abbrev domain_format : Regex
domain_format = seq (some_of is_mail_char) (seq (one (is_char ".")) (some_of is_mail_char))

pub mail_format_iff : (s : String) → (test email_format s ≡ true) ↔ IsEmail s
mail_format_iff s = (
  λ h.
      let (local, (r, (whole, (hl, behind)))) =
        (seq_mark_iff is_mail_char at_sign domain_format s).0 ((test_iff email_format s).0 h) in
      let (domain, (end, (inner, (hd, he)))) =
        (seq_mark_iff is_mail_char dot (some_of is_mail_char) r).0 behind in
      (
        local,
        (
          domain,
          (
            end,
            (
              ap (λ x. String.◌++◌ local (String.◌++◌ "@" x)) inner ∙ whole,
              (hl, (hd, (some_of_iff is_mail_char end).0 he)),
            ),
          ),
        ),
      ),
  λ (local, (domain, (end, (whole, (hl, (hd, he)))))). (test_iff email_format s).1 (
      (seq_mark_iff is_mail_char at_sign domain_format s).1 (
        local,
        (
          String.◌++◌ domain (String.◌++◌ "." end),
          (
            whole,
            (
              hl,
              (seq_mark_iff is_mail_char dot (some_of is_mail_char)
                    (String.◌++◌ domain (String.◌++◌ "." end))).1
                  (domain, (end, (refl, (hd, (some_of_iff is_mail_char end).1 he)))),
            ),
          ),
        ),
      )),
)

pub account_format_iff : (s : String) → (test username_format s ≡ true) ↔ IsUsername s
account_format_iff String.[] =
    (λ h. (head_iff is_user_start _ "").0 ((test_iff username_format "").0 h), λ h. absurd h)
account_format_iff (String.◌∷◌ c s) = then_iff (test_iff username_format (String.◌∷◌ c s)) (
    then_iff (head_iff is_user_start _ (String.◌∷◌ c s))
      (both_iff (λ h. h, λ h. h) (between_iff is_user_char 2 61 s)))
