-- ===== src/Account/Forms/Users.antt =====
-- What the forms of a profile and of a user accept.
-- Both names given and of at most 120 UTF-16 units, and an e-mail address.
use otel_opamp_control_plane.Account.Forms.{
  Names, NameFields, names_payload, UserForm, UserPayload, user_payload, validate_user,
  validate_profile, bad_password, stale_revision, email_format, username_format,
}
use otel_opamp_control_plane.Account.Forms.Formats.{
  IsEmail, IsUsername, mail_format_iff, account_format_iff,
}
use otel_opamp_control_plane.Js.Messages.{check_iff, last_check_iff}
use otel_opamp_control_plane.Js.Text.{utf16_length, utf8_length}
use otel_opamp_control_plane.Js.Regex.{test}
use otel_opamp_control_plane.Prelude.{
  ℕ, ◌≤◌, String, ◌≡◌, refl, ◌↔◌, Bool, false, not, ◌||◌, Option, none, some, [], ltb, is_empty,
  length, then_iff, both_iff, not-false, not_below, same_iff, not_or, not_zero,
}

abbrev pub IsNames : Names → Type 0
IsNames n =
    (is_empty n.first_name ≡ false)
    × ((is_empty n.last_name ≡ false)
        × (((utf16_length n.first_name ≤ 120) × (utf16_length n.last_name ≤ 120))
            × IsEmail n.email))

-- A new user has a password of at least 12 units and at most 72 bytes, a known one a revision.
abbrev pub IsInitialPassword : Option String → Type 0
IsInitialPassword none = Unit
IsInitialPassword (some p) = (12 ≤ utf16_length p) × (utf8_length p ≤ 72)

abbrev pub IsRevision : Option ℕ → Type 0
IsRevision none = Unit
IsRevision (some n) = 1 ≤ n

long_iff :
    (s t : String)
    → ((ltb 120 (utf16_length s) || ltb 120 (utf16_length t)) ≡ false)
      ↔ ((utf16_length s ≤ 120) × (utf16_length t ≤ 120))
long_iff s t =
    then_iff (not_or _ _)
      (both_iff (not_below 120 (utf16_length s)) (not_below 120 (utf16_length t)))

mail_iff : (s : String) → (not (test email_format s) ≡ false) ↔ IsEmail s
mail_iff s = then_iff (not-false (test email_format s)) (mail_format_iff s)

-- The messages of a profile are none exactly if its trimmed names and address are acceptable.
pub validate_profile-empty_iff :
    (profile : NameFields) → (validate_profile profile ≡ []) ↔ IsNames (names_payload profile)
unfolding validate_profile
validate_profile-empty_iff profile =
    let n = names_payload profile in
    check_iff _ _ _ (same_iff {P = is_empty n.first_name ≡ false}) (
      check_iff _ _ _ (same_iff {P = is_empty n.last_name ≡ false}) (
        check_iff _ _ _ (long_iff n.first_name n.last_name)
          (last_check_iff _ _ (mail_iff n.email))))

password_iff : (o : Option String) → (bad_password o ≡ false) ↔ IsInitialPassword o
password_iff none = (λ h. tt, λ h. refl)
password_iff (some p) =
    then_iff (not_or _ _) (both_iff (not_below (utf16_length p) 12) (not_below 72 (utf8_length p)))

stale_iff : (o : Option ℕ) → (stale_revision o ≡ false) ↔ IsRevision o
stale_iff none = (λ h. tt, λ h. refl)
stale_iff (some n) = not_zero n

-- The payload of a user that the server can take.
abbrev pub IsUser : UserPayload → Type 0
IsUser u =
    IsUsername u.username
    × (IsNames u.names
        × ((1 ≤ length u.roles) × (IsRevision u.revision × IsInitialPassword u.password)))

-- A user form has no messages exactly if what is sent has a user name of the format, names and an
-- address as a profile has, at least one role, and a positive revision or, for a new user, a password
-- of at least 12 UTF-16 units and at most 72 bytes.
pub validate_user-empty_iff :
    (user : UserForm) (is_new : Bool)
    → (validate_user user is_new ≡ []) ↔ IsUser (user_payload user is_new)
unfolding validate_user
validate_user-empty_iff user is_new =
    let u = user_payload user is_new in
    let (sound, complete) =
      check_iff _ _ _
        (then_iff (not-false (test username_format u.username)) (account_format_iff u.username))
        (check_iff _ _ _ (same_iff {P = is_empty u.names.first_name ≡ false}) (
          check_iff _ _ _ (same_iff {P = is_empty u.names.last_name ≡ false}) (
            check_iff _ _ _ (long_iff u.names.first_name u.names.last_name) (
              check_iff _ _ _ (mail_iff u.names.email) (
                check_iff _ _ _ (not_zero (length u.roles)) (
                  check_iff _ _ _ (stale_iff u.revision)
                    (last_check_iff _ _ (password_iff u.password)))))))) in
    (
      λ h.
          let (a, (b, (c, (d, (e, (f, (g, k))))))) = sound h in
          (a, ((b, (c, (d, e))), (f, (g, k)))),
      λ (a, ((b, (c, (d, e))), (f, (g, k)))). complete (a, (b, (c, (d, (e, (f, (g, k))))))),
    )
