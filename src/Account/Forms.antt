-- ===== src/Account/Forms.antt =====
-- The forms of the profile, of a new password and of a user: what is sent, and what the validators say.
pub mod Formats
pub mod Laws
pub mod Users
use otel_opamp_control_plane.Js.Messages.{messages}
use otel_opamp_control_plane.Js.Regex.{between, is_char, Regex, one, seq, some_of, is_lower, test}
use otel_opamp_control_plane.Js.{Value, truthy, is_false, to_number}
use otel_opamp_control_plane.Js.Text.{is_space, trim, to_lower, utf16_length, utf8_length}
use otel_opamp_control_plane.Js.Decimal.{is_digit}
use otel_opamp_control_plane.Account.{text_value, number_or_zero}
use otel_opamp_control_plane.Events.{array}
use otel_opamp_control_plane.Prelude.{
  ℕ, Char, String, Bool, false, not, ◌&&◌, ◌||◌, Option, none, some, List, [], ◌∷◌, ◌==◌, ltb, eqb,
  is_empty, if◌then◌else◌, length, filter,
}

-- `[^\s@]`
abbrev pub is_mail_char : Char → Bool
is_mail_char c = not (is_space c) && not (is_char "@" c)

-- `/^[^\s@]+@[^\s@]+\.[^\s@]+$/`
abbrev pub email_format : Regex
email_format = seq (some_of is_mail_char) (
    seq (one (is_char "@"))
      (seq (some_of is_mail_char) (seq (one (is_char ".")) (some_of is_mail_char))))

abbrev pub is_user_start : Char → Bool
is_user_start c = is_lower c || is_digit c

abbrev pub is_user_char : Char → Bool
is_user_char c = is_lower c || (is_digit c || (is_char "." c || (is_char "_" c || is_char "-" c)))

-- `/^[a-z0-9][a-z0-9._-]{2,63}$/`
abbrev pub username_format : Regex
username_format = seq (one is_user_start) (between 2 61 is_user_char)

pub record Names : Type 0 where
  pub first_name : String
  pub last_name : String
  pub email : String

-- The three fields of a form, as they are sent.
pub record NameFields : Type 0 where
  pub first_name : Value
  pub last_name : Value
  pub email : Value

unfoldable pub names_payload : NameFields → Names
names_payload profile = record {
  first_name = trim (text_value profile.first_name);
  last_name = trim (text_value profile.last_name);
  email = to_lower (trim (text_value profile.email));
}

pub record ProfilePayload : Type 0 where
  pub names : Names
  pub current_password : Option Value

unfoldable pub profile_payload : NameFields → Value → ProfilePayload
profile_payload profile current_password = record {
  names = names_payload profile;
  current_password = if truthy current_password then some current_password else none;
}

abbrev pub name_checks : Names → List (Bool × String)
name_checks payload =
    (is_empty payload.first_name, "El nombre es obligatorio.")
    ∷ (is_empty payload.last_name, "Los apellidos son obligatorios.")
    ∷ (
      ltb 120 (utf16_length payload.first_name) || ltb 120 (utf16_length payload.last_name),
      "Nombre y apellidos admiten hasta 120 caracteres.",
    )
    ∷ (not (test email_format payload.email), "Ingresa un correo electrónico válido.")
    ∷ []

unfoldable pub validate_profile : NameFields → List String
validate_profile profile = messages (name_checks (names_payload profile))

unfoldable pub validate_password_change :
    (current_password new_password confirm_password : String) → List String
validate_password_change current_password new_password confirm_password = messages (
    (is_empty current_password, "Ingresa tu contraseña actual.")
    ∷ (ltb (utf16_length new_password) 12, "La nueva contraseña debe tener al menos 12 caracteres.")
    ∷ (ltb 72 (utf8_length new_password), "La nueva contraseña admite hasta 72 bytes.")
    ∷ (
      not (is_empty new_password) && (new_password == current_password),
      "La nueva contraseña debe ser diferente de la actual.",
    )
    ∷ (
      not (new_password == confirm_password),
      "La confirmación no coincide con la nueva contraseña.",
    )
    ∷ [])

pub record UserForm : Type 0 where
  pub username : Value
  pub names : NameFields
  pub roles : Option (List Value)
  pub active : Value
  pub password : Value
  pub revision : Value

-- A new user is sent with a password, a known one with its revision.
pub record UserPayload : Type 0 where
  pub username : String
  pub names : Names
  pub roles : List Value
  pub active : Bool
  pub password : Option String
  pub revision : Option ℕ

unfoldable pub user_payload : UserForm → Bool → UserPayload
user_payload user include_password = record {
  username = to_lower (trim (text_value user.username));
  names = names_payload user.names;
  roles = filter truthy (array user.roles);
  active = not (is_false user.active);
  password = if include_password then some (text_value user.password) else none;
  revision = if include_password then none else some (number_or_zero (to_number user.revision));
}

-- `payload.revision <= 0`, and the test on the initial password, where the field is there.
abbrev pub stale_revision : Option ℕ → Bool
stale_revision none = false
stale_revision (some revision) = eqb revision 0

abbrev pub bad_password : Option String → Bool
bad_password none = false
bad_password (some password) = ltb (utf16_length password) 12 || ltb 72 (utf8_length password)

unfoldable pub validate_user : UserForm → Bool → List String
validate_user user include_password =
    let payload = user_payload user include_password in
    messages (
      (
        not (test username_format payload.username),
        "El usuario debe tener entre 3 y 64 caracteres: minúsculas, números, punto, guion o guion bajo.",
      )
      ∷ (is_empty payload.names.first_name, "El nombre es obligatorio.")
      ∷ (is_empty payload.names.last_name, "Los apellidos son obligatorios.")
      ∷ (
        ltb 120 (utf16_length payload.names.first_name)
            || ltb 120 (utf16_length payload.names.last_name),
        "Nombre y apellidos admiten hasta 120 caracteres.",
      )
      ∷ (not (test email_format payload.names.email), "Ingresa un correo electrónico válido.")
      ∷ (eqb (length payload.roles) 0, "Asigna al menos un rol.")
      ∷ (
        stale_revision payload.revision,
        "Recarga el usuario antes de guardar para obtener su revisión actual.",
      )
      ∷ (
        bad_password payload.password,
        "La contraseña inicial debe tener al menos 12 caracteres y hasta 72 bytes.",
      )
      ∷ [])
