-- ===== src/Tests/Accounts.antt =====
-- The theorems on accounts, applied to concrete identities and forms.
use otel_opamp_control_plane.Account.{
  Subject, identity_permissions, can_manage_email, can_edit_email, text_value,
}
use otel_opamp_control_plane.Account.Rights.{IsEntitled, may, manage_email, edit_email, may_iff}
use otel_opamp_control_plane.Account.Forms.{
  validate_password_change, UserForm, validate_user, user_payload, names_payload,
}
use otel_opamp_control_plane.Account.Forms.Laws.{validate_password_change-empty_iff}
use otel_opamp_control_plane.Account.Forms.Users.{IsUser, validate_user-empty_iff}
use otel_opamp_control_plane.Account.Email.{
  EmailSettings, empty_email_settings, email_settings_payload, preserved_secrets,
}
use otel_opamp_control_plane.Account.Email.Checks.{validate_email_settings}
use otel_opamp_control_plane.Account.Email.Laws.{
  IsSender, IsDelivery, validate_email_settings-empty_iff,
}
use otel_opamp_control_plane.Js.{str, undefined, bool, num, whole, to_string, to_number}
use otel_opamp_control_plane.Js.Text.{utf16_length, utf8_length, trim, to_lower, is_space}
use otel_opamp_control_plane.Js.Decimal.{is_digit}
use otel_opamp_control_plane.Js.Messages.{messages}
use otel_opamp_control_plane.Js.Regex.{test, derivative, nullable, between, up_to}
use otel_opamp_control_plane.Prelude.{
  ◌≤◌, String, ◌≡◌, refl, ◌≢◌, ◌↔◌, ◌⊎◌, true, false, none, some, [], ◌∷◌, is_empty,
}

abbrev viewer : Subject
viewer = record {
  fields = ("username", str "ana") ∷ [];
  permissions = some (str "settings.email.view" ∷ []);
  permissions_upper = none;
  roles = none;
  roles_upper = some (str "viewer" ∷ []);
}

may_iff_example : (may edit_email viewer ≡ true) ↔ IsEntitled edit_email viewer
may_iff_example = may_iff edit_email viewer

-- To see the delivery settings is not to edit them.
viewer_manages : may manage_email viewer ≡ true
unfolding may can_manage_email identity_permissions
viewer_manages = refl

viewer_edits_not : may edit_email viewer ≡ false
unfolding may can_edit_email identity_permissions
viewer_edits_not = refl

abbrev old_password : String
old_password = "old secret 123"

abbrev new_password : String
new_password = "new secret 1234"

validate_password_change-empty_iff_example :
    (validate_password_change old_password new_password new_password ≡ []) ↔ (
      (is_empty old_password ≡ false)
      × ((12 ≤ utf16_length new_password)
          × ((utf8_length new_password ≤ 72)
              × ((new_password ≢ old_password) × (new_password ≡ new_password)))))
validate_password_change-empty_iff_example =
    validate_password_change-empty_iff old_password new_password new_password

-- A password of eleven characters is refused, and nothing else is.
short_password :
    validate_password_change "old" "12345678901" "12345678901"
    ≡ "La nueva contraseña debe tener al menos 12 caracteres." ∷ []
unfolding validate_password_change messages utf16_length utf8_length
short_password = refl

abbrev new_user : UserForm
new_user = record {
  username = str " Ana.Lopez ";
  names = record { first_name = str "Ana"; last_name = str "López"; email = str "ana@example.org" };
  roles = some (str "viewer" ∷ []);
  active = undefined;
  password = str "long enough 12";
  revision = undefined;
}

validate_user-empty_iff_example :
    (validate_user new_user true ≡ []) ↔ IsUser (user_payload new_user true)
validate_user-empty_iff_example = validate_user-empty_iff new_user true

-- The user is accepted with a password, and refused without a revision.
user_accepted : validate_user new_user true ≡ []
unfolding validate_user user_payload names_payload messages utf16_length utf8_length test derivative
    nullable between up_to trim to_lower text_value to_string is_space is_digit to_number
user_accepted = refl

abbrev relay : EmailSettings
relay = record empty_email_settings {
  enabled = bool true;
  from_address = some "noreply@example.org";
  smtp = record {
    host = some "mail.example.org";
    port = some (num (whole 25));
    username = some "";
    password = str "";
    tls_mode = some "NONE";
  };
}

validate_email_settings-empty_iff_example : (validate_email_settings relay ≡ []) ↔ (
    ((email_settings_payload relay).enabled ≡ false)
    ⊎ (IsSender (email_settings_payload relay)
        × IsDelivery
            (email_settings_payload relay).provider
            (email_settings_payload relay)
            (preserved_secrets relay)))
validate_email_settings-empty_iff_example = validate_email_settings-empty_iff relay
