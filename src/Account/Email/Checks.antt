-- ===== src/Account/Email/Checks.antt =====
-- `validateEmailSettings`: the formats, the tests of each provider, and the messages.
use otel_opamp_control_plane.Account.Email.{
  EmailSettings, EmailPayload, Secrets, email_settings_payload, provider_text, preserved_secrets,
}
use otel_opamp_control_plane.Account.Forms.{email_format}
use otel_opamp_control_plane.Js.{truthy, one_of}
use otel_opamp_control_plane.Js.Text.{to_lower, utf16_length}
use otel_opamp_control_plane.Js.Decimal.{is_digit}
use otel_opamp_control_plane.Js.Regex.{
  Regex, empty, one, seq, alt, some_of, exactly, is_lower, is_upper, is_char, test,
}
use otel_opamp_control_plane.Js.Messages.{messages, only_if}
use otel_opamp_control_plane.Prelude.{
  Char, String, Bool, not, ◌&&◌, ◌||◌, List, [], ◌∷◌, ◌++◌, ◌==◌, ltb, is_empty, if◌then◌else◌,
}

abbrev pub is_host_char : Char → Bool
is_host_char c = is_upper c || (is_lower c || (is_digit c || (is_char "." c || is_char "-" c)))

-- `/^[A-Za-z0-9.-]+$/`
abbrev pub host_format : Regex
host_format = some_of is_host_char

-- `/^[a-z]{2}(?:-gov)?-[a-z]+-\d$/`
abbrev pub region_format : Regex
region_format = seq (exactly 2 is_lower) (
    seq
      (alt empty (
        seq (one (is_char "-"))
          (seq (one (is_char "g")) (seq (one (is_char "o")) (one (is_char "v"))))))
      (seq (one (is_char "-")) (seq (some_of is_lower) (seq (one (is_char "-")) (one is_digit)))))

abbrev pub local_hosts : List String
local_hosts = "localhost" ∷ "127.0.0.1" ∷ "::1" ∷ []

unfoldable pub smtp_checks : EmailPayload → Bool → List (Bool × String)
smtp_checks payload kept =
    (not (test host_format payload.host), "Ingresa un host SMTP válido.")
    ∷ (ltb payload.port 1 || ltb 65535 payload.port, "El puerto SMTP debe estar entre 1 y 65535.")
    ∷ (
      not (is_empty payload.username) && (is_empty payload.password && not kept),
      "La contraseña SMTP es obligatoria.",
    )
    ∷ (
      is_empty payload.username && (not (is_empty payload.password) || kept),
      "Ingresa el usuario SMTP o elimina también su contraseña guardada.",
    )
    ∷ (
      (payload.tls_mode == "NONE") && not (one_of local_hosts (to_lower payload.host)),
      "SMTP sin TLS sólo se permite para pruebas locales.",
    )
    ∷ []

unfoldable pub ses_checks : EmailPayload → Bool → List (Bool × String)
ses_checks payload kept =
    (not (test region_format payload.region), "Ingresa una región válida de AWS SES.")
    ∷ (is_empty payload.access_key_id, "El access key ID de AWS es obligatorio.")
    ∷ (
      is_empty payload.secret_access_key && not kept,
      "El secret access key de AWS es obligatorio.",
    )
    ∷ []

unfoldable pub acs_checks : EmailPayload → Bool → List (Bool × String)
acs_checks payload kept =
    (is_empty payload.azure_endpoint, "El endpoint de Azure ACS es obligatorio.")
    ∷ (is_empty payload.access_key && not kept, "La access key de Azure ACS es obligatoria.")
    ∷ (
      not (payload.api_version == "2025-09-01"),
      "La API version de Azure ACS debe ser 2025-09-01.",
    )
    ∷ []

unfoldable pub sender_checks : EmailPayload → List (Bool × String)
sender_checks payload =
    (is_empty payload.from_name, "El nombre del remitente es obligatorio.")
    ∷ (
      ltb 128 (utf16_length payload.from_name),
      "El nombre del remitente admite hasta 128 caracteres.",
    )
    ∷ (not (test email_format payload.from_address), "Ingresa una dirección de remitente válida.")
    ∷ []

-- The tests of the provider that is chosen.
unfoldable pub delivery_checks : EmailPayload → Secrets → List (Bool × String)
delivery_checks payload kept =
    let chosen = provider_text payload.provider in
    only_if (chosen == "SMTP") (smtp_checks payload (truthy kept.smtp_password))
    ++ (only_if (chosen == "AWS_SES") (ses_checks payload (truthy kept.aws_secret_access_key))
        ++ only_if (chosen == "AZURE_ACS") (acs_checks payload (truthy kept.azure_access_key)))

unfoldable pub validate_email_settings : EmailSettings → List String
validate_email_settings s =
    let payload = email_settings_payload s in
    let errors =
      messages (sender_checks payload ++ delivery_checks payload (preserved_secrets s)) in
    if payload.enabled then errors else []
