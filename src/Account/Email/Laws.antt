-- ===== src/Account/Email/Laws.antt =====
-- What the validator of the delivery settings accepts.
-- The sender: a name of at most 128 UTF-16 units, and an address.
use otel_opamp_control_plane.Prelude.{
  append_nil, ℕ, ◌≤◌, String, ◌≡◌, refl, ◌≢◌, ◌↔◌, ◌⊎◌, inl, inr, Bool, true, false, not, ◌&&◌,
  ◌||◌, List, [], ◌++◌, arith, ◌==◌, ltb, is_empty, if◌then◌else◌, then_iff, both_iff, not-false,
  not_below, same_iff, not_equal_iff, equal_false_iff, not_or,
}
use otel_opamp_control_plane.Js.Messages.{only_if, messages, check_iff, last_check_iff, group_iff}
use otel_opamp_control_plane.Account.Email.{
  provider_text, Provider, EmailPayload, Secrets, EmailSettings, email_settings_payload,
  preserved_secrets, smtp, aws_ses, azure_acs,
}
use otel_opamp_control_plane.Account.Email.Checks.{
  is_host_char, host_format, region_format, local_hosts, smtp_checks, ses_checks, acs_checks,
  sender_checks, delivery_checks, validate_email_settings,
}
use otel_opamp_control_plane.Account.Forms.{email_format}
use otel_opamp_control_plane.Account.Forms.Formats.{IsEmail, mail_format_iff}
use otel_opamp_control_plane.Js.{truthy, one_of}
use otel_opamp_control_plane.Js.Text.{to_lower, utf16_length}
use otel_opamp_control_plane.Js.Regex.{test}
use otel_opamp_control_plane.Js.Regex.Meaning.{Part, Matches, test_iff, some_of_iff}

abbrev pub IsSender : EmailPayload → Type 0
IsSender u =
    (is_empty u.from_name ≡ false) × ((utf16_length u.from_name ≤ 128) × IsEmail u.from_address)

-- A password, typed or kept, comes with a user name and a user name with a password; without TLS only
-- to the machine itself.
abbrev pub IsSmtp : EmailPayload → Bool → Type 0
IsSmtp u kept =
    Part is_host_char u.host
    × (((1 ≤ u.port) × (u.port ≤ 65535))
        × ((is_empty u.username ≡ (is_empty u.password && not kept))
            × ((u.tls_mode ≢ "NONE") ⊎ (one_of local_hosts (to_lower u.host) ≡ true))))

abbrev pub IsSes : EmailPayload → Bool → Type 0
IsSes u kept =
    Matches region_format u.region
    × ((is_empty u.access_key_id ≡ false)
        × ((is_empty u.secret_access_key ≡ false) ⊎ (kept ≡ true)))

abbrev pub IsAcs : EmailPayload → Bool → Type 0
IsAcs u kept =
    (is_empty u.azure_endpoint ≡ false)
    × (((is_empty u.access_key ≡ false) ⊎ (kept ≡ true)) × (u.api_version ≡ "2025-09-01"))

abbrev pub IsDelivery : Provider → EmailPayload → Secrets → Type 0
IsDelivery smtp u kept = IsSmtp u (truthy kept.smtp_password)
IsDelivery aws_ses u kept = IsSes u (truthy kept.aws_secret_access_key)
IsDelivery azure_acs u kept = IsAcs u (truthy kept.azure_access_key)

port_iff : (n : ℕ) → ((ltb n 1 || ltb 65535 n) ≡ false) ↔ ((1 ≤ n) × (n ≤ 65535))
port_iff n = then_iff (not_or _ _) (both_iff (not_below n 1) (not_below 65535 n))

login_iff :
    (no_user no_password kept : Bool)
    → (((not no_user && (no_password && not kept)) ≡ false)
        × ((no_user && (not no_password || kept)) ≡ false))
      ↔ (no_user ≡ (no_password && not kept))
login_iff no_user no_password kept = ground arith

not_and : (a b : Bool) → ((a && not b) ≡ false) ↔ ((a ≡ false) ⊎ (b ≡ true))
not_and a b = ground arith

tls_iff :
    (mode : String) (b : Bool)
    → (((mode == "NONE") && not b) ≡ false) ↔ ((mode ≢ "NONE") ⊎ (b ≡ true))
tls_iff mode b =
    let (sound, complete) = equal_false_iff mode "NONE" in
    then_iff (not_and (mode == "NONE") b) (
      λ h. elim h [ inl off ↦ inl (sound off) | inr on ↦ inr on ],
      λ h. elim h [ inl off ↦ inl (complete off) | inr on ↦ inr on ],
    )

smtp_checks_iff :
    (u : EmailPayload) (kept : Bool) → (messages (smtp_checks u kept) ≡ []) ↔ IsSmtp u kept
unfolding smtp_checks
smtp_checks_iff u kept =
    let (sound, complete) =
      check_iff _ _ _
        (then_iff (not-false (test host_format u.host))
          (then_iff (test_iff host_format u.host) (some_of_iff is_host_char u.host)))
        (check_iff _ _ _ (port_iff u.port) (
          check_iff _ _ _
            (same_iff
              {P = (not (is_empty u.username) && (is_empty u.password && not kept)) ≡ false})
            (check_iff _ _ _
              (same_iff {P = (is_empty u.username && (not (is_empty u.password) || kept)) ≡ false})
              (last_check_iff _ _ (tls_iff u.tls_mode (one_of local_hosts (to_lower u.host))))))) in
    let (one_way, other_way) = login_iff (is_empty u.username) (is_empty u.password) kept in
    (
      λ h. let (host, (port, (a, (b, tls)))) = sound h in (host, (port, (one_way (a, b), tls))),
      λ (host, (port, (login, tls))).
          let (a, b) = other_way login in complete (host, (port, (a, (b, tls)))),
    )

ses_checks_iff :
    (u : EmailPayload) (kept : Bool) → (messages (ses_checks u kept) ≡ []) ↔ IsSes u kept
unfolding ses_checks
ses_checks_iff u kept =
    check_iff _ _ _
      (then_iff (not-false (test region_format u.region)) (test_iff region_format u.region))
      (check_iff _ _ _ (same_iff {P = is_empty u.access_key_id ≡ false})
        (last_check_iff _ _ (not_and (is_empty u.secret_access_key) kept)))

acs_checks_iff :
    (u : EmailPayload) (kept : Bool) → (messages (acs_checks u kept) ≡ []) ↔ IsAcs u kept
unfolding acs_checks
acs_checks_iff u kept = check_iff _ _ _ (same_iff {P = is_empty u.azure_endpoint ≡ false}) (
    check_iff _ _ _ (not_and (is_empty u.access_key) kept)
      (last_check_iff _ _ (not_equal_iff u.api_version "2025-09-01")))

-- The tests that run are those of the provider.
provider_checks_iff :
    (p : Provider) (u : EmailPayload) (kept : Secrets)
    → (messages (
          only_if (provider_text p == "SMTP") (smtp_checks u (truthy kept.smtp_password))
          ++ (only_if
                (provider_text p == "AWS_SES")
                (ses_checks u (truthy kept.aws_secret_access_key))
              ++ only_if
                  (provider_text p == "AZURE_ACS")
                  (acs_checks u (truthy kept.azure_access_key))))
        ≡ [])
      ↔ IsDelivery p u kept
provider_checks_iff smtp u kept = rw append_nil (smtp_checks_iff u (truthy kept.smtp_password))
provider_checks_iff aws_ses u kept =
    rw append_nil (ses_checks_iff u (truthy kept.aws_secret_access_key))
provider_checks_iff azure_acs u kept = acs_checks_iff u (truthy kept.azure_access_key)

origin_checks_iff : (u : EmailPayload) → (messages (sender_checks u) ≡ []) ↔ IsSender u
unfolding sender_checks
origin_checks_iff u = check_iff _ _ _ (same_iff {P = is_empty u.from_name ≡ false}) (
    check_iff _ _ _ (not_below 128 (utf16_length u.from_name)) (
      last_check_iff _ _
        (then_iff (not-false (test email_format u.from_address)) (mail_format_iff u.from_address))))

if_iff :
    {P : Type 0} (b : Bool) (errors : List String)
    → (errors ≡ []) ↔ P
    → ((if b then errors else []) ≡ []) ↔ ((b ≡ false) ⊎ P)
if_iff true errors f = (λ h. inr (f.0 h), λ h. elim h [ inl off ↦ cc off | inr p ↦ f.1 p ])
if_iff false errors f = (λ h. inl refl, λ h. refl)

-- The delivery settings have no messages exactly if they are disabled, or what is sent has a sender
-- with a name and an address and satisfies what the chosen provider needs: an SMTP host, a port, user
-- name and password together, and TLS unless the host is the machine itself; a region and both AWS
-- keys; or an endpoint, an access key and the API version of Azure. A secret is typed or kept.
pub validate_email_settings-empty_iff :
    (s : EmailSettings)
    → (validate_email_settings s ≡ []) ↔ (
        ((email_settings_payload s).enabled ≡ false)
        ⊎ (IsSender (email_settings_payload s)
            × IsDelivery
                (email_settings_payload s).provider
                (email_settings_payload s)
                (preserved_secrets s)))
unfolding validate_email_settings delivery_checks
validate_email_settings-empty_iff s =
    let u = email_settings_payload s in
    if_iff u.enabled _
      (group_iff _ _ (origin_checks_iff u) (provider_checks_iff u.provider u (preserved_secrets s)))
