-- ===== src/Provider/Draft/Laws.antt =====
-- What the validator of a provider accepts.
-- Something stands in the field.
use otel_opamp_control_plane.Provider.Draft.{
  Draft, blank, saml_checks, oidc_checks, validate_provider_draft,
}
use otel_opamp_control_plane.Provider.Mappings.{role_mappings_payload}
use otel_opamp_control_plane.Js.{Value, truthy, is}
use otel_opamp_control_plane.Js.Messages.{messages, check_iff, last_check_iff}
use otel_opamp_control_plane.Prelude.{
  ◌≤◌, ◌≡◌, ◌↔◌, ◌⊎◌, Bool, true, false, not, ◌&&◌, [], arith, if◌then◌else◌, length, same_iff,
  not_zero,
}

abbrev pub Filled : Value → Type 0
Filled v = blank v ≡ false

abbrev pub IsSaml : Draft → Type 0
IsSaml draft =
    Filled draft.sp_entity_id
    × ((Filled draft.metadata_url ⊎ Filled draft.metadata_xml)
        × (Filled draft.user_attribute × Filled draft.role_attribute))

abbrev pub IsOidc : Draft → Type 0
IsOidc draft =
    Filled draft.issuer
    × (Filled draft.client_id
        × (((truthy draft.secret_configured ≡ true) ⊎ Filled draft.client_secret)
            × (Filled draft.user_claim × Filled draft.role_claim)))

abbrev pub IsProtocol : Bool → Draft → Type 0
IsProtocol true draft = IsSaml draft
IsProtocol false draft = IsOidc draft

either_iff : (a b : Bool) → ((a && b) ≡ false) ↔ ((a ≡ false) ⊎ (b ≡ false))
either_iff a b = ground arith

secret_iff : (a b : Bool) → ((not a && b) ≡ false) ↔ ((a ≡ true) ⊎ (b ≡ false))
secret_iff a b = ground arith

fields_iff :
    (b : Bool) (draft : Draft)
    → (messages (if b then saml_checks draft else oidc_checks draft) ≡ []) ↔ IsProtocol b draft
fields_iff true draft = check_iff _ _ _ (same_iff {P = Filled draft.sp_entity_id}) (
    check_iff _ _ _ (either_iff (blank draft.metadata_url) (blank draft.metadata_xml)) (
      check_iff _ _ _ (same_iff {P = Filled draft.user_attribute})
        (last_check_iff _ _ (same_iff {P = Filled draft.role_attribute}))))
fields_iff false draft = check_iff _ _ _ (same_iff {P = Filled draft.issuer}) (
    check_iff _ _ _ (same_iff {P = Filled draft.client_id}) (
      check_iff _ _ _ (secret_iff (truthy draft.secret_configured) (blank draft.client_secret)) (
        check_iff _ _ _ (same_iff {P = Filled draft.user_claim})
          (last_check_iff _ _ (same_iff {P = Filled draft.role_claim})))))

-- A provider's form has no messages exactly if it has a label, some role mapping is sent, and the
-- protocol's fields are filled: for SAML the entity id, a metadata URL or text and both attributes; else
-- the issuer, the client id, a client secret unless one is configured, and both claims.
pub validate_provider_draft-empty_iff :
    (draft : Draft)
    → (validate_provider_draft draft ≡ []) ↔ (
        Filled draft.label
        × ((1 ≤ length (role_mappings_payload draft.role_mappings))
            × IsProtocol (is draft.protocol "SAML") draft))
unfolding validate_provider_draft
validate_provider_draft-empty_iff draft = check_iff _ _ _ (same_iff {P = Filled draft.label}) (
    check_iff _ _ _ (not_zero (length (role_mappings_payload draft.role_mappings)))
      (fields_iff (is draft.protocol "SAML") draft))
