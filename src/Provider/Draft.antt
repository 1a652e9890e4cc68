-- ===== src/Provider/Draft.antt =====
-- The form of a provider: what is sent, and what the validator says.
pub mod Laws
use otel_opamp_control_plane.Prelude.{
  ap, ℕ, zero, suc, ◌+◌, ◌-◌, ◌*◌, ◌/◌, ◌%◌, ◌≤◌, ◌<◌, Char, code, String, ◌≡◌, refl, sym, ◌∙◌,
  subst, ◌≢◌, ◌↔◌, ◌⊎◌, inl, inr, Bool, true, false, not, ◌&&◌, ◌||◌, Option, none, some, List, [],
  ◌∷◌, ◌++◌, map, reverse, foldl, arith, ◌==◌, starts_with, eq_iff, eq_refl, ltb, leb, eqb,
  is_empty, empty_lem, if◌then◌else◌, Bool-cases, Option-cases, leb→le, ltb→lt, tests, length,
  get_elem?, concat_map, any, all, filter, count, length-filter, All, All-filter, All-append,
  count-le, All-of_count_eq, count_congr, All-intro, All-map, All-zip, count-eq-length_iff,
  count-le-length, then_iff, both_iff, not-false, not_below, same_iff, not_equal_iff,
  equal_false_iff, not_or, not_zero,
}
use otel_opamp_control_plane.Js.{Value, str, truthy, is, or_else}
use otel_opamp_control_plane.Js.Text.{trim}
use otel_opamp_control_plane.Account.{text_value}
use otel_opamp_control_plane.Provider.Mappings.{Row, role_mappings_payload}
use otel_opamp_control_plane.Js.Messages.{messages}
use otel_opamp_control_plane.Provider.{without_slash}

pub record Draft : Type 0 where
  pub protocol : Value
  pub label : Value
  pub role_mappings : List Row
  pub updated_at : Value
  pub sp_entity_id : Value
  pub metadata_url : Value
  pub metadata_xml : Value
  pub name_id_attribute : Value
  pub user_attribute : Value
  pub role_attribute : Value
  pub issuer : Value
  pub client_id : Value
  pub client_secret : Value
  pub secret_configured : Value
  pub user_claim : Value
  pub role_claim : Value

pub record Common : Type 0 where
  pub protocol : Value
  pub label : String
  pub role_mappings : List (String × String)
  pub expected_updated_at : Option Value

pub record Saml : Type 0 where
  pub sp_entity_id : String
  pub metadata_url : String
  pub metadata_xml : String
  pub name_id_attribute : String
  pub user_attribute : String
  pub role_attribute : String

pub record Oidc : Type 0 where
  pub issuer : String
  pub client_id : String
  pub client_secret : Value
  pub user_claim : String
  pub role_claim : String

pub data Payload : Type 0 where
  saml : Common → Saml → Payload
  oidc : Common → Oidc → Payload

abbrev pub trimmed_text : Value → String
trimmed_text v = trim (text_value v)

unfoldable pub provider_payload : Draft → Payload
provider_payload draft =
    let common : Common = record {
      protocol = draft.protocol;
      label = trimmed_text draft.label;
      role_mappings = role_mappings_payload draft.role_mappings;
      expected_updated_at = if truthy draft.updated_at then some draft.updated_at else none;
    } in
    if is draft.protocol "SAML"
    then saml common (record {
      sp_entity_id = trimmed_text draft.sp_entity_id;
      metadata_url = trimmed_text draft.metadata_url;
      metadata_xml = trimmed_text draft.metadata_xml;
      name_id_attribute = trimmed_text draft.name_id_attribute;
      user_attribute = trimmed_text draft.user_attribute;
      role_attribute = trimmed_text draft.role_attribute;
    })
    else oidc common (record {
      issuer = without_slash (trimmed_text draft.issuer);
      client_id = trimmed_text draft.client_id;
      client_secret = or_else draft.client_secret (str "");
      user_claim = trimmed_text draft.user_claim;
      role_claim = trimmed_text draft.role_claim;
    })

abbrev pub blank : Value → Bool
blank v = is_empty (trimmed_text v)

abbrev pub saml_checks : Draft → List (Bool × String)
saml_checks draft =
    (blank draft.sp_entity_id, "El SP Entity ID es obligatorio.")
    ∷ (
      blank draft.metadata_url && blank draft.metadata_xml,
      "Ingresa la URL o el XML de metadata del IdP.",
    )
    ∷ (blank draft.user_attribute, "El atributo de usuario es obligatorio.")
    ∷ (blank draft.role_attribute, "El atributo de roles es obligatorio.")
    ∷ []

abbrev pub oidc_checks : Draft → List (Bool × String)
oidc_checks draft =
    (blank draft.issuer, "El issuer OIDC es obligatorio.")
    ∷ (blank draft.client_id, "El client ID es obligatorio.")
    ∷ (
      not (truthy draft.secret_configured) && blank draft.client_secret,
      "El client secret es obligatorio.",
    )
    ∷ (blank draft.user_claim, "El claim de usuario es obligatorio.")
    ∷ (blank draft.role_claim, "El claim de roles es obligatorio.")
    ∷ []

-- The two `if`s on the protocol are one here: nothing stands between them.
unfoldable pub validate_provider_draft : Draft → List String
validate_provider_draft draft = messages (
    (blank draft.label, "El texto del botón es obligatorio.")
    ∷ (
      eqb (length (role_mappings_payload draft.role_mappings)) 0,
      "Agrega al menos un mapeo de rol externo a rol local.",
    )
    ∷ (if is draft.protocol "SAML" then saml_checks draft else oidc_checks draft))
