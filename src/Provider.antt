-- ===== src/Provider.antt =====
-- ui/src/auth-providers.js: the identity providers of the sign-in page and the form that edits one. Its
-- `text` and `first` are `text_value` and `first_value` of the accounts. `encodeURIComponent` is a
-- parameter.
pub mod Gate
pub mod Mappings
pub mod Draft
use Prim.Native.String
use otel_opamp_control_plane.Js.{Value, bool, str, truthy, is_true, one_of}
use otel_opamp_control_plane.Js.Text.{trim, to_upper, includes}
use otel_opamp_control_plane.Deployment.{Fields, field}
use otel_opamp_control_plane.Account.{text_value, first_value}
use otel_opamp_control_plane.Provider.Mappings.{Row, MappingSource, normalize_role_mappings}
use otel_opamp_control_plane.Prelude.{
  ℕ, zero, suc, ◌+◌, ◌-◌, ◌*◌, ◌/◌, ◌%◌, ◌≤◌, ◌<◌, Char, code, String, ◌≡◌, refl, sym, ap, ◌∙◌,
  subst, ◌≢◌, ◌↔◌, ◌⊎◌, inl, inr, Bool, true, false, not, ◌&&◌, ◌||◌, Option, none, some, List, [],
  ◌∷◌, ◌++◌, map, reverse, foldl, arith, ◌==◌, starts_with, eq_iff, eq_refl, ltb, leb, eqb,
  is_empty, empty_lem, if◌then◌else◌, Bool-cases, Option-cases, leb→le, ltb→lt, tests, length,
  get_elem?, concat_map, any, all, filter, count, length-filter, All, All-filter, All-append,
  count-le, All-of_count_eq, count_congr, All-intro, All-map, All-zip, count-eq-length_iff,
  count-le-length, then_iff, both_iff, not-false, not_below, same_iff, not_equal_iff,
  equal_false_iff, not_or, not_zero,
}

pub record Source : Type 0 where
  pub fields : Fields
  pub role_mappings : Option MappingSource
  pub role_mappings_upper : Option MappingSource

abbrev first_text : Fields → List String → String → String
first_text source keys default = text_value (first_value source keys (str default))

-- `s.replace(/\/$/, "")`
unfoldable pub without_slash : String → String
without_slash String.[] = ""
without_slash (String.◌∷◌ c String.[]) = if String.◌∷◌ c "" == "/" then "" else String.◌∷◌ c ""
without_slash (String.◌∷◌ c (String.◌∷◌ d s)) = String.◌∷◌ c (without_slash (String.◌∷◌ d s))

unfoldable pub provider_protocol : Source → String
provider_protocol provider =
    let value =
      to_upper (
        trim
          (first_text provider.fields ("protocol" ∷ "Protocol" ∷ "type" ∷ "Type" ∷ []) "OIDC")) in
    if includes value "SAML" && not (includes value "OIDC") then "SAML" else "OIDC"

abbrev pub statuses : List String
statuses = "VALIDATED" ∷ "CONFIGURED" ∷ "ERROR" ∷ "INACTIVE" ∷ []

unfoldable pub provider_status : Source → String
provider_status provider =
    let explicit = to_upper (
      trim (
        first_text provider.fields
          ("status" ∷ "Status" ∷ "validationStatus" ∷ "ValidationStatus" ∷ []) "")) in
    if one_of statuses explicit
    then explicit
    else if is_true (field provider.fields "enabled")
        || (is_true (field provider.fields "Enabled")
            || (is_true (field provider.fields "configured")
                || is_true (field provider.fields "Configured")))
    then "CONFIGURED"
    else "INACTIVE"

unfoldable pub provider_login_enabled : Source → Bool
provider_login_enabled provider =
    (is_true (field provider.fields "enabled") || is_true (field provider.fields "Enabled"))
    && (provider_status provider == "VALIDATED")

-- The mappings of a model, under a provider's id.
pub record Model : Type 0 where
  pub provider_role_mappings : String → Option MappingSource
  pub role_mappings_by_provider : String → Option MappingSource
  pub role_mappings : String → Option MappingSource

-- `a ?? b`
abbrev pub otherwise : Option MappingSource → Option MappingSource → Option MappingSource
otherwise none b = b
otherwise (some a) b = some a

pub record Provider : Type 0 where
  pub id : String
  pub label : String
  pub protocol : String
  pub status : String
  pub validation_message : String
  pub issuer : String
  pub client_id : String
  pub secret_configured : Bool
  pub credentials_unavailable : Bool
  pub user_claim : String
  pub role_claim : String
  pub user_attribute : String
  pub role_attribute : String
  pub sp_entity_id : String
  pub metadata_url : String
  pub metadata_xml : String
  pub name_id_attribute : String
  pub callback_url : Value
  pub sp_metadata_url : String
  pub enabled : Bool
  pub updated_at : String
  pub role_mappings : List Row
  pub start_url : String

abbrev pub first_flag : Fields → List String → Bool
first_flag source keys = is_true (first_value source keys (bool false))

module _ (encode_uri_component : String → String) where
  unfoldable pub callback_url : Source → Value → Value
  callback_url provider origin =
      let configured =
        first_value provider.fields
          ("callbackUrl" ∷ "callbackURL" ∷ "CallbackURL" ∷ "acsUrl" ∷ "acsURL" ∷ "ACSURL" ∷ [])
          (str "") in
      let id = encode_uri_component (trim (first_text provider.fields ("id" ∷ "ID" ∷ []) "")) in
      let path =
        (if provider_protocol provider == "SAML"
          then String.◌++◌ "/api/auth/saml/" (String.◌++◌ id "/acs")
          else String.◌++◌ "/api/auth/oidc/" (String.◌++◌ id "/callback")) in
      if truthy configured
      then configured
      else str (String.◌++◌ (without_slash (text_value origin)) path)

  -- The origin is that of the page.
  unfoldable pub normalize_provider : Value → Source → Model → Provider
  normalize_provider origin provider model =
      let own = provider.fields in
      let id = trim (first_text own ("id" ∷ "ID" ∷ "providerId" ∷ "ProviderID" ∷ []) "") in
      let provider_mappings =
        otherwise (otherwise provider.role_mappings provider.role_mappings_upper) (
          otherwise (model.provider_role_mappings id)
            (otherwise (model.role_mappings_by_provider id) (model.role_mappings id))) in
      record {
        id = id;
        label = first_text own ("label" ∷ "Label" ∷ []) id;
        protocol = provider_protocol provider;
        status = provider_status provider;
        validation_message =
            first_text own
              ("validationMessage" ∷ "ValidationMessage" ∷ "lastError" ∷ "LastError" ∷ []) "";
        issuer = first_text own ("issuer" ∷ "Issuer" ∷ []) "";
        client_id = first_text own ("clientId" ∷ "ClientID" ∷ []) "";
        secret_configured = first_flag own ("secretConfigured" ∷ "SecretConfigured" ∷ []);
        credentials_unavailable =
            first_flag own ("credentialsUnavailable" ∷ "CredentialsUnavailable" ∷ []);
        user_claim = first_text own ("userClaim" ∷ "UserClaim" ∷ []) "preferred_username";
        role_claim = first_text own ("roleClaim" ∷ "RoleClaim" ∷ []) "roles";
        user_attribute = first_text own ("userAttribute" ∷ "UserAttribute" ∷ []) "";
        role_attribute = first_text own ("roleAttribute" ∷ "RoleAttribute" ∷ []) "";
        sp_entity_id = first_text own ("spEntityId" ∷ "spEntityID" ∷ "SPEntityID" ∷ []) "";
        metadata_url = first_text own ("metadataUrl" ∷ "metadataURL" ∷ "MetadataURL" ∷ []) "";
        metadata_xml = first_text own ("metadataXml" ∷ "metadataXML" ∷ "MetadataXML" ∷ []) "";
        name_id_attribute =
            first_text own ("nameIdAttribute" ∷ "nameIDAttribute" ∷ "NameIDAttribute" ∷ []) "";
        callback_url = callback_url provider origin;
        sp_metadata_url = first_text own ("spMetadataUrl" ∷ "SPMetadataURL" ∷ []) "";
        enabled = first_flag own ("enabled" ∷ "Enabled" ∷ []);
        updated_at = first_text own ("updatedAt" ∷ "UpdatedAt" ∷ []) "";
        role_mappings = normalize_role_mappings provider_mappings;
        start_url = first_text own ("startUrl" ∷ "StartURL" ∷ []) "";
      }
