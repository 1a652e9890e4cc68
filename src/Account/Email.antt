-- ===== src/Account/Email.antt =====
-- The e-mail delivery settings of ui/src/account-settings.js: their normal form, what is sent, and the
-- validator. A text field of the settings is a text or missing, and the port and the flags are scalars.
pub mod Checks
pub mod Laws
use otel_opamp_control_plane.Account.{text_value, number_or_zero}
use otel_opamp_control_plane.Account.Forms.{email_format}
use otel_opamp_control_plane.Js.{
  Value, undefined, str, num, bool, whole, is, is_true, truthy, to_number, one_of,
}
use otel_opamp_control_plane.Js.Text.{trim, to_lower, utf16_length}
use otel_opamp_control_plane.Js.Decimal.{is_digit}
use otel_opamp_control_plane.Js.Regex.{
  Regex, empty, one, seq, alt, some_of, exactly, is_lower, is_upper, is_char, test,
}
use otel_opamp_control_plane.Js.Messages.{messages, only_if}
use otel_opamp_control_plane.Prelude.{
  ℕ, zero, suc, ◌+◌, ◌-◌, ◌*◌, ◌/◌, ◌%◌, ◌≤◌, ◌<◌, Char, code, String, ◌≡◌, refl, sym, ap, ◌∙◌,
  subst, ◌≢◌, ◌↔◌, ◌⊎◌, inl, inr, Bool, true, false, not, ◌&&◌, ◌||◌, Option, none, some, List, [],
  ◌∷◌, ◌++◌, map, reverse, foldl, arith, ◌==◌, starts_with, eq_iff, eq_refl, ltb, leb, eqb,
  is_empty, empty_lem, if◌then◌else◌, Bool-cases, Option-cases, leb→le, ltb→lt, tests, length,
  get_elem?, concat_map, any, all, filter, count, length-filter, All, All-filter, All-append,
  count-le, All-of_count_eq, count_congr, All-intro, All-map, All-zip, count-eq-length_iff,
  count-le-length, then_iff, both_iff, not-false, not_below, same_iff, not_equal_iff,
  equal_false_iff, not_or, not_zero,
}

pub data Provider : Type 0 where
  smtp aws_ses azure_acs : Provider

pub record Smtp : Type 0 where
  pub host : Option String
  pub port : Option Value
  pub username : Option String
  pub password : Value
  pub tls_mode : Option String

pub record AwsSes : Type 0 where
  pub region : Option String
  pub access_key_id : Option String
  pub secret_access_key : Value
  pub session_token : Value
  pub endpoint : Option String

pub record AzureAcs : Type 0 where
  pub endpoint : Option String
  pub access_key : Value
  pub api_version : Option String

pub record Secrets : Type 0 where
  pub smtp_password : Value
  pub aws_secret_access_key : Value
  pub aws_session_token : Value
  pub azure_access_key : Value

-- The settings as the page holds them and as the server sends them.
pub record EmailSettings : Type 0 where
  pub enabled : Value
  pub provider : Value
  pub from_name : Option String
  pub from_address : Option String
  pub smtp : Smtp
  pub aws_ses : AwsSes
  pub azure_acs : AzureAcs
  pub secrets_configured : Option Secrets
  pub credentials_unavailable : Value
  pub clear_secrets : Value
  pub updated_at : Value

-- `emptyEmailSettings()`
abbrev pub no_secrets : Secrets
no_secrets = record {
  smtp_password = bool false;
  aws_secret_access_key = bool false;
  aws_session_token = bool false;
  azure_access_key = bool false;
}

unfoldable pub empty_email_settings : EmailSettings
empty_email_settings = record {
  enabled = bool false;
  provider = str "SMTP";
  from_name = some "o11y Control Plane";
  from_address = some "";
  smtp = record {
    host = some "";
    port = some (num (whole 587));
    username = some "";
    password = str "";
    tls_mode = some "STARTTLS";
  };
  aws_ses = record {
    region = some "";
    access_key_id = some "";
    secret_access_key = str "";
    session_token = str "";
    endpoint = some "";
  };
  azure_acs = record { endpoint = some ""; access_key = str ""; api_version = some "2025-09-01" };
  secrets_configured = some no_secrets;
  credentials_unavailable = bool false;
  clear_secrets = bool false;
  updated_at = undefined;
}

-- A field that the settings lack is that of the defaults.
abbrev pub or_default {ℓ} : {A : Type ℓ} → Option A → A → A
or_default none x = x
or_default (some y) x = y

abbrev pub flag_or_default : Value → Value
flag_or_default undefined = bool false
flag_or_default v = v

abbrev pub secrets_or_default : Option Secrets → Secrets
secrets_or_default none = no_secrets
secrets_or_default (some kept) = record {
  smtp_password = flag_or_default kept.smtp_password;
  aws_secret_access_key = flag_or_default kept.aws_secret_access_key;
  aws_session_token = flag_or_default kept.aws_session_token;
  azure_access_key = flag_or_default kept.azure_access_key;
}

unfoldable pub provider_of : Value → Provider
provider_of v =
    if is v "AWS_SES" then aws_ses else if is v "AZURE_ACS" then azure_acs else Provider.smtp

abbrev pub provider_text : Provider → String
provider_text smtp = "SMTP"
provider_text aws_ses = "AWS_SES"
provider_text azure_acs = "AZURE_ACS"

pub record Normalized : Type 0 where
  pub enabled : Bool
  pub provider : Provider
  pub from_name : String
  pub from_address : String
  pub host : String
  pub port : Value
  pub username : String
  pub password : String
  pub tls_mode : String
  pub region : String
  pub access_key_id : String
  pub secret_access_key : String
  pub session_token : String
  pub aws_endpoint : String
  pub azure_endpoint : String
  pub access_key : String
  pub api_version : String
  pub secrets_configured : Secrets
  pub credentials_unavailable : Bool
  pub clear_secrets : Bool

unfoldable pub normalize_email_settings : EmailSettings → Normalized
normalize_email_settings s = record {
  enabled = is_true s.enabled;
  provider = provider_of s.provider;
  from_name = or_default s.from_name "o11y Control Plane";
  from_address = or_default s.from_address "";
  host = or_default s.smtp.host "";
  port = or_default s.smtp.port (num (whole 587));
  username = or_default s.smtp.username "";
  password = "";
  tls_mode = or_default s.smtp.tls_mode "STARTTLS";
  region = or_default s.aws_ses.region "";
  access_key_id = or_default s.aws_ses.access_key_id "";
  secret_access_key = "";
  session_token = "";
  aws_endpoint = or_default s.aws_ses.endpoint "";
  azure_endpoint = or_default s.azure_acs.endpoint "";
  access_key = "";
  api_version = or_default s.azure_acs.api_version "2025-09-01";
  secrets_configured = secrets_or_default s.secrets_configured;
  credentials_unavailable = is_true s.credentials_unavailable;
  clear_secrets = is_true s.credentials_unavailable || is_true s.clear_secrets;
}

pub record EmailPayload : Type 0 where
  pub enabled : Bool
  pub provider : Provider
  pub from_name : String
  pub from_address : String
  pub host : String
  pub port : ℕ
  pub username : String
  pub password : String
  pub tls_mode : String
  pub region : String
  pub access_key_id : String
  pub secret_access_key : String
  pub session_token : String
  pub aws_endpoint : String
  pub azure_endpoint : String
  pub access_key : String
  pub api_version : String
  pub expected_updated_at : Option Value
  pub clear_secrets : Option Bool

-- The secrets are those of the form, never stored ones.
unfoldable pub email_settings_payload : EmailSettings → EmailPayload
email_settings_payload s =
    let n = normalize_email_settings s in
    record {
      enabled = n.enabled;
      provider = n.provider;
      from_name = trim n.from_name;
      from_address = to_lower (trim n.from_address);
      host = trim n.host;
      port = number_or_zero (to_number n.port);
      username = trim n.username;
      password = text_value s.smtp.password;
      tls_mode = n.tls_mode;
      region = trim n.region;
      access_key_id = trim n.access_key_id;
      secret_access_key = text_value s.aws_ses.secret_access_key;
      session_token = text_value s.aws_ses.session_token;
      aws_endpoint = trim n.aws_endpoint;
      azure_endpoint = trim n.azure_endpoint;
      access_key = text_value s.azure_acs.access_key;
      api_version = trim n.api_version;
      expected_updated_at = if truthy s.updated_at then some s.updated_at else none;
      clear_secrets = if is_true s.clear_secrets then some true else none;
    }

-- The secrets that the server keeps.
unfoldable pub preserved_secrets : EmailSettings → Secrets
preserved_secrets s =
    if truthy s.clear_secrets then no_secrets else or_default s.secrets_configured no_secrets
