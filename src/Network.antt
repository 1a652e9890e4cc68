-- ===== src/Network.antt =====
-- ui/src/network-settings.js: the network settings that the server sends, in the form the page shows.
pub mod Laws
use otel_opamp_control_plane.Js.{Value, undefined, null, str, to_string, is, is_true, one_of}
use otel_opamp_control_plane.Js.Text.{trim}
use otel_opamp_control_plane.Js.Set.{unique, non_empty}
use otel_opamp_control_plane.Prelude.{
  ℕ, zero, suc, ◌+◌, ◌-◌, ◌*◌, ◌/◌, ◌%◌, ◌≤◌, ◌<◌, Char, code, String, ◌≡◌, refl, sym, ap, ◌∙◌,
  subst, ◌≢◌, ◌↔◌, ◌⊎◌, inl, inr, Bool, true, false, not, ◌&&◌, ◌||◌, Option, none, some, List, [],
  ◌∷◌, ◌++◌, map, reverse, foldl, arith, ◌==◌, starts_with, eq_iff, eq_refl, ltb, leb, eqb,
  is_empty, empty_lem, if◌then◌else◌, Bool-cases, Option-cases, leb→le, ltb→lt, tests, length,
  get_elem?, any, all, filter, count, length-filter, All, All-filter, All-append, count-le,
  All-of_count_eq, count_congr, All-intro, All-map, All-zip, count-eq-length_iff, count-le-length,
}

pub record Payload : Type 0 where
  pub public_url : Value
  pub public_url_source : Value
  pub opamp_public_url : Value
  pub trusted_proxy_cidrs : Option (List Value)
  pub proxy_mode : Value
  pub http_listen_address : Value
  pub opamp_listen_address : Value
  pub subpath_supported : Value
  pub public_url_valid : Value

pub record NetworkSettings : Type 0 where
  pub public_url : String
  pub public_url_source : String
  pub opamp_public_url : String
  pub trusted_proxy_cidrs : List String
  pub proxy_mode : String
  pub http_listen_address : String
  pub opamp_listen_address : String
  pub subpath_supported : Bool
  pub public_url_valid : Bool

unfoldable pub string_value : Value → String
string_value undefined = ""
string_value null = ""
string_value v = trim (to_string v)

-- `none` is a value that is no array.
unfoldable pub unique_strings : Option (List Value) → List String
unique_strings none = []
unique_strings (some values) = unique (non_empty (map string_value values))

abbrev pub public_url_sources : List String
public_url_sources = "SERVER_PUBLIC_URL" ∷ "AUTH_PUBLIC_URL" ∷ "request" ∷ []

-- `["…", …].includes(v) ? v : "request"`
abbrev pub source_or_request : Value → String
source_or_request (str s) = if one_of public_url_sources s then s else "request"
source_or_request _ = "request"

abbrev pub trusted_or_direct : Value → String
trusted_or_direct v = if is v "TRUSTED" then "TRUSTED" else "DIRECT"

unfoldable pub normalize_network_settings : Payload → NetworkSettings
normalize_network_settings p = record {
  public_url = string_value p.public_url;
  public_url_source = source_or_request p.public_url_source;
  opamp_public_url = string_value p.opamp_public_url;
  trusted_proxy_cidrs = unique_strings p.trusted_proxy_cidrs;
  proxy_mode = trusted_or_direct p.proxy_mode;
  http_listen_address = string_value p.http_listen_address;
  opamp_listen_address = string_value p.opamp_listen_address;
  subpath_supported = is_true p.subpath_supported;
  public_url_valid = is_true p.public_url_valid;
}
