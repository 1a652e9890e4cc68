-- ===== src/Network/Laws.antt =====
-- The normal form of the network settings.
use otel_opamp_control_plane.Js.Set.{unique_of_Distinct, unique, non_empty}
use otel_opamp_control_plane.Network.{
  trusted_or_direct, Payload, NetworkSettings, string_value, unique_strings, public_url_sources,
  source_or_request, normalize_network_settings,
}
use mathlib.Core.Path.{fun_ext}
use otel_opamp_control_plane.Js.{
  Value, undefined, null, str, num, bool, to_string, is, is_true, one_of,
}
use otel_opamp_control_plane.Js.Text.{trim, trim_start, trim_end}
use otel_opamp_control_plane.Js.Text.Laws.{trim_idem}
use otel_opamp_control_plane.Selection.{array, normalized_value, normalize_selection}
use otel_opamp_control_plane.Selection.Laws.{normalize_selection_idem}
use otel_opamp_control_plane.Prelude.{
  ◌≡◌, refl, ap, ◌∙◌, inl, inr, Option, none, some, List, [], map, Bool-cases,
}

-- Settings in normal form, sent again.
abbrev pub payload_of : NetworkSettings → Payload
payload_of s = record {
  public_url = str s.public_url;
  public_url_source = str s.public_url_source;
  opamp_public_url = str s.opamp_public_url;
  trusted_proxy_cidrs = some (map str s.trusted_proxy_cidrs);
  proxy_mode = str s.proxy_mode;
  http_listen_address = str s.http_listen_address;
  opamp_listen_address = str s.opamp_listen_address;
  subpath_supported = bool s.subpath_supported;
  public_url_valid = bool s.public_url_valid;
}

string_value-normalized : (v : Value) → string_value v ≡ normalized_value v
unfolding string_value normalized_value to_string trim trim_start trim_end
string_value-normalized undefined = refl
string_value-normalized null = refl
string_value-normalized (bool b) = refl
string_value-normalized (num n) = refl
string_value-normalized (str s) = refl

string_value_idem : (v : Value) → string_value (str (string_value v)) ≡ string_value v
unfolding string_value to_string trim trim_start trim_end
string_value_idem undefined = refl
string_value_idem null = refl
string_value_idem (bool b) = trim_idem _
string_value_idem (num n) = trim_idem _
string_value_idem (str s) = trim_idem _

source_idem : (v : Value) → source_or_request (str (source_or_request v)) ≡ source_or_request v
source_idem (str s) = elim (Bool-cases (one_of public_url_sources s)) [
  | inl known ↦ rw known (rw known refl)
  | inr other ↦ rw other refl
]
source_idem _ = refl

unique_strings-normalized :
    (values : List Value) → unique_strings (some values) ≡ normalize_selection (array values)
unfolding unique_strings normalize_selection
unique_strings-normalized values =
    ap (λ f. unique (non_empty (map f values))) (fun_ext string_value-normalized)

unique_strings_idem :
    (values : Option (List Value))
    → unique_strings (some (map str (unique_strings values))) ≡ unique_strings values
unfolding unique_strings
unique_strings_idem none = unique_of_Distinct [] tt
unique_strings_idem (some values) =
    rw (unique_strings-normalized values)
      (unique_strings-normalized _ ∙ normalize_selection_idem (array values))

mode_idem : (v : Value) → trusted_or_direct (str (trusted_or_direct v)) ≡ trusted_or_direct v
mode_idem v = elim (Bool-cases (is v "TRUSTED")) [
  | inl trusted ↦ rw trusted refl
  | inr direct ↦ rw direct refl
]

is_true_idem : (v : Value) → is_true (bool (is_true v)) ≡ is_true v
is_true_idem v = elim (Bool-cases (is_true v)) [
  | inl yes_true ↦ rw yes_true refl
  | inr not_true ↦ rw not_true refl
]

-- Settings that are normalised are their own normal form.
pub normalize_network_settings_idem :
    (p : Payload)
    → normalize_network_settings (payload_of (normalize_network_settings p))
      ≡ normalize_network_settings p
unfolding normalize_network_settings
normalize_network_settings_idem p =
    rw
      (
        string_value_idem p.public_url,
        source_idem p.public_url_source,
        string_value_idem p.opamp_public_url,
        unique_strings_idem p.trusted_proxy_cidrs,
        mode_idem p.proxy_mode,
        string_value_idem p.http_listen_address,
        string_value_idem p.opamp_listen_address,
        is_true_idem p.subpath_supported,
        is_true_idem p.public_url_valid,
      )
      refl
