-- ===== src/Tests/Providers.antt =====
-- The theorems on identity providers, applied to a concrete form.
use otel_opamp_control_plane.Prelude.{List, ◌≤◌, ◌≡◌, refl, ◌↔◌, true, some, [], ◌∷◌, length}
use otel_opamp_control_plane.Js.Object.{assign, from_entries}
use otel_opamp_control_plane.Js.Text.{is_space, trim}
use otel_opamp_control_plane.Provider.Mappings.{
  Row, role_mappings_payload, trimmed, entries, normalize_role_mappings,
}
use otel_opamp_control_plane.Provider.Mappings.Again.{
  stored, role_mappings_payload-normalize_role_mappings,
}
use otel_opamp_control_plane.Provider.Gate.{begin, invalidate, step, begun, is_current, run}
use otel_opamp_control_plane.Provider.Gate.Laws.{is_current_iff}
use otel_opamp_control_plane.Provider.Draft.{Draft, validate_provider_draft}
use otel_opamp_control_plane.Provider.Draft.Laws.{
  Filled, IsProtocol, validate_provider_draft-empty_iff,
}
use otel_opamp_control_plane.Js.{str, undefined, is}

abbrev role_rows : List Row
role_rows =
    record { external_role = " admins "; local_role = "viewer" }
    ∷ record { external_role = "ops"; local_role = " " }
    ∷ record { external_role = "admins"; local_role = "admin " }
    ∷ []

is_current_iff_example :
    (is_current (run (step 3 begin) (invalidate ∷ [])) (begun 3) ≡ true) ↔ (invalidate ∷ [] ≡ [])
is_current_iff_example = is_current_iff 3 (invalidate ∷ [])

-- The last row of a role counts, and the row without a local role is not sent.
admins_sent : role_mappings_payload role_rows ≡ ("admins", "admin") ∷ []
unfolding role_mappings_payload from_entries assign trimmed trim is_space
admins_sent = refl

role_mappings_payload-normalize_role_mappings_example :
    role_mappings_payload
      (normalize_role_mappings (some (entries (stored (role_mappings_payload role_rows)))))
    ≡ role_mappings_payload role_rows
role_mappings_payload-normalize_role_mappings_example =
    role_mappings_payload-normalize_role_mappings role_rows

abbrev saml_draft : Draft
saml_draft = record {
  protocol = str "SAML";
  label = str "Company";
  role_mappings = role_rows;
  updated_at = undefined;
  sp_entity_id = str "urn:control-plane";
  metadata_url = undefined;
  metadata_xml = str "<EntityDescriptor/>";
  name_id_attribute = undefined;
  user_attribute = str "uid";
  role_attribute = str "groups";
  issuer = undefined;
  client_id = undefined;
  client_secret = undefined;
  secret_configured = undefined;
  user_claim = undefined;
  role_claim = undefined;
}

validate_provider_draft-empty_iff_example : (validate_provider_draft saml_draft ≡ []) ↔ (
    Filled saml_draft.label
    × ((1 ≤ length (role_mappings_payload saml_draft.role_mappings))
        × IsProtocol (is saml_draft.protocol "SAML") saml_draft))
validate_provider_draft-empty_iff_example = validate_provider_draft-empty_iff saml_draft
