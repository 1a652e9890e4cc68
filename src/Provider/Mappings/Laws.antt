-- ===== src/Provider/Mappings/Laws.antt =====
-- The object of role mappings that is sent.
use otel_opamp_control_plane.Provider.Mappings.{Row, role_mappings_payload, trimmed, given}
use otel_opamp_control_plane.Js.Object.{get}
use otel_opamp_control_plane.Js.Object.Laws.{last_value, get-from_entries}
use otel_opamp_control_plane.Prelude.{String, ◌≡◌, none, List, [], map, filter}

-- What is sent under a role is the local role of the last row that has that external role once both
-- are trimmed, of the rows in which neither is blank; nothing is sent where no such row is.
pub get-role_mappings_payload :
    (items : List Row) (key : String)
    → get (role_mappings_payload items) key ≡ last_value none (filter given (map trimmed items)) key
unfolding role_mappings_payload
get-role_mappings_payload items key = get-from_entries [] (filter given (map trimmed items)) key
