-- ===== src/Provider/Mappings/Again.antt =====
-- Role mappings that were sent, read again.
use otel_opamp_control_plane.Provider.Mappings.{
  Row, role_mappings_payload, trimmed, given, entries, normalize_role_mappings,
}
use otel_opamp_control_plane.Js.Object.{assign, from_entries}
use otel_opamp_control_plane.Js.Object.Laws.{from_entries-Apart, from_entries_of_Apart}
use otel_opamp_control_plane.Js.{Value, str, to_string}
use otel_opamp_control_plane.Js.Text.{trim}
use otel_opamp_control_plane.Js.Text.Laws.{trim_idem}
use otel_opamp_control_plane.Account.{text_value}
use otel_opamp_control_plane.Prelude.{
  String, ◌≡◌, refl, ap, ◌∙◌, inl, inr, true, some, List, [], ◌∷◌, map, ◌==◌, Bool-cases, filter,
  All,
}

-- Both trimmed, and neither blank.
abbrev pub IsClean : String × String → Type 0
IsClean (k, v) = (trim k ≡ k) × ((trim v ≡ v) × (given (k, v) ≡ true))

assign-All :
    (object : List (String × String)) (k v : String)
    → IsClean (k, v)
    → All IsClean object
    → All IsClean (assign object k v)
unfolding assign
assign-All [] k v h hs = (h, tt)
assign-All ((l, w) ∷ object) k v h hs = elim (Bool-cases (l == k)) [
  | inl here ↦ rw here (h, hs.1)
  | inr elsewhere ↦ rw elsewhere (hs.0, assign-All object k v h hs.1)
]

from_entries-All :
    (object pairs : List (String × String))
    → All IsClean object
    → All IsClean pairs
    → All IsClean (from_entries object pairs)
unfolding from_entries
from_entries-All object [] h hs = h
from_entries-All object ((k, v) ∷ pairs) h hs =
    from_entries-All (assign object k v) pairs (assign-All object k v hs.0 h) hs.1

trimmed-All : (items : List Row) → All IsClean (filter given (map trimmed items))
unfolding trimmed
trimmed-All [] = tt
trimmed-All (row ∷ items) =
    elim (Bool-cases (given (trim row.external_role, trim row.local_role))) [
      | inl good ↦
          rw good
            ((trim_idem row.external_role, (trim_idem row.local_role, good)), trimmed-All items)
      | inr bad ↦ rw bad (trimmed-All items)
    ]

-- A stored object, as the server returns it.
abbrev pub stored : List (String × String) → List (String × Value)
stored pairs = map (λ (key, value). (key, str value)) pairs

reread :
    (pairs : List (String × String))
    → All IsClean pairs
    → filter given (map trimmed (normalize_role_mappings (some (entries (stored pairs))))) ≡ pairs
unfolding normalize_role_mappings trimmed text_value to_string
reread [] h = refl
reread ((k, v) ∷ pairs) ((key, (value, good)), others) =
    rw (key, value, good, reread pairs others) refl

-- The mappings that are sent for any rows, stored and loaded into the form again, are sent as they are.
pub role_mappings_payload-normalize_role_mappings :
    (items : List Row)
    → role_mappings_payload
        (normalize_role_mappings (some (entries (stored (role_mappings_payload items)))))
      ≡ role_mappings_payload items
unfolding role_mappings_payload
role_mappings_payload-normalize_role_mappings items =
    let pairs = filter given (map trimmed items) in
    let sent = from_entries [] pairs in
    ap (from_entries []) (reread sent (from_entries-All [] pairs tt (trimmed-All items)))
    ∙ from_entries_of_Apart [] sent (from_entries-Apart [] pairs tt)
