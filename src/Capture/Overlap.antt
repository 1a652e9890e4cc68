-- ===== src/Capture/Overlap.antt =====
-- When two paths overlap.
use Prim.Native.String
use text.Mathlib.TextEquality.{starts_with_iff}
use otel_opamp_control_plane.Capture.{paths_overlap}
use otel_opamp_control_plane.Prelude.{
  String, ◌≡◌, refl, ◌↔◌, ◌⊎◌, Bool, true, ◌||◌, arith, eq_iff, is_empty, empty_lem,
}

-- The second path is the first, or lies below it by a field or by an index; the empty path is the
-- root of all.
abbrev pub Contains : (outer inner : String) → Type 0
Contains outer inner =
    (outer ≡ "")
    ⊎ (outer ≡ inner)
    ⊎ ((rest : String) × (String.◌++◌ (String.◌++◌ outer ".") rest ≡ inner))
    ⊎ ((rest : String) × (String.◌++◌ (String.◌++◌ outer "[") rest ≡ inner))

empty_iff : (s : String) → (is_empty s ≡ true) ↔ (s ≡ "")
empty_iff s = (empty_lem s, λ h. rw h refl)

or_true : (a b : Bool) → (a || b) ≡ true → (a ≡ true) ⊎ (b ≡ true)
or_true a b h = ground arith

-- Two paths overlap exactly if one of them contains the other.
pub paths_overlap_iff :
    (captured blocked : String)
    → (paths_overlap captured blocked ≡ true)
      ↔ (Contains captured blocked ⊎ Contains blocked captured)
unfolding paths_overlap
paths_overlap_iff captured blocked = ground (
  arith,
  eq_iff captured blocked,
  empty_iff captured,
  empty_iff blocked,
  starts_with_iff captured (String.◌++◌ blocked "."),
  starts_with_iff captured (String.◌++◌ blocked "["),
  starts_with_iff blocked (String.◌++◌ captured "."),
  starts_with_iff blocked (String.◌++◌ captured "["),
)
