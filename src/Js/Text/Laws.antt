-- ===== src/Js/Text/Laws.antt =====
-- Trimming a text a second time changes nothing.
use otel_opamp_control_plane.Prelude.{Char, String, false, ◌≡◌, refl, ap, ◌∙◌, Bool-cases, inl, inr}
use otel_opamp_control_plane.Js.Text.{is_space, trim_start, trim_end, trim, close}

-- The text is empty or starts with a character that is no space.
abbrev NoLead : String → Type 0
NoLead String.[] = Unit
NoLead (String.◌∷◌ c s) = is_space c ≡ false

trim_start-NoLead : (s : String) → NoLead (trim_start s)
unfolding trim_start
trim_start-NoLead String.[] = tt
trim_start-NoLead (String.◌∷◌ c s) = elim (Bool-cases (is_space c)) [
  | inl space ↦ rw space (trim_start-NoLead s)
  | inr other ↦ rw other other
]

close-NoLead : (c : Char) (t : String) → is_space c ≡ false → NoLead (close c t)
close-NoLead c String.[] h = rw h h
close-NoLead c (String.◌∷◌ d u) h = h

trim_end-NoLead : (s : String) → NoLead s → NoLead (trim_end s)
unfolding trim_end
trim_end-NoLead String.[] h = tt
trim_end-NoLead (String.◌∷◌ c s) h = close-NoLead c (trim_end s) h

trim_start_of_NoLead : (s : String) → NoLead s → trim_start s ≡ s
unfolding trim_start
trim_start_of_NoLead String.[] h = refl
trim_start_of_NoLead (String.◌∷◌ c s) h = rw h

trim_end-close : (c : Char) (t : String) → trim_end t ≡ t → trim_end (close c t) ≡ close c t
unfolding trim_end
trim_end-close c String.[] h = elim (Bool-cases (is_space c)) [
  | inl space ↦ rw space
  | inr other ↦ rw other (rw other)
]
trim_end-close c (String.◌∷◌ d u) h = rw h

trim_end_idem : (s : String) → trim_end (trim_end s) ≡ trim_end s
unfolding trim_end
trim_end_idem String.[] = refl
trim_end_idem (String.◌∷◌ c s) = trim_end-close c (trim_end s) (trim_end_idem s)

pub trim_idem : (s : String) → trim (trim s) ≡ trim s
unfolding trim
trim_idem s =
    ap trim_end (trim_start_of_NoLead _ (trim_end-NoLead _ (trim_start-NoLead s)))
    ∙ trim_end_idem (trim_start s)
