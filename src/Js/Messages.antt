-- ===== src/Js/Messages.antt =====
-- A validator's list of messages: each test that holds pushes its message, in the order of the code.
-- The messages whose tests hold, in their order.
use otel_opamp_control_plane.Prelude.{
  String, ◌≡◌, refl, ◌↔◌, inl, inr, Bool, true, false, List, [], ◌∷◌, ◌++◌, if◌then◌else◌,
  Bool-cases, then_iff, both_iff,
}

unfoldable pub messages : List (Bool × String) → List String
messages [] = []
messages ((failed, message) ∷ checks) =
    let rest = messages checks in if failed then message ∷ rest else rest

-- The tests that stand under an `if`.
abbrev pub only_if : Bool → List (Bool × String) → List (Bool × String)
only_if true checks = checks
only_if false checks = []

-- Nothing is said exactly if the first test does not hold, which means `P`, and nothing is said of the
-- others.
module _ {P Q : Type 0} (failed : Bool) (message : String) (checks : List (Bool × String)) where
  pub check_iff :
      (failed ≡ false) ↔ P
      → (messages checks ≡ []) ↔ Q
      → (messages ((failed, message) ∷ checks) ≡ []) ↔ (P × Q)
  unfolding messages
  check_iff f g = elim (Bool-cases failed) [
    | inl bad ↦ rw bad (λ h. cc, λ (p, q). cc (f.1 p, bad))
    | inr good ↦ rw good (λ h. (f.0 good, g.0 h), λ (p, q). g.1 q)
  ]

pub last_check_iff :
    {P : Type 0} (failed : Bool) (message : String)
    → (failed ≡ false) ↔ P
    → (messages ((failed, message) ∷ []) ≡ []) ↔ P
unfolding messages
last_check_iff failed message f = elim (Bool-cases failed) [
  | inl bad ↦ rw bad (λ h. cc, λ p. cc (f.1 p, bad))
  | inr good ↦ rw good (λ h. f.0 good, λ p. refl)
]

append_iff :
    (checks others : List (Bool × String))
    → (messages (checks ++ others) ≡ []) ↔ ((messages checks ≡ []) × (messages others ≡ []))
unfolding messages
append_iff [] others = (λ h. (refl, h), λ h. h.1)
append_iff ((true, message) ∷ checks) others = (λ h. cc, λ h. cc (h.0))
append_iff ((false, message) ∷ checks) others = append_iff checks others

-- Two groups of tests, one behind the other.
pub group_iff :
    {P Q : Type 0} (checks others : List (Bool × String))
    → (messages checks ≡ []) ↔ P
    → (messages others ≡ []) ↔ Q
    → (messages (checks ++ others) ≡ []) ↔ (P × Q)
group_iff checks others f g = then_iff (append_iff checks others) (both_iff f g)
