-- ===== src/Prelude/Iff.antt =====
-- Equivalences, composed and side by side.
use Prim.Native.Nat.{ℕ, ◌≤◌}
use mathlib.Core.Path.{◌≡◌}
use mathlib.Core.Bool.{Bool, true, false, not, ◌||◌}
use mathlib.Core.Logic.{◌↔◌, ◌≢◌, inl, inr}
use Prim.Native.String.{String}
use text.Mathlib.Text.{◌==◌}
use text.Mathlib.TextEquality.{eq_iff}
use native.Mathlib.Omega.{arith}
use otel_opamp_control_plane.Prelude.Tests.{ltb, eqb, Bool-cases}

pub then_iff : {P Q R : Type 0} → P ↔ Q → Q ↔ R → P ↔ R
then_iff f g = (λ h. g.0 (f.0 h), λ h. f.1 (g.1 h))

pub both_iff : {P Q R S : Type 0} → P ↔ Q → R ↔ S → (P × R) ↔ (Q × S)
both_iff f g = (λ h. (f.0 h.0, g.0 h.1), λ h. (f.1 h.0, g.1 h.1))

pub not-false : (b : Bool) → (not b ≡ false) ↔ (b ≡ true)
not-false b = ground arith

pub not_below : (a b : ℕ) → (ltb a b ≡ false) ↔ (b ≤ a)
not_below a b = ground arith

pub same_iff : {P : Type 0} → P ↔ P
same_iff = (λ h. h, λ h. h)

pub not_equal_iff : (s t : String) → (not (s == t) ≡ false) ↔ (s ≡ t)
not_equal_iff s t = then_iff (not-false (s == t)) (eq_iff s t)

pub equal_false_iff : (s t : String) → ((s == t) ≡ false) ↔ (s ≢ t)
equal_false_iff s t = (
  λ h k. cc (h, (eq_iff s t).1 k),
  λ h. elim (Bool-cases (s == t)) [
    | inl same ↦ absurd (h ((eq_iff s t).0 same))
    | inr other ↦ other
  ],
)

pub not_or : (a b : Bool) → ((a || b) ≡ false) ↔ ((a ≡ false) × (b ≡ false))
not_or a b = ground arith

pub not_zero : (n : ℕ) → (eqb n 0 ≡ false) ↔ (1 ≤ n)
not_zero n = ground arith
