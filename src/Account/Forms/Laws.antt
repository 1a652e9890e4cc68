-- ===== src/Account/Forms/Laws.antt =====
-- What the validators of the forms accept.
use otel_opamp_control_plane.Js.Messages.{check_iff, last_check_iff}
use otel_opamp_control_plane.Prelude.{
  same_iff, not_equal_iff, equal_false_iff, not_below, ◌≤◌, String, ◌≡◌, refl, ◌≢◌, ◌↔◌, Bool, true,
  false, not, ◌&&◌, [], arith, ◌==◌, is_empty,
}
use otel_opamp_control_plane.Account.Forms.{validate_password_change}
use otel_opamp_control_plane.Js.Text.{utf16_length, utf8_length}

not_both : (a b : Bool) → ((not a && b) ≡ false) ↔ (a ≡ false → b ≡ false)
not_both true b = (λ h k. cc, λ h. refl)
not_both false b = (λ h k. h, λ h. h refl)

not_empty_of_long : (s : String) → 12 ≤ utf16_length s → is_empty s ≡ false
unfolding utf16_length
not_empty_of_long String.[] h = absurd (omega (arith, h))
not_empty_of_long (String.◌∷◌ c s) h = refl

-- A password is changed without complaint exactly if the current one is given, the new one has at
-- least 12 UTF-16 units and at most 72 bytes, differs from the current one and is confirmed.
pub validate_password_change-empty_iff :
    (current new confirm : String)
    → (validate_password_change current new confirm ≡ []) ↔ (
        (is_empty current ≡ false)
        × ((12 ≤ utf16_length new)
            × ((utf8_length new ≤ 72) × ((new ≢ current) × (new ≡ confirm)))))
unfolding validate_password_change
validate_password_change-empty_iff current new confirm =
    let (sound, complete) = check_iff _ _ _ (same_iff {P = is_empty current ≡ false}) (
      check_iff _ _ _ (not_below (utf16_length new) 12) (
        check_iff _ _ _ (not_below 72 (utf8_length new)) (
          check_iff _ _ _ (not_both (is_empty new) (new == current))
            (last_check_iff _ _ (not_equal_iff new confirm))))) in
    let (apart, equal) = equal_false_iff new current in
    (
      λ h.
          let (given, (long, (short, (fresh, same)))) = sound h in
          (given, (long, (short, (apart (fresh (not_empty_of_long new long)), same)))),
      λ (given, (long, (short, (fresh, same)))).
          complete (given, (long, (short, (λ k. equal fresh, same)))),
    )
