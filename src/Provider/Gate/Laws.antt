-- ===== src/Provider/Gate/Laws.antt =====
-- A request is current until the next event, and never again.
use otel_opamp_control_plane.Provider.Gate.{Event, begin, invalidate, step, begun, is_current, run}
use otel_opamp_control_plane.Prelude.{
  ℕ, ◌+◌, ◌≡◌, refl, ◌∙◌, ◌↔◌, true, List, [], ◌∷◌, arith, length,
}

run-grows : (g : ℕ) (events : List Event) → run g events ≡ g + length events
unfolding run step
run-grows g [] = omega arith
run-grows g (begin ∷ events) = run-grows (g + 1) events ∙ omega arith
run-grows g (invalidate ∷ events) = run-grows (g + 1) events ∙ omega arith

length_zero : {A : Type 0} (xs : List A) → length xs ≡ 0 → xs ≡ []
length_zero [] h = refl
length_zero (x ∷ xs) h = absurd (omega (arith, h))

-- Whatever state a request is begun in and whatever happens afterwards, it is current exactly if nothing
-- was begun or invalidated since.
pub is_current_iff :
    (generation : ℕ) (since : List Event)
    → (is_current (run (step generation begin) since) (begun generation) ≡ true) ↔ (since ≡ [])
unfolding is_current run step begun
is_current_iff generation since =
    let grown = run-grows (generation + 1) since in
    (λ h. length_zero since (ground (arith, h, grown)), λ h. rw h (ground arith))
