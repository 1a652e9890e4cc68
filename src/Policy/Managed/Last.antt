-- ===== src/Policy/Managed/Last.antt =====
-- The last element of a list, `xs.at(-1)`, and what holds of all its elements.
use otel_opamp_control_plane.Policy.Managed.{last}
use otel_opamp_control_plane.Prelude.{
  inl, inr, true, false, if◌then◌else◌, ◌≢◌, subst, refl, ◌≡◌, Bool, none, some, List, [], ◌∷◌,
  Bool-cases, filter, All, All-map, In,
}

pub last-given : {A : Type 0} (xs : List A) (x : A) → last (x ∷ xs) ≢ none
last-given [] x h = cc h
last-given (y ∷ ys) x h = last-given ys y h

pub last-none :
    {A : Type 0} (p : A → Bool) (xs : List A)
    → last (filter p xs) ≡ none
    → All (λ x. p x ≡ false) xs
last-none p [] h = tt
last-none p (x ∷ xs) h = elim (Bool-cases (p x)) [
  | inl passes ↦ absurd (
      last-given (filter p xs) x
        (subst (λ b. last (if b then x ∷ filter p xs else filter p xs) ≡ none) passes h))
  | inr fails ↦ (
    fails,
    last-none p xs (subst (λ b. last (if b then x ∷ filter p xs else filter p xs) ≡ none) fails h),
  )
]

pub last-All :
    {A : Type 0} (P : A → Type 0) (xs : List A) (x : A) → All P xs → last xs ≡ some x → P x
last-All P [] x h found = cc
last-All P (y ∷ []) x (hy, h) found = let same : y ≡ x = cc found in subst P same hy
last-All P (y ∷ z ∷ xs) x (hy, h) found = last-All P (z ∷ xs) x h found

pub filter-All : {A : Type 0} (p : A → Bool) (xs : List A) → All (λ x. p x ≡ true) (filter p xs)
filter-All p [] = tt
filter-All p (x ∷ xs) = elim (Bool-cases (p x)) [
  | inl passes ↦ rw passes (passes, filter-All p xs)
  | inr fails ↦ rw fails (filter-All p xs)
]

pub All-In : {A : Type 0} (xs : List A) → All (λ x. In x xs) xs
All-In [] = tt
All-In (x ∷ xs) = (inl refl, All-map (λ y. λ h. inr h) xs (All-In xs))

pub All-filter_of :
    {A : Type 0} (P : A → Type 0) (p : A → Bool) (xs : List A)
    → All P (filter p xs)
    → All (λ x. p x ≡ true → P x) xs
All-filter_of P p [] h = tt
All-filter_of P p (x ∷ xs) h = elim (Bool-cases (p x)) [
  | inl keeps ↦
      let kept : P x × All P (filter p xs) =
        subst (λ b. All P (if b then x ∷ filter p xs else filter p xs)) keeps h in
      (λ e. kept.0, All-filter_of P p xs kept.1)
  | inr drops ↦
      let left : All P (filter p xs) =
        subst (λ b. All P (if b then x ∷ filter p xs else filter p xs)) drops h in
      (λ e. cc, All-filter_of P p xs left)
]
