-- ===== src/Prelude/Members.antt =====
-- Lists of which some element satisfies a predicate, through the operations on arrays.
use mathlib.Core.Path.{◌≡◌, refl, subst}
use mathlib.Core.Bool.{Bool, true}
use mathlib.Core.Logic.{◌↔◌, ◌⊎◌, inl, inr}
use mathlib.Core.List.{List, [], ◌∷◌, ◌++◌, map}
use otel_opamp_control_plane.Prelude.Tests.{Bool-cases}
use otel_opamp_control_plane.Prelude.Lists.{any, filter, concat_map}

module _ {A : Type 0} where
  -- Some element satisfies the predicate.
  abbrev pub Exists : (A → Type 0) → List A → Type 0
  Exists P [] = ⊥
  Exists P (x ∷ xs) = P x ⊎ Exists P xs

  abbrev pub In : A → List A → Type 0
  In a xs = Exists (λ x. a ≡ x) xs

  pub Exists-iff :
      {P Q : A → Type 0} → ((x : A) → P x ↔ Q x) → (xs : List A) → Exists P xs ↔ Exists Q xs
  Exists-iff h [] = (λ e. e, λ e. e)
  Exists-iff h (x ∷ xs) = (
    λ e. elim e [ inl here ↦ inl ((h x).0 here) | inr later ↦ inr ((Exists-iff h xs).0 later) ],
    λ e. elim e [ inl here ↦ inl ((h x).1 here) | inr later ↦ inr ((Exists-iff h xs).1 later) ],
  )

  pub Exists-append :
      (P : A → Type 0) (xs ys : List A) → Exists P (xs ++ ys) ↔ (Exists P xs ⊎ Exists P ys)
  Exists-append P [] ys = (λ e. inr e, λ e. elim e [ inl none_here ↦ absurd none_here | inr k ↦ k ])
  Exists-append P (x ∷ xs) ys = (
    λ e. elim e [
      | inl here ↦ inl (inl here)
      | inr later ↦ elim ((Exists-append P xs ys).0 later) [ inl l ↦ inl (inr l) | inr r ↦ inr r ]
    ],
    λ e. elim e [
      | inl (inl here) ↦ inl here
      | inl (inr l) ↦ inr ((Exists-append P xs ys).1 (inl l))
      | inr r ↦ inr ((Exists-append P xs ys).1 (inr r))
    ],
  )

  -- An element of the list that satisfies the predicate is one, and the other way round.
  pub Exists-of_In : (P : A → Type 0) (xs : List A) (a : A) → In a xs → P a → Exists P xs
  Exists-of_In P [] a h p = absurd h
  Exists-of_In P (x ∷ xs) a (inl same) p = inl (subst P same p)
  Exists-of_In P (x ∷ xs) a (inr later) p = inr (Exists-of_In P xs a later p)

  pub In_of_Exists : (P : A → Type 0) (xs : List A) → Exists P xs → (a : A) × In a xs × P a
  In_of_Exists P [] h = absurd h
  In_of_Exists P (x ∷ xs) (inl here) = (x, inl refl, here)
  In_of_Exists P (x ∷ xs) (inr later) =
      let (a, member, p) = In_of_Exists P xs later in (a, inr member, p)

  pub any_iff : (p : A → Bool) (xs : List A) → (any p xs ≡ true) ↔ Exists (λ x. p x ≡ true) xs
  any_iff p [] = (λ h. cc, λ h. absurd h)
  any_iff p (x ∷ xs) = elim (Bool-cases (p x)) [
    | inl here ↦ rw here (λ h. inl refl, λ h. refl)
    | inr other ↦ rw other (
      λ h. inr ((any_iff p xs).0 h),
      λ h. elim h [ inl absent ↦ cc absent | inr later ↦ (any_iff p xs).1 later ],
    )
  ]

  pub Exists-filter :
      (P : A → Type 0) (p : A → Bool) (xs : List A)
      → Exists P (filter p xs) ↔ Exists (λ x. (p x ≡ true) × P x) xs
  Exists-filter P p [] = (λ e. e, λ e. e)
  Exists-filter P p (x ∷ xs) = elim (Bool-cases (p x)) [
    | inl keeps ↦ rw keeps (
      λ e. elim e [
        | inl here ↦ inl (refl, here)
        | inr later ↦ inr ((Exists-filter P p xs).0 later)
      ],
      λ e. elim e [ inl here ↦ inl here.1 | inr later ↦ inr ((Exists-filter P p xs).1 later) ],
    )
    | inr drops ↦ rw drops (
      λ e. inr ((Exists-filter P p xs).0 e),
      λ e. elim e [ inl here ↦ cc (here.0) | inr later ↦ (Exists-filter P p xs).1 later ],
    )
  ]

module _ {A B : Type 0} where
  pub Exists-map :
      (P : B → Type 0) (f : A → B) (xs : List A) → Exists P (map f xs) ↔ Exists (λ x. P (f x)) xs
  Exists-map P f [] = (λ e. e, λ e. e)
  Exists-map P f (x ∷ xs) = (
    λ e. elim e [ inl here ↦ inl here | inr later ↦ inr ((Exists-map P f xs).0 later) ],
    λ e. elim e [ inl here ↦ inl here | inr later ↦ inr ((Exists-map P f xs).1 later) ],
  )

  pub Exists-concat_map :
      (P : B → Type 0) (f : A → List B) (xs : List A)
      → Exists P (concat_map f xs) ↔ Exists (λ x. Exists P (f x)) xs
  Exists-concat_map P f [] = (λ e. e, λ e. e)
  Exists-concat_map P f (x ∷ xs) = (
    λ e. elim ((Exists-append P (f x) (concat_map f xs)).0 e) [
      | inl here ↦ inl here
      | inr later ↦ inr ((Exists-concat_map P f xs).0 later)
    ],
    λ e. elim e [
      | inl here ↦ (Exists-append P (f x) (concat_map f xs)).1 (inl here)
      | inr later ↦
          (Exists-append P (f x) (concat_map f xs)).1 (inr ((Exists-concat_map P f xs).1 later))
    ],
  )
