-- ===== src/Js/Sort/Laws.antt =====
-- A sorted array: the same elements, in order.
use otel_opamp_control_plane.Js.Sort.{after, insert, sort}
use Prim.Native.Nat.{Ordering}
use otel_opamp_control_plane.Prelude.{
  ℕ, ◌+◌, ◌≤◌, ◌≡◌, refl, ap, ◌∙◌, subst, inl, inr, Bool, true, false, List, [], ◌∷◌, arith,
  if◌then◌else◌, Bool-cases, count, filter, All, All-map, All-filter,
}

-- The elements in the order of a number.
module _ {A : Type 0} (rank : A → ℕ) where
  abbrev pub Ranked : List A → Type 0
  Ranked [] = Unit
  Ranked (x ∷ xs) = All (λ y. rank x ≤ rank y) xs × Ranked xs

  pub filter-Ranked : (p : A → Bool) (xs : List A) → Ranked xs → Ranked (filter p xs)
  filter-Ranked p [] h = tt
  filter-Ranked p (x ∷ xs) (low, h) = elim (Bool-cases (p x)) [
    | inl keeps ↦ rw keeps (All-filter (λ y. rank x ≤ rank y) p xs low, filter-Ranked p xs h)
    | inr drops ↦ rw drops (filter-Ranked p xs h)
  ]

module _ {A : Type 0} (compare : A → A → Ordering) where
  count-insert :
      (p : A → Bool) (x : A) (ys : List A)
      → count p (insert compare x ys) ≡ (if p x then 1 else 0) + count p ys
  unfolding insert
  count-insert p x [] = refl
  count-insert p x (y ∷ ys) = elim (Bool-cases (after compare x y)) [
    | inl moves ↦ rw (moves, count-insert p x ys) (omega arith)
    | inr stays ↦ rw stays refl
  ]

  pub count-sort : (p : A → Bool) (xs : List A) → count p (sort compare xs) ≡ count p xs
  unfolding sort
  count-sort p [] = refl
  count-sort p (x ∷ xs) =
      count-insert p x (sort compare xs) ∙ ap (λ n. (if p x then 1 else 0) + n) (count-sort p xs)

  All-insert_of :
      (P : A → Type 0) (x : A) (ys : List A) → P x → All P ys → All P (insert compare x ys)
  unfolding insert
  All-insert_of P x [] h hs = (h, tt)
  All-insert_of P x (y ∷ ys) h hs = elim (Bool-cases (after compare x y)) [
    | inl moves ↦ rw moves (hs.0, All-insert_of P x ys h hs.1)
    | inr stays ↦ rw stays (h, hs)
  ]

  pub All-sort : (P : A → Type 0) (xs : List A) → All P xs → All P (sort compare xs)
  unfolding sort
  All-sort P [] h = tt
  All-sort P (x ∷ xs) (hx, h) = All-insert_of P x (sort compare xs) hx (All-sort P xs h)

  -- No element comes after a later one.
  abbrev pub Sorted : List A → Type 0
  Sorted [] = Unit
  Sorted (x ∷ xs) = All (λ y. after compare x y ≡ false) xs × Sorted xs

  module _ (asymmetric : (x y : A) → after compare x y ≡ true → after compare y x ≡ false)
      (transitive : (x y z : A)
        → after compare x y ≡ false
        → after compare y z ≡ false
        → after compare x z ≡ false) where
    All-insert :
        (z x : A) (ys : List A)
        → after compare z x ≡ false
        → All (λ y. after compare z y ≡ false) ys
        → All (λ y. after compare z y ≡ false) (insert compare x ys)
    unfolding insert
    All-insert z x [] h hs = (h, tt)
    All-insert z x (y ∷ ys) h hs = elim (Bool-cases (after compare x y)) [
      | inl moves ↦ rw moves (hs.0, All-insert z x ys h hs.1)
      | inr stays ↦ rw stays (h, hs)
    ]

    insert-Sorted : (x : A) (ys : List A) → Sorted ys → Sorted (insert compare x ys)
    unfolding insert
    insert-Sorted x [] h = (tt, tt)
    insert-Sorted x (y ∷ ys) (low, others) = elim (Bool-cases (after compare x y)) [
      | inl moves ↦
          rw moves (All-insert y x ys (asymmetric x y moves) low, insert-Sorted x ys others)
      | inr stays ↦ rw stays ((stays, All-map (λ z. transitive x y z stays) ys low), (low, others))
    ]

    pub sort-Sorted : (xs : List A) → Sorted (sort compare xs)
    unfolding sort
    sort-Sorted [] = tt
    sort-Sorted (x ∷ xs) = insert-Sorted x (sort compare xs) (sort-Sorted xs)

  pub insert-All_of :
      (P : A → Type 0) (x : A) (ys : List A) → All P (insert compare x ys) → P x × All P ys
  unfolding insert
  insert-All_of P x [] h = h
  insert-All_of P x (y ∷ ys) h = elim (Bool-cases (after compare x y)) [
    | inl moves ↦
        let placed : P y × All P (insert compare x ys) =
          subst (λ b. All P (if b then y ∷ insert compare x ys else x ∷ y ∷ ys)) moves h in
        let (hx, others) = insert-All_of P x ys placed.1 in (hx, (placed.0, others))
    | inr stays ↦ subst (λ b. All P (if b then y ∷ insert compare x ys else x ∷ y ∷ ys)) stays h
  ]

  -- What holds of the sorted elements holds of the elements.
  pub sort-All_of : (P : A → Type 0) (xs : List A) → All P (sort compare xs) → All P xs
  unfolding sort
  sort-All_of P [] h = tt
  sort-All_of P (x ∷ xs) h =
      let (hx, others) = insert-All_of P x (sort compare xs) h in (hx, sort-All_of P xs others)

  -- A comparison that agrees with a number on the elements that have one.
  module _ (rank : A → ℕ) where
    module _ (IsRanked : A → Type 0)
        (above : (x y : A) → IsRanked x → IsRanked y → after compare x y ≡ true → rank y ≤ rank x)
        (below : (x y : A)
          → IsRanked x
          → IsRanked y
          → after compare x y ≡ false
          → rank x ≤ rank y) where
      insert-Ranked :
          (x : A) (ys : List A)
          → IsRanked x
          → All IsRanked ys
          → Ranked rank ys
          → Ranked rank (insert compare x ys)
      unfolding insert
      insert-Ranked x [] hx hs h = (tt, tt)
      insert-Ranked x (y ∷ ys) hx (hy, hs) (low, h) = elim (Bool-cases (after compare x y)) [
        | inl moves ↦ rw moves (
          All-insert_of (λ z. rank y ≤ rank z) x ys (above x y hx hy moves) low,
          insert-Ranked x ys hx hs h,
        )
        | inr stays ↦
            let first = below x y hx hy stays in
            rw stays ((first, All-map (λ z. λ k. omega (arith, first, k)) ys low), (low, h))
      ]

      pub sort-Ranked : (xs : List A) → All IsRanked xs → Ranked rank (sort compare xs)
      unfolding sort
      sort-Ranked [] h = tt
      sort-Ranked (x ∷ xs) (hx, h) =
          insert-Ranked x (sort compare xs) hx (All-sort IsRanked xs h) (sort-Ranked xs h)
