-- ===== src/Js/Object/Laws.antt =====
-- What an object made of pairs holds.
use otel_opamp_control_plane.Prelude.{
  append_nil, append_one, equal_false_iff, String, ◌≡◌, refl, sym, ap, ◌∙◌, subst, inl, inr, false,
  Option, none, some, List, [], ◌∷◌, ◌++◌, ◌==◌, eq_iff, if◌then◌else◌, Bool-cases,
}
use otel_opamp_control_plane.Js.Object.{assign, from_entries, get}

module _ {A : Type 0} where
  -- The value of the last pair with a key, or what was there before.
  abbrev pub last_value : Option A → List (String × A) → String → Option A
  last_value before [] key = before
  last_value before ((k, v) ∷ pairs) key =
      last_value (if k == key then some v else before) pairs key

  pub get-assign :
      (object : List (String × A)) (k : String) (v : A) (key : String)
      → get (assign object k v) key ≡ (if k == key then some v else get object key)
  unfolding assign
  get-assign [] k v key = refl
  get-assign ((l, w) ∷ object) k v key = elim (Bool-cases (l == k)) [
    | inl here ↦
        let same : l ≡ k = (eq_iff l k).0 here in
        rw (here, same)
          (elim (Bool-cases (k == key)) [ inl found ↦ rw found refl | inr other ↦ rw other refl ])
    | inr elsewhere ↦
        rw (elsewhere, get-assign object k v key)
          (elim (Bool-cases (l == key)) [
            | inl found ↦
                let same : l ≡ key = (eq_iff l key).0 found in
                let apart : (k == key) ≡ false =
                  (equal_false_iff k key).1
                    (λ e. (equal_false_iff l k).0 elsewhere (same ∙ sym e)) in
                rw (found, apart) refl
            | inr other ↦ rw other refl
          ])
  ]

  pub get-from_entries :
      (object pairs : List (String × A)) (key : String)
      → get (from_entries object pairs) key ≡ last_value (get object key) pairs key
  unfolding from_entries
  get-from_entries object [] key = refl
  get-from_entries object ((k, v) ∷ pairs) key =
      rw (get-from_entries (assign object k v) pairs key, get-assign object k v key) refl

  -- No key stands twice.
  abbrev pub Apart : List (String × A) → Type 0
  Apart [] = Unit
  Apart ((k, v) ∷ pairs) = (get pairs k ≡ none) × Apart pairs

  pub assign-Apart :
      (object : List (String × A)) (k : String) (v : A) → Apart object → Apart (assign object k v)
  unfolding assign
  assign-Apart [] k v h = (refl, tt)
  assign-Apart ((l, w) ∷ object) k v (fresh, others) = elim (Bool-cases (l == k)) [
    | inl here ↦
        let same : l ≡ k = (eq_iff l k).0 here in
        rw here (subst (λ key. get object key ≡ none) same fresh, others)
    | inr elsewhere ↦
        let apart : (k == l) ≡ false =
          (equal_false_iff k l).1 (λ e. (equal_false_iff l k).0 elsewhere (sym e)) in
        rw elsewhere (get-assign object k v l ∙ rw apart fresh, assign-Apart object k v others)
  ]

  pub from_entries-Apart :
      (object pairs : List (String × A)) → Apart object → Apart (from_entries object pairs)
  unfolding from_entries
  from_entries-Apart object [] h = h
  from_entries-Apart object ((k, v) ∷ pairs) h =
      from_entries-Apart (assign object k v) pairs (assign-Apart object k v h)

  other_key :
      (object pairs : List (String × A)) (k : String) (v : A) (l : String)
      → get (object ++ ((k, v) ∷ pairs)) l ≡ none
      → (l == k) ≡ false
  other_key [] pairs k v l h = (equal_false_iff l k).1 (λ same. elim (Bool-cases (k == l)) [
    | inl here ↦ cc (subst (λ b. (if b then some v else get pairs l) ≡ none) here h)
    | inr not_here ↦ (equal_false_iff k l).0 not_here (sym same)
  ])
  other_key ((j, w) ∷ object) pairs k v l h = elim (Bool-cases (j == l)) [
    | inl here ↦
        cc (subst (λ b. (if b then some w else get (object ++ ((k, v) ∷ pairs)) l) ≡ none) here h)
    | inr elsewhere ↦
        other_key object pairs k v l (
          subst (λ b. (if b then some w else get (object ++ ((k, v) ∷ pairs)) l) ≡ none) elsewhere
            h)
  ]

  assign_new :
      (object pairs : List (String × A)) (k : String) (v : A)
      → Apart (object ++ ((k, v) ∷ pairs))
      → assign object k v ≡ object ++ ((k, v) ∷ [])
  unfolding assign
  assign_new [] pairs k v h = refl
  assign_new ((l, w) ∷ object) pairs k v (fresh, others) =
      rw (other_key object pairs k v l fresh, assign_new object pairs k v others) refl

  pub from_entries_of_Apart :
      (object pairs : List (String × A))
      → Apart (object ++ pairs)
      → from_entries object pairs ≡ object ++ pairs
  unfolding from_entries
  from_entries_of_Apart object [] h = sym (append_nil object)
  from_entries_of_Apart object ((k, v) ∷ pairs) h =
      ap (λ o. from_entries o pairs) (assign_new object pairs k v h)
      ∙ from_entries_of_Apart (object ++ ((k, v) ∷ [])) pairs
          (subst Apart (sym (append_one object (k, v) pairs)) h)
      ∙ append_one object (k, v) pairs
