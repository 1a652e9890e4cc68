-- ===== src/Prelude/Lists.antt =====
-- Arrays as lists: what `filter`, `some`, `every` and `length` do, over Boolean tests.
use Prim.Native.Nat.{◌≤◌, ℕ, zero, suc, ◌+◌}
use mathlib.Core.Path.{◌≡◌, refl, ap}
use mathlib.Core.Bool.{Bool, true, false, ◌&&◌, ◌||◌}
use mathlib.Core.Logic.{◌↔◌, inl, inr}
use mathlib.Core.Option.{Option, none, some}
use mathlib.Core.List.{List, [], ◌∷◌, ◌++◌}
use native.Mathlib.Omega.{arith}
use otel_opamp_control_plane.Prelude.Tests.{Bool-cases, if◌then◌else◌}

module _ {ℓ} {A : Type ℓ} where
  abbrev pub length : List A → ℕ
  length [] = 0
  length (x ∷ xs) = suc (length xs)

  abbrev pub get_elem? : List A → ℕ → Option A
  get_elem? [] i = none
  get_elem? (x ∷ xs) zero = some x
  get_elem? (x ∷ xs) (suc i) = get_elem? xs i

  abbrev pub any : (A → Bool) → List A → Bool
  any p [] = false
  any p (x ∷ xs) = p x || any p xs

  abbrev pub all : (A → Bool) → List A → Bool
  all p [] = true
  all p (x ∷ xs) = p x && all p xs

  abbrev pub filter : (A → Bool) → List A → List A
  filter p [] = []
  filter p (x ∷ xs) = let rest = filter p xs in if p x then x ∷ rest else rest

  -- The number of elements that pass the test.
  abbrev pub count : (A → Bool) → List A → ℕ
  count p [] = 0
  count p (x ∷ xs) = (if p x then 1 else 0) + count p xs

  pub length-filter : (p : A → Bool) (xs : List A) → length (filter p xs) ≡ count p xs
  length-filter p [] = refl
  length-filter p (x ∷ xs) = ground (arith, length-filter p xs)

module _ {ℓ κ} {A : Type ℓ} (P : A → Type κ) where
  abbrev pub All : List A → Type κ
  All [] = Unit
  All (x ∷ xs) = P x × All xs

  pub All-intro : ((x : A) → P x) → (xs : List A) → All xs
  All-intro h [] = tt
  All-intro h (x ∷ xs) = (h x, All-intro h xs)

  pub All-filter : (p : A → Bool) (xs : List A) → All xs → All (filter p xs)
  All-filter p [] h = tt
  All-filter p (x ∷ xs) (hx, h) = elim (Bool-cases (p x)) [
    | inl keep ↦ rw keep (hx, All-filter p xs h)
    | inr drop ↦ rw drop (All-filter p xs h)
  ]

  pub All-append : (xs ys : List A) → All xs → All ys → All (xs ++ ys)
  All-append [] ys h k = k
  All-append (x ∷ xs) ys (hx, h) k = (hx, All-append xs ys h k)

module _ {ℓ} {A : Type ℓ} (p q : A → Bool) where
  -- A test that passes wherever another does, and as often, passes nowhere else.
  pub count-le : (xs : List A) → All (λ x. p x ≡ true → q x ≡ true) xs → count p xs ≤ count q xs
  count-le [] h = omega arith
  count-le (x ∷ xs) (hx, h) = ground (arith, hx, count-le xs h)

  pub All-of_count_eq :
      (xs : List A)
      → All (λ x. p x ≡ true → q x ≡ true) xs
      → count p xs ≡ count q xs
      → All (λ x. q x ≡ true → p x ≡ true) xs
  All-of_count_eq [] h e = tt
  All-of_count_eq (x ∷ xs) (hx, h) e =
      (ground (arith, hx, count-le xs h), All-of_count_eq xs h (ground (arith, hx, count-le xs h)))

  pub count_congr : (xs : List A) → All (λ x. p x ≡ q x) xs → count p xs ≡ count q xs
  count_congr [] h = refl
  count_congr (x ∷ xs) (hx, h) = ground (arith, count_congr xs h)

module _ {ℓ κ μ} {A : Type ℓ} {P : A → Type κ} {Q : A → Type μ} where
  pub All-map : ((x : A) → P x → Q x) → (xs : List A) → All P xs → All Q xs
  All-map f [] h = tt
  All-map f (x ∷ xs) (hx, h) = (f x hx, All-map f xs h)

module _ {ℓ κ μ ν} {A : Type ℓ} {P : A → Type κ} {Q : A → Type μ} {R : A → Type ν} where
  pub All-zip : ((x : A) → P x → Q x → R x) → (xs : List A) → All P xs → All Q xs → All R xs
  All-zip f [] h k = tt
  All-zip f (x ∷ xs) (hx, h) (kx, k) = (f x hx kx, All-zip f xs h k)

module _ {ℓ} {A : Type ℓ} (p : A → Bool) where
  pub count-le-length : (xs : List A) → count p xs ≤ length xs
  count-le-length [] = omega arith
  count-le-length (x ∷ xs) = ground (arith, count-le-length xs)

  every_pass : (xs : List A) → count p xs ≡ length xs → All (λ x. p x ≡ true) xs
  every_pass [] e = tt
  every_pass (x ∷ xs) e =
      (ground (arith, count-le-length xs), every_pass xs (ground (arith, count-le-length xs)))

  count_pass : (xs : List A) → All (λ x. p x ≡ true) xs → count p xs ≡ length xs
  count_pass [] h = refl
  count_pass (x ∷ xs) (hx, h) = rw hx (omega (arith, count_pass xs h))

  -- All elements pass exactly if as many pass as there are.
  pub count-eq-length_iff : (xs : List A) → (count p xs ≡ length xs) ↔ All (λ x. p x ≡ true) xs
  count-eq-length_iff xs = (every_pass xs, count_pass xs)

module _ {ℓ κ} {A : Type ℓ} {B : Type κ} where
  -- `xs.flatMap(f)`
  abbrev pub concat_map : (A → List B) → List A → List B
  concat_map f [] = []
  concat_map f (x ∷ xs) = f x ++ concat_map f xs

pub append_nil {ℓ} : {A : Type ℓ} (xs : List A) → xs ++ [] ≡ xs
append_nil [] = refl
append_nil (x ∷ xs) = ap (λ ys. x ∷ ys) (append_nil xs)

pub append_one {ℓ} :
    {A : Type ℓ} (xs : List A) (x : A) (ys : List A) → (xs ++ (x ∷ [])) ++ ys ≡ xs ++ (x ∷ ys)
append_one [] x ys = refl
append_one (y ∷ xs) x ys = ap (λ zs. y ∷ zs) (append_one xs x ys)

pub count-filter {ℓ} :
    {A : Type ℓ} (p q : A → Bool) (xs : List A) → count p (filter q xs) ≡ count (λ x. p x && q x) xs
count-filter p q [] = refl
count-filter p q (x ∷ xs) = ground (arith, count-filter p q xs)
