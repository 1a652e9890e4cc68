-- ===== src/Yaml/Left.antt =====
-- Lists of lines that are left when others are taken away, and the parts of a document.
use otel_opamp_control_plane.Yaml.{take, drop, slice}
use otel_opamp_control_plane.Prelude.{
  ℕ, zero, suc, ◌+◌, ◌-◌, ◌≤◌, ◌<◌, String, ◌≡◌, refl, ap, subst, inl, inr, Bool, true, false, not,
  ◌||◌, List, [], ◌∷◌, ◌++◌, arith, Bool-cases, length, any, filter,
}

-- The first list is left of the second when lines are taken away.
pub data Left : List String → List String → Type 0 where
  done : Left [] []
  keep : (x : String) {xs ys : List String} → Left xs ys → Left (x ∷ xs) (x ∷ ys)
  skip : (x : String) {xs ys : List String} → Left xs ys → Left xs (x ∷ ys)

pub Left-refl : (xs : List String) → Left xs xs
Left-refl [] = done
Left-refl (x ∷ xs) = keep x (Left-refl xs)

pub Left-nothing : (xs : List String) → Left [] xs
Left-nothing [] = done
Left-nothing (x ∷ xs) = skip x (Left-nothing xs)

pub Left-trans : {xs ys zs : List String} → Left xs ys → Left ys zs → Left xs zs
Left-trans h done = h
Left-trans h (skip x k) = skip x (Left-trans h k)
Left-trans (keep x h) (keep _ k) = keep x (Left-trans h k)
Left-trans (skip x h) (keep _ k) = skip x (Left-trans h k)

pub Left-append : {a b c d : List String} → Left a b → Left c d → Left (a ++ c) (b ++ d)
Left-append done k = k
Left-append (keep x h) k = keep x (Left-append h k)
Left-append (skip x h) k = skip x (Left-append h k)

pub Left-filter : (p : String → Bool) (xs : List String) → Left (filter p xs) xs
Left-filter p [] = done
Left-filter p (x ∷ xs) = elim (Bool-cases (p x)) [
  | inl passes ↦ rw passes (keep x (Left-filter p xs))
  | inr fails ↦ rw fails (skip x (Left-filter p xs))
]

take_nil : {A : Type 0} (n : ℕ) → take {A = A} n [] ≡ []
take_nil zero = refl
take_nil (suc n) = refl

take-drop : (n : ℕ) (xs : List String) → take n xs ++ drop n xs ≡ xs
take-drop zero xs = refl
take-drop (suc n) [] = refl
take-drop (suc n) (x ∷ xs) = ap (λ ys. x ∷ ys) (take-drop n xs)

minus_zero : (n : ℕ) → n - 0 ≡ n
minus_zero n = omega arith

minus_suc : (m n : ℕ) → suc n - suc m ≡ n - m
minus_suc m n = omega arith

-- A document in front of two indices, between them and behind them.
pub split_slice :
    (m n : ℕ) (xs : List String) → m ≤ n → take m xs ++ (slice m n xs ++ drop n xs) ≡ xs
split_slice zero n xs h = rw (minus_zero n) (take-drop n xs)
split_slice (suc m) zero xs h = absurd (omega (arith, h))
split_slice (suc m) (suc n) [] h = rw (take_nil (suc n - suc m)) refl
split_slice (suc m) (suc n) (x ∷ xs) h =
    rw (minus_suc m n) (ap (λ ys. x ∷ ys) (split_slice m n xs (omega (arith, h))))

pub length-append : (xs ys : List String) → length (xs ++ ys) ≡ length xs + length ys
length-append [] ys = omega arith
length-append (x ∷ xs) ys = omega (arith, length-append xs ys)

pub Left-length : {xs ys : List String} → Left xs ys → length xs ≤ length ys
Left-length done = omega arith
Left-length (keep x h) = omega (arith, Left-length h)
Left-length (skip x h) = omega (arith, Left-length h)

pub slice_given : (m n : ℕ) (xs : List String) → m < n → n ≤ length xs → 0 < length (slice m n xs)
slice_given zero zero xs h k = absurd (omega (arith, h))
slice_given zero (suc n) [] h k = absurd (omega (arith, k))
slice_given zero (suc n) (x ∷ xs) h k = rw (minus_zero (suc n)) (omega arith)
slice_given (suc m) zero xs h k = absurd (omega (arith, h))
slice_given (suc m) (suc n) [] h k = absurd (omega (arith, k))
slice_given (suc m) (suc n) (x ∷ xs) h k =
    rw (minus_suc m n) (slice_given m n xs (omega (arith, h)) (omega (arith, k)))

pub shorter_filter :
    (p : String → Bool) (xs : List String)
    → any p xs ≡ true
    → length (filter (λ x. not (p x)) xs) < length xs
shorter_filter p [] h = cc
shorter_filter p (x ∷ xs) h = elim (Bool-cases (p x)) [
  | inl passes ↦ rw passes (omega (arith, Left-length (Left-filter (λ y. not (p y)) xs)))
  | inr fails ↦
      rw fails (omega (arith, shorter_filter p xs (subst (λ b. (b || any p xs) ≡ true) fails h)))
]

pub none_filtered :
    (p : String → Bool) (xs : List String) → any p xs ≡ false → filter (λ x. not (p x)) xs ≡ xs
none_filtered p [] h = refl
none_filtered p (x ∷ xs) h = elim (Bool-cases (p x)) [
  | inl passes ↦ cc (subst (λ b. (b || any p xs) ≡ false) passes h)
  | inr fails ↦
      rw fails
        (ap (λ ys. x ∷ ys) (none_filtered p xs (subst (λ b. (b || any p xs) ≡ false) fails h)))
]
