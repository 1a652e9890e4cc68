-- ===== src/Js/Set.antt =====
-- `[...new Set(texts)]`: the texts in the order of their first occurrence.
use otel_opamp_control_plane.Prelude.{
  String, Bool, true, false, not, ◌&&◌, List, [], ◌∷◌, ◌≡◌, refl, arith, eq_iff, is_empty, filter,
  All, Bool-cases, inl, inr, if◌then◌else◌,
}
use otel_opamp_control_plane.Js.{one_of}

-- `seen` holds what the set holds so far.
unique_from : List String → List String → List String
unique_from seen [] = []
unique_from seen (x ∷ xs) =
    let old = unique_from seen xs in
    let new = x ∷ unique_from (x ∷ seen) xs in if one_of seen x then old else new

unfoldable pub unique : List String → List String
unfolding unique_from
unique xs = unique_from [] xs

-- No text stands twice.
abbrev pub Distinct : List String → Type 0
Distinct [] = Unit
Distinct (x ∷ xs) = (one_of xs x ≡ false) × Distinct xs

one_of-unique_from :
    (seen xs : List String) (y : String)
    → one_of (unique_from seen xs) y ≡ (one_of xs y && not (one_of seen y))
unfolding unique_from
one_of-unique_from seen [] y = refl
one_of-unique_from seen (x ∷ xs) y =
    ground (arith, one_of-unique_from seen xs y, one_of-unique_from (x ∷ seen) xs y, eq_iff y x)

unique_from-Distinct : (seen xs : List String) → Distinct (unique_from seen xs)
unfolding unique_from
unique_from-Distinct seen [] = tt
unique_from-Distinct seen (x ∷ xs) = ground (
  arith,
  unique_from-Distinct seen xs,
  unique_from-Distinct (x ∷ seen) xs,
  one_of-unique_from (x ∷ seen) xs x,
  eq_iff x x,
)

-- The set holds what the list holds, each text once.
pub one_of-unique : (xs : List String) (y : String) → one_of (unique xs) y ≡ one_of xs y
unfolding unique
one_of-unique xs y = ground (arith, one_of-unique_from [] xs y)

pub unique-Distinct : (xs : List String) → Distinct (unique xs)
unfolding unique
unique-Distinct xs = unique_from-Distinct [] xs

-- `texts.filter(Boolean)`
abbrev pub non_empty : List String → List String
non_empty = filter (λ s. not (is_empty s))

pub one_of-filter :
    (p : String → Bool) (xs : List String) (y : String)
    → one_of (filter p xs) y ≡ (one_of xs y && p y)
one_of-filter p [] y = refl
one_of-filter p (x ∷ xs) y = ground (arith, one_of-filter p xs y, eq_iff y x)

pub Distinct-filter : (p : String → Bool) (xs : List String) → Distinct xs → Distinct (filter p xs)
Distinct-filter p [] h = tt
Distinct-filter p (x ∷ xs) (new, h) = ground (arith, Distinct-filter p xs h, one_of-filter p xs x)

-- A list in which no text stands twice is the list of its set.
unique_from_of_Distinct :
    (seen xs : List String)
    → Distinct xs
    → ((y : String) → one_of xs y ≡ true → one_of seen y ≡ false)
    → unique_from seen xs ≡ xs
unfolding unique_from
unique_from_of_Distinct seen [] h new = refl
unique_from_of_Distinct seen (x ∷ xs) (fresh, h) new = ground (
  arith,
  new x,
  eq_iff x x,
  unique_from_of_Distinct (x ∷ seen) xs h (λ y m. ground (arith, new y, eq_iff y x, eq_iff x x)),
)

pub unique_of_Distinct : (xs : List String) → Distinct xs → unique xs ≡ xs
unfolding unique
unique_of_Distinct xs h = unique_from_of_Distinct [] xs h (λ y m. refl)

module _ (P : String → Type 0) where
  All-unique_from : (seen xs : List String) → All P xs → All P (unique_from seen xs)
  unfolding unique_from
  All-unique_from seen [] h = tt
  All-unique_from seen (x ∷ xs) (hx, h) = elim (Bool-cases (one_of seen x)) [
    | inl old ↦ rw old (All-unique_from seen xs h)
    | inr new ↦ rw new (hx, All-unique_from (x ∷ seen) xs h)
  ]

  pub All-unique : (xs : List String) → All P xs → All P (unique xs)
  unfolding unique
  All-unique xs h = All-unique_from [] xs h
