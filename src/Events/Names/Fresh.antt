-- ===== src/Events/Names/Fresh.antt =====
-- The search for a fresh name ends, and the name is the first that is not used.
use otel_opamp_control_plane.Prelude.{
  ℕ, zero, suc, ◌+◌, ◌≤◌, ◌<◌, Char, String, ◌≡◌, refl, sym, ap, ◌∙◌, ◌⊎◌, inl, inr, Bool, true,
  false, not, ◌&&◌, none, some, List, [], ◌∷◌, ◌++◌, map, arith, ◌==◌, eq_iff, Bool-cases,
  Option-cases, length, filter, length-filter, All, All-zip, count-le-length,
}
use Prim.Native.String
use text.Mathlib.TextLemmas.{nil-append, cons-append}
use otel_opamp_control_plane.Js.{one_of}
use otel_opamp_control_plane.Js.Decimal.{decimal-injective}
use otel_opamp_control_plane.Js.Set.{unique, Distinct, one_of-filter, one_of-unique}
use otel_opamp_control_plane.Events.{EventPolicy, EventDraft, array, name_text}
use otel_opamp_control_plane.Events.Names.{
  candidate, search_from, next_name, next_http_event_name, next_messaging_event_name,
}

cons-injective : (c : Char) (s t : String) → String.◌∷◌ c s ≡ String.◌∷◌ c t → s ≡ t
cons-injective c s t h = cc

append-cancel : (s t u : String) → String.◌++◌ s t ≡ String.◌++◌ s u → t ≡ u
append-cancel String.[] t u h = sym (nil-append t) ∙ h ∙ nil-append u
append-cancel (String.◌∷◌ c s) t u h =
    append-cancel s t u (cons-injective c _ _ (sym (cons-append c s t) ∙ h ∙ cons-append c s u))

candidate-injective : (base : String) (a b : ℕ) → candidate base a ≡ candidate base b → a ≡ b
unfolding candidate
candidate-injective base a b h =
    decimal-injective a b (append-cancel "-" _ _ (append-cancel base _ _ h))

-- The candidates of a run of rounds.
candidates : ℕ → String → ℕ → List String
candidates zero base suffix = []
candidates (suc n) base suffix = candidate base suffix ∷ candidates n base (suffix + 1)

length-candidates : (n : ℕ) (base : String) (k : ℕ) → length (candidates n base k) ≡ n
unfolding candidates
length-candidates zero base k = refl
length-candidates (suc n) base k = ap suc (length-candidates n base (k + 1))

candidates-later :
    (n : ℕ) (base : String) (k j : ℕ)
    → j < k
    → one_of (candidates n base k) (candidate base j) ≡ false
unfolding candidates
candidates-later zero base k j h = refl
candidates-later (suc n) base k j h = elim (Bool-cases (candidate base j == candidate base k)) [
  | inl same ↦ absurd (omega (arith, candidate-injective base j k ((eq_iff _ _).0 same)))
  | inr other ↦ rw other (candidates-later n base (k + 1) j (omega arith))
]

candidates-Distinct : (n : ℕ) (base : String) (k : ℕ) → Distinct (candidates n base k)
unfolding candidates
candidates-Distinct zero base k = tt
candidates-Distinct (suc n) base k =
    (candidates-later n base (k + 1) k (omega arith), candidates-Distinct n base (k + 1))

-- Distinct texts that all stand in a list are no more than the list holds.
removed_length :
    (x : String) (ys : List String)
    → one_of ys x ≡ true
    → length (filter (λ y. not (y == x)) ys) < length ys
removed_length x [] h = cc
removed_length x (y ∷ ys) h = elim (Bool-cases (y == x)) [
  | inl same ↦
      rw same (
        omega (arith, length-filter (λ z. not (z == x)) ys, count-le-length (λ z. not (z == x)) ys))
  | inr other ↦
      rw other (omega (arith, removed_length x ys (ground (arith, eq_iff x y, eq_iff y x))))
]

new_everywhere :
    (x : String) (xs : List String) → one_of xs x ≡ false → All (λ y. (y == x) ≡ false) xs
new_everywhere x [] h = tt
new_everywhere x (y ∷ xs) h =
    (ground (arith, eq_iff x y, eq_iff y x), new_everywhere x xs (ground arith))

kept : (a b : Bool) → a ≡ true → b ≡ false → (a && not b) ≡ true
kept a b ha hb = ground arith

pigeonhole :
    (xs ys : List String) → Distinct xs → All (λ x. one_of ys x ≡ true) xs → length xs ≤ length ys
pigeonhole [] ys d h = omega arith
pigeonhole (x ∷ xs) ys (fresh, d) (hx, h) =
    let rest = filter (λ y. not (y == x)) ys in
    omega (
      arith,
      removed_length x ys hx,
      pigeonhole xs rest d (
          All-zip (λ y used new. one_of-filter (λ z. not (z == x)) ys y ∙ kept _ _ used new) xs h
            (new_everywhere x xs fresh)),
    )

-- The search fails only if every candidate of its run is used; what it finds is not used.
search_from-none :
    (fuel : ℕ) (used : List String) (base : String) (k : ℕ)
    → search_from fuel used base k ≡ none
    → All (λ c. one_of used c ≡ true) (candidates fuel base k)
unfolding search_from candidates
search_from-none zero used base k h = tt
search_from-none (suc fuel) used base k h = elim (Bool-cases (one_of used (candidate base k))) [
  | inl taken ↦ (taken, search_from-none fuel used base (k + 1) (rw (taken, search_from) at h))
  | inr free ↦ cc (rw (free, search_from) at h)
]

first_or_later : (k j : ℕ) → k ≤ j → (j ≡ k) ⊎ (k + 1 ≤ j)
first_or_later k j h = ground arith

-- The first candidate from a suffix on that is not used.
abbrev pub FirstFree : List String → String → ℕ → String → Type 0
FirstFree used base from name =
    (n : ℕ) × (name ≡ candidate base n)
    × (from ≤ n)
    × (one_of used name ≡ false)
    × ((j : ℕ) → from ≤ j → j < n → one_of used (candidate base j) ≡ true)

search_from-some :
    (fuel : ℕ) (used : List String) (base : String) (k : ℕ) (name : String)
    → search_from fuel used base k ≡ some name
    → FirstFree used base k name
unfolding search_from
search_from-some zero used base k name h = cc
search_from-some (suc fuel) used base k name h =
    elim (Bool-cases (one_of used (candidate base k))) [
      | inl taken ↦
          let (n, same, above, free, before) =
            search_from-some fuel used base (k + 1) name (rw (taken, search_from) at h) in
          (
            n,
            same,
            omega arith,
            free,
            λ j lo hi. elim (first_or_later k j lo) [
              | inl at_start ↦ rw at_start taken
              | inr later ↦ before j later hi
            ],
          )
      | inr free ↦
          let same : candidate base k ≡ name = cc (rw (free, search_from) at h) in
          (k, sym same, omega arith, rw (← same) free, λ j lo hi. absurd (omega arith))
    ]

search_from_total :
    (used : List String) (base : String) (k : ℕ)
    → (name : String) × (search_from (suc (length used)) used base k ≡ some name)
search_from_total used base k = elim (Option-cases (search_from (suc (length used)) used base k)) [
  | inl failed ↦ absurd (
      omega (
        arith,
        length-candidates (suc (length used)) base k,
        pigeonhole (candidates (suc (length used)) base k) used
            (candidates-Distinct (suc (length used)) base k)
            (search_from-none (suc (length used)) used base k failed),
      ))
  | inr found ↦ found
]

-- The name that `base` itself or the first free candidate from suffix 2 on gives.
abbrev pub FreshName : List String → String → String → Type 0
FreshName used base name =
    (one_of used name ≡ false)
    × ((name ≡ base) ⊎ ((one_of used base ≡ true) × FirstFree used base 2 name))

pub next_name_total :
    (used : List String) (base : String)
    → (name : String) × (next_name used base ≡ some name) × FreshName used base name
unfolding next_name
next_name_total used base = elim (Bool-cases (one_of used base)) [
  | inl taken ↦
      let (name, found) = search_from_total used base 2 in
      let (n, same, above, free, before) = search_from-some _ used base 2 name found in
      (name, rw taken found, (free, inr (taken, (n, same, above, free, before))))
  | inr free ↦ (base, rw free refl, (free, inl refl))
]

-- The texts of a set are those of its list.
FreshName-of_set :
    (xs : List String) (base name : String)
    → FreshName (unique xs) base name
    → FreshName xs base name
FreshName-of_set xs base name (free, inl same) = (sym (one_of-unique xs name) ∙ free, inl same)
FreshName-of_set xs base name (free, inr (taken, (n, same, above, also, before))) = (
  sym (one_of-unique xs name) ∙ free,
  inr (
    sym (one_of-unique xs base) ∙ taken,
    (
      n,
      same,
      above,
      sym (one_of-unique xs name) ∙ also,
      λ j lo hi. sym (one_of-unique xs _) ∙ before j lo hi,
    ),
  ),
)

-- `nextHTTPEventName` ends with a name that no event of the list bears: the base itself, or, when
-- an event bears the base, the first of `base-2`, `base-3`, … that no event bears.
pub next_http_event_name_total :
    (events : List EventPolicy) (base : String)
    → (name : String) × (next_http_event_name events base ≡ some name)
      × FreshName (map name_text events) base name
unfolding next_http_event_name
next_http_event_name_total events base =
    let (name, found, fresh) = next_name_total (unique (map name_text events)) base in
    (name, found, FreshName-of_set _ base name fresh)

-- `nextMessagingEventName` ends with a name that neither an HTTP event nor a messaging event of
-- the draft bears: the base itself, or the first of `base-2`, `base-3`, … that no event bears.
pub next_messaging_event_name_total :
    (p : EventDraft) (base : String)
    → let events = array p.body_event_policies ++ array p.messaging_event_policies in
      (name : String) × (next_messaging_event_name p base ≡ some name)
      × FreshName (map name_text events) base name
unfolding next_messaging_event_name
next_messaging_event_name_total p base =
    let events = array p.body_event_policies ++ array p.messaging_event_policies in
    let (name, found, fresh) = next_name_total (unique (map name_text events)) base in
    (name, found, FreshName-of_set _ base name fresh)

-- `nextHTTPEventName` and `nextMessagingEventName` end with a name that no event of the list, and no
-- HTTP or messaging event of the draft, bears: the base itself, or, when it is borne, the first of
-- `base-2`, `base-3`, … that is not.
pub next_event_name_total :
    (p : EventDraft) (events : List EventPolicy) (base : String)
    → let of_draft = array p.body_event_policies ++ array p.messaging_event_policies in
      ((name : String) × (next_http_event_name events base ≡ some name)
        × FreshName (map name_text events) base name)
      × ((name : String) × (next_messaging_event_name p base ≡ some name)
          × FreshName (map name_text of_draft) base name)
next_event_name_total p events base =
    (next_http_event_name_total events base, next_messaging_event_name_total p base)
