-- ===== src/Selection/Laws.antt =====
-- The laws of selections.
use otel_opamp_control_plane.Prelude.{
  ◌⊎◌, ◌↔◌, sym, All-filter, ◌==◌, Bool-cases, String, Bool, true, false, not, ◌&&◌, ◌||◌, List, [],
  ◌∷◌, ◌++◌, ◌≡◌, refl, arith, eq_iff, is_empty, any, ap, ◌∙◌, All, All-append, inl, inr, filter,
  map, if◌then◌else◌,
}
use otel_opamp_control_plane.Js.{Value, str, one_of, to_string}
use otel_opamp_control_plane.Js.Text.Laws.{trim_idem}
use otel_opamp_control_plane.Js.Set.{
  unique, non_empty, Distinct, one_of-unique, unique-Distinct, one_of-filter, All-unique,
  Distinct-filter, unique_of_Distinct,
}
use otel_opamp_control_plane.Selection.{
  Choice, option_value, reconcile_selection, matches_any_selection, Selection, normalized_value,
  selection_values, normalize_selection, texts, toggle_selection,
}

one_of-map :
    {A : Type 0} (f : A → String) (vs : List A) (y : String)
    → one_of (map f vs) y ≡ any (λ v. y == f v) vs
one_of-map f [] y = refl
one_of-map f (v ∷ vs) y = ground (arith, one_of-map f vs y)

-- The normal form holds exactly the texts that are not empty and that some value trims to.
pub one_of-normalize_selection :
    (s : Selection) (y : String)
    → one_of (normalize_selection s) y
      ≡ (any (λ v. y == normalized_value v) (selection_values s) && not (is_empty y))
unfolding normalize_selection
one_of-normalize_selection s y =
    rw (one_of-unique, one_of-filter (λ t. not (is_empty t)), one_of-map normalized_value)

pub normalize_selection-Distinct : (s : Selection) → Distinct (normalize_selection s)
unfolding normalize_selection
normalize_selection-Distinct s = unique-Distinct _

-- A text of a normal form is its own normal form.
abbrev Trimmed : String → Type 0
Trimmed x = (normalized_value (str x) ≡ x) × (is_empty x ≡ false)

normalized_value_idem :
    (v : Value) → normalized_value (str (normalized_value v)) ≡ normalized_value v
unfolding normalized_value to_string
normalized_value_idem v = trim_idem _

non_empty-Trimmed : (vs : List Value) → All Trimmed (non_empty (map normalized_value vs))
non_empty-Trimmed [] = tt
non_empty-Trimmed (v ∷ vs) = elim (Bool-cases (is_empty (normalized_value v))) [
  | inl gone ↦ rw gone (non_empty-Trimmed vs)
  | inr kept ↦ rw kept ((normalized_value_idem v, kept), non_empty-Trimmed vs)
]

normalize_selection-Trimmed : (s : Selection) → All Trimmed (normalize_selection s)
unfolding normalize_selection
normalize_selection-Trimmed s = All-unique Trimmed _ (non_empty-Trimmed (selection_values s))

map-texts : (xs : List String) → All Trimmed xs → non_empty (map normalized_value (map str xs)) ≡ xs
map-texts [] h = refl
map-texts (x ∷ xs) ((same, some_text), h) = rw (same, some_text, map-texts xs h)

-- Distinct trimmed texts are in normal form.
normalize_selection-texts :
    (xs : List String) → All Trimmed xs → Distinct xs → normalize_selection (texts xs) ≡ xs
unfolding normalize_selection
normalize_selection-texts xs h d = ap unique (map-texts xs h) ∙ unique_of_Distinct xs d

-- Normalising a normal form changes nothing.
pub normalize_selection_idem :
    (s : Selection) → normalize_selection (texts (normalize_selection s)) ≡ normalize_selection s
normalize_selection_idem s =
    normalize_selection-texts _ (normalize_selection-Trimmed s) (normalize_selection-Distinct s)

one_of-append :
    (xs ys : List String) (y : String) → one_of (xs ++ ys) y ≡ (one_of xs y || one_of ys y)
one_of-append [] ys y = refl
one_of-append (x ∷ xs) ys y = ground (arith, one_of-append xs ys y)

Distinct-snoc :
    (xs : List String) (c : String) → Distinct xs → one_of xs c ≡ false → Distinct (xs ++ c ∷ [])
Distinct-snoc [] c h new = (refl, tt)
Distinct-snoc (x ∷ xs) c (fresh, h) new =
    ground (arith, Distinct-snoc xs c h, one_of-append xs (c ∷ []) x, eq_iff c x, eq_iff x c)

one_of-normalize_texts :
    (xs : List String) (y : String)
    → All Trimmed xs
    → one_of (normalize_selection (texts xs)) y ≡ one_of xs y
unfolding normalize_selection
one_of-normalize_texts xs y h = one_of-unique _ y ∙ ap (λ l. one_of l y) (map-texts xs h)

module _ (s : Selection) (v : Value) (given : is_empty (normalized_value v) ≡ false) where
  snoc-Trimmed : All Trimmed (normalize_selection s ++ normalized_value v ∷ [])
  snoc-Trimmed =
      All-append Trimmed _ _ (normalize_selection-Trimmed s) ((normalized_value_idem v, given), tt)

  -- For a value whose text is not empty, toggling sets whether its text is selected, and touches no other text.
  pub one_of-toggle_selection :
      (checked : Bool) (y : String)
      → one_of (toggle_selection s v checked) y
        ≡ (if y == normalized_value v then checked else one_of (normalize_selection s) y)
  unfolding toggle_selection
  one_of-toggle_selection true y = rw given (
      one_of-normalize_texts _ y snoc-Trimmed
      ∙ one_of-append (normalize_selection s) (normalized_value v ∷ []) y
      ∙ ground arith)
  one_of-toggle_selection false y =
      rw given (one_of-filter (λ item. not (item == normalized_value v)) _ y ∙ ground arith)

  filter-snoc :
      (xs : List String) (c : String)
      → one_of xs c ≡ false
      → filter (λ item. not (item == c)) (xs ++ c ∷ []) ≡ xs
  filter-snoc [] c new = ground (arith, eq_iff c c)
  filter-snoc (x ∷ xs) c new = ground (arith, filter-snoc xs c, eq_iff c x, eq_iff x c)

  -- Selecting a value whose text is not empty and was not selected, and clearing it again, gives the
  -- normal form of the selection back.
  pub toggle_selection_roundtrip :
      one_of (normalize_selection s) (normalized_value v) ≡ false
      → toggle_selection (texts (toggle_selection s v true)) v false ≡ normalize_selection s
  unfolding toggle_selection
  toggle_selection_roundtrip new =
      let xs = normalize_selection s ++ normalized_value v ∷ [] in
      let normal =
        normalize_selection-texts xs snoc-Trimmed
          (Distinct-snoc _ _ (normalize_selection-Distinct s) new) in
      rw given (
        ap (λ l. filter (λ item. not (item == normalized_value v)) (normalize_selection (texts l)))
          normal
        ∙ ap (filter (λ item. not (item == normalized_value v))) normal
        ∙ filter-snoc (normalize_selection s) (normalized_value v) new)

any-one_of :
    (ts xs : List String)
    → any (one_of ts) xs ≡ true
    → (y : String) × (one_of xs y ≡ true) × (one_of ts y ≡ true)
any-one_of ts [] h = cc
any-one_of ts (x ∷ xs) h = elim (Bool-cases (one_of ts x)) [
  | inl found ↦ (x, ground (arith, eq_iff x x), found)
  | inr missing ↦ let (y, here, there) = any-one_of ts xs (ground arith) in (y, ground arith, there)
]

any_of_one_of :
    (ts xs : List String) (y : String)
    → one_of xs y ≡ true
    → one_of ts y ≡ true
    → any (one_of ts) xs ≡ true
any_of_one_of ts [] y h k = cc
any_of_one_of ts (x ∷ xs) y h k = ground (arith, any_of_one_of ts xs y, eq_iff y x)

matches_by_form :
    (xs : List String) (s value : Selection)
    → normalize_selection s ≡ xs
    → (matches_any_selection s value ≡ true) ↔ (
        (xs ≡ [])
        ⊎ ((y : String) × (one_of xs y ≡ true) × (one_of (normalize_selection value) y ≡ true)))
unfolding matches_any_selection
matches_by_form [] s value e = (λ h. inl refl, λ h. rw (e, matches_any_selection))
matches_by_form (x ∷ xs) s value e =
    rw (e, matches_any_selection)
      (
        λ h.
            let (y, here, there) = any-one_of _ (x ∷ xs) h in
            inr (y, here, sym (one_of-unique (normalize_selection value) y) ∙ there),
        elim [
          | inl none_chosen ↦ cc
          | inr (y, here, there) ↦
              any_of_one_of _ (x ∷ xs) y here (one_of-unique (normalize_selection value) y ∙ there)
        ],
      )

-- A filter lets a value through exactly if nothing is selected, or if a selected text is among the
-- texts of the value.
pub matches_any_selection_iff :
    (s value : Selection)
    → (matches_any_selection s value ≡ true) ↔ (
        (normalize_selection s ≡ [])
        ⊎ ((y : String) × (one_of (normalize_selection s) y ≡ true)
            × (one_of (normalize_selection value) y ≡ true)))
matches_any_selection_iff s value = matches_by_form _ s value refl

-- Reconciling keeps exactly the selected texts that some option still has.
pub one_of-reconcile_selection :
    (s : Selection) (options : List Choice) (y : String)
    → one_of (reconcile_selection s options) y ≡ (
        one_of (normalize_selection s) y
        && any (λ o. y == normalized_value (option_value o)) options)
unfolding reconcile_selection
one_of-reconcile_selection s options y =
    let options_of : List String = map (λ o. normalized_value (option_value o)) options in
    ground (
      arith,
      one_of-filter (one_of (unique (non_empty options_of))) (normalize_selection s) y,
      one_of-unique (non_empty options_of) y,
      one_of-filter (λ t. not (is_empty t)) options_of y,
      one_of-map (λ o. normalized_value (option_value o)) options y,
      one_of-normalize_selection s y,
    )

filter_idem : (p : String → Bool) (xs : List String) → filter p (filter p xs) ≡ filter p xs
filter_idem p [] = refl
filter_idem p (x ∷ xs) = ground (arith, filter_idem p xs)

-- Reconciling a second time with the same options changes nothing.
pub reconcile_selection_idem :
    (s : Selection) (options : List Choice)
    → reconcile_selection (texts (reconcile_selection s options)) options
      ≡ reconcile_selection s options
unfolding reconcile_selection
reconcile_selection_idem s options =
    let available =
      one_of (unique (non_empty (map (λ o. normalized_value (option_value o)) options))) in
    ap (filter available) (
      normalize_selection-texts _ (All-filter Trimmed available _ (normalize_selection-Trimmed s))
        (Distinct-filter available _ (normalize_selection-Distinct s)))
    ∙ filter_idem available (normalize_selection s)
