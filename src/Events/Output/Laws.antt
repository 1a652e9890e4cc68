-- ===== src/Events/Output/Laws.antt =====
-- Writing the attribute `event.name` and reading it back.
use otel_opamp_control_plane.Js.{
  text_of_given, Value, undefined, null, bool, num, str, or_else, to_string,
}
use otel_opamp_control_plane.Events.{EventPolicy, StaticAttribute, array}
use otel_opamp_control_plane.Events.Output.{
  NameOutput, is_event_name, is_output, find_event_name, read_output, event_name_output, written,
  write_output, normalized_value, with_event_name_output,
}
use otel_opamp_control_plane.Prelude.{
  ◌+◌, String, ◌≡◌, refl, sym, ap, ◌∙◌, subst, inl, inr, Bool, true, false, not, ◌&&◌, none, some,
  List, [], ◌∷◌, arith, is_empty, empty_lem, if◌then◌else◌, Bool-cases, filter, count,
}

filter_idem {ℓ} : {A : Type ℓ} (p : A → Bool) (xs : List A) → filter p (filter p xs) ≡ filter p xs
filter_idem p [] = refl
filter_idem p (x ∷ xs) = elim (Bool-cases (p x)) [
  | inl keep ↦ rw keep (rw keep (ap (λ l. x ∷ l) (filter_idem p xs)))
  | inr drop ↦ rw drop (filter_idem p xs)
]

abbrev output : String → List Value → NameOutput
output value destinations = record { value = value; destinations = destinations }

read_text :
    (value : String) (destinations : List Value)
    → output (to_string (or_else (str value) (str ""))) destinations ≡ output value destinations
read_text value destinations = ap (λ t. output t destinations) (text_of_given value)

-- What is read back: the text, and the destinations among span and log.
abbrev pub read_back : String → List Value → NameOutput
read_back value destinations = record {
  value = value;
  destinations = if is_empty value then [] else filter is_output destinations;
}

find-write_output_given :
    (value : String) (destinations : List Value) (items : List StaticAttribute)
    → is_empty value ≡ false
    → read_output (find_event_name (write_output false value destinations items))
      ≡ (record { value = value; destinations = filter is_output destinations })
unfolding write_output
find-write_output_given value destinations [] given = rw given (read_text value _)
find-write_output_given value destinations (a ∷ items) given = elim (Bool-cases (is_event_name a)) [
  | inl name ↦ rw (name, given) (read_text value _)
  | inr other ↦ rw other (rw other (find-write_output_given value destinations items given))
]

find-write_output_empty :
    (value : String) (destinations : List Value) (items : List StaticAttribute)
    → is_empty value ≡ true
    → find_event_name (write_output false value destinations items) ≡ none
unfolding write_output
find-write_output_empty value destinations [] empty = rw empty refl
find-write_output_empty value destinations (a ∷ items) empty = elim (Bool-cases (is_event_name a)) [
  | inl name ↦ rw (name, empty) (find-write_output_empty value destinations items empty)
  | inr other ↦ rw other (rw other (find-write_output_empty value destinations items empty))
]

-- What `withEventNameOutput` writes `eventNameOutput` reads: the text, and the destinations among
-- span and log, or neither when the text is empty.
pub event_name_output-with_event_name_output :
    (e : EventPolicy) (value : Value) (destinations : List Value)
    → event_name_output (with_event_name_output e value destinations)
      ≡ read_back (normalized_value value) destinations
unfolding event_name_output with_event_name_output
event_name_output-with_event_name_output e value destinations =
    let t = normalized_value value in
    let items = array e.static_attributes in
    elim (Bool-cases (is_empty t)) [
      | inl empty ↦
          rw
            (
              find-write_output_empty t (filter is_output destinations) items empty,
              empty,
              empty_lem t empty,
            )
            refl
      | inr given ↦ rw given (
          find-write_output_given t (filter is_output destinations) items given
          ∙ ap (output t) (filter_idem is_output destinations))
    ]

written_once : (v : String) → (not (is_empty v) && not true) ≡ false
written_once v = ground arith

-- A loop that has written, or that has nothing to write, drops the attributes of that name.
write_output-drop :
    (replaced : Bool) (value : String) (destinations : List Value) (items : List StaticAttribute)
    → (not (is_empty value) && not replaced) ≡ false
    → write_output replaced value destinations items ≡ filter (λ a. not (is_event_name a)) items
unfolding write_output
write_output-drop replaced value destinations [] h = rw h refl
write_output-drop replaced value destinations (a ∷ items) h = elim (Bool-cases (is_event_name a)) [
  | inl name ↦ rw (name, h) (write_output-drop replaced value destinations items h)
  | inr other ↦ rw other (ap (λ l. a ∷ l) (write_output-drop replaced value destinations items h))
]

filter-write_output :
    (value : String) (destinations : List Value) (items : List StaticAttribute)
    → is_empty value ≡ false
    → filter (λ a. not (is_event_name a)) (write_output false value destinations items)
      ≡ filter (λ a. not (is_event_name a)) items
unfolding write_output
filter-write_output value destinations [] given = rw given refl
filter-write_output value destinations (a ∷ items) given = elim (Bool-cases (is_event_name a)) [
  | inl name ↦
      rw (name, given)
        (ap (filter (λ a. not (is_event_name a)))
            (write_output-drop true value destinations items (rw given refl))
          ∙ filter_idem (λ a. not (is_event_name a)) items)
  | inr other ↦
      rw other (rw other (ap (λ l. a ∷ l) (filter-write_output value destinations items given)))
]

count_none :
    (items : List StaticAttribute)
    → count is_event_name (filter (λ a. not (is_event_name a)) items) ≡ 0
count_none [] = refl
count_none (a ∷ items) = elim (Bool-cases (is_event_name a)) [
  | inl name ↦ rw name (count_none items)
  | inr other ↦ rw other (rw other (omega (arith, count_none items)))
]

count-write_output :
    (value : String) (destinations : List Value) (items : List StaticAttribute)
    → is_empty value ≡ false
    → count is_event_name (write_output false value destinations items) ≡ 1
unfolding write_output
count-write_output value destinations [] given = rw given refl
count-write_output value destinations (a ∷ items) given = elim (Bool-cases (is_event_name a)) [
  | inl name ↦
      rw (name, given)
        (ap (λ l. 1 + count is_event_name l)
            (write_output-drop true value destinations items (rw given refl))
          ∙ ap (λ n. 1 + n) (count_none items))
  | inr other ↦
      rw other (rw other (omega (arith, count-write_output value destinations items given)))
]

others_kept :
    (e : EventPolicy) (value : Value) (destinations : List Value)
    → let before = array e.static_attributes in
      let after = array (with_event_name_output e value destinations).static_attributes in
      (filter (λ a. not (is_event_name a)) after ≡ filter (λ a. not (is_event_name a)) before)
      × (count is_event_name after ≡ (if is_empty (normalized_value value) then 0 else 1))
unfolding with_event_name_output
others_kept e value destinations =
    let t = normalized_value value in
    let ds = filter is_output destinations in
    let items = array e.static_attributes in
    elim (Bool-cases (is_empty t)) [
      | inl empty ↦
          let dropped = write_output-drop false t ds items (rw empty refl) in
          rw (empty, dropped) (filter_idem (λ a. not (is_event_name a)) items, count_none items)
      | inr given ↦
          rw given (filter-write_output t ds items given, count-write_output t ds items given)
    ]

-- The text of a value, which is empty where the value is missing.
abbrev pub given_text : Value → String
given_text undefined = ""
given_text v = to_string v

normalized_value_lem : (v : Value) → normalized_value v ≡ given_text v
unfolding normalized_value
normalized_value_lem undefined = refl
normalized_value_lem null = refl
normalized_value_lem (bool b) = refl
normalized_value_lem (num n) = refl
normalized_value_lem (str t) = refl

-- `withEventNameOutput` leaves the attributes of other names as they are and in their order, and
-- afterwards exactly one attribute has the name `event.name`, or none when the text is empty, as it is
-- for `undefined`.
pub with_event_name_output-others :
    (e : EventPolicy) (value : Value) (destinations : List Value)
    → let before = array e.static_attributes in
      let after = array (with_event_name_output e value destinations).static_attributes in
      (filter (λ a. not (is_event_name a)) after ≡ filter (λ a. not (is_event_name a)) before)
      × (count is_event_name after ≡ (if is_empty (given_text value) then 0 else 1))
with_event_name_output-others e value destinations =
    let after = array (with_event_name_output e value destinations).static_attributes in
    let (others, named) = others_kept e value destinations in
    (
      others,
      subst (λ t. count is_event_name after ≡ (if is_empty t then 0 else 1))
          (normalized_value_lem value) named,
    )

dropped_twice :
    (v w : String) (ds cs : List Value) (items : List StaticAttribute)
    → write_output true w cs (write_output true v ds items) ≡ write_output true w cs items
dropped_twice v w ds cs items =
    ap (write_output true w cs) (write_output-drop true v ds items (written_once v))
    ∙ write_output-drop true w cs _ (written_once w)
    ∙ filter_idem (λ a. not (is_event_name a)) items
    ∙ sym (write_output-drop true w cs items (written_once w))

write_output-overwrites :
    (v w : String) (ds cs : List Value) (items : List StaticAttribute)
    → is_empty v ≡ false
    → is_empty w ≡ false
    → write_output false w cs (write_output false v ds items) ≡ write_output false w cs items
unfolding write_output
write_output-overwrites v w ds cs [] hv hw = rw hv (rw hw refl)
write_output-overwrites v w ds cs (a ∷ items) hv hw = elim (Bool-cases (is_event_name a)) [
  | inl name ↦ rw (name, hv) (rw hw (ap (λ l. written w cs a ∷ l) (dropped_twice v w ds cs items)))
  | inr other ↦
      rw other (rw other (ap (λ l. a ∷ l) (write_output-overwrites v w ds cs items hv hw)))
]

-- A second `withEventNameOutput` gives what it gives alone, when both texts are not empty: the event
-- keeps nothing of the first one.
pub with_event_name_output-overwrites :
    (e : EventPolicy) (v w : Value) (ds cs : List Value)
    → is_empty (normalized_value v) ≡ false
    → is_empty (normalized_value w) ≡ false
    → with_event_name_output (with_event_name_output e v ds) w cs ≡ with_event_name_output e w cs
unfolding with_event_name_output
with_event_name_output-overwrites e v w ds cs hv hw =
    ap (λ items. record e { static_attributes = some items })
      (write_output-overwrites (normalized_value v) (normalized_value w) _ _
        (array e.static_attributes) hv hw)

-- For texts that are not empty, as that of `undefined` is, `withEventNameOutput` writes what
-- `eventNameOutput` reads, the text and the destinations among span and log, and of two writes only the
-- second is left.
pub event_name_output_lens :
    (e : EventPolicy) (v w : Value) (ds cs : List Value)
    → is_empty (given_text v) ≡ false
    → is_empty (given_text w) ≡ false
    → (event_name_output (with_event_name_output e v ds) ≡ read_back (given_text v) ds)
      × (with_event_name_output (with_event_name_output e v ds) w cs
          ≡ with_event_name_output e w cs)
event_name_output_lens e v w ds cs hv hw = (
  event_name_output-with_event_name_output e v ds
      ∙ ap (λ t. read_back t ds) (normalized_value_lem v),
  with_event_name_output-overwrites e v w ds cs (ap is_empty (normalized_value_lem v) ∙ hv)
      (ap is_empty (normalized_value_lem w) ∙ hw),
)
