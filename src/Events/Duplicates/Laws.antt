-- ===== src/Events/Duplicates/Laws.antt =====
-- A name is reported exactly if more than one event bears it, and it is reported once.
use mathlib.Core.List.{reverse_aux}
use otel_opamp_control_plane.Prelude.{
  ℕ, ◌+◌, ◌≤◌, String, ◌≡◌, refl, sym, ap, ◌∙◌, ◌↔◌, inl, inr, Bool, true, false, not, ◌&&◌, ◌||◌,
  List, [], ◌∷◌, ◌++◌, map, reverse, arith, ◌==◌, eq_iff, eq_refl, ltb, is_empty, if◌then◌else◌,
  Bool-cases, count,
}
use otel_opamp_control_plane.Js.{one_of}
use otel_opamp_control_plane.Js.Set.{Distinct}
use otel_opamp_control_plane.Events.{EventDraft, array, name_text}
use otel_opamp_control_plane.Events.Duplicates.{
  collect, duplicate_http_event_names, duplicate_telemetry_event_names,
}

-- The number of events that bear a name.
abbrev pub bearers : List String → String → ℕ
bearers names name = count (λ n. name == n) names

one_of-reverse_aux :
    (xs acc : List String) (y : String)
    → one_of (reverse_aux xs acc) y ≡ (one_of xs y || one_of acc y)
one_of-reverse_aux [] acc y = refl
one_of-reverse_aux (x ∷ xs) acc y = ground (arith, one_of-reverse_aux xs (x ∷ acc) y)

one_of-reverse : (xs : List String) (y : String) → one_of (reverse xs) y ≡ one_of xs y
one_of-reverse xs y = ground (arith, one_of-reverse_aux xs [] y)

-- A name that is reported already, or that will have come twice.
reported : Bool → Bool → Bool → ℕ → Bool
reported duplicate empty seen n = duplicate || not empty && ltb (if seen then 0 else 1) n

same_round :
    (e s d : Bool) (n : ℕ)
    → (if e then reported d e s n else if s && not d then true else reported d e true n)
      ≡ reported d e s (1 + n)
unfolding reported
same_round true s d n = ground arith
same_round false true d n = ground arith
same_round false false d n = ground arith

round :
    (same e ey s sy d dy : Bool) (n : ℕ)
    → (same ≡ true → e ≡ ey)
    → (same ≡ true → s ≡ sy)
    → (same ≡ true → d ≡ dy)
    → (if e
        then reported dy ey sy n
        else if s && not d
        then reported (same || dy) ey (same || sy) n
        else reported dy ey (same || sy) n)
      ≡ reported dy ey sy ((if same then 1 else 0) + n)
unfolding reported
round true e ey s sy d dy n he hs hd = rw (he refl, hs refl, hd refl) (same_round ey sy dy n)
round false e ey s sy d dy n he hs hd = ground arith

one_of_choice :
    (e k : Bool) (a b c : List String) (y : String)
    → one_of (if e then a else if k then c else b) y
      ≡ (if e then one_of a y else if k then one_of c y else one_of b y)
one_of_choice e k a b c y = ground arith

reported_end : (d e s : Bool) → d ≡ reported d e s 0
unfolding reported
reported_end d e s = ground arith

-- What the loop reports of a name, by what the sets hold and how often the name is still to come.
one_of-collect :
    (seen duplicates names : List String) (y : String)
    → one_of (collect seen duplicates names) y
      ≡ reported (one_of duplicates y) (is_empty y) (one_of seen y) (bearers names y)
unfolding collect
one_of-collect seen duplicates [] y = one_of-reverse duplicates y ∙ reported_end _ _ _
one_of-collect seen duplicates (name ∷ names) y =
    let same : (y == name) ≡ true → name ≡ y = λ h. sym ((eq_iff y name).0 h) in
    one_of_choice (is_empty name) (one_of seen name && not (one_of duplicates name)) _ _ _ y
    ∙ rw
        (
          one_of-collect seen duplicates names y,
          one_of-collect (name ∷ seen) duplicates names y,
          one_of-collect (name ∷ seen) (name ∷ duplicates) names y,
        )
        (round (y == name) (is_empty name) (is_empty y) (one_of seen name) (one_of seen y)
          (one_of duplicates name) (one_of duplicates y) (bearers names y)
          (λ h. ap is_empty (same h)) (λ h. ap (one_of seen) (same h))
          (λ h. ap (one_of duplicates) (same h)))

Distinct-reverse_aux :
    (xs acc : List String)
    → Distinct xs
    → Distinct acc
    → ((y : String) → one_of xs y ≡ true → one_of acc y ≡ false)
    → Distinct (reverse_aux xs acc)
Distinct-reverse_aux [] acc h k apart = k
Distinct-reverse_aux (x ∷ xs) acc (new, h) k apart =
    Distinct-reverse_aux xs (x ∷ acc) h (apart x (ground (arith, eq_refl x)), k)
      (λ y m. ground (arith, apart y, eq_iff y x))

collect-Distinct :
    (seen duplicates names : List String)
    → Distinct duplicates
    → Distinct (collect seen duplicates names)
unfolding collect
collect-Distinct seen duplicates [] h = Distinct-reverse_aux duplicates [] h tt (λ y m. refl)
collect-Distinct seen duplicates (name ∷ names) h = elim (Bool-cases (is_empty name)) [
  | inl skip ↦ rw skip (collect-Distinct seen duplicates names h)
  | inr named ↦ elim (Bool-cases (one_of seen name && not (one_of duplicates name))) [
    | inl add ↦
        rw (named, add) (collect-Distinct (name ∷ seen) (name ∷ duplicates) names (ground arith, h))
    | inr known ↦ rw (named, known) (collect-Distinct (name ∷ seen) duplicates names h)
  ]
]

reported_iff : (e : Bool) (n : ℕ) → (reported false e false n ≡ true) ↔ ((e ≡ false) × (2 ≤ n))
unfolding reported
reported_iff e n = ground arith

-- A name is among the result of `duplicateHTTPEventNames` exactly if it is not empty and at least
-- two HTTP events bear it, and no name is there twice.
pub duplicate_http_event_names_iff :
    (p : EventDraft)
    → let names = map name_text (array p.body_event_policies) in
      Distinct (duplicate_http_event_names p)
      × ((name : String)
          → (one_of (duplicate_http_event_names p) name ≡ true)
            ↔ ((is_empty name ≡ false) × (2 ≤ bearers names name)))
unfolding duplicate_http_event_names
duplicate_http_event_names_iff p =
    let names = map name_text (array p.body_event_policies) in
    (
      collect-Distinct [] [] names tt,
      λ name.
          rw (one_of-collect [] [] names name) (reported_iff (is_empty name) (bearers names name)),
    )

-- A name is among the result of `duplicateTelemetryEventNames` exactly if it is not empty and at
-- least two events of the draft, HTTP and messaging together, bear it, and no name is there twice.
pub duplicate_telemetry_event_names_iff :
    (p : EventDraft)
    → let names = map name_text (array p.body_event_policies ++ array p.messaging_event_policies) in
      Distinct (duplicate_telemetry_event_names p)
      × ((name : String)
          → (one_of (duplicate_telemetry_event_names p) name ≡ true)
            ↔ ((is_empty name ≡ false) × (2 ≤ bearers names name)))
unfolding duplicate_telemetry_event_names
duplicate_telemetry_event_names_iff p =
    let names = map name_text (array p.body_event_policies ++ array p.messaging_event_policies) in
    (
      collect-Distinct [] [] names tt,
      λ name.
          rw (one_of-collect [] [] names name) (reported_iff (is_empty name) (bearers names name)),
    )

-- The names that the result reports are the names that are not empty and that at least two of the
-- given ones are, each once.
abbrev pub Reports : List String → List String → Type 0
Reports names result =
    Distinct result
    × ((name : String)
        → (one_of result name ≡ true) ↔ ((is_empty name ≡ false) × (2 ≤ bearers names name)))

-- `duplicateHTTPEventNames` reports the names that at least two HTTP events bear, and
-- `duplicateTelemetryEventNames` those that two events bear, HTTP and messaging together.
pub duplicate_event_names_iff :
    (p : EventDraft)
    → Reports (map name_text (array p.body_event_policies)) (duplicate_http_event_names p)
      × Reports
          (map name_text (array p.body_event_policies ++ array p.messaging_event_policies))
          (duplicate_telemetry_event_names p)
duplicate_event_names_iff p =
    (duplicate_http_event_names_iff p, duplicate_telemetry_event_names_iff p)
