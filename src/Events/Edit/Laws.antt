-- ===== src/Events/Edit/Laws.antt =====
-- Removing or renaming an event leaves no metric without its event.
use otel_opamp_control_plane.Js.{strict_eq→≡, strict_eq_comm, Value, strict_eq}
use otel_opamp_control_plane.Events.{EventPolicy, EventMetric, EventDraft, array}
use otel_opamp_control_plane.Events.Edit.{
  remove_at, modify_at, declares, metrics_after_removal, remove_http_event_at,
  remove_messaging_event_at, with_name, renamed_metric, owners, rename_http_event_at,
  rename_messaging_event_at,
}
use otel_opamp_control_plane.Prelude.{
  ℕ, zero, suc, ◌+◌, ◌<◌, ◌≡◌, refl, ap, ◌∙◌, subst, inl, inr, Bool, true, false, not, ◌||◌, Option,
  some, List, [], ◌∷◌, map, arith, eqb, if◌then◌else◌, Bool-cases, Option-cases, get_elem?, any,
  all, filter, count, All, All-map,
}

module _ {ℓ} {A : Type ℓ} (p : A → Bool) where
  -- What a test finds in an array, it finds at an index or among the others.
  any-remove_at :
      (xs : List A) (i : ℕ) (x : A)
      → get_elem? xs i ≡ some x
      → any p xs ≡ (p x || any p (remove_at xs i))
  any-remove_at [] i x h = cc
  any-remove_at (y ∷ xs) zero x h = let same : y ≡ x = cc h in ap (λ z. p z || any p xs) same
  any-remove_at (y ∷ xs) (suc i) x h = ground (arith, any-remove_at xs i x h)

  any-modify_at :
      (f : A → A) (xs : List A) (i : ℕ) (x : A)
      → get_elem? xs i ≡ some x
      → any p (modify_at f xs i) ≡ (p (f x) || any p (remove_at xs i))
  any-modify_at f [] i x h = cc
  any-modify_at f (y ∷ xs) zero x h = let same : y ≡ x = cc h in ap (λ z. p (f z) || any p xs) same
  any-modify_at f (y ∷ xs) (suc i) x h = ground (arith, any-modify_at f xs i x h)

  count-remove_at :
      (xs : List A) (i : ℕ) (x : A)
      → get_elem? xs i ≡ some x
      → count p xs ≡ (if p x then 1 else 0) + count p (remove_at xs i)
  count-remove_at [] i x h = cc
  count-remove_at (y ∷ xs) zero x h =
      let same : y ≡ x = cc h in ap (λ z. (if p z then 1 else 0) + count p xs) same
  count-remove_at (y ∷ xs) (suc i) x h = ground (arith, count-remove_at xs i x h)

  any_of_count : (xs : List A) → 0 < count p xs → any p xs ≡ true
  any_of_count [] h = absurd (omega arith)
  any_of_count (x ∷ xs) h = ground (arith, any_of_count xs)

-- Every metric refers to an event that is declared.
abbrev pub Declared : List EventPolicy → List EventMetric → Type 0
Declared events = All (λ m. declares events m.event_name ≡ true)

abbrev pub HttpMetricsDeclared : EventDraft → Type 0
HttpMetricsDeclared p = Declared (array p.body_event_policies) (array p.event_metric_policies)

abbrev pub MessagingMetricsDeclared : EventDraft → Type 0
MessagingMetricsDeclared p =
    Declared (array p.messaging_event_policies) (array p.messaging_metric_policies)

other_holds : (a b c : Bool) → c ≡ (a || b) → c ≡ true → (a ≡ true → b ≡ true) → b ≡ true
other_holds a b c h hc hb = ground arith

-- An event other than the one at the index still declares its name.
others_declare :
    (xs : List EventPolicy) (i : ℕ) (x : EventPolicy) (name : Value)
    → get_elem? xs i ≡ some x
    → (strict_eq x.event_name name ≡ true → declares (remove_at xs i) name ≡ true)
    → declares xs name ≡ true
    → declares (remove_at xs i) name ≡ true
others_declare xs i x name at_i same h =
    other_holds _ _ _ (any-remove_at (λ e. strict_eq e.event_name name) xs i x at_i) h same

filtered_declare :
    (xs : List EventPolicy) (i : ℕ) (x : EventPolicy) (ms : List EventMetric)
    → get_elem? xs i ≡ some x
    → Declared xs ms
    → Declared (remove_at xs i) (filter (λ m. not (strict_eq m.event_name x.event_name)) ms)
filtered_declare xs i x [] at_i h = tt
filtered_declare xs i x (m ∷ ms) at_i (hm, h) =
    elim (Bool-cases (strict_eq m.event_name x.event_name)) [
      | inl equal ↦ rw equal (filtered_declare xs i x ms at_i h)
      | inr differs ↦ rw differs (
        others_declare xs i x m.event_name at_i
            (λ equal. cc (strict_eq_comm m.event_name x.event_name)) hm,
        filtered_declare xs i x ms at_i h,
      )
    ]

Declared-removal :
    (xs : List EventPolicy) (i : ℕ) (x : EventPolicy) (ms : Option (List EventMetric))
    → get_elem? xs i ≡ some x
    → Declared xs (array ms)
    → Declared (remove_at xs i) (array (metrics_after_removal (remove_at xs i) x ms))
unfolding metrics_after_removal
Declared-removal xs i x ms at_i h = elim (Bool-cases (declares (remove_at xs i) x.event_name)) [
  | inl still ↦ rw still (
      All-map
        (λ m declared.
          others_declare xs i x m.event_name at_i
            (λ equal. subst (λ v. declares (remove_at xs i) v ≡ true) (strict_eq→≡ _ _ equal) still)
            declared)
        (array ms) h)
  | inr gone ↦ rw gone (filtered_declare xs i x (array ms) at_i h)
]

one_of_several :
    (self : Bool) (all rest : ℕ)
    → all ≡ (if self then 1 else 0) + rest
    → self ≡ true
    → eqb all 1 ≡ false
    → 0 < rest
one_of_several self all rest total h several = ground arith

-- After the renaming the new name is declared, and so is what the others declare.
declares-renamed :
    (xs : List EventPolicy) (i : ℕ) (x : EventPolicy) (name v : Value)
    → get_elem? xs i ≡ some x
    → (strict_eq name v || declares (remove_at xs i) v) ≡ true
    → declares (modify_at (with_name name) xs i) v ≡ true
declares-renamed xs i x name v at_i h =
    any-modify_at (λ e. strict_eq e.event_name v) (with_name name) xs i x at_i ∙ h

or_intro : (a b : Bool) → b ≡ true → (a || b) ≡ true
or_intro a b h = ground arith

-- An event that shares its name with others leaves the name declared.
shared_name :
    (xs : List EventPolicy) (i : ℕ) (x : EventPolicy) (name : Value)
    → get_elem? xs i ≡ some x
    → strict_eq name x.event_name ≡ true
    → eqb (owners xs x.event_name) 1 ≡ false
    → declares (remove_at xs i) name ≡ true
unfolding owners
shared_name xs i x name at_i equal several =
    let same : name ≡ x.event_name = strict_eq→≡ _ _ equal in
    let self : strict_eq x.event_name x.event_name ≡ true =
      subst (λ v. strict_eq v x.event_name ≡ true) same equal in
    let total = count-remove_at (λ e. strict_eq e.event_name x.event_name) xs i x at_i in
    rw same (any_of_count _ (remove_at xs i) (one_of_several _ _ _ total self several))

renamed_metric-declared :
    (xs : List EventPolicy) (i : ℕ) (x : EventPolicy) (name : Value) (m : EventMetric)
    → get_elem? xs i ≡ some x
    → strict_eq name name ≡ true
    → declares xs m.event_name ≡ true
    → let m' = renamed_metric x.event_name (owners xs x.event_name) name m in
      declares (modify_at (with_name name) xs i) m'.event_name ≡ true
unfolding renamed_metric
renamed_metric-declared xs i x name m at_i self h =
    let v = m.event_name in
    elim (Bool-cases (strict_eq v x.event_name)) [
      | inl equal ↦ elim (Bool-cases (eqb (owners xs x.event_name) 1)) [
        | inl single ↦ rw (equal, single) (declares-renamed xs i x name name at_i (rw self refl))
        | inr several ↦
            rw (equal, several)
              (declares-renamed xs i x name v at_i
                (or_intro _ _ (shared_name xs i x v at_i equal several)))
      ]
      | inr differs ↦ rw differs (
          declares-renamed xs i x name v at_i (
            or_intro _ _
              (others_declare xs i x v at_i (λ equal. cc (strict_eq_comm v x.event_name)) h)))
    ]

Declared-rename :
    (xs : List EventPolicy) (i : ℕ) (x : EventPolicy) (name : Value) (ms : List EventMetric)
    → get_elem? xs i ≡ some x
    → strict_eq name name ≡ true
    → Declared xs ms
    → Declared
        (modify_at (with_name name) xs i)
        (map (renamed_metric x.event_name (owners xs x.event_name) name) ms)
Declared-rename xs i x name [] at_i self h = tt
Declared-rename xs i x name (m ∷ ms) at_i self (hm, h) =
    (renamed_metric-declared xs i x name m at_i self hm, Declared-rename xs i x name ms at_i self h)

-- If every metric of the draft refers to a declared HTTP event, then so it does after
-- `removeHTTPEventAt`, whatever the index.
pub remove_http_event_at-Declared :
    (p : EventDraft) (i : ℕ)
    → HttpMetricsDeclared p
    → HttpMetricsDeclared (remove_http_event_at p i)
unfolding remove_http_event_at
remove_http_event_at-Declared p i h =
    elim (Option-cases (get_elem? (array p.body_event_policies) i)) [
      | inl missing ↦ rw (missing, remove_http_event_at) h
      | inr (x, at_i) ↦
          rw (at_i, remove_http_event_at) (Declared-removal _ i x p.event_metric_policies at_i h)
    ]

-- If every messaging metric of the draft refers to a declared messaging event, then so it does after
-- `removeMessagingEventAt`, whatever the index.
pub remove_messaging_event_at-Declared :
    (p : EventDraft) (i : ℕ)
    → MessagingMetricsDeclared p
    → MessagingMetricsDeclared (remove_messaging_event_at p i)
unfolding remove_messaging_event_at
remove_messaging_event_at-Declared p i h =
    elim (Option-cases (get_elem? (array p.messaging_event_policies) i)) [
      | inl missing ↦ rw (missing, remove_messaging_event_at) h
      | inr (x, at_i) ↦
          rw (at_i, remove_messaging_event_at)
            (Declared-removal _ i x p.messaging_metric_policies at_i h)
    ]

-- If every metric of the draft refers to a declared HTTP event, then so it does after
-- `renameHTTPEventAt`, whatever the index, when the new name equals itself (is not `NaN`).
pub rename_http_event_at-Declared :
    (p : EventDraft) (i : ℕ) (name : Value)
    → strict_eq name name ≡ true
    → HttpMetricsDeclared p
    → HttpMetricsDeclared (rename_http_event_at p i name)
unfolding rename_http_event_at
rename_http_event_at-Declared p i name self h =
    elim (Option-cases (get_elem? (array p.body_event_policies) i)) [
      | inl missing ↦ rw (missing, rename_http_event_at) h
      | inr (x, at_i) ↦ rw (at_i, rename_http_event_at) (Declared-rename _ i x name _ at_i self h)
    ]

-- If every messaging metric of the draft refers to a declared messaging event, then so it does after
-- `renameMessagingEventAt`, whatever the index, when the new name equals itself (is not `NaN`).
pub rename_messaging_event_at-Declared :
    (p : EventDraft) (i : ℕ) (name : Value)
    → strict_eq name name ≡ true
    → MessagingMetricsDeclared p
    → MessagingMetricsDeclared (rename_messaging_event_at p i name)
unfolding rename_messaging_event_at
rename_messaging_event_at-Declared p i name self h =
    elim (Option-cases (get_elem? (array p.messaging_event_policies) i)) [
      | inl missing ↦ rw (missing, rename_messaging_event_at) h
      | inr (x, at_i) ↦
          rw (at_i, rename_messaging_event_at) (Declared-rename _ i x name _ at_i self h)
    ]

-- If every metric of the draft refers to a declared event, HTTP and messaging ones apart, then so it does
-- after `removeHTTPEventAt` and after `removeMessagingEventAt`, whatever the index.
pub remove_event_at-Declared :
    (p : EventDraft) (i : ℕ)
    → HttpMetricsDeclared p
    → MessagingMetricsDeclared p
    → HttpMetricsDeclared (remove_http_event_at p i)
      × MessagingMetricsDeclared (remove_messaging_event_at p i)
remove_event_at-Declared p i http messaging =
    (remove_http_event_at-Declared p i http, remove_messaging_event_at-Declared p i messaging)

-- If every metric of the draft refers to a declared event, HTTP and messaging ones apart, then so it does
-- after `renameHTTPEventAt` and after `renameMessagingEventAt`, whatever the index, when the new name
-- equals itself (is not `NaN`).
pub rename_event_at-Declared :
    (p : EventDraft) (i : ℕ) (name : Value)
    → strict_eq name name ≡ true
    → HttpMetricsDeclared p
    → MessagingMetricsDeclared p
    → HttpMetricsDeclared (rename_http_event_at p i name)
      × MessagingMetricsDeclared (rename_messaging_event_at p i name)
rename_event_at-Declared p i name self http messaging = (
  rename_http_event_at-Declared p i name self http,
  rename_messaging_event_at-Declared p i name self messaging,
)
