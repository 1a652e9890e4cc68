-- ===== src/Capture/Denied.antt =====
-- The report of the blocked captures: complete, and each once.
use otel_opamp_control_plane.Prelude.{
  inr, String, ◌≡◌, refl, sym, ap, ◌∙◌, subst, ◌≢◌, ◌↔◌, ◌⊎◌, inl, Bool, true, false, ◌&&◌, ◌||◌,
  List, [], ◌∷◌, map, arith, ◌==◌, eq_iff, eq_refl, Bool-cases, any, filter, All, Exists, In,
  Exists-iff, Exists-of_In, In_of_Exists, any_iff, Exists-map, Exists-filter, then_iff, both_iff,
}
use otel_opamp_control_plane.Js.{Value, str, is, is_lem, strict_eq→≡}
use otel_opamp_control_plane.Capture.Overlap.{Contains, paths_overlap_iff}
use otel_opamp_control_plane.Capture.Sources.{Captures}
use otel_opamp_control_plane.Capture.Calls.{policy_captures_iff}
use otel_opamp_control_plane.Capture.{
  Kind, header, body_path, query_param, method_path, path_param, message_property, kind_text,
  Violation, Capture, Policy, Entry, same_violation, first_of_each, violation_of, is_denied, denied,
  blocks, canonical, policy_captures, policy_capture_deny_violations,
}

kind_text-injective : (a b : Kind) → (kind_text a == kind_text b) ≡ true → a ≡ b
unfolding kind_text
kind_text-injective header header h = refl
kind_text-injective body_path body_path h = refl
kind_text-injective query_param query_param h = refl
kind_text-injective method_path method_path h = refl
kind_text-injective path_param path_param h = refl
kind_text-injective message_property message_property h = refl
kind_text-injective _ _ h = cc

three : (a b c : Bool) → (a && (b && c)) ≡ true → (a ≡ true) × (b ≡ true) × (c ≡ true)
three a b c h = ground arith

violation : Kind → String → Value → Violation
violation kind value owner = record { kind = kind; value = value; owner = owner }

same_violation→≡ : (v w : Violation) → same_violation v w ≡ true → v ≡ w
unfolding same_violation violation
same_violation→≡ v w h =
    let (kinds, values, owners) = three _ _ _ h in
    ap (λ k. violation k v.value v.owner) (kind_text-injective v.kind w.kind kinds)
    ∙ ap (λ t. violation w.kind t v.owner) ((eq_iff v.value w.value).0 values)
    ∙ ap (violation w.kind w.value) (strict_eq→≡ v.owner w.owner owners)

neither : (a b : Bool) → (a || b) ≡ false → (a ≡ false) × (b ≡ false)
neither a b h = ground arith

abbrev pub Separate : List Violation → Type 0
Separate [] = Unit
Separate (v ∷ vs) = (any (λ w. same_violation v w) vs ≡ false) × Separate vs

differs_from_earlier :
    (v w : Violation) (earlier : List Violation)
    → In v earlier
    → any (λ e. same_violation e w) earlier ≡ false
    → same_violation v w ≡ false
differs_from_earlier v w [] h new = elim h [ ]
differs_from_earlier v w (e ∷ earlier) (inl same) new = rw same (neither _ _ new).0
differs_from_earlier v w (e ∷ earlier) (inr later) new =
    differs_from_earlier v w earlier later (neither (same_violation e w) _ new).1

-- What stays is the same as none of the earlier ones.
first_of_each-new :
    (v : Violation) (earlier vs : List Violation)
    → In v earlier
    → any (same_violation v) (first_of_each earlier vs) ≡ false
unfolding first_of_each
first_of_each-new v earlier [] h = refl
first_of_each-new v earlier (w ∷ vs) h = elim (Bool-cases (any (λ e. same_violation e w) earlier)) [
  | inl known ↦ rw known (first_of_each-new v (w ∷ earlier) vs (inr h))
  | inr new ↦
      rw new
        (rw (differs_from_earlier v w earlier h new) (first_of_each-new v (w ∷ earlier) vs (inr h)))
]

first_of_each-Separate : (earlier vs : List Violation) → Separate (first_of_each earlier vs)
unfolding first_of_each
first_of_each-Separate earlier [] = tt
first_of_each-Separate earlier (w ∷ vs) =
    elim (Bool-cases (any (λ e. same_violation e w) earlier)) [
      | inl known ↦ rw known (first_of_each-Separate (w ∷ earlier) vs)
      | inr new ↦
          rw new (
            first_of_each-new w (w ∷ earlier) vs (inl refl),
            first_of_each-Separate (w ∷ earlier) vs,
          )
    ]

is_earlier :
    (v : Violation) (earlier : List Violation)
    → any (λ e. same_violation e v) earlier ≡ true
    → In v earlier
is_earlier v [] h = cc
is_earlier v (e ∷ earlier) h = elim (Bool-cases (same_violation e v)) [
  | inl same ↦ inl (sym (same_violation→≡ e v same))
  | inr other ↦ inr (is_earlier v earlier (rw other at h))
]

-- No violation is lost.
first_of_each-keeps :
    (v : Violation) (earlier vs : List Violation)
    → In v vs
    → In v earlier ⊎ In v (first_of_each earlier vs)
unfolding first_of_each
first_of_each-keeps v earlier [] h = absurd h
first_of_each-keeps v earlier (w ∷ vs) h =
    elim (Bool-cases (any (λ e. same_violation e w) earlier)) [
      | inl known ↦ rw known (elim h [
        | inl same ↦ inl (subst (λ u. In u earlier) (sym same) (is_earlier w earlier known))
        | inr later ↦ elim (first_of_each-keeps v (w ∷ earlier) vs later) [
          | inl (inl same) ↦ inl (subst (λ u. In u earlier) (sym same) (is_earlier w earlier known))
          | inl (inr before) ↦ inl before
          | inr kept ↦ inr kept
        ]
      ])
      | inr new ↦ rw new (elim h [
        | inl same ↦ inr (inl same)
        | inr later ↦ elim (first_of_each-keeps v (w ∷ earlier) vs later) [
          | inl (inl same) ↦ inr (inl same)
          | inl (inr before) ↦ inl before
          | inr kept ↦ inr (inr kept)
        ]
      ])
    ]

first_of_each-adds_none :
    (v : Violation) (earlier vs : List Violation) → In v (first_of_each earlier vs) → In v vs
unfolding first_of_each
first_of_each-adds_none v earlier [] h = absurd h
first_of_each-adds_none v earlier (w ∷ vs) h =
    elim (Bool-cases (any (λ e. same_violation e w) earlier)) [
      | inl known ↦ inr (first_of_each-adds_none v (w ∷ earlier) vs (rw known at h))
      | inr new ↦ elim (rw new at h) [
        | inl same ↦ inl same
        | inr later ↦ inr (first_of_each-adds_none v (w ∷ earlier) vs later)
      ]
    ]

first_of_each_iff : (v : Violation) (vs : List Violation) → In v (first_of_each [] vs) ↔ In v vs
first_of_each_iff v vs = (
  first_of_each-adds_none v [] vs,
  λ h. elim (first_of_each-keeps v [] vs h) [ inl nothing ↦ absurd nothing | inr kept ↦ kept ],
)

-- An entry blocks a path if one of the two contains the other, and any other text if it is the same.
abbrev pub Blocks : Kind → (captured blocked : String) → Type 0
Blocks body_path captured blocked = Contains captured blocked ⊎ Contains blocked captured
Blocks method_path captured blocked = Contains captured blocked ⊎ Contains blocked captured
Blocks _ captured blocked = captured ≡ blocked

-- An entry of the deny list has the kind of the capture and blocks it, both in their normal form.
abbrev pub IsDenied : List Entry → Capture → Type 0
IsDenied entries c =
    Exists
      (λ e.
        (e.kind ≡ str (kind_text c.kind))
        × Blocks c.kind (canonical c.kind c.value) (canonical c.kind e.value))
      entries

blocks_iff :
    (kind : Kind) (captured blocked : String)
    → (blocks kind captured blocked ≡ true) ↔ Blocks kind captured blocked
unfolding blocks
blocks_iff body_path captured blocked = paths_overlap_iff captured blocked
blocks_iff method_path captured blocked = paths_overlap_iff captured blocked
blocks_iff header captured blocked = eq_iff captured blocked
blocks_iff query_param captured blocked = eq_iff captured blocked
blocks_iff path_param captured blocked = eq_iff captured blocked
blocks_iff message_property captured blocked = eq_iff captured blocked

is_iff : (v : Value) (t : String) → (is v t ≡ true) ↔ (v ≡ str t)
is_iff v t = (is_lem v t, λ same. rw same (eq_refl t))

is_denied_iff :
    (entries : List Entry) (c : Capture) → (is_denied entries c ≡ true) ↔ IsDenied entries c
unfolding is_denied denied
is_denied_iff entries c =
    let test = blocks c.kind (canonical c.kind c.value) in
    then_iff (any_iff test _) (
      then_iff
        (Exists-map (λ b. test b ≡ true) (λ e. canonical c.kind e.value)
          (filter (λ e. is e.kind (kind_text c.kind)) entries))
        (then_iff
          (Exists-filter (λ e. test (canonical c.kind e.value) ≡ true)
            (λ e. is e.kind (kind_text c.kind)) entries)
          (Exists-iff (λ e. both_iff (is_iff e.kind (kind_text c.kind)) (blocks_iff c.kind _ _))
            entries)))

-- The violation is that of a capture of the policy that is denied.
abbrev pub IsViolation : Policy → List Entry → Violation → Type 0
IsViolation p entries v = (c : Capture) × Captures p c × IsDenied entries c × (v ≡ violation_of c)

reported_iff :
    (v : Violation) (p : Policy) (entries : List Entry)
    → Exists (λ c. (is_denied entries c ≡ true) × (v ≡ violation_of c)) (policy_captures p)
      ↔ IsViolation p entries v
reported_iff v p entries = (
  λ h.
      let (c, member, found) =
        In_of_Exists (λ d. (is_denied entries d ≡ true) × (v ≡ violation_of d)) (policy_captures p)
          h in
      (c, (policy_captures_iff c p).0 member, (is_denied_iff entries c).0 found.0, found.1),
  λ h.
      let (c, captured, denied_one, same) = h in
      Exists-of_In (λ d. (is_denied entries d ≡ true) × (v ≡ violation_of d)) (policy_captures p) c
        ((policy_captures_iff c p).1 captured) ((is_denied_iff entries c).1 denied_one, same),
)

-- A violation is reported exactly if it is that of a capture of the policy (a header of its own,
-- or what an HTTP metric, an event or a method that is not disabled reads at one of its sources)
-- and an entry of the deny list has the capture's kind and blocks it: a path by containing it or
-- lying in it, any other text by being the same, in normal form. None is reported twice.
pub policy_capture_deny_violations_iff :
    (p : Policy) (entries : List Entry)
    → Separate (policy_capture_deny_violations p entries)
      × ((v : Violation)
          → In v (policy_capture_deny_violations p entries) ↔ IsViolation p entries v)
unfolding policy_capture_deny_violations
policy_capture_deny_violations_iff p entries = (
  first_of_each-Separate [] _,
  λ v. then_iff (first_of_each_iff v _) (
      then_iff
        (Exists-map (λ w. v ≡ w) violation_of (filter (is_denied entries) (policy_captures p)))
        (then_iff (Exists-filter (λ c. v ≡ violation_of c) (is_denied entries) (policy_captures p))
          (reported_iff v p entries))),
)

first_of_each-first : (v : Violation) (vs : List Violation) → first_of_each [] (v ∷ vs) ≢ []
unfolding first_of_each
first_of_each-first v vs h = cc

none_reported :
    (p : Capture → Bool) (cs : List Capture)
    → (first_of_each [] (map violation_of (filter p cs)) ≡ []) ↔ All (λ c. p c ≡ false) cs
unfolding first_of_each
none_reported p [] = (λ h. tt, λ h. refl)
none_reported p (c ∷ cs) = elim (Bool-cases (p c)) [
  | inl denied_one ↦
      rw denied_one (λ h. absurd (first_of_each-first (violation_of c) _ h), λ h. cc h.0)
  | inr free ↦ rw free (λ h. (refl, (none_reported p cs).0 h), λ h. (none_reported p cs).1 h.1)
]

-- The report is empty exactly if no capture of the policy is denied.
pub policy_capture_deny_violations-empty_iff :
    (p : Policy) (entries : List Entry)
    → (policy_capture_deny_violations p entries ≡ [])
      ↔ All (λ c. is_denied entries c ≡ false) (policy_captures p)
unfolding policy_capture_deny_violations
policy_capture_deny_violations-empty_iff p entries =
    none_reported (is_denied entries) (policy_captures p)
