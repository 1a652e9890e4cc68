-- ===== src/Policy/Managed/Groups.antt =====
-- The versions of Java policies, each in the group of its policy.
use otel_opamp_control_plane.Prelude.{
  All-append, concat_map, ◌+◌, ◌≡◌, refl, ◌∙◌, inl, inr, Bool, true, false, ◌&&◌, List, [], ◌∷◌,
  ◌++◌, foldl, arith, eq_refl, if◌then◌else◌, Bool-cases, count, All,
}
use otel_opamp_control_plane.Js.{Value, nan, whole}
use otel_opamp_control_plane.Deployment.{same_value}
use otel_opamp_control_plane.Policy.Managed.{
  PolicyVersion, Group, policy_config_id, add_version, is_grouped, group_version, grouped,
}

count-append :
    {A : Type 0} (p : A → Bool) (xs ys : List A) → count p (xs ++ ys) ≡ count p xs + count p ys
count-append p [] ys = omega arith
count-append p (x ∷ xs) ys = omega (arith, count-append p xs ys)

same_value_refl : (v : Value) → same_value v v ≡ true
same_value_refl (Value.num nan) = refl
same_value_refl (Value.num (whole n)) = ground arith
same_value_refl (Value.str s) = eq_refl s
same_value_refl (Value.bool true) = refl
same_value_refl (Value.bool false) = refl
same_value_refl Value.undefined = refl
same_value_refl Value.null = refl

abbrev pub members : Group → List PolicyVersion
members g = g.first ∷ g.others

abbrev pub all_members : List Group → List PolicyVersion
all_members groups = concat_map members groups

-- Every version of a group has the group's id.
abbrev pub IsSorted : Group → Type 0
IsSorted g = All (λ v. same_value g.id (policy_config_id v) ≡ true) (members g)

module _ (p : PolicyVersion → Bool) where
  count-add_version :
      (id : Value) (v : PolicyVersion) (groups : List Group)
      → count p (all_members (add_version id v groups))
        ≡ count p (all_members groups) + (if p v then 1 else 0)
  unfolding add_version
  count-add_version id v [] = omega arith
  count-add_version id v (g ∷ groups) = elim (Bool-cases (same_value g.id id)) [
    | inl here ↦ rw here (
        omega (
          arith,
          count-append p (g.others ++ (v ∷ [])) (all_members groups),
          count-append p g.others (v ∷ []),
          count-append p g.others (all_members groups),
        ))
    | inr elsewhere ↦ rw elsewhere (
        omega (
          arith,
          count-append p g.others (all_members groups),
          count-append p g.others (all_members (add_version id v groups)),
          count-add_version id v groups,
        ))
  ]

  count-group_version :
      (groups : List Group) (versions : List PolicyVersion)
      → count p (all_members (foldl group_version groups versions))
        ≡ count p (all_members groups) + count (λ v. is_grouped v && p v) versions
  count-group_version groups [] = omega arith
  count-group_version groups (v ∷ versions) = elim (Bool-cases (is_grouped v)) [
    | inl java ↦
        let added = add_version (policy_config_id v) v groups in
        rw java (
          omega (
            arith,
            count-group_version added versions,
            count-add_version (policy_config_id v) v groups,
          ))
    | inr other ↦ rw other (omega (arith, count-group_version groups versions))
  ]

IsSorted-add_version :
    (v : PolicyVersion) (groups : List Group)
    → All IsSorted groups
    → All IsSorted (add_version (policy_config_id v) v groups)
unfolding add_version
IsSorted-add_version v [] h = ((same_value_refl (policy_config_id v), tt), tt)
IsSorted-add_version v (g ∷ groups) ((first, others), h) =
    elim (Bool-cases (same_value g.id (policy_config_id v))) [
      | inl here ↦ rw here (
        (
          first,
          All-append (λ w. same_value g.id (policy_config_id w) ≡ true) g.others (v ∷ []) others
              (here, tt),
        ),
        h,
      )
      | inr elsewhere ↦ rw elsewhere ((first, others), IsSorted-add_version v groups h)
    ]

IsSorted-group_version :
    (groups : List Group) (versions : List PolicyVersion)
    → All IsSorted groups
    → All IsSorted (foldl group_version groups versions)
IsSorted-group_version groups [] h = h
IsSorted-group_version groups (v ∷ versions) h = elim (Bool-cases (is_grouped v)) [
  | inl java ↦ rw java (
      IsSorted-group_version (add_version (policy_config_id v) v groups) versions
        (IsSorted-add_version v groups h))
  | inr other ↦ rw other (IsSorted-group_version groups versions h)
]

-- Every version of a Java policy with an id stands in the groups, as often as it is stored, and every
-- version of a group has the group's id.
pub grouped_lem :
    (versions : List PolicyVersion)
    → All IsSorted (grouped versions)
      × ((p : PolicyVersion → Bool)
          → count p (all_members (grouped versions)) ≡ count (λ v. is_grouped v && p v) versions)
unfolding grouped
grouped_lem versions =
    (IsSorted-group_version [] versions tt, λ p. count-group_version p [] versions ∙ omega arith)
