-- ===== src/Fleet/Laws.antt =====
-- The entries of the policies of a Java extension.
use otel_opamp_control_plane.Prelude.{
  count-filter, ◌^◌, ℕ, ◌≤◌, ◌<◌, ◌≡◌, refl, ◌∙◌, inl, inr, Bool, true, false, not, ◌&&◌, List, [],
  ◌∷◌, map, arith, ltb, is_empty, if◌then◌else◌, Bool-cases, ltb→lt, filter, count, All,
}
use otel_opamp_control_plane.Js.{Num, nan, whole, is}
use otel_opamp_control_plane.Version.{Compare}
use otel_opamp_control_plane.Js.Sort.Laws.{All-sort, count-sort}
use otel_opamp_control_plane.Fleet.{
  FleetAgent, PolicyEntry, is_safe, is_entry, entry_of, compare_entries, java_policy_set_entries,
}

-- An id that is not empty and a version between 1 and the largest safe integer.
abbrev pub IsEntry : PolicyEntry → Type 0
IsEntry entry =
    (is_empty entry.id ≡ false) × ((n : ℕ) × ((entry.version ≡ whole n) × ((1 ≤ n) × (n < 2 ^ 53))))

both_true : (a b : Bool) → (a && b) ≡ true → (a ≡ true) × (b ≡ true)
both_true a b h = ground arith

false_of_negation : (b : Bool) → not b ≡ true → b ≡ false
false_of_negation b h = ground arith

safe_lem : (v : Num) → is_safe v ≡ true → (n : ℕ) × ((v ≡ whole n) × ((1 ≤ n) × (n < 2 ^ 53)))
safe_lem nan h = cc h
safe_lem (whole n) h =
    let (low, high) = both_true (ltb 0 n) (ltb n (2 ^ 53)) h in
    (n, (refl, (ground (arith, low), ltb→lt n (2 ^ 53) high)))

entry_lem : (entry : PolicyEntry) → is_entry entry ≡ true → IsEntry entry
entry_lem entry h =
    let (named, safe) = both_true (not (is_empty entry.id)) (is_safe entry.version) h in
    (false_of_negation (is_empty entry.id) named, safe_lem entry.version safe)

filter_lem : (entries : List PolicyEntry) → All IsEntry (filter is_entry entries)
filter_lem [] = tt
filter_lem (entry ∷ entries) = elim (Bool-cases (is_entry entry)) [
  | inl passes ↦ rw passes (entry_lem entry passes, filter_lem entries)
  | inr fails ↦ rw fails (filter_lem entries)
]

-- The policies of an agent are shown with an id that is not empty and a version between 1 and 2 ^ 53 - 1;
-- all that are so are shown, as often as they are reported, for a Java extension, and none otherwise.
pub java_policy_set_entries_lem :
    (locale_compare : Compare) (agent : FleetAgent)
    → All IsEntry (java_policy_set_entries locale_compare agent)
      × ((p : PolicyEntry → Bool)
          → count p (java_policy_set_entries locale_compare agent) ≡ (
              if is agent.kind "java-extension"
              then count (λ entry. p entry && is_entry entry) (map entry_of agent.policy_versions)
              else 0))
unfolding java_policy_set_entries
java_policy_set_entries_lem locale_compare agent =
    let reported = map entry_of agent.policy_versions in
    elim (Bool-cases (is agent.kind "java-extension")) [
      | inl java ↦ rw java (
        All-sort (compare_entries locale_compare) IsEntry (filter is_entry reported)
            (filter_lem reported),
        λ p.
            count-sort (compare_entries locale_compare) p (filter is_entry reported)
            ∙ count-filter p is_entry reported,
      )
      | inr other ↦ rw other (tt, λ p. refl)
    ]
