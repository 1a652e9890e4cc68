-- ===== src/Yaml/Laws.antt =====
-- Each step of the clean-up takes lines away and says so, or there is nothing for it.
use otel_opamp_control_plane.Yaml.{
  Block, take, drop, slice, yaml_mapping_block, remove_yaml_mapping_path, remove_lines,
  remove_yaml_list_value, remove_yaml_null_key, then_remove, sanitize_lines,
}
use otel_opamp_control_plane.Yaml.Bounds.{yaml_mapping_block-Between}
use otel_opamp_control_plane.Yaml.Left.{
  Left, Left-refl, Left-nothing, Left-trans, Left-append, Left-filter, split_slice, length-append,
  Left-length, slice_given, shorter_filter, none_filtered,
}
use otel_opamp_control_plane.Js.Text.{trim}
use otel_opamp_control_plane.Prelude.{
  ◌+◌, ◌<◌, String, ◌≡◌, refl, sym, ap, ◌∙◌, subst, ◌≢◌, ◌↔◌, ◌⊎◌, inl, inr, Bool, true, false, not,
  List, [], ◌∷◌, ◌++◌, arith, ◌==◌, Bool-cases, Option-cases, Option, none, some, length, any,
  filter,
}

-- A step takes lines away and says so, or it leaves all where there is nothing for it.
abbrev pub IsRemoval : Type 0 → List String → List String × Bool → Type 0
IsRemoval Nothing lines (left, removed) =
    Left left lines
    × (((removed ≡ true) × (¬ Nothing) × (length left < length lines))
        ⊎ ((removed ≡ false) × Nothing × (left ≡ lines)))

-- The document has no entry of the path.
abbrev pub NoEntry : List String → List String → Type 0
NoEntry path lines = yaml_mapping_block lines path ≡ none

abbrev NoLineIn : List String → String → Option Block → Type 0
NoLineIn lines text none = Unit
NoLineIn lines text (some block) =
    any (λ line. trim line == text) (slice (block.start + 1) block.end lines) ≡ false

-- The entry of the path, if there is one, has no line of this text behind its first.
abbrev pub NoLine : List String → String → List String → Type 0
NoLine path text lines = NoLineIn lines text (yaml_mapping_block lines path)

remove_yaml_mapping_path-IsRemoval :
    (path lines : List String)
    → IsRemoval (NoEntry path lines) lines (remove_yaml_mapping_path lines path)
unfolding remove_yaml_mapping_path
remove_yaml_mapping_path-IsRemoval path lines =
    elim (Option-cases (yaml_mapping_block lines path)) [
      | inl missing ↦
          rw (missing, remove_yaml_mapping_path) (Left-refl lines, inr (refl, refl, refl))
      | inr (block, found) ↦
          let (low, (proper, high)) = yaml_mapping_block-Between lines path block found in
          let above = take block.start lines in
          let entry = slice block.start block.end lines in
          let below = drop block.end lines in
          let whole = split_slice block.start block.end lines (omega (arith, proper)) in
          rw (found, remove_yaml_mapping_path)
            (
              subst (Left (above ++ below)) whole (
                  Left-append (Left-refl above)
                    (Left-append (Left-nothing entry) (Left-refl below))),
              inl (
                refl,
                λ missing. cc missing,
                omega (
                  arith,
                  ap length whole,
                  length-append above below,
                  length-append above (entry ++ below),
                  length-append entry below,
                  slice_given block.start block.end lines proper high,
                ),
              ),
            )
    ]

remove_lines-IsRemoval :
    (path : List String) (text : String) (lines : List String)
    → IsRemoval (NoLine path text lines) lines (remove_lines lines path text)
unfolding remove_lines
remove_lines-IsRemoval path text lines = elim (Option-cases (yaml_mapping_block lines path)) [
  | inl missing ↦ rw (missing, remove_lines) (Left-refl lines, inr (refl, tt, refl))
  | inr (block, found) ↦
      let (low, (proper, high)) = yaml_mapping_block-Between lines path block found in
      let above = take (block.start + 1) lines in
      let inside = slice (block.start + 1) block.end lines in
      let below = drop block.end lines in
      let whole = split_slice (block.start + 1) block.end lines (omega (arith, proper)) in
      let is_text : String → Bool = λ line. trim line == text in
      let kept = filter (λ line. not (is_text line)) inside in
      rw (found, remove_lines)
        (
          subst (Left (above ++ (kept ++ below))) whole (
              Left-append (Left-refl above)
                (Left-append (Left-filter (λ line. not (is_text line)) inside) (Left-refl below))),
          elim (Bool-cases (any is_text inside)) [
            | inl some_line ↦ inl (
              some_line,
              λ no_line. cc (some_line, no_line),
              omega (
                arith,
                ap length whole,
                length-append above (kept ++ below),
                length-append kept below,
                length-append above (inside ++ below),
                length-append inside below,
                shorter_filter is_text inside some_line,
              ),
            )
            | inr no_line ↦ inr (
              no_line,
              no_line,
              ap (λ ls. above ++ (ls ++ below)) (none_filtered is_text inside no_line) ∙ whole,
            )
          ],
        )
]

-- What is left after some steps, and the names of what they removed.
abbrev pub IsCleaned : Type 0 → List String → List String × List String → Type 0
IsCleaned Clean lines (left, removed) =
    Left left lines
    × (((removed ≢ []) × (¬ Clean) × (length left < length lines))
        ⊎ ((removed ≡ []) × Clean × (left ≡ lines)))

snoc_given : (xs : List String) (x : String) → xs ++ (x ∷ []) ≢ []
snoc_given [] x h = cc h
snoc_given (y ∷ xs) x h = cc h

then_remove-IsCleaned :
    (remove : List String → List String × Bool) (Nothing : List String → Type 0) (Clean : Type 0)
    (name : String) (lines : List String) (before : List String × List String)
    → ((ls : List String) → IsRemoval (Nothing ls) ls (remove ls))
    → IsCleaned Clean lines before
    → IsCleaned (Clean × Nothing lines) lines (then_remove remove name before)
then_remove-IsCleaned remove Nothing Clean name lines (left, removed) removal (h, said) =
    let (k, says) = removal left in
    (
      Left-trans k h,
      elim says [
        | inl (named, something, fewer) ↦ rw named (
            inl (
              snoc_given removed name,
              λ clean. elim said [
                | inl (given, unclean, less) ↦ unclean clean.0
                | inr (empty, was_clean, all_left) ↦
                    something (subst Nothing (sym all_left) clean.1)
              ],
              omega (arith, fewer, Left-length h),
            ))
        | inr (silent, nothing, same) ↦ rw silent (elim said [
          | inl (given, unclean, fewer) ↦
              inl (given, λ clean. unclean clean.0, omega (arith, fewer, Left-length k))
          | inr (empty, clean, all_left) ↦
              inr (empty, (clean, subst Nothing all_left nothing), same ∙ all_left)
        ])
      ],
    )

-- The document has nothing that the supervisor adds: no resource attributes of the telemetry, no
-- extension `opamp` and no use of it, and no empty protocol of the health check.
abbrev pub IsClean : List String → Type 0
IsClean lines =
    NoEntry ("service" ∷ "telemetry" ∷ "resource" ∷ []) lines
    × NoEntry ("extensions" ∷ "opamp" ∷ []) lines
    × NoLine ("service" ∷ "extensions" ∷ []) "- opamp" lines
    × NoLine ("extensions" ∷ "health_check" ∷ []) "http: null" lines
    × NoLine ("extensions" ∷ "health_check" ∷ []) "grpc: null" lines

IsCleaned-congr :
    {P Q : Type 0} (lines : List String) (result : List String × List String)
    → P ↔ Q
    → IsCleaned P lines result
    → IsCleaned Q lines result
IsCleaned-congr lines (left, removed) iff (h, said) = (
  h,
  elim said [
    | inl (given, unclean, less) ↦ inl (given, λ q. unclean (iff.1 q), less)
    | inr (empty, clean, same) ↦ inr (empty, iff.0 clean, same)
  ],
)

module _ (lines : List String) {Clean : Type 0} (before : List String × List String)
    (sound : IsCleaned Clean lines before) where
  without_lines :
      (path : List String) (text name : String)
      → IsCleaned
          (Clean × NoLine path text lines)
          lines
          (then_remove (λ ls. remove_lines ls path text) name before)
  without_lines path text name =
      then_remove-IsCleaned (λ ls. remove_lines ls path text) (NoLine path text) Clean name lines
        before (remove_lines-IsRemoval path text) sound

  without_path :
      (path : List String) (name : String)
      → IsCleaned
          (Clean × NoEntry path lines)
          lines
          (then_remove (λ ls. remove_yaml_mapping_path ls path) name before)
  without_path path name =
      then_remove-IsCleaned (λ ls. remove_yaml_mapping_path ls path) (NoEntry path) Clean name lines
        before (remove_yaml_mapping_path-IsRemoval path) sound

-- The five steps of the clean-up leave a clean document as it is, and report and take away something of
-- any other.
pub sanitize_lines-IsCleaned :
    (lines : List String) → IsCleaned (IsClean lines) lines (sanitize_lines lines)
unfolding sanitize_lines remove_yaml_list_value remove_yaml_null_key
sanitize_lines-IsCleaned lines =
    let health = "extensions" ∷ "health_check" ∷ [] in
    IsCleaned-congr lines _
      (
        λ h. (h.0.0.0.0.1, h.0.0.0.1, h.0.0.1, h.0.1, h.1),
        λ h. (((((tt, h.0), h.1), h.2), h.3), h.4),
      )
      (without_lines lines _
        (without_lines lines _
          (without_lines lines _
            (without_path lines _
              (without_path lines {Clean = Unit {0}} (lines, [])
                (Left-refl lines, inr (refl, tt, refl)) ("service" ∷ "telemetry" ∷ "resource" ∷ [])
                "service.telemetry.resource")
              ("extensions" ∷ "opamp" ∷ []) "extensions.opamp")
            ("service" ∷ "extensions" ∷ []) "- opamp" "service.extensions[opamp]")
          health "http: null" "extensions.health_check.http=null")
        health "grpc: null" "extensions.health_check.grpc=null")
