-- ===== src/Yaml/Bounds.antt =====
-- Where the entry of a path stands among the lines.
use otel_opamp_control_plane.Yaml.{
  block_at, Block, is_blank, passes, yaml_indent, entry_length, find_block, take, drop, slice,
  block_from, yaml_mapping_block,
}
use otel_opamp_control_plane.Prelude.{
  ℕ, ◌≤◌, ◌<◌, ◌≡◌, ◌+◌, String, List, zero, suc, ◌-◌, subst, inl, inr, ◌||◌, Option, none, some,
  [], ◌∷◌, arith, ltb, if◌then◌else◌, Bool-cases, Option-cases, length,
}

entry_length-le : (indent : ℕ) (lines : List String) → entry_length indent lines ≤ length lines
unfolding entry_length
entry_length-le indent [] = omega arith
entry_length-le indent (line ∷ lines) =
    elim (Bool-cases (is_blank line || ltb indent (yaml_indent line))) [
      | inl belongs ↦ rw belongs (omega (arith, entry_length-le indent lines))
      | inr ends ↦ rw ends (omega arith)
    ]

-- A block that is not empty and lies between two indices.
abbrev pub Between : ℕ → ℕ → Block → Type 0
Between low high block = (low ≤ block.start) × ((block.start < block.end) × (block.end ≤ high))

some_inj : {A : Type 0} {x y : A} → some x ≡ some y → x ≡ y
some_inj h = cc h

find_block-Between :
    (key : String) (parent : Option ℕ) (index : ℕ) (lines : List String) (block : Block)
    → find_block key parent index lines ≡ some block
    → Between index (index + length lines) block
unfolding find_block
find_block-Between key parent index [] block h = cc
find_block-Between key parent index (line ∷ lines) block h =
    elim (Bool-cases (passes key parent line)) [
      | inl passed ↦
          let later : find_block key parent (index + 1) lines ≡ some block =
            subst
              (λ b.
                (if b
                  then find_block key parent (index + 1) lines
                  else some (block_at index line lines))
                ≡ some block)
              passed h in
          let (low, (proper, high)) = find_block-Between key parent (index + 1) lines block later in
          (omega (arith, low), (proper, omega (arith, high)))
      | inr found ↦
          let here : block_at index line lines ≡ block = some_inj (
            subst
              (λ b.
                (if b
                  then find_block key parent (index + 1) lines
                  else some (block_at index line lines))
                ≡ some block)
              found h) in
          subst (Between index (index + suc (length lines))) here
            (omega arith, (omega arith, omega (arith, entry_length-le (yaml_indent line) lines)))
    ]

length-take : {A : Type 0} (n : ℕ) (xs : List A) → length (take n xs) ≤ n
length-take zero xs = omega arith
length-take (suc n) [] = omega arith
length-take (suc n) (x ∷ xs) = omega (arith, length-take n xs)

block_from-Between :
    (lines : List String) (low high : ℕ) (parent : Option ℕ) (path : List String) (block : Block)
    → low ≤ high
    → block_from lines low high parent path ≡ some block
    → Between low high block
unfolding block_from
block_from-Between lines low high parent [] block ordered h = cc
block_from-Between lines low high parent (key ∷ []) block ordered h =
    let (a, (b, c)) = find_block-Between key parent low (slice low high lines) block h in
    (a, (b, omega (arith, c, ordered, length-take (high - low) (drop low lines))))
block_from-Between lines low high parent (key ∷ next ∷ keys) block ordered h =
    elim (Option-cases (find_block key parent low (slice low high lines))) [
      | inl missing ↦ cc (
          subst
            (λ o.
              elim o [
                | none ↦ none
                | some b ↦ block_from lines (b.start + 1) b.end (some b.indent) (next ∷ keys)
              ]
              ≡ some block)
            missing h)
      | inr (outer, found) ↦
          let (a, (b, c)) = find_block-Between key parent low (slice low high lines) outer found in
          let inner : block_from lines (outer.start + 1) outer.end (some outer.indent) (next ∷ keys)
              ≡ some block =
            subst
              (λ o.
                elim o [
                  | none ↦ none
                  | some b ↦ block_from lines (b.start + 1) b.end (some b.indent) (next ∷ keys)
                ]
                ≡ some block)
              found h in
          let (d, (e, f)) =
            block_from-Between lines (outer.start + 1) outer.end (some outer.indent) (next ∷ keys)
              block (omega (arith, b)) inner in
          (
            omega (arith, a, d),
            (e, omega (arith, c, f, ordered, length-take (high - low) (drop low lines))),
          )
    ]

-- The entry that is found for a path has at least its own line, and lies within the document.
pub yaml_mapping_block-Between :
    (lines path : List String) (block : Block)
    → yaml_mapping_block lines path ≡ some block
    → Between 0 (length lines) block
unfolding yaml_mapping_block
yaml_mapping_block-Between lines path block h =
    block_from-Between lines 0 (length lines) none path block (omega arith) h
