-- ===== src/Core/Merkle/Inclusion.antt =====
-- The branch that a tree gives for a leaf leads from the leaf to the tree's root.
use avalon_miner.Prelude.{
  ℕ, zero, suc, ◌+◌, ◌*◌, ◌/◌, ◌%◌, ◌^◌, ◌≤◌, ◌<◌, ◌≡◌, refl, ap, sym, ◌∙◌, true, false, List, [],
  ◌∷◌, ◌++◌, arith, bit_and, leb, ◌==◌, length, length-append, get_or, get_or-append,
  get_or-append_left, Bool-cases, inl, inr,
}
use mathlib.Core.List.{append_assoc}
use avalon_miner.Prelude.Bits.{bit_and-one}
use avalon_miner.Core.Uint256.{Hash256, zero_hash}
use avalon_miner.Core.Uint256.Order.{eq256_iff}
use avalon_miner.Core.Merkle.{
  merkle_hash, climb, compute_root, verify, pad, padded_size, merkle_tree, root, sibling, siblings,
  get_branch, pair_up,
}
use avalon_miner.Core.Merkle.PowerOfTwo.{padded-pow, pad-keeps}
use avalon_miner.Core.Merkle.Levels.{
  levels, top, length-pair_up, get_or-pair_up, build-levels, back-levels,
}
use native.Mathlib.Nat.{pow-suc, one-le-pow}

-- Below 2 ^ (k + 1) the sibling of an index is the other of its pair.
sibling_even : (idx size : ℕ) → idx % 2 ≡ 0 → idx + 1 < size → sibling idx size ≡ idx / 2 * 2 + 1
unfolding sibling
sibling_even idx size e h = ground (arith, bit_and-one idx)

sibling_odd : (idx size : ℕ) → idx % 2 ≡ 1 → sibling idx size ≡ idx / 2 * 2
unfolding sibling
sibling_odd idx size e = ground (arith, bit_and-one idx)

-- One step of the climb: a node and its sibling hash to their parent.
climb_step :
    (idx : ℕ) (l rest : List Hash256)
    → length l % 2 ≡ 0
    → idx < length l
    → climb idx (get_or l idx zero_hash) (get_or l (sibling idx (length l)) zero_hash ∷ rest)
      ≡ climb (idx / 2) (get_or (pair_up l) (idx / 2) zero_hash) rest
unfolding climb
climb_step idx l rest even h = elim (Bool-cases (idx % 2 == 0)) [
  | inl e ↦
      let here : idx ≡ idx / 2 * 2 = ground arith in
      let s = sibling_even idx (length l) (ground arith) (ground arith) in
      let low : bit_and idx 1 ≡ 0 = ground (arith, bit_and-one idx) in
      rw (low, s, get_or-pair_up l (idx / 2) (omega arith))
        (ap
          (λ (j : ℕ).
            climb (idx / 2)
              (merkle_hash (get_or l j zero_hash) (get_or l (idx / 2 * 2 + 1) zero_hash)) rest)
          here)
  | inr o ↦
      let here : idx ≡ idx / 2 * 2 + 1 = ground arith in
      let s = sibling_odd idx (length l) (ground arith) in
      let low : bit_and idx 1 ≡ 1 = ground (arith, bit_and-one idx) in
      rw (low, s, get_or-pair_up l (idx / 2) (omega arith))
        (ap
          (λ (j : ℕ).
            climb (idx / 2) (merkle_hash (get_or l (idx / 2 * 2) zero_hash) (get_or l j zero_hash))
              rest)
          here)
]

siblings_single : (fuel start idx : ℕ) (nodes : List Hash256) → siblings fuel start 1 idx nodes ≡ []
unfolding siblings
siblings_single zero start idx nodes = refl
siblings_single (suc fuel) start idx nodes = refl

siblings_more :
    (fuel start size idx : ℕ) (nodes : List Hash256)
    → 1 < size
    → start + sibling idx size < length nodes
    → siblings (suc fuel) start size idx nodes
      ≡ get_or nodes (start + sibling idx size) zero_hash
        ∷ siblings fuel (start + size) (size / 2) (idx / 2) nodes
unfolding siblings
siblings_more fuel start size idx nodes h k = ground arith

sibling-lt : (idx size : ℕ) → size % 2 ≡ 0 → idx < size → sibling idx size < size
unfolding sibling
sibling-lt idx size even h = ground (arith, bit_and-one idx)

-- From a node of a level, up through the siblings, to the root above that level.
climb-siblings :
    (k fuel idx : ℕ) (pre l : List Hash256)
    → length l ≡ 2 ^ k
    → idx < length l
    → k ≤ fuel
    → climb idx
        (get_or l idx zero_hash)
        (siblings fuel (length pre) (length l) idx (pre ++ levels k l))
      ≡ top k l
unfolding levels top climb
climb-siblings zero fuel idx pre l e h f =
    let first : idx ≡ 0 = omega arith in
    rw (e, siblings_single fuel (length pre) idx (pre ++ l), first)
climb-siblings (suc k) zero idx pre l e h f = absurd (omega arith)
climb-siblings (suc k) (suc fuel) idx pre l e h f =
    let double : length l ≡ 2 ^ k * 2 = e ∙ pow-suc 2 k in
    let s : ℕ = sibling idx (length l) in
    let inside : s < length l = sibling-lt idx (length l) (omega arith) h in
    let rest : List Hash256 = levels k (pair_up l) in
    let up : length (pair_up l) ≡ 2 ^ k = length-pair_up l ∙ omega arith in
    let found : get_or (pre ++ (l ++ rest)) (length pre + s) zero_hash ≡ get_or l s zero_hash =
      get_or-append pre (l ++ rest) s zero_hash ∙ get_or-append_left l rest s zero_hash inside in
    rw
      (
        siblings_more fuel (length pre) (length l) idx (pre ++ (l ++ rest))
            (omega (arith, one-le-pow k 2))
            (omega (arith, length-append pre (l ++ rest), length-append l rest)),
        found,
      )
      (climb_step idx l
          (siblings fuel (length pre + length l) (length l / 2) (idx / 2) (pre ++ (l ++ rest)))
          (omega arith) h
        ∙ rw (← append_assoc pre l rest, ← length-append pre l, ← length-pair_up l)
            (climb-siblings k fuel (idx / 2) (pre ++ l) (pair_up l) up (omega arith) (omega arith)))

exponent-le : (k : ℕ) → k ≤ 2 ^ k
exponent-le zero = omega arith
exponent-le (suc k) = omega (arith, exponent-le k, one-le-pow k 2, pow-suc 2 k)

-- The array of a tree over leaves, and its size, from one height.
tree-levels :
    (leaves : List Hash256)
    → 0 < length leaves
    → (k : ℕ) × (padded_size (length leaves) (length leaves) ≡ 2 ^ k)
      × (length (pad (length leaves) leaves) ≡ 2 ^ k)
      × ((merkle_tree leaves).nodes ≡ levels k (pad (length leaves) leaves))
unfolding merkle_tree
tree-levels [] p = absurd (omega arith)
tree-levels (l ∷ ls) p =
    let (k, e₁, e₂, _) = padded-pow (l ∷ ls) p in
    let padded : List Hash256 = pad (length (l ∷ ls)) (l ∷ ls) in
    (k, e₁, e₂, build-levels k (length padded) [] padded e₂ (omega (arith, exponent-le k, e₂)))

tree_leaf_count : (leaves : List Hash256) → (merkle_tree leaves).leaf_count ≡ length leaves
unfolding merkle_tree
tree_leaf_count [] = refl
tree_leaf_count (l ∷ ls) = refl

-- For every non-empty list of fewer than 2 ^ 32 leaves and every leaf of it, the branch that the
-- tree gives leads from that leaf to the tree's root.
pub compute_root-get_branch :
    (leaves : List Hash256) (i : ℕ)
    → i < length leaves
    → length leaves < 2 ^ 32
    → compute_root (get_branch (merkle_tree leaves) i) (get_or leaves i zero_hash)
      ≡ root (merkle_tree leaves)
unfolding get_branch root compute_root
compute_root-get_branch leaves i h bound =
    let n : ℕ = length leaves in
    let (k, e₁, e₂, nodes) = tree-levels leaves (omega arith) in
    let padded : List Hash256 = pad n leaves in
    let (extra, keeps) = pad-keeps n leaves in
    let leaf : get_or leaves i zero_hash ≡ get_or padded i zero_hash =
      sym (ap (λ t. get_or t i zero_hash) keeps ∙ get_or-append_left leaves extra i zero_hash h) in
    let longer : length padded ≡ n + length extra = ap length keeps ∙ length-append leaves extra in
    let fits : i % 2 ^ 32 ≡ i = omega arith in
    let inside : leb n i ≡ false = ground arith in
    rw (tree_leaf_count leaves, nodes, e₁, inside, fits, ← e₂, leaf)
      (climb-siblings k (length padded) i [] padded e₂ (omega (arith, longer))
          (omega (arith, exponent-le k, e₂))
        ∙ sym (back-levels k [] padded e₂))

-- So `verify` accepts that branch for that leaf and that root.
pub verify-get_branch :
    (leaves : List Hash256) (i : ℕ)
    → i < length leaves
    → length leaves < 2 ^ 32
    → verify
        (get_branch (merkle_tree leaves) i)
        (get_or leaves i zero_hash)
        (root (merkle_tree leaves))
      ≡ true
unfolding verify
verify-get_branch leaves i h bound = (eq256_iff _ _).1 (compute_root-get_branch leaves i h bound)
