-- ===== src/Core/Merkle.antt =====
-- src/core/primitives/merkle.hpp and merkle.cpp: Merkle branches, the tree kept in one array, and the
-- roots of transaction lists. Lists stand for the vectors; `push_back` appends.
pub mod PowerOfTwo
pub mod Levels
pub mod Rounds
pub mod Inclusion
pub mod BranchFormat
use avalon_miner.Prelude.{
  ℕ, zero, suc, ◌+◌, ◌-◌, ◌*◌, ◌/◌, ◌%◌, ◌^◌, Bool, true, false, List, [], ◌∷◌, ◌++◌, bit_and, ltb,
  leb, ◌==◌, ◌&&◌, if◌then◌else◌, not, length, get_or, set, take, drop,
}
use avalon_miner.Prelude.Bytes.{byte, le_bytes32, read32}
use avalon_miner.Core.Uint256.{Hash256, eq256, zero_hash}
use avalon_miner.Crypto.Sha256.{sha256d}

unfoldable pub merkle_hash : Hash256 → Hash256 → Hash256
merkle_hash left right = sha256d (left ++ right)

pub record MerkleBranch : Type 0 where
  pub hashes : List Hash256
  pub index : ℕ

unfoldable pub climb : ℕ → Hash256 → List Hash256 → Hash256
climb idx current [] = current
climb idx current (h ∷ hs) =
    climb (idx / 2) (if bit_and idx 1 == 0 then merkle_hash current h else merkle_hash h current) hs

unfoldable pub compute_root : MerkleBranch → Hash256 → Hash256
unfolding climb
compute_root b leaf_hash = climb b.index leaf_hash b.hashes

unfoldable pub verify : MerkleBranch → Hash256 → Hash256 → Bool
verify b leaf_hash expected_root = eq256 (compute_root b leaf_hash) expected_root

abbrev pub concat_hashes : List Hash256 → List ℕ
concat_hashes [] = []
concat_hashes (h ∷ hs) = h ++ concat_hashes hs

-- The count goes into one byte, whatever the number of hashes.
unfoldable pub serialize : MerkleBranch → List ℕ
serialize b = byte 0 (length b.hashes) ∷ (concat_hashes b.hashes ++ le_bytes32 b.index)

-- The loop over the hashes: what was read, and the bytes behind it.
unfoldable pub read_hashes : ℕ → List ℕ → List Hash256 × List ℕ
read_hashes zero src = ([], src)
read_hashes (suc n) src =
    let (hs, rest) = read_hashes n (drop 32 src) in
    if leb 32 (length src) then (take 32 src ∷ hs, rest) else ([], src)

unfoldable pub deserialize : List ℕ → MerkleBranch
unfolding read_hashes
deserialize [] = record { hashes = []; index = 0 }
deserialize (count ∷ src) =
    let (hs, rest) = read_hashes count src in
    record { hashes = hs; index = if leb 4 (length rest) then read32 rest else 0 }

-- `leaves.back()`; the vector is not empty where it is called.
abbrev pub back : List Hash256 → Hash256
back hs = get_or hs (length hs - 1) zero_hash

-- `size > 1 && (size & (size - 1)) != 0`
unfoldable pub needs_padding : ℕ → Bool
needs_padding size = ltb 1 size && not (bit_and size (size - 1) == 0)

-- `while (…) leaves.push_back(leaves.back());` with fuel.
unfoldable pub pad : ℕ → List Hash256 → List Hash256
pad zero leaves = leaves
pad (suc fuel) leaves =
    let rest = pad fuel (leaves ++ (back leaves ∷ [])) in
    if needs_padding (length leaves) then rest else leaves

-- One level: `n` more parents, from the pair `i` of the level at `start` on.
unfoldable pub push_parents : ℕ → ℕ → ℕ → List Hash256 → List Hash256
push_parents zero start i nodes = nodes
push_parents (suc n) start i nodes =
    let combined =
      merkle_hash (get_or nodes (start + i * 2) zero_hash)
        (get_or nodes (start + i * 2 + 1) zero_hash) in
    push_parents n start (i + 1) (nodes ++ (combined ∷ []))

-- `while (level_size > 1)` with fuel.
unfoldable pub build : ℕ → ℕ → ℕ → List Hash256 → List Hash256
unfolding push_parents
build zero start size nodes = nodes
build (suc fuel) start size nodes =
    let rest = build fuel (start + size) (size / 2) (push_parents (size / 2) start 0 nodes) in
    if ltb 1 size then rest else nodes

pub record MerkleTree : Type 0 where
  pub nodes : List Hash256
  pub leaf_count : ℕ

-- The constructor. Either loop ends within as many rounds as there are leaves.
unfoldable pub merkle_tree : List Hash256 → MerkleTree
merkle_tree [] = record { nodes = zero_hash ∷ []; leaf_count = 0 }
merkle_tree (l ∷ ls) =
    let padded = pad (length (l ∷ ls)) (l ∷ ls) in
    record { nodes = build (length padded) 0 (length padded) padded; leaf_count = length (l ∷ ls) }

unfoldable pub root : MerkleTree → Hash256
root t = back t.nodes

-- `while (level_size > 1 && …) level_size++;` with fuel.
unfoldable pub padded_size : ℕ → ℕ → ℕ
padded_size zero size = size
padded_size (suc fuel) size =
    let rest = padded_size fuel (size + 1) in if needs_padding size then rest else size

unfoldable pub sibling : ℕ → ℕ → ℕ
sibling idx size =
    if bit_and idx 1 == 0 then (if ltb (idx + 1) size then idx + 1 else idx) else idx - 1

-- The loop of `get_branch`, with fuel.
unfoldable pub siblings : ℕ → ℕ → ℕ → ℕ → List Hash256 → List Hash256
siblings zero start size idx nodes = []
siblings (suc fuel) start size idx nodes =
    let rest = siblings fuel (start + size) (size / 2) (idx / 2) nodes in
    let at = start + sibling idx size in
    let found = if ltb at (length nodes) then get_or nodes at zero_hash ∷ rest else rest in
    if ltb 1 size then found else []

unfoldable pub get_branch : MerkleTree → ℕ → MerkleBranch
get_branch t index =
    let size = padded_size t.leaf_count t.leaf_count in
    if leb t.leaf_count index
    then record { hashes = []; index = 0 }
    else record { hashes = siblings size 0 size index t.nodes; index = index % 2 ^ 32 }

-- `while (n > 0) { n >>= 1; d++; }` with fuel.
unfoldable pub bit_width : ℕ → ℕ → ℕ
bit_width zero n = 0
bit_width (suc fuel) n = let rest = bit_width fuel (n / 2) in if n == 0 then 0 else suc rest

unfoldable pub depth : MerkleTree → ℕ
unfolding bit_width
depth t = if leb t.leaf_count 1 then 0 else bit_width (t.leaf_count - 1) (t.leaf_count - 1)

-- The pairs of a level of even size, hashed.
unfoldable pub pair_up : List Hash256 → List Hash256
pair_up [] = []
pair_up (a ∷ []) = []
pair_up (a ∷ b ∷ rest) = merkle_hash a b ∷ pair_up rest

-- One round of `compute_merkle_root`: an odd level repeats its last hash first.
unfoldable pub next_level : List Hash256 → List Hash256
unfolding pair_up
next_level leaves =
    if length leaves % 2 == 0 then pair_up leaves else pair_up (leaves ++ (back leaves ∷ []))

unfoldable pub fold_levels : ℕ → List Hash256 → Hash256
unfolding next_level
fold_levels zero leaves = get_or leaves 0 zero_hash
fold_levels (suc fuel) leaves =
    let rest = fold_levels fuel (next_level leaves) in
    if ltb 1 (length leaves) then rest else get_or leaves 0 zero_hash

unfoldable pub compute_merkle_root : List Hash256 → Hash256
unfolding fold_levels
compute_merkle_root [] = zero_hash
compute_merkle_root (l ∷ ls) = fold_levels (length (l ∷ ls)) (l ∷ ls)

-- The coinbase counts as zeros.
unfoldable pub compute_witness_merkle_root : List Hash256 → Hash256
unfolding compute_merkle_root
compute_witness_merkle_root wtxids = compute_merkle_root (set wtxids 0 zero_hash)
