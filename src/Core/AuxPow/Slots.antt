-- ===== src/Core/AuxPow/Slots.antt =====
-- The commitment's tree: its size, the slots, and what the constant nonce does to them.
use avalon_miner.Prelude.{
  ℕ, zero, suc, ◌+◌, ◌%◌, ◌^◌, ◌≤◌, ◌<◌, ◌≡◌, refl, ap, sym, ◌∙◌, List, [], ◌∷◌, arith, ltb, length,
  set, replicate, Bool-cases, inl, inr,
}
use avalon_miner.Core.Uint256.{Hash256, zero_hash}
use avalon_miner.Core.Merkle.{compute_merkle_root}
use avalon_miner.Core.AuxPow.{compute_slot_id, tree_size_for, place, create_commitment}
use native.Mathlib.Nat.{pow-suc, one-le-pow}

-- A slot lies in the tree.
pub compute_slot_id-lt :
    (chain_id nonce size : ℕ) → 0 < size → compute_slot_id chain_id nonce size < size
unfolding compute_slot_id
compute_slot_id-lt chain_id nonce size h = ground arith

tree_size_for-pow :
    (fuel k n : ℕ)
    → n ≤ 2 ^ k + fuel
    → (j : ℕ) × (tree_size_for fuel (2 ^ k) n ≡ 2 ^ j) × (n ≤ 2 ^ j)
unfolding tree_size_for
tree_size_for-pow zero k n h = (k, refl, omega arith)
tree_size_for-pow (suc fuel) k n h = elim (Bool-cases (ltb (2 ^ k) n)) [
  | inl short ↦
      let (j, e, l) =
        tree_size_for-pow fuel (suc k) n (omega (arith, pow-suc 2 k, one-le-pow k 2)) in
      (j, rw (short, ← pow-suc 2 k) e, l)
  | inr enough ↦ (k, rw enough, ground arith)
]

-- The size of the tree for `n` hashes is a power of two that is at least `n`: the doubling loop
-- ends within `n` rounds.
pub tree_size_for-enough : (n : ℕ) → (j : ℕ) × (tree_size_for n 1 n ≡ 2 ^ j) × (n ≤ 2 ^ j)
tree_size_for-enough n = tree_size_for-pow n 0 n (omega arith)

zero_slot : (chain_id size : ℕ) → compute_slot_id chain_id 0 size ≡ 0
unfolding compute_slot_id
zero_slot chain_id size = ground arith

-- The nonce is 0, so every chain gets slot 0 and only the last hash stays.
place_overwrites :
    (h h' : Hash256) (hs : List Hash256) (c c' : ℕ) (cs : List ℕ) (size : ℕ) (tree : List Hash256)
    → place (h ∷ h' ∷ hs) (c ∷ c' ∷ cs) 0 size tree ≡ place (h' ∷ hs) (c' ∷ cs) 0 size tree
unfolding place
place_overwrites h h' hs c c' cs size tree =
    rw (zero_slot c size, zero_slot c' size) (ap (place hs cs 0 size) (set_again tree))
  where
    set_again : (t : List Hash256) → set (set t 0 h) 0 h' ≡ set t 0 h'
    set_again [] = refl
    set_again (x ∷ t) = refl

-- With at least two hashes and two chain ids the first hash has no effect on the commitment.
pub create_commitment_ignores_first :
    (g h h' : Hash256) (hs : List Hash256) (c c' : ℕ) (cs : List ℕ)
    → create_commitment (g ∷ h' ∷ hs) (c ∷ c' ∷ cs) ≡ create_commitment (h ∷ h' ∷ hs) (c ∷ c' ∷ cs)
unfolding create_commitment
create_commitment_ignores_first g h h' hs c c' cs =
    let n : ℕ = length (h ∷ h' ∷ hs) in
    let size : ℕ = tree_size_for n 1 n in
    let tree : List Hash256 = replicate size zero_hash in
    let same =
      place_overwrites g h' hs c c' cs (size % 2 ^ 32) tree
      ∙ sym (place_overwrites h h' hs c c' cs (size % 2 ^ 32) tree) in
    λ i. record {
      aux_merkle_root = compute_merkle_root (same i);
      tree_size = size % 2 ^ 32;
      merkle_nonce = 0;
    }
