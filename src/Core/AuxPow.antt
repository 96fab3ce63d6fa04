-- ===== src/Core/AuxPow.antt =====
-- src/core/primitives/auxpow.hpp and auxpow.cpp: the commitment to auxiliary chains in a coinbase
-- transaction, the auxiliary proof of work, and the slots of chains in the commitment's tree.
pub mod Commitment
pub mod Verify
pub mod Slots
use avalon_miner.Prelude.{
  ℕ, zero, suc, ◌+◌, ◌-◌, ◌*◌, ◌/◌, ◌%◌, ◌^◌, Bool, true, false, Option, none, some, List, [], ◌∷◌,
  ◌++◌, bit_or, ltb, leb, ◌==◌, ◌&&◌, if◌then◌else◌, not, length, get_or, set, take, drop,
  replicate,
}
use avalon_miner.Prelude.Bytes.{byte, le_bytes32, read32, read16}
use avalon_miner.Core.Uint256.{Hash256, eq256, le256, zero_hash}
use avalon_miner.Core.Target.{bits_to_target}
use avalon_miner.Core.BlockHeader.{BlockHeader}
use avalon_miner.Core.BlockHeader
use avalon_miner.Core.Merkle.{MerkleBranch, compute_root, compute_merkle_root}
use avalon_miner.Core.Merkle

-- `AUXPOW_MAGIC`
abbrev pub magic : List ℕ
magic = 0xfa ∷ 0xbe ∷ 0x6d ∷ 0x6d ∷ []

pub record AuxPowCommitment : Type 0 where
  pub aux_merkle_root : Hash256
  pub tree_size : ℕ
  pub merkle_nonce : ℕ

unfoldable pub serialize : AuxPowCommitment → List ℕ
serialize c = magic ++ (c.aux_merkle_root ++ (le_bytes32 c.tree_size ++ le_bytes32 c.merkle_nonce))

-- `std::memcmp(data + i, AUXPOW_MAGIC, 4) == 0`
unfoldable pub at_magic : List ℕ → Bool
at_magic src =
    get_or src 0 0 == 0xfa
    && (get_or src 1 0 == 0xbe && (get_or src 2 0 == 0x6d && get_or src 3 0 == 0x6d))

unfoldable pub read_commitment : List ℕ → AuxPowCommitment
read_commitment src = record {
  aux_merkle_root = take 32 (drop 4 src);
  tree_size = read32 (drop 36 src);
  merkle_nonce = read32 (drop 40 src);
}

-- `for (i = 0; i + 44 <= size; ++i)`: the bytes from `i` on, while there are 44 of them.
unfoldable pub find_in_coinbase : List ℕ → Option AuxPowCommitment
find_in_coinbase [] = none
find_in_coinbase (b ∷ src) =
    let rest = find_in_coinbase src in
    if leb 44 (length (b ∷ src))
    then (if at_magic (b ∷ src) then some (read_commitment (b ∷ src)) else rest)
    else none

pub record AuxPow : Type 0 where
  pub coinbase_tx : List ℕ
  pub coinbase_hash : Hash256
  pub coinbase_branch : MerkleBranch
  pub aux_branch : MerkleBranch
  pub parent_header : BlockHeader

unfoldable pub verify_pow : AuxPow → Bool
verify_pow a = BlockHeader.check_pow a.parent_header

unfoldable pub aux_root_matches : AuxPow → Hash256 → AuxPowCommitment → Bool
aux_root_matches a aux_hash c = eq256 (compute_root a.aux_branch aux_hash) c.aux_merkle_root

-- The four steps, each an early return.
unfoldable pub verify : AuxPow → Hash256 → Bool
verify a aux_hash =
    if not (eq256 (compute_root a.coinbase_branch a.coinbase_hash) a.parent_header.merkle_root)
    then false
    else elim (find_in_coinbase a.coinbase_tx) [
      | none ↦ false
      | some c ↦ if not (aux_root_matches a aux_hash c) then false else verify_pow a
    ]

unfoldable pub meets_target : AuxPow → ℕ → Bool
meets_target a target_bits = le256 (BlockHeader.hash a.parent_header) (bits_to_target target_bits)

unfoldable pub get_chain_id : AuxPow → ℕ
get_chain_id a = BlockHeader.get_chain_id a.parent_header

-- The length of the transaction goes into two bytes.
unfoldable pub serialize_auxpow : AuxPow → List ℕ
serialize_auxpow a =
    byte 0 (length a.coinbase_tx % 2 ^ 16)
    ∷ byte 8 (length a.coinbase_tx % 2 ^ 16)
    ∷ (a.coinbase_tx
        ++ (a.coinbase_hash
            ++ (Merkle.serialize a.coinbase_branch
                ++ (Merkle.serialize a.aux_branch ++ BlockHeader.serialize a.parent_header))))

-- `MerkleBranch{}` and `BlockHeader{}`
abbrev pub empty_branch : MerkleBranch
empty_branch = record { hashes = []; index = 0 }

abbrev pub empty_header : BlockHeader
empty_header = record {
  version = 0;
  prev_hash = zero_hash;
  merkle_root = zero_hash;
  timestamp = 0;
  bits = 0;
  nonce = 0;
}

-- The reader stops behind the hash: branches and header keep their defaults.
unfoldable pub deserialize_auxpow : List ℕ → Option AuxPow
deserialize_auxpow src =
    let tx_len = read16 src in
    let behind = drop (2 + tx_len) src in
    if ltb (length src) 2
    then none
    else if ltb (length src) (2 + tx_len)
    then none
    else if ltb (length src) (2 + tx_len + 32)
    then none
    else some (record {
      coinbase_tx = take tx_len (drop 2 src);
      coinbase_hash = take 32 behind;
      coinbase_branch = empty_branch;
      aux_branch = empty_branch;
      parent_header = empty_header;
    })

-- `uint32_t` product and remainder.
unfoldable pub compute_slot_id : ℕ → ℕ → ℕ → ℕ
compute_slot_id chain_id nonce tree_size =
    if tree_size == 0 then 0 else chain_id * nonce % 2 ^ 32 % tree_size

unfoldable pub compute_slot_id_of_genesis : Hash256 → ℕ → ℕ → ℕ
unfolding compute_slot_id
compute_slot_id_of_genesis genesis_hash nonce tree_size =
    if tree_size == 0 then 0 else compute_slot_id (read32 genesis_hash) nonce tree_size

-- `while (size < aux_hashes.size()) size *= 2;` with fuel.
unfoldable pub tree_size_for : ℕ → ℕ → ℕ → ℕ
tree_size_for zero size n = size
tree_size_for (suc fuel) size n =
    let rest = tree_size_for fuel (size * 2) n in if ltb size n then rest else size

-- `tree[slot] = aux_hashes[i]`, as long as both lists go.
unfoldable pub place : List Hash256 → List ℕ → ℕ → ℕ → List Hash256 → List Hash256
place (h ∷ hs) (c ∷ cs) nonce size tree =
    place hs cs nonce size (set tree (compute_slot_id c nonce size) h)
place [] cs nonce size tree = tree
place (h ∷ hs) [] nonce size tree = tree

unfoldable pub create_commitment : List Hash256 → List ℕ → AuxPowCommitment
create_commitment [] chain_ids = record {
  aux_merkle_root = zero_hash;
  tree_size = 1;
  merkle_nonce = 0;
}
create_commitment (h ∷ hs) chain_ids =
    let n = length (h ∷ hs) in
    let size = tree_size_for n 1 n in
    record {
      aux_merkle_root =
          compute_merkle_root
            (place (h ∷ hs) chain_ids 0 (size % 2 ^ 32) (replicate size zero_hash));
      tree_size = size % 2 ^ 32;
      merkle_nonce = 0;
    }

-- The free function `meets_target`.
unfoldable pub hash_meets_target : Hash256 → ℕ → Bool
hash_meets_target hash target_bits = le256 hash (bits_to_target target_bits)
