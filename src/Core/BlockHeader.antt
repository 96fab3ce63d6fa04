-- ===== src/Core/BlockHeader.antt =====
-- src/core/primitives/block_header.hpp and block_header.cpp: the 80-byte block header.
-- `version` is the bit pattern of the `int32_t`, a number below 2 ^ 32: the code only copies it
-- bytewise and tests bits of it.
pub mod Layout
pub mod ProofOfWork
use avalon_miner.Prelude.{
  ℕ, ◌+◌, ◌*◌, ◌/◌, ◌^◌, Bool, true, false, List, [], ◌∷◌, ◌++◌, bit_and, ◌==◌, if◌then◌else◌, not,
  take, drop, length, ◌≡◌, All,
}
use avalon_miner.Prelude.Bytes.{IsU32, le_bytes32, read32}
use avalon_miner.Core.Uint256.{Hash256, IsHash256, le256}
use avalon_miner.Core.Target.{bits_to_target}
use avalon_miner.Crypto.Sha256.{sha256d}

pub record BlockHeader : Type 0 where
  pub version : ℕ
  pub prev_hash : Hash256
  pub merkle_root : Hash256
  pub timestamp : ℕ
  pub bits : ℕ
  pub nonce : ℕ

-- What the C++ types of the fields say.
pub record IsBlockHeader (h : BlockHeader) : Type 0 where
  pub version_fits : IsU32 h.version
  pub prev_hash_is : IsHash256 h.prev_hash
  pub merkle_root_is : IsHash256 h.merkle_root
  pub timestamp_fits : IsU32 h.timestamp
  pub bits_fits : IsU32 h.bits
  pub nonce_fits : IsU32 h.nonce

-- The fields stand at the offsets 0, 4, 36, 68, 72 and 76 of the array.
unfoldable pub serialize : BlockHeader → List ℕ
serialize h =
    le_bytes32 h.version
    ++ (h.prev_hash
        ++ (h.merkle_root ++ (le_bytes32 h.timestamp ++ (le_bytes32 h.bits ++ le_bytes32 h.nonce))))

-- From a pointer to at least 80 bytes.
unfoldable pub deserialize : List ℕ → BlockHeader
deserialize src = record {
  version = read32 src;
  prev_hash = take 32 (drop 4 src);
  merkle_root = take 32 (drop 36 src);
  timestamp = read32 (drop 68 src);
  bits = read32 (drop 72 src);
  nonce = read32 (drop 76 src);
}

-- `hash` and `hash_uint256`, which is the same array.
unfoldable pub hash : BlockHeader → Hash256
hash h = sha256d (serialize h)

unfoldable pub get_target : BlockHeader → Hash256
get_target h = bits_to_target h.bits

unfoldable pub check_pow : BlockHeader → Bool
check_pow h = le256 (hash h) (get_target h)

unfoldable pub is_auxpow : BlockHeader → Bool
is_auxpow h = not (bit_and h.version 0x100 == 0)

unfoldable pub get_chain_id : BlockHeader → ℕ
unfolding is_auxpow
get_chain_id h = if is_auxpow h then bit_and (h.version / 2 ^ 16) 0x7f else 0

unfoldable pub get_first_chunk : BlockHeader → List ℕ
get_first_chunk h = take 64 (serialize h)

unfoldable pub get_tail : BlockHeader → List ℕ
get_tail h = take 16 (drop 64 (serialize h))
