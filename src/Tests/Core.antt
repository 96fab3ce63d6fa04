-- ===== src/Tests/Core.antt =====
-- Numbers, targets, headers and Merkle trees of the core.
use avalon_miner.Prelude.{
  ℕ, [], ◌∷◌, ◌++◌, ◌+◌, ◌-◌, ◌/◌, ◌%◌, ◌^◌, ◌≤◌, ◌<◌, ◌≡◌, ◌↔◌, ◌⊎◌, refl, true, some, arith,
  length, length-replicate, replicate, get_or, All-replicate, set, drop,
}
use avalon_miner.Prelude.Bytes.{IsByte}
use avalon_miner.Tests.Data.{
  initial_state-IsState, all_sevens, all_sevens-IsHash256, all_nines, all_nines-IsHash256, header,
  header-IsBlockHeader, branch, leaves,
}
use avalon_miner.Core.Uint256.{
  Hash256, IsHash256, le256, eq256, to_hex, from_hex, to_hex_le, from_hex_le, zero_hash,
}
use avalon_miner.Core.Uint256.Value.{value}
use avalon_miner.Core.Uint256.Order.{eq256_iff}
use avalon_miner.Core.Uint256.Hex.{from_hex-to_hex, from_hex_le-to_hex_le}
use avalon_miner.Core.Target.{bits_to_target, target_to_bits}
use avalon_miner.Core.Target.Expand.{compact_value}
use avalon_miner.Core.Target.Compact.{bits_to_target-target_to_bits}
use avalon_miner.Core.BlockHeader.{
  serialize, deserialize, hash, check_pow, get_chain_id, get_first_chunk, get_tail,
}
use avalon_miner.Core.BlockHeader.Layout.{serialize-deserialize}
use avalon_miner.Core.BlockHeader.ProofOfWork.{
  hash_from_parts, check_pow-compact_value, get_chain_id-bits,
}
use avalon_miner.Core.Stream.{
  ReadStream, stream_error, read_string, write_u8, write_varint, write_string, varint_size,
}
use avalon_miner.Core.Stream.Position.{IsAt, Reads}
use avalon_miner.Core.Stream.Varint.{read_string-write_string}
use avalon_miner.Core.Merkle
use avalon_miner.Core.Merkle.{
  MerkleBranch, compute_root, get_branch, merkle_tree, root, padded_size, pad,
}
use avalon_miner.Core.Merkle.{fold_levels}
use avalon_miner.Core.Merkle.PowerOfTwo.{padded-pow}
use avalon_miner.Core.Merkle.Inclusion.{compute_root-get_branch}
use avalon_miner.Core.Merkle.BranchFormat.{deserialize-serialize_branch, deserialize_loses_count}
use avalon_miner.Crypto.Sha256.{
  check_hash_target, compute_midstate, hash_header_with_midstate, sha256d, initial_state,
  state_to_bytes, bytes_to_state,
}
use avalon_miner.Crypto.Sha256.Digest.{check_hash_target-le256, bytes_to_state-state_to_bytes}
use avalon_miner.Crypto.Sha256.Midstate.{hash_header_with_midstate-sha256d}
use avalon_miner.Prelude.{List, [], ◌∷◌}
use avalon_miner.Core.MtpCalculator.{mtp_block_count, initial, reset, get_mtp}
use avalon_miner.Core.MtpCalculator.Sorting.{IsMedian}
use avalon_miner.Core.MtpCalculator.Ring.{push_all, get_mtp-IsMedian}

eq256_iff_example : (eq256 all_sevens all_nines ≡ true) ↔ (all_sevens ≡ all_nines)
eq256_iff_example = eq256_iff all_sevens all_nines

from_hex-to_hex_example : from_hex (to_hex all_sevens) ≡ some all_sevens
from_hex-to_hex_example = from_hex-to_hex all_sevens all_sevens-IsHash256

from_hex_le-to_hex_le_example : from_hex_le (to_hex_le all_sevens) ≡ some all_sevens
from_hex_le-to_hex_le_example = from_hex_le-to_hex_le all_sevens all_sevens-IsHash256

-- 2 ^ 40 * 9
abbrev small_target : Hash256
small_target = set zero_hash 5 9

small_target-IsHash256 : IsHash256 small_target
small_target-IsHash256 = record { full = refl; bytes = omega arith }

small_exponent : target_to_bits small_target / 2 ^ 24 < 32
unfolding target_to_bits
small_exponent = omega arith

bits_to_target-target_to_bits_example :
    (value (bits_to_target (target_to_bits small_target)) ≤ value small_target)
    × (value small_target
        < value (bits_to_target (target_to_bits small_target))
          + 256 ^ (target_to_bits small_target / 2 ^ 24 - 3))
bits_to_target-target_to_bits_example =
    bits_to_target-target_to_bits small_target small_target-IsHash256 small_exponent

serialize-deserialize_example : serialize (deserialize (replicate 80 5)) ≡ replicate 80 5
serialize-deserialize_example =
    serialize-deserialize (replicate 80 5) (length-replicate {A = ℕ} 80 5)
      (All-replicate IsByte 80 5 (omega arith))

hash_from_parts_example :
    hash_header_with_midstate (compute_midstate (get_first_chunk header)) (get_tail header)
    ≡ hash header
hash_from_parts_example = hash_from_parts header header-IsBlockHeader

check_pow-compact_value_example : (check_pow header ≡ true) ↔ (
    ((header.bits / 2 ^ 24 < 32) × (value (hash header) ≤ compact_value header.bits))
    ⊎ ((32 ≤ header.bits / 2 ^ 24) × (value (hash header) ≡ 0)))
check_pow-compact_value_example = check_pow-compact_value header

get_chain_id-bits_example :
    ((header.version / 2 ^ 8 % 2 ≡ 1) × (get_chain_id header ≡ header.version / 2 ^ 16 % 128))
    ⊎ ((header.version / 2 ^ 8 % 2 ≡ 0) × (get_chain_id header ≡ 0))
get_chain_id-bits_example = get_chain_id-bits header

padded-pow_example :
    (k : ℕ) × (padded_size (length leaves) (length leaves) ≡ 2 ^ k)
    × (length (pad (length leaves) leaves) ≡ 2 ^ k)
    × (length leaves ≤ 2 ^ k)
padded-pow_example = padded-pow leaves (omega arith)

compute_root-get_branch_example :
    compute_root (get_branch (merkle_tree leaves) 2) (get_or leaves 2 zero_hash)
    ≡ root (merkle_tree leaves)
compute_root-get_branch_example = compute_root-get_branch leaves 2 (omega arith) (omega arith)

deserialize-serialize_branch_example : Merkle.deserialize (Merkle.serialize branch) ≡ branch
deserialize-serialize_branch_example =
    deserialize-serialize_branch branch (all_sevens-IsHash256, (all_nines-IsHash256, tt))
      (omega arith) (omega arith)

abbrev long_branch : MerkleBranch
long_branch = record { hashes = replicate 256 all_nines; index = 0 }

deserialize_loses_count_example :
    length (Merkle.deserialize (Merkle.serialize long_branch)).hashes < length long_branch.hashes
deserialize_loses_count_example =
    deserialize_loses_count long_branch (omega (arith, length-replicate 256 all_nines))

check_hash_target-le256_example :
    check_hash_target all_sevens all_nines ≡ le256 all_sevens all_nines
check_hash_target-le256_example = check_hash_target-le256 all_sevens all_nines

hash_header_with_midstate-sha256d_example :
    hash_header_with_midstate (compute_midstate (replicate 80 5)) (drop 64 (replicate 80 5))
    ≡ sha256d (replicate 80 5)
hash_header_with_midstate-sha256d_example =
    hash_header_with_midstate-sha256d (replicate 80 5) (length-replicate {A = ℕ} 80 5)

bytes_to_state-state_to_bytes_example :
    bytes_to_state (state_to_bytes initial_state) ≡ initial_state
bytes_to_state-state_to_bytes_example =
    bytes_to_state-state_to_bytes initial_state initial_state-IsState

abbrev timestamps : List ℕ
timestamps = 12 ∷ 11 ∷ 13 ∷ 15 ∷ 14 ∷ 16 ∷ 18 ∷ 17 ∷ 19 ∷ 21 ∷ 20 ∷ 22 ∷ []

get_mtp-IsMedian_example :
    (length timestamps < mtp_block_count → get_mtp (push_all (reset initial) timestamps) ≡ 0)
    × (mtp_block_count ≤ length timestamps
        → IsMedian 5
            (drop (length timestamps - mtp_block_count) timestamps)
            (get_mtp (push_all (reset initial) timestamps)))
get_mtp-IsMedian_example = get_mtp-IsMedian initial timestamps

-- A text of two bytes behind its length, with a byte behind it.
abbrev text_stream : ReadStream
text_stream = record { bytes = 2 ∷ 7 ∷ 8 ∷ 9 ∷ []; pos = 0 }

text_stream-IsAt : IsAt text_stream (write_string [] (7 ∷ 8 ∷ []) ++ (9 ∷ []))
unfolding write_string write_varint write_u8
text_stream-IsAt = record { inside = omega arith; size = omega arith; ahead = refl }

read_string-write_string_example :
    (2 ≤ 10000000
      → Reads (read_string text_stream) (7 ∷ 8 ∷ []) (varint_size 2 + 2) text_stream (9 ∷ []))
    × (10000000 < 2 → read_string text_stream ≡ stream_error)
read_string-write_string_example =
    read_string-write_string text_stream (7 ∷ 8 ∷ []) (9 ∷ []) (omega arith) text_stream-IsAt
