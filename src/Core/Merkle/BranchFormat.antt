-- ===== src/Core/Merkle/BranchFormat.antt =====
-- A branch as bytes: what is written is read back while the count fits its byte.
use avalon_miner.Prelude.{
  ℕ, zero, suc, ◌≤◌, ◌<◌, ◌≡◌, refl, List, [], ◌∷◌, ◌++◌, arith, All, le→leb, length, length-append,
  drop,
}
use mathlib.Core.List.{append_assoc}
use avalon_miner.Prelude.Bytes.{IsU32, le_bytes32, join32-bytes, byte}
use avalon_miner.Prelude.Slices.{take-append, drop-append}
use avalon_miner.Core.Uint256.{Hash256, IsHash256}
use avalon_miner.Core.Merkle.{MerkleBranch, concat_hashes, read_hashes, serialize, deserialize}

read_hashes-concat :
    (hs : List Hash256) (rest : List ℕ)
    → All IsHash256 hs
    → read_hashes (length hs) (concat_hashes hs ++ rest) ≡ (hs, rest)
unfolding read_hashes
read_hashes-concat [] rest h = refl
read_hashes-concat (x ∷ hs) rest h =
    let full = h.0.full in
    let long : 32 ≤ length (x ++ (concat_hashes hs ++ rest)) =
      omega (arith, length-append x (concat_hashes hs ++ rest), full) in
    rw (
      append_assoc x (concat_hashes hs) rest,
      take-append 32 x (concat_hashes hs ++ rest) full,
      drop-append 32 x (concat_hashes hs ++ rest) full,
      read_hashes-concat hs rest h.1,
      le→leb 32 (length (x ++ (concat_hashes hs ++ rest))) long,
    )

-- A branch of at most 255 hashes of 32 bytes, with a 32-bit index, survives serialization.
pub deserialize-serialize_branch :
    (b : MerkleBranch)
    → All IsHash256 b.hashes
    → length b.hashes < 256
    → IsU32 b.index
    → deserialize (serialize b) ≡ b
unfolding deserialize serialize
deserialize-serialize_branch b h n u =
    let count : byte 0 (length b.hashes) ≡ length b.hashes = omega arith in
    rw (count, read_hashes-concat b.hashes (le_bytes32 b.index) h)
      (λ i. record { hashes = b.hashes; index = join32-bytes b.index u i })

length-read_hashes : (n : ℕ) (src : List ℕ) → length (read_hashes n src).0 ≤ n
unfolding read_hashes
length-read_hashes zero src = omega arith
length-read_hashes (suc n) src = ground (arith, length-read_hashes n (drop 32 src))

-- From 256 hashes on the count wraps, and what is read back has fewer.
pub deserialize_loses_count :
    (b : MerkleBranch)
    → 256 ≤ length b.hashes
    → length (deserialize (serialize b)).hashes < length b.hashes
unfolding deserialize serialize
deserialize_loses_count b many = omega (
  arith,
  length-read_hashes (byte 0 (length b.hashes)) (concat_hashes b.hashes ++ le_bytes32 b.index),
)
