-- ===== src/Mining/VersionRolling/Wire.antt =====
-- The job of 56 bytes and the share of 12 bytes are read back from their bytes.
use avalon_miner.Prelude.{
  ℕ, ◌+◌, ◌≡◌, refl, ap, ◌∙◌, false, some, List, ◌++◌, arith, ltb, length, length-append, take,
  drop,
}
use avalon_miner.Prelude.Bytes.{
  IsU16, IsU32, le_bytes16, le_bytes32, read16, read32, join16-bytes, join32-bytes,
}
use avalon_miner.Prelude.Slices.{take-append, drop-append, drop-add}
use mathlib.Core.List.{append_assoc}
use avalon_miner.Mining.VersionRolling.{
  MiningJobV2, MiningShareV2, serialize_job, read_job, deserialize_job, serialize_share, read_share,
  deserialize_share,
}

-- What the C++ types of the fields say.
pub record IsMiningJobV2 (j : MiningJobV2) : Type 0 where
  pub midstate_full : length j.midstate ≡ 32
  pub tail_full : length j.header_tail ≡ 12
  pub job_id_fits : IsU32 j.job_id
  pub version_base_fits : IsU32 j.version_base
  pub version_mask_fits : IsU16 j.version_mask
  pub reserved_fits : IsU16 j.reserved

pub record IsMiningShareV2 (s : MiningShareV2) : Type 0 where
  pub job_id_fits : IsU32 s.job_id
  pub nonce_fits : IsU32 s.nonce
  pub version_fits : IsU32 s.version

module _ (j : MiningJobV2) (rest : List ℕ) (w : IsMiningJobV2 j) where
  abbrev words : List ℕ
  words =
      le_bytes32 j.job_id
      ++ (le_bytes32 j.version_base ++ (le_bytes16 j.version_mask ++ le_bytes16 j.reserved))

  laid_out : serialize_job j ++ rest ≡ j.midstate ++ (j.header_tail ++ (words ++ rest))
  unfolding serialize_job
  laid_out =
      append_assoc j.midstate (j.header_tail ++ words) rest
      ∙ ap (◌++◌ j.midstate) (append_assoc j.header_tail words rest)

  after_midstate : drop 32 (serialize_job j ++ rest) ≡ j.header_tail ++ (words ++ rest)
  after_midstate =
      ap (drop 32) laid_out
      ∙ drop-append 32 j.midstate (j.header_tail ++ (words ++ rest)) w.midstate_full

  after_tail : (k : ℕ) → drop (44 + k) (serialize_job j ++ rest) ≡ drop k (words ++ rest)
  after_tail k =
      let e : 44 + k ≡ 32 + (12 + k) = omega arith in
      ap (λ (n : ℕ). drop n (serialize_job j ++ rest)) e
      ∙ drop-add 32 (12 + k) (serialize_job j ++ rest)
      ∙ ap (drop (12 + k)) after_midstate
      ∙ drop-add 12 k (j.header_tail ++ (words ++ rest))
      ∙ ap (drop k) (drop-append 12 j.header_tail (words ++ rest) w.tail_full)

  read_job-serialize_job : read_job (serialize_job j ++ rest) ≡ j
  unfolding read_job
  read_job-serialize_job = λ i. record {
    midstate =
        (ap (take 32) laid_out
            ∙ take-append 32 j.midstate (j.header_tail ++ (words ++ rest)) w.midstate_full)
          i;
    header_tail =
        (ap (take 12) after_midstate ∙ take-append 12 j.header_tail (words ++ rest) w.tail_full) i;
    job_id = (ap read32 (after_tail 0) ∙ join32-bytes j.job_id w.job_id_fits) i;
    version_base = (ap read32 (after_tail 4) ∙ join32-bytes j.version_base w.version_base_fits) i;
    version_mask = (ap read16 (after_tail 8) ∙ join16-bytes j.version_mask w.version_mask_fits) i;
    reserved = (ap read16 (after_tail 10) ∙ join16-bytes j.reserved w.reserved_fits) i;
  }

  length-serialize_job : ltb (length (serialize_job j ++ rest)) 56 ≡ false
  length-serialize_job =
      let midstate = w.midstate_full in
      let tail = w.tail_full in
      let whole = ap length laid_out in
      ground (
        arith,
        length-append j.midstate (j.header_tail ++ (words ++ rest)),
        length-append j.header_tail (words ++ rest),
      )

  -- A job whose fields have their sizes is read back whole, whatever bytes follow it.
  pub deserialize_job-serialize_job : deserialize_job (serialize_job j ++ rest) ≡ some j
  unfolding deserialize_job
  deserialize_job-serialize_job = rw (length-serialize_job, read_job-serialize_job) refl

read_share-serialize_share :
    (s : MiningShareV2) (rest : List ℕ)
    → IsMiningShareV2 s
    → read_share (serialize_share s ++ rest) ≡ s
unfolding read_share serialize_share
read_share-serialize_share s rest w = λ i. record {
  job_id = join32-bytes s.job_id w.job_id_fits i;
  nonce = join32-bytes s.nonce w.nonce_fits i;
  version = join32-bytes s.version w.version_fits i;
}

length-serialize_share :
    (s : MiningShareV2) (rest : List ℕ) → ltb (length (serialize_share s ++ rest)) 12 ≡ false
unfolding serialize_share
length-serialize_share s rest = ground arith

-- A share of 32-bit fields is read back whole, whatever bytes follow it.
pub deserialize_share-serialize_share :
    (s : MiningShareV2) (rest : List ℕ)
    → IsMiningShareV2 s
    → deserialize_share (serialize_share s ++ rest) ≡ some s
unfolding deserialize_share
deserialize_share-serialize_share s rest w =
    rw (length-serialize_share s rest, read_share-serialize_share s rest w) refl
