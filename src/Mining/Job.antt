-- ===== src/Mining/Job.antt =====
-- src/mining/job.hpp and the serialisation in src/mining/job_manager.cpp: the job sent to a device
-- (48 bytes) and the share it answers with (8 bytes).
-- A time point is a number of seconds.
use avalon_miner.Prelude.{
  ℕ, ◌-◌, ◌≡◌, ◌≤◌, refl, Bool, false, Option, none, some, List, ◌++◌, arith, ltb, if◌then◌else◌,
  length, take, drop,
}
use avalon_miner.Prelude.Bytes.{IsU32, le_bytes32, read32, join32-bytes}
use avalon_miner.Core.Uint256.{Hash256, zero_hash}
use avalon_miner.Crypto.Sha256.{Sha256State, state_to_bytes, bytes_to_state}
use avalon_miner.Crypto.Sha256.Digest.{IsState, bytes_to_state-state_to_bytes}

pub record Job : Type 0 where
  pub job_id : ℕ
  pub midstate : Sha256State
  pub timestamp : ℕ
  pub bits : ℕ
  pub nonce : ℕ
  pub height : ℕ
  pub target : Hash256
  pub is_speculative : Bool
  pub created_at : ℕ

pub record Share : Type 0 where
  pub job_id : ℕ
  pub nonce : ℕ

unfoldable pub serialize_job : Job → List ℕ
serialize_job j =
    state_to_bytes j.midstate
    ++ (le_bytes32 j.timestamp
        ++ (le_bytes32 j.bits ++ (le_bytes32 j.nonce ++ le_bytes32 j.job_id)))

-- What is read from a pointer to 48 bytes, at the time `now`.
unfoldable pub read_job : ℕ → List ℕ → Job
read_job now src = record {
  job_id = read32 (drop 44 src);
  midstate = bytes_to_state (take 32 src);
  timestamp = read32 (drop 32 src);
  bits = read32 (drop 36 src);
  nonce = read32 (drop 40 src);
  height = 0;
  target = zero_hash;
  is_speculative = false;
  created_at = now;
}

-- `none` for the error of too few bytes.
unfoldable pub deserialize_job : ℕ → List ℕ → Option Job
deserialize_job now src = if ltb (length src) 48 then none else some (read_job now src)

-- `age.count() > max_age`; the clock is steady.
unfoldable pub is_stale : ℕ → ℕ → Job → Bool
is_stale now max_age j = ltb max_age (now - j.created_at)

unfoldable pub serialize_share : Share → List ℕ
serialize_share s = le_bytes32 s.job_id ++ le_bytes32 s.nonce

unfoldable pub read_share : List ℕ → Share
read_share src = record { job_id = read32 src; nonce = read32 (drop 4 src) }

unfoldable pub deserialize_share : List ℕ → Option Share
deserialize_share src = if ltb (length src) 8 then none else some (read_share src)

-- The fields that travel are `uint32_t`.
pub record IsJob (j : Job) : Type 0 where
  pub job_id_fits : IsU32 j.job_id
  pub midstate_is : IsState j.midstate
  pub timestamp_fits : IsU32 j.timestamp
  pub bits_fits : IsU32 j.bits
  pub nonce_fits : IsU32 j.nonce

-- What a device knows of a job.
abbrev pub as_received : ℕ → Job → Job
as_received now j = record {
  job_id = j.job_id;
  midstate = j.midstate;
  timestamp = j.timestamp;
  bits = j.bits;
  nonce = j.nonce;
  height = 0;
  target = zero_hash;
  is_speculative = false;
  created_at = now;
}

read_job-serialize_job :
    (now : ℕ) (j : Job) (rest : List ℕ)
    → IsJob j
    → read_job now (serialize_job j ++ rest) ≡ as_received now j
unfolding read_job serialize_job state_to_bytes
read_job-serialize_job now j rest w = λ i. record {
  job_id = join32-bytes j.job_id w.job_id_fits i;
  midstate = bytes_to_state-state_to_bytes j.midstate w.midstate_is i;
  timestamp = join32-bytes j.timestamp w.timestamp_fits i;
  bits = join32-bytes j.bits w.bits_fits i;
  nonce = join32-bytes j.nonce w.nonce_fits i;
  height = 0;
  target = zero_hash;
  is_speculative = false;
  created_at = now;
}

length-serialize_job : (j : Job) (rest : List ℕ) → 48 ≤ length (serialize_job j ++ rest)
unfolding serialize_job state_to_bytes
length-serialize_job j rest = omega arith

-- A job of 32-bit fields is read back with its id, midstate, timestamp, bits and nonce, whatever
-- follows it, and with the defaults of the other fields.
pub deserialize_job-serialize_job :
    (now : ℕ) (j : Job) (rest : List ℕ)
    → IsJob j
    → deserialize_job now (serialize_job j ++ rest) ≡ some (as_received now j)
unfolding deserialize_job
deserialize_job-serialize_job now j rest w =
    let long : ltb (length (serialize_job j ++ rest)) 48 ≡ false =
      ground (arith, length-serialize_job j rest) in
    rw (long, read_job-serialize_job now j rest w) refl

read_share-serialize_share :
    (s : Share) (rest : List ℕ)
    → IsU32 s.job_id
    → IsU32 s.nonce
    → read_share (serialize_share s ++ rest) ≡ s
unfolding read_share serialize_share
read_share-serialize_share s rest h k =
    λ i. record { job_id = join32-bytes s.job_id h i; nonce = join32-bytes s.nonce k i }

length-serialize_share : (s : Share) (rest : List ℕ) → 8 ≤ length (serialize_share s ++ rest)
unfolding serialize_share
length-serialize_share s rest = omega arith

-- A share of 32-bit fields is read back, whatever follows it.
pub deserialize_share-serialize_share :
    (s : Share) (rest : List ℕ)
    → IsU32 s.job_id
    → IsU32 s.nonce
    → deserialize_share (serialize_share s ++ rest) ≡ some s
unfolding deserialize_share
deserialize_share-serialize_share s rest h k =
    let long : ltb (length (serialize_share s ++ rest)) 8 ≡ false =
      ground (arith, length-serialize_share s rest) in
    rw (long, read_share-serialize_share s rest h k) refl
