-- ===== src/Crypto/Sha256/Digest.antt =====
-- The shape of a digest, the two byte forms of a state, and the test of a hash against a target.
use Prim.Native.Nat.{Ordering}
use avalon_miner.Prelude.{ℕ, zero, suc, ◌≡◌, refl, Bool, true, false, List, arith, All, length}
use avalon_miner.Prelude.Bytes.{IsByte, IsU32, join32-bytes}
use avalon_miner.Core.Uint256.{Hash256, IsHash256, compare_down, le256}
use avalon_miner.Crypto.Sha256.{
  Sha256State, state_to_hash, state_to_bytes, bytes_to_state, sha256, sha256d, check_down,
  check_hash_target,
}

pub state_to_hash-IsHash256 : (s : Sha256State) → IsHash256 (state_to_hash s)
unfolding state_to_hash
state_to_hash-IsHash256 s = record { full = refl; bytes = omega arith }

-- Whatever is hashed, the digest is an array of 32 bytes.
pub sha256-IsHash256 : (message : List ℕ) → IsHash256 (sha256 message)
unfolding sha256
sha256-IsHash256 message = state_to_hash-IsHash256 _

pub sha256d-IsHash256 : (message : List ℕ) → IsHash256 (sha256d message)
unfolding sha256d
sha256d-IsHash256 message = sha256-IsHash256 (sha256 message)

-- The words of a state are `uint32_t`.
pub record IsState (s : Sha256State) : Type 0 where
  pub w0 : IsU32 s.s0
  pub w1 : IsU32 s.s1
  pub w2 : IsU32 s.s2
  pub w3 : IsU32 s.s3
  pub w4 : IsU32 s.s4
  pub w5 : IsU32 s.s5
  pub w6 : IsU32 s.s6
  pub w7 : IsU32 s.s7

-- A midstate of 32-bit words that is sent as 32 bytes is read back as the same state.
pub bytes_to_state-state_to_bytes :
    (s : Sha256State) → IsState s → bytes_to_state (state_to_bytes s) ≡ s
unfolding bytes_to_state state_to_bytes
bytes_to_state-state_to_bytes s h = λ i. record {
  s0 = join32-bytes s.s0 h.w0 i;
  s1 = join32-bytes s.s1 h.w1 i;
  s2 = join32-bytes s.s2 h.w2 i;
  s3 = join32-bytes s.s3 h.w3 i;
  s4 = join32-bytes s.s4 h.w4 i;
  s5 = join32-bytes s.s5 h.w5 i;
  s6 = join32-bytes s.s6 h.w6 i;
  s7 = join32-bytes s.s7 h.w7 i;
}

pub length-state_to_bytes : (s : Sha256State) → length (state_to_bytes s) ≡ 32
unfolding state_to_bytes
length-state_to_bytes s = refl

pub state_to_bytes-bytes : (s : Sha256State) → All IsByte (state_to_bytes s)
unfolding state_to_bytes
state_to_bytes-bytes s = omega arith

abbrev at_most : Ordering → Bool
at_most o = elim o [ Ordering.lt ↦ true | Ordering.eq ↦ true | Ordering.gt ↦ false ]

check_down-compare_down :
    (n : ℕ) (hash target : Hash256)
    → check_down n hash target ≡ at_most (compare_down n hash target)
unfolding check_down compare_down
check_down-compare_down zero hash target = refl
check_down-compare_down (suc n) hash target = ground (arith, check_down-compare_down n hash target)

-- The test of the hash module is `<=` of uint256, on any two arrays.
pub check_hash_target-le256 :
    (hash target : Hash256) → check_hash_target hash target ≡ le256 hash target
unfolding check_hash_target le256
check_hash_target-le256 hash target = check_down-compare_down 32 hash target
