-- ===== src/Crypto/Sha256.antt =====
-- src/crypto/sha256.cpp and sha256_generic.cpp: SHA-256 over 64-byte blocks, and the midstate that
-- lets a miner hash only the tail of a header. The dispatcher runs the generic transform (the build
-- without `QUAXIS_HAS_SHANI`, or a CPU without the instructions).
mod Tables
pub mod Digest
pub mod Midstate
mod Vectors
use Prim.Native.Nat.{bit_xor}
use avalon_miner.Prelude.{
  ℕ, zero, suc, ◌+◌, ◌-◌, ◌*◌, ◌/◌, ◌%◌, ◌^◌, Bool, true, false, List, [], ◌∷◌, ◌++◌, bit_and,
  bit_or, ltb, leb, if◌then◌else◌, length, get_or, take, drop, replicate,
}
use avalon_miner.Prelude.Bytes.{byte, join32, le_bytes32, read32}
use Tables.{sha256_init, sha256_k}

-- `std::array<uint32_t, 8>`
pub record Sha256State : Type 0 where
  pub s0 : ℕ
  pub s1 : ℕ
  pub s2 : ℕ
  pub s3 : ℕ
  pub s4 : ℕ
  pub s5 : ℕ
  pub s6 : ℕ
  pub s7 : ℕ

-- `constants::SHA256_INIT`
unfoldable pub initial_state : Sha256State
initial_state = record {
  s0 = get_or sha256_init 0 0;
  s1 = get_or sha256_init 1 0;
  s2 = get_or sha256_init 2 0;
  s3 = get_or sha256_init 3 0;
  s4 = get_or sha256_init 4 0;
  s5 = get_or sha256_init 5 0;
  s6 = get_or sha256_init 6 0;
  s7 = get_or sha256_init 7 0;
}

-- `read_be32` and `write_be32` of src/core/byte_order.hpp.
abbrev pub read_be32 : List ℕ → ℕ
read_be32 src = join32 (get_or src 3 0) (get_or src 2 0) (get_or src 1 0) (get_or src 0 0)

abbrev pub be_bytes32 : ℕ → List ℕ
be_bytes32 x = byte 24 x ∷ byte 16 x ∷ byte 8 x ∷ byte 0 x ∷ []

abbrev u32 : ℕ → ℕ
u32 x = x % 2 ^ 32

-- `std::rotr` on 32 bits.
rotr : ℕ → ℕ → ℕ
rotr x n = bit_or (x / 2 ^ n) (u32 (x * 2 ^ (32 - n)))

choose : ℕ → ℕ → ℕ → ℕ
choose x y z = bit_xor (bit_and x y) (bit_and (2 ^ 32 - 1 - x) z)

majority : ℕ → ℕ → ℕ → ℕ
majority x y z = bit_xor (bit_xor (bit_and x y) (bit_and x z)) (bit_and y z)

big_sigma0 : ℕ → ℕ
unfolding rotr
big_sigma0 x = bit_xor (bit_xor (rotr x 2) (rotr x 13)) (rotr x 22)

big_sigma1 : ℕ → ℕ
unfolding rotr
big_sigma1 x = bit_xor (bit_xor (rotr x 6) (rotr x 11)) (rotr x 25)

small_sigma0 : ℕ → ℕ
unfolding rotr
small_sigma0 x = bit_xor (bit_xor (rotr x 7) (rotr x 18)) (x / 2 ^ 3)

small_sigma1 : ℕ → ℕ
unfolding rotr
small_sigma1 x = bit_xor (bit_xor (rotr x 17) (rotr x 19)) (x / 2 ^ 10)

-- `SHA256_ROUND`
round : Sha256State → ℕ → ℕ → Sha256State
unfolding big_sigma0 big_sigma1 choose majority
round s w k =
    let t1 = u32 (s.s7 + big_sigma1 s.s4 + choose s.s4 s.s5 s.s6 + k + w) in
    let t2 = u32 (big_sigma0 s.s0 + majority s.s0 s.s1 s.s2) in
    record {
      s0 = u32 (t1 + t2);
      s1 = s.s0;
      s2 = s.s1;
      s3 = s.s2;
      s4 = u32 (s.s3 + t1);
      s5 = s.s4;
      s6 = s.s5;
      s7 = s.s6;
    }

-- `W[0..15]`: the words of the block.
be_words : ℕ → List ℕ → List ℕ
be_words zero block = []
be_words (suc n) block = read_be32 block ∷ be_words n (drop 4 block)

-- `W[16..63]`: word `i` goes behind the `i` words that are there.
expand : ℕ → ℕ → List ℕ → List ℕ
unfolding small_sigma0 small_sigma1
expand zero i ws = ws
expand (suc n) i ws =
    let w = u32 (
      small_sigma1 (get_or ws (i - 2) 0)
      + get_or ws (i - 7) 0
      + small_sigma0 (get_or ws (i - 15) 0)
      + get_or ws (i - 16) 0) in
    expand n (i + 1) (ws ++ (w ∷ []))

-- The 64 rounds, one word and one constant each.
rounds : List ℕ → List ℕ → Sha256State → Sha256State
unfolding round
rounds (w ∷ ws) (k ∷ ks) s = rounds ws ks (round s w k)
rounds [] ks s = s
rounds (w ∷ ws) [] s = s

compress : Sha256State → List ℕ → Sha256State
unfolding rounds expand
compress s words =
    let r = rounds (expand 48 16 words) sha256_k s in
    record {
      s0 = u32 (s.s0 + r.s0);
      s1 = u32 (s.s1 + r.s1);
      s2 = u32 (s.s2 + r.s2);
      s3 = u32 (s.s3 + r.s3);
      s4 = u32 (s.s4 + r.s4);
      s5 = u32 (s.s5 + r.s5);
      s6 = u32 (s.s6 + r.s6);
      s7 = u32 (s.s7 + r.s7);
    }

-- `sha256_transform(state, block)`, which reads 64 bytes at `block`.
pub sha256_transform : Sha256State → List ℕ → Sha256State
unfolding compress be_words
sha256_transform s block = compress s (be_words 16 block)

-- `write_be32(result.data() + i * 4, state[i])` for the eight words.
unfoldable pub state_to_hash : Sha256State → List ℕ
state_to_hash s =
    be_bytes32 s.s0
    ++ (be_bytes32 s.s1
        ++ (be_bytes32 s.s2
            ++ (be_bytes32 s.s3
                ++ (be_bytes32 s.s4 ++ (be_bytes32 s.s5 ++ (be_bytes32 s.s6 ++ be_bytes32 s.s7))))))

-- The same with `write_le32`.
unfoldable pub state_to_bytes : Sha256State → List ℕ
state_to_bytes s =
    le_bytes32 s.s0
    ++ (le_bytes32 s.s1
        ++ (le_bytes32 s.s2
            ++ (le_bytes32 s.s3
                ++ (le_bytes32 s.s4 ++ (le_bytes32 s.s5 ++ (le_bytes32 s.s6 ++ le_bytes32 s.s7))))))

unfoldable pub bytes_to_state : List ℕ → Sha256State
bytes_to_state src = record {
  s0 = read32 src;
  s1 = read32 (drop 4 src);
  s2 = read32 (drop 8 src);
  s3 = read32 (drop 12 src);
  s4 = read32 (drop 16 src);
  s5 = read32 (drop 20 src);
  s6 = read32 (drop 24 src);
  s7 = read32 (drop 28 src);
}

unfoldable pub compute_midstate : List ℕ → Sha256State
compute_midstate data_ = sha256_transform initial_state data_

-- The loop over the full blocks: the state and the pointer behind them.
absorb : ℕ → Sha256State → List ℕ → Sha256State × List ℕ
absorb zero s ptr = (s, ptr)
absorb (suc n) s ptr = absorb n (sha256_transform s ptr) (drop 64 ptr)

-- The message length in bits, as the last eight bytes of a block.
abbrev length_field : ℕ → List ℕ
length_field bit_len = be_bytes32 (bit_len / 2 ^ 32) ++ be_bytes32 (u32 bit_len)

-- `buffer` is what is left, 0x80 and zeros; it takes one more block or two.
finish : ℕ → Sha256State → List ℕ → Sha256State
finish len s ptr =
    let remaining = len % 64 in
    let bit_len = len * 8 % 2 ^ 64 in
    if leb 56 remaining
    then sha256_transform
        (sha256_transform s (take remaining ptr ++ (0x80 ∷ replicate (127 - remaining) 0)))
        (replicate 56 0 ++ length_field bit_len)
    else sha256_transform s
        (take remaining ptr ++ (0x80 ∷ replicate (55 - remaining) 0 ++ length_field bit_len))

pub sha256 : List ℕ → List ℕ
unfolding absorb finish
sha256 message =
    let (s, ptr) = absorb (length message / 64) initial_state message in
    state_to_hash (finish (length message) s ptr)

pub sha256d : List ℕ → List ℕ
sha256d message = sha256 (sha256 message)

-- The second block of the first hash is the tail, the padding and the length of 80 bytes.
pub hash_header_with_midstate : Sha256State → List ℕ → List ℕ
hash_header_with_midstate midstate header_tail = sha256 (
    state_to_hash (
      sha256_transform midstate
        (take 16 header_tail ++ (0x80 ∷ replicate 45 0 ++ (0x02 ∷ 0x80 ∷ [])))))

-- `for (int i = 31; i >= 0; --i)`
check_down : ℕ → List ℕ → List ℕ → Bool
check_down zero hash target = true
check_down (suc i) hash target =
    let rest = check_down i hash target in
    if ltb (get_or hash i 0) (get_or target i 0)
    then true
    else if ltb (get_or target i 0) (get_or hash i 0)
    then false
    else rest

unfoldable pub check_hash_target : List ℕ → List ℕ → Bool
unfolding check_down
check_hash_target hash target = check_down 32 hash target
