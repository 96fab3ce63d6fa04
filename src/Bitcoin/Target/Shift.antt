-- ===== src/Bitcoin/Target/Shift.antt =====
-- `bits_to_target` of this module writes the mantissa two bytes lower than the format says.
use avalon_miner.Prelude.{
  ℕ, ◌+◌, ◌-◌, ◌*◌, ◌/◌, ◌%◌, ◌^◌, ◌≤◌, ◌<◌, ◌≡◌, ap, ◌∙◌, arith, lt→ltb, length, get_or, set,
  length-set, get_or-set_ne, get_or-replicate,
}
use avalon_miner.Prelude.Bits.{bit_and_mask}
use avalon_miner.Prelude.Bytes.{byte, IsU32}
use avalon_miner.Core.Uint256.{Hash256, zero_hash}
use avalon_miner.Core.Uint256.Value.{value, value-set, value-replicate_zero}
use avalon_miner.Core.Target
use avalon_miner.Core.Target.Expand.{
  sign_bit, split_mantissa, next_power, second_power, bits_to_target-value_large,
}
use avalon_miner.Bitcoin.Target.{mantissa_byte, write_large, bits_to_target}

pub mantissa_byte-byte : (k m : ℕ) → mantissa_byte k m ≡ byte k m
mantissa_byte-byte k m = bit_and_mask 8 (m / 2 ^ k)

-- Three bytes written from the top down over zeros.
value-write_down :
    (t : Hash256) (i m : ℕ)
    → m < 2 ^ 24
    → i + 2 < length t
    → get_or t i 0 ≡ 0
    → get_or t (i + 1) 0 ≡ 0
    → get_or t (i + 2) 0 ≡ 0
    → value (set (set (set t (i + 2) (byte 16 m)) (i + 1) (byte 8 m)) i (byte 0 m))
      ≡ value t + m * 256 ^ i
value-write_down t i m hm h z₀ z₁ z₂ =
    let t₁ : Hash256 = set t (i + 2) (byte 16 m) in
    let t₂ : Hash256 = set t₁ (i + 1) (byte 8 m) in
    let l₁ : length t₁ ≡ length t = length-set t (i + 2) (byte 16 m) in
    let l₂ : length t₂ ≡ length t₁ = length-set t₁ (i + 1) (byte 8 m) in
    let g₁ : get_or t₁ (i + 1) 0 ≡ 0 =
      get_or-set_ne t (i + 2) (i + 1) (byte 16 m) 0 (omega arith) ∙ z₁ in
    let g₂ : get_or t₂ i 0 ≡ 0 =
      get_or-set_ne t₁ (i + 1) i (byte 8 m) 0 (omega arith)
      ∙ get_or-set_ne t (i + 2) i (byte 16 m) 0 (omega arith)
      ∙ z₀ in
    omega (
      arith,
      value-set t (i + 2) (byte 16 m) (omega arith),
      value-set t₁ (i + 1) (byte 8 m) (omega arith),
      value-set t₂ i (byte 0 m) (omega arith),
      ap (λ (k : ℕ). k * 256 ^ (i + 2)) z₂,
      ap (λ (k : ℕ). k * 256 ^ (i + 1)) g₁,
      ap (λ (k : ℕ). k * 256 ^ i) g₂,
      ap (λ (k : ℕ). byte 8 m * k) (next_power i),
      ap (λ (k : ℕ). byte 16 m * k) (second_power i),
      ap (λ (k : ℕ). k * 256 ^ i) (split_mantissa m hm),
    )

value-zero_write_down :
    (i m : ℕ)
    → m < 2 ^ 24
    → i < 30
    → value (set (set (set zero_hash (i + 2) (byte 16 m)) (i + 1) (byte 8 m)) i (byte 0 m))
      ≡ m * 256 ^ i
value-zero_write_down i m hm h =
    value-write_down zero_hash i m hm (omega arith) (get_or-replicate 32 i 0)
      (get_or-replicate 32 (i + 1) 0) (get_or-replicate 32 (i + 2) 0)
    ∙ omega (arith, value-replicate_zero 32)

write_large-value : (m i : ℕ) → m < 2 ^ 24 → i < 30 → value (write_large m (i + 2)) ≡ m * 256 ^ i
unfolding write_large
write_large-value m i hm h =
    let e₁ : i + 2 - 1 ≡ i + 1 = omega arith in
    let e₂ : i + 2 - 2 ≡ i = omega arith in
    rw
      (
        e₁,
        e₂,
        lt→ltb (i + 2) 32 (omega arith),
        lt→ltb 0 (i + 2) (omega arith),
        lt→ltb (i + 1) 32 (omega arith),
        lt→ltb 1 (i + 2) (omega arith),
        lt→ltb i 32 (omega arith),
        mantissa_byte-byte 16 m,
        mantissa_byte-byte 8 m,
        mantissa_byte-byte 0 m,
      )
      (value-zero_write_down i m hm h)

-- The case that this decoder writes by `write_large`.
large_case :
    (bits : ℕ)
    → IsU32 bits
    → bits / 2 ^ 23 % 2 ≡ 0
    → 5 ≤ bits / 2 ^ 24
    → bits_to_target bits ≡ write_large (bits % 2 ^ 23) (bits / 2 ^ 24 - 5 + 2)
unfolding bits_to_target
large_case bits hb hs lo =
    let m : bits % 2 ^ 24 ≡ bits % 2 ^ 23 = omega arith in
    let e : bits / 2 ^ 24 % 2 ^ 8 ≡ bits / 2 ^ 24 = omega arith in
    let z : bits % 2 ^ 23 / 2 ^ 23 % 2 * 2 ^ 23 ≡ 0 = omega arith in
    let p : bits / 2 ^ 24 - 3 ≡ bits / 2 ^ 24 - 5 + 2 = omega arith in
    rw (bit_and_mask 24 bits, m, bit_and_mask 8 (bits / 2 ^ 24), e, sign_bit (bits % 2 ^ 23), z, p)
      (ground arith)

-- For bits without the sign and with an exponent from 5 to 34, the target written is
-- mantissa * 256 ^ (exponent - 5).
pub bits_to_target-value :
    (bits : ℕ)
    → IsU32 bits
    → bits / 2 ^ 23 % 2 ≡ 0
    → 5 ≤ bits / 2 ^ 24
    → bits / 2 ^ 24 < 35
    → value (bits_to_target bits) ≡ bits % 2 ^ 23 * 256 ^ (bits / 2 ^ 24 - 5)
bits_to_target-value bits hb hs lo hi =
    rw (large_case bits hb hs lo)
      (write_large-value (bits % 2 ^ 23) (bits / 2 ^ 24 - 5) (omega arith) (omega arith))

-- The decoder of the Bitcoin side and that of the core disagree: for 32-bit bits without the sign and
-- with an exponent from 5 to 31, that of the core yields 65536 times the target of the other.
pub core_is_larger :
    (bits : ℕ)
    → IsU32 bits
    → bits / 2 ^ 23 % 2 ≡ 0
    → 5 ≤ bits / 2 ^ 24
    → bits / 2 ^ 24 < 32
    → value (Target.bits_to_target bits) ≡ 65536 * value (bits_to_target bits)
core_is_larger bits hb hs lo hi =
    let k : ℕ = bits / 2 ^ 24 - 5 in
    let e : bits / 2 ^ 24 - 3 ≡ k + 2 = omega arith in
    bits_to_target-value_large bits hs (omega arith) hi
    ∙ rw (e, bits_to_target-value bits hb hs lo (omega arith))
        (omega (arith, ap (λ (t : ℕ). bits % 2 ^ 23 * t) (second_power k)))
