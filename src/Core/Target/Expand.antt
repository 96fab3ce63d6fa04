-- ===== src/Core/Target/Expand.antt =====
-- What `bits_to_target` yields, as a number.
use avalon_miner.Prelude.{
  ℕ, suc, ◌+◌, ◌-◌, ◌*◌, ◌/◌, ◌%◌, ◌^◌, ◌≤◌, ◌<◌, ◌≡◌, refl, ap, ◌∙◌, arith, bit_and, leb, ltb,
  ◌==◌, not, length, get_or, set, length-set, get_or-set_ne, get_or-replicate, All-set,
  All-replicate, if◌then◌else◌, ◌⊎◌, inl, inr, if_both,
}
use avalon_miner.Prelude.Bits.{bit_and_mask, bit_and_shifted, bit_and-one}
use avalon_miner.Prelude.Bytes.{IsByte, byte}
use avalon_miner.Core.Uint256.{Hash256, IsHash256, zero_hash}
use avalon_miner.Core.Uint256.Value.{value, value-set, value-replicate_zero}
use avalon_miner.Core.Target.{write_mantissa, bits_to_target}
use native.Mathlib.Nat.{pow-suc, div-le_self}

-- The low 23 bits, the sign bit and the exponent, as arithmetic.
pub mantissa_mod : (bits : ℕ) → bit_and bits 0x007fffff ≡ bits % 2 ^ 23
mantissa_mod bits = bit_and_mask 23 bits

pub sign_bit : (bits : ℕ) → bit_and bits 0x00800000 ≡ bits / 2 ^ 23 % 2 * 2 ^ 23
sign_bit bits = bit_and_shifted 23 bits 1 ∙ ap (λ (t : ℕ). t * 2 ^ 23) (bit_and-one (bits / 2 ^ 23))

pub split_mantissa : (m : ℕ) → m < 2 ^ 24 → byte 0 m + byte 8 m * 256 + byte 16 m * 65536 ≡ m
split_mantissa m h = omega arith

pub next_power : (k : ℕ) → 256 ^ (k + 1) ≡ 256 * 256 ^ k
next_power k = let e : k + 1 ≡ suc k = omega arith in rw e (omega (arith, pow-suc 256 k))

pub second_power : (k : ℕ) → 256 ^ (k + 2) ≡ 65536 * 256 ^ k
second_power k =
    let e : k + 2 ≡ suc (suc k) = omega arith in
    rw e (omega (arith, pow-suc 256 k, pow-suc 256 (suc k)))

-- Three bytes written over zeros add the mantissa at their place.
pub value-write_mantissa :
    (t : Hash256) (i m : ℕ)
    → m < 2 ^ 24
    → i + 2 < length t
    → get_or t i 0 ≡ 0
    → get_or t (i + 1) 0 ≡ 0
    → get_or t (i + 2) 0 ≡ 0
    → value (write_mantissa t i m) ≡ value t + m * 256 ^ i
value-write_mantissa t i m hm h z₀ z₁ z₂ =
    let t₁ : Hash256 = set t i (byte 0 m) in
    let t₂ : Hash256 = set t₁ (i + 1) (byte 8 m) in
    let l₁ : length t₁ ≡ length t = length-set t i (byte 0 m) in
    let l₂ : length t₂ ≡ length t₁ = length-set t₁ (i + 1) (byte 8 m) in
    let g₁ : get_or t₁ (i + 1) 0 ≡ 0 = get_or-set_ne t i (i + 1) (byte 0 m) 0 (omega arith) ∙ z₁ in
    let g₂ : get_or t₂ (i + 2) 0 ≡ 0 =
      get_or-set_ne t₁ (i + 1) (i + 2) (byte 8 m) 0 (omega arith)
      ∙ get_or-set_ne t i (i + 2) (byte 0 m) 0 (omega arith)
      ∙ z₂ in
    omega (
      arith,
      value-set t i (byte 0 m) (omega arith),
      value-set t₁ (i + 1) (byte 8 m) (omega arith),
      value-set t₂ (i + 2) (byte 16 m) (omega arith),
      ap (λ (k : ℕ). k * 256 ^ i) z₀,
      ap (λ (k : ℕ). k * 256 ^ (i + 1)) g₁,
      ap (λ (k : ℕ). k * 256 ^ (i + 2)) g₂,
      ap (λ (k : ℕ). byte 8 m * k) (next_power i),
      ap (λ (k : ℕ). byte 16 m * k) (second_power i),
      ap (λ (k : ℕ). k * 256 ^ i) (split_mantissa m hm),
    )

value-zero_write :
    (i m : ℕ) → m < 2 ^ 24 → i + 2 < 32 → value (write_mantissa zero_hash i m) ≡ m * 256 ^ i
value-zero_write i m hm h =
    value-write_mantissa zero_hash i m hm h (get_or-replicate 32 i 0)
      (get_or-replicate 32 (i + 1) 0) (get_or-replicate 32 (i + 2) 0)
    ∙ omega (arith, value-replicate_zero 32)

-- A large exponent that still fits puts the mantissa `exponent - 3` bytes up.
pub bits_to_target-value_large :
    (bits : ℕ)
    → bits / 2 ^ 23 % 2 ≡ 0
    → 3 < bits / 2 ^ 24
    → bits / 2 ^ 24 < 32
    → value (bits_to_target bits) ≡ bits % 2 ^ 23 * 256 ^ (bits / 2 ^ 24 - 3)
unfolding bits_to_target
bits_to_target-value_large bits hs lo hi =
    ground (
      arith,
      sign_bit bits,
      mantissa_mod bits,
      value-zero_write (bits / 2 ^ 24 - 3) (bits % 2 ^ 23),
    )

-- An exponent up to 3 shifts the mantissa down instead.
pub bits_to_target-value_small :
    (bits : ℕ)
    → bits / 2 ^ 23 % 2 ≡ 0
    → bits / 2 ^ 24 ≤ 3
    → value (bits_to_target bits) ≡ bits % 2 ^ 23 / 2 ^ (8 * (3 - bits / 2 ^ 24))
unfolding bits_to_target
bits_to_target-value_small bits hs hi =
    let m : ℕ = bits % 2 ^ 23 / 2 ^ (8 * (3 - bits / 2 ^ 24)) in
    ground (
      arith,
      sign_bit bits,
      mantissa_mod bits,
      value-zero_write 0 m
          (omega (arith, div-le_self (bits % 2 ^ 23) (2 ^ (8 * (3 - bits / 2 ^ 24))))),
    )

-- The sign bit and an exponent from 32 on give the zero target.
pub bits_to_target-value_zero :
    (bits : ℕ) → (bits / 2 ^ 23 % 2 ≡ 1) ⊎ (32 ≤ bits / 2 ^ 24) → value (bits_to_target bits) ≡ 0
unfolding bits_to_target
bits_to_target-value_zero bits (inl h) = ground (arith, sign_bit bits, value-replicate_zero 32)
bits_to_target-value_zero bits (inr h) = ground (arith, sign_bit bits, value-replicate_zero 32)

-- The number that a compact target stands for: mantissa * 256 ^ (exponent - 3), rounded down, and 0
-- for a negative one.
abbrev pub compact_value : ℕ → ℕ
compact_value bits =
    let e = bits / 2 ^ 24 in
    let m = bits % 2 ^ 23 in
    if not (bits / 2 ^ 23 % 2 == 0)
    then 0
    else if leb e 3
    then m / 2 ^ (8 * (3 - e))
    else m * 256 ^ (e - 3)

-- What this decoder makes of it: it drops the mantissa from the exponent 32 on.
abbrev pub expanded : ℕ → ℕ
expanded bits =
    let e = bits / 2 ^ 24 in
    let m = bits % 2 ^ 23 in
    if not (bits / 2 ^ 23 % 2 == 0)
    then 0
    else if leb e 3
    then m / 2 ^ (8 * (3 - e))
    else if ltb e 32
    then m * 256 ^ (e - 3)
    else 0

-- For all bits the bytes of `bits_to_target` stand for: zero under a set sign bit or an exponent
-- of 32 or more, and otherwise mantissa * 256 ^ (exponent - 3), rounded down.
pub bits_to_target-expanded : (bits : ℕ) → value (bits_to_target bits) ≡ expanded bits
bits_to_target-expanded bits = ground (
  arith,
  bits_to_target-value_large bits,
  bits_to_target-value_small bits,
  bits_to_target-value_zero bits,
)

pub expanded-compact_value : (bits : ℕ) → bits / 2 ^ 24 < 32 → expanded bits ≡ compact_value bits
expanded-compact_value bits h = ground arith

pub expanded-dropped : (bits : ℕ) → 32 ≤ bits / 2 ^ 24 → expanded bits ≡ 0
expanded-dropped bits h = ground arith

pub zero_hash-IsHash256 : IsHash256 zero_hash
zero_hash-IsHash256 = record { full = refl; bytes = All-replicate IsByte 32 0 (omega arith) }

pub write_mantissa-IsHash256 :
    (t : Hash256) (i m : ℕ) → IsHash256 t → IsHash256 (write_mantissa t i m)
write_mantissa-IsHash256 t i m h = record {
  full =
      length-set (set (set t i (byte 0 m)) (i + 1) (byte 8 m)) (i + 2) (byte 16 m)
      ∙ length-set (set t i (byte 0 m)) (i + 1) (byte 8 m)
      ∙ length-set t i (byte 0 m)
      ∙ h.full;
  bytes =
      All-set IsByte _ (i + 2) (byte 16 m)
        (All-set IsByte _ (i + 1) (byte 8 m) (All-set IsByte t i (byte 0 m) h.bytes (omega arith))
          (omega arith))
        (omega arith);
}

-- Every compact target expands to an array of 32 bytes.
pub bits_to_target-IsHash256 : (bits : ℕ) → IsHash256 (bits_to_target bits)
unfolding bits_to_target
bits_to_target-IsHash256 bits =
    let m : ℕ = bit_and bits 0x007fffff in
    let e : ℕ = bits / 2 ^ 24 in
    let low = write_mantissa-IsHash256 zero_hash 0 (m / 2 ^ (8 * (3 - e))) zero_hash-IsHash256 in
    let high = write_mantissa-IsHash256 zero_hash (e - 3) m zero_hash-IsHash256 in
    if_both IsHash256 (not (bit_and bits 0x00800000 == 0)) _ _ zero_hash-IsHash256 (
      if_both IsHash256 (leb e 3) _ _ low
        (if_both IsHash256 (ltb (e - 3) 29) _ _ high zero_hash-IsHash256))
