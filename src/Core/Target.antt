-- ===== src/Core/Target.antt =====
-- The compact targets of src/core/primitives/block_header.cpp: `bits_to_target` and `target_to_bits`.
-- (`bits_to_difficulty` works on floating-point numbers and is not modelled.)
pub mod Expand
pub mod Window
pub mod Compact
use avalon_miner.Prelude.{
  ℕ, zero, suc, ◌+◌, ◌-◌, ◌*◌, ◌/◌, ◌^◌, Bool, List, bit_and, bit_or, ltb, leb, ◌==◌, if◌then◌else◌,
  get_or, set, not,
}
use avalon_miner.Prelude.Bytes.{byte}
use avalon_miner.Core.Uint256.{Hash256, zero_hash}

-- Three bytes written at `i`, `i + 1` and `i + 2`.
abbrev pub write_mantissa : Hash256 → ℕ → ℕ → Hash256
write_mantissa t i m = set (set (set t i (byte 0 m)) (i + 1) (byte 8 m)) (i + 2) (byte 16 m)

unfoldable pub bits_to_target : ℕ → Hash256
bits_to_target bits =
    let exponent = bits / 2 ^ 24 in
    let mantissa = bit_and bits 0x007fffff in
    if not (bit_and bits 0x00800000 == 0)
    then zero_hash
    else if leb exponent 3
    then write_mantissa zero_hash 0 (mantissa / 2 ^ (8 * (3 - exponent)))
    else if ltb (exponent - 3) 29
    then write_mantissa zero_hash (exponent - 3) mantissa
    else zero_hash

-- `int i = 31; while (i > 0 && target[i] == 0) --i;`
unfoldable pub top_byte : ℕ → Hash256 → ℕ
top_byte zero t = 0
top_byte (suc i) t = let rest = top_byte i t in if get_or t (suc i) 0 == 0 then rest else suc i

-- The mantissa and exponent before the sign bit is cleared.
unfoldable pub leading : Hash256 → ℕ → ℕ × ℕ
leading t i =
    if leb 2 i
    then (
      bit_or (bit_or (get_or t i 0 * 2 ^ 16) (get_or t (i - 1) 0 * 2 ^ 8)) (get_or t (i - 2) 0),
      i + 1,
    )
    else if i == 1
    then (bit_or (get_or t 1 0 * 2 ^ 16) (get_or t 0 0 * 2 ^ 8), 2)
    else (get_or t 0 0 * 2 ^ 16, 1)

unfoldable pub normalise : ℕ × ℕ → ℕ
normalise (mantissa, exponent) =
    if bit_and mantissa 0x00800000 == 0
    then bit_or (exponent * 2 ^ 24) mantissa
    else bit_or ((exponent + 1) * 2 ^ 24) (mantissa / 2 ^ 8)

unfoldable pub target_to_bits : Hash256 → ℕ
unfolding top_byte leading normalise
target_to_bits t = normalise (leading t (top_byte 31 t))
