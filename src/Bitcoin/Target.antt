-- ===== src/Bitcoin/Target.antt =====
-- src/bitcoin/target.cpp: compact targets once more, and the tests of a hash against them.
-- (The difficulty functions work on floating-point numbers and are not modelled.)
pub mod Shift
pub mod Agreement
use avalon_miner.Prelude.{
  ℕ, zero, suc, ◌+◌, ◌-◌, ◌*◌, ◌/◌, ◌^◌, Bool, true, false, Option, none, some, List, bit_and,
  bit_or, ltb, leb, ◌==◌, ◌&&◌, if◌then◌else◌, get_or, set, not,
}
use avalon_miner.Core.Uint256.{Hash256, zero_hash}

-- A byte of the mantissa, `(mantissa >> k) & 0xFF`.
abbrev pub mantissa_byte : ℕ → ℕ → ℕ
mantissa_byte k m = bit_and (m / 2 ^ k) 0xff

abbrev pub set_if : Bool → Hash256 → ℕ → ℕ → Hash256
set_if guard t i v = if guard then set t i v else t

-- The branch `exponent <= 3`.
unfoldable pub write_small : ℕ → Hash256
write_small m =
    set (set (set zero_hash 0 (mantissa_byte 0 m)) 1 (mantissa_byte 8 m)) 2 (mantissa_byte 16 m)

-- The other branch: the highest byte at `pos`, each write behind its guard.
unfoldable pub write_large : ℕ → ℕ → Hash256
write_large mantissa pos =
    let high = set_if (ltb pos 32) zero_hash pos (mantissa_byte 16 mantissa) in
    let middle = set_if (ltb 0 pos && ltb (pos - 1) 32) high (pos - 1) (mantissa_byte 8 mantissa) in
    set_if (ltb 1 pos && ltb (pos - 2) 32) middle (pos - 2) (mantissa_byte 0 mantissa)

unfoldable pub bits_to_target : ℕ → Hash256
bits_to_target bits =
    let exponent = bit_and (bits / 2 ^ 24) 0xff in
    let mantissa = bit_and bits 0x00ffffff in
    if not (bit_and mantissa 0x00800000 == 0)
    then zero_hash
    else if leb exponent 3
    then write_small (mantissa / 2 ^ (8 * (3 - exponent)))
    else write_large mantissa (exponent - 3)

-- `int first_nonzero = 31; while (first_nonzero >= 0 && …)`; `none` is -1. Byte `i` is the `i + 1`st.
unfoldable pub first_nonzero : ℕ → Hash256 → Option ℕ
first_nonzero zero t = none
first_nonzero (suc i) t = let rest = first_nonzero i t in if get_or t i 0 == 0 then rest else some i

unfoldable pub leading_mantissa : Hash256 → ℕ → ℕ
leading_mantissa t i =
    let high = get_or t i 0 * 2 ^ 16 in
    let middle = if ltb 0 i then bit_or high (get_or t (i - 1) 0 * 2 ^ 8) else high in
    if ltb 1 i then bit_or middle (get_or t (i - 2) 0) else middle

unfoldable pub pack_bits : ℕ → ℕ → ℕ
pack_bits mantissa exponent =
    if bit_and mantissa 0x00800000 == 0
    then bit_or (exponent * 2 ^ 24) mantissa
    else bit_or ((exponent + 1) * 2 ^ 24) (mantissa / 2 ^ 8)

unfoldable pub target_to_bits : Hash256 → ℕ
unfolding first_nonzero leading_mantissa pack_bits
target_to_bits t = elim (first_nonzero 32 t) [
  | none ↦ 0
  | some i ↦ pack_bits (leading_mantissa t i) (i + 1)
]

-- `for (int i = 31; i >= 0; --i)`
unfoldable pub meets_down : ℕ → Hash256 → Hash256 → Bool
meets_down zero hash target = true
meets_down (suc i) hash target =
    let rest = meets_down i hash target in
    if ltb (get_or hash i 0) (get_or target i 0)
    then true
    else if ltb (get_or target i 0) (get_or hash i 0)
    then false
    else rest

unfoldable pub meets_target : Hash256 → Hash256 → Bool
unfolding meets_down
meets_target hash target = meets_down 32 hash target

unfoldable pub meets_bits : Hash256 → ℕ → Bool
unfolding meets_target bits_to_target
meets_bits hash bits = meets_target hash (bits_to_target bits)
