-- ===== src/Bitcoin/Target/Agreement.antt =====
-- Where this module agrees with the core: the order of hashes, and the compact form of a target.
use avalon_miner.Prelude.{
  ℕ, zero, suc, ◌+◌, ◌≡◌, ◌≢◌, refl, ◌⊎◌, inl, inr, Bool, true, false, none, some, List, [], ◌∷◌,
  arith, ◌==◌, get_or, Bool-cases,
}
use avalon_miner.Core.Uint256.{Hash256, IsHash256, le256}
use avalon_miner.Core.Target
use avalon_miner.Core.Target.{top_byte, leading, normalise}
use avalon_miner.Core.Target.Compact.{target_to_bits_lem, zeros_above}
use avalon_miner.Core.Target.Window.{value-zeros}
use avalon_miner.Core.Uint256.Value.{value}
use avalon_miner.Bitcoin.Target.{
  first_nonzero, leading_mantissa, pack_bits, target_to_bits, meets_down, meets_target,
}
use Prim.Native.Nat.{Ordering}
use avalon_miner.Core.Uint256.{compare_down}

abbrev at_most : Ordering → Bool
at_most o = elim o [ Ordering.lt ↦ true | Ordering.eq ↦ true | Ordering.gt ↦ false ]

meets_down-compare_down :
    (n : ℕ) (hash target : Hash256)
    → meets_down n hash target ≡ at_most (compare_down n hash target)
unfolding meets_down compare_down
meets_down-compare_down zero hash target = refl
meets_down-compare_down (suc n) hash target = ground (arith, meets_down-compare_down n hash target)

-- On any two arrays the test of a hash against a target is `<=` of uint256.
pub meets_target-le256 : (hash target : Hash256) → meets_target hash target ≡ le256 hash target
unfolding meets_target le256
meets_target-le256 hash target = meets_down-compare_down 32 hash target

-- The two searches for the leading byte differ at the zero target only.
first_nonzero-top_byte :
    (i : ℕ) (t : Hash256)
    → ((first_nonzero (suc i) t ≡ some (top_byte i t)) × (get_or t (top_byte i t) 0 ≢ 0))
      ⊎ ((first_nonzero (suc i) t ≡ none) × (top_byte i t ≡ 0) × (get_or t 0 0 ≡ 0))
unfolding first_nonzero top_byte
first_nonzero-top_byte zero t = elim (Bool-cases (get_or t 0 0 == 0)) [
  | inl e ↦ inr (ground arith, refl, ground arith)
  | inr e ↦ inl (ground arith, ground arith)
]
first_nonzero-top_byte (suc i) t = elim (Bool-cases (get_or t (suc i) 0 == 0)) [
  | inl e ↦ rw e (first_nonzero-top_byte i t)
  | inr e ↦ rw e (inl (refl, ground arith))
]

target_to_bits-some :
    (t : Hash256) (i : ℕ)
    → first_nonzero 32 t ≡ some i
    → target_to_bits t ≡ pack_bits (leading_mantissa t i) (i + 1)
unfolding target_to_bits
target_to_bits-some t i e = rw (e, target_to_bits)

target_to_bits-none : (t : Hash256) → first_nonzero 32 t ≡ none → target_to_bits t ≡ 0
unfolding target_to_bits
target_to_bits-none t e = rw (e, target_to_bits)

pack_leading :
    (t : Hash256) (i : ℕ) → pack_bits (leading_mantissa t i) (i + 1) ≡ normalise (leading t i)
unfolding pack_bits leading_mantissa normalise leading
pack_leading t zero = ground arith
pack_leading t (suc zero) = ground arith
pack_leading t (suc (suc i)) = ground arith

get_or_zero : (bs : List ℕ) (i : ℕ) → value bs ≡ 0 → get_or bs i 0 ≡ 0
get_or_zero [] i e = refl
get_or_zero (b ∷ bs) zero e = omega arith
get_or_zero (b ∷ bs) (suc i) e = get_or_zero bs i (omega arith)

-- A target of 32 bytes that is not zero has the same compact form here and in the core; the zero
-- target has the form 0 here and 0x01000000 there.
pub target_to_bits-cases :
    (t : Hash256)
    → IsHash256 t
    → ((value t ≢ 0) × (target_to_bits t ≡ Target.target_to_bits t))
      ⊎ ((value t ≡ 0) × (target_to_bits t ≡ 0) × (Target.target_to_bits t ≡ 0x01000000))
target_to_bits-cases t h = elim (first_nonzero-top_byte 31 t) [
  | inl (found, nz) ↦ inl (
    λ e. nz (get_or_zero t (top_byte 31 t) e),
    rw (target_to_bits-some t _ found, target_to_bits_lem t) (pack_leading t (top_byte 31 t)),
  )
  | inr (missing, e, z) ↦ inr (
    value-zeros t (all_zero e z),
    target_to_bits-none t missing,
    rw (target_to_bits_lem t, e) (zero_form z),
  )
]
  where
    all_zero : top_byte 31 t ≡ 0 → get_or t 0 0 ≡ 0 → (j : ℕ) → get_or t j 0 ≡ 0
    all_zero e z zero = z
    all_zero e z (suc j) = zeros_above t h (suc j) (omega arith)

    zero_form : get_or t 0 0 ≡ 0 → normalise (leading t 0) ≡ 0x01000000
    zero_form z = unfold leading normalise in rw z
