-- ===== src/Core/Merkle/PowerOfTwo.antt =====
-- The test `size & (size - 1)`, and the padding loops that end by it.
use avalon_miner.Prelude.{
  ℕ, zero, suc, ◌+◌, ◌-◌, ◌/◌, ◌%◌, ◌^◌, ◌≤◌, ◌<◌, ◌≡◌, ◌≢◌, refl, sym, ◌∙◌, false, List, [], ◌∷◌,
  ◌++◌, arith, bit_and, ltb, ◌==◌, length, length-append, subst, Bool-cases, inl, inr,
}
use avalon_miner.Prelude.Bits.{bit_and_step, bit_and_mask}
use mathlib.Core.List.{append-nil, append_assoc}
use avalon_miner.Core.Uint256.{Hash256}
use avalon_miner.Core.Merkle.{back, needs_padding, pad, padded_size}
use native.Mathlib.Nat.{pow-suc, mod_self}

bit_and_self_fuel : (n a : ℕ) → a ≤ n → bit_and a a ≡ a
bit_and_self_fuel n zero h = refl
bit_and_self_fuel zero (suc a) h = absurd (omega arith)
bit_and_self_fuel (suc n) (suc a) h =
    omega (arith, bit_and_step (suc a) (suc a), bit_and_self_fuel n (suc a / 2) (omega arith))

-- A power of two passes the test.
pow_test : (k : ℕ) → bit_and (2 ^ k) (2 ^ k - 1) ≡ 0
pow_test k = bit_and_mask k (2 ^ k) ∙ mod_self (2 ^ k)

-- Only a power of two passes it.
test_pow_fuel : (n a : ℕ) → a ≤ n → 0 < a → bit_and a (a - 1) ≡ 0 → (k : ℕ) × (a ≡ 2 ^ k)
test_pow_fuel zero a h p e = absurd (omega arith)
test_pow_fuel (suc n) a h p e = elim (Bool-cases (a % 2 == 0)) [
  | inl even ↦
      let half : (a - 1) / 2 ≡ a / 2 - 1 = ground arith in
      let (k, ih) =
        test_pow_fuel n (a / 2) (ground arith) (ground arith)
          (ground (arith, bit_and_step a (a - 1), half)) in
      (suc k, ground (arith, pow-suc 2 k, ih))
  | inr odd ↦
      let half : (a - 1) / 2 ≡ a / 2 = ground arith in
      (0, ground (arith, bit_and_step a (a - 1), half, bit_and_self_fuel (a / 2) (a / 2)))
]

-- A size that needs no padding is a power of two.
pub no_padding→pow : (size : ℕ) → 0 < size → needs_padding size ≡ false → (k : ℕ) × (size ≡ 2 ^ k)
unfolding needs_padding
no_padding→pow size p e = elim (Bool-cases (ltb 1 size)) [
  | inl many ↦ test_pow_fuel size size (omega arith) p (ground arith)
  | inr one ↦ (0, ground arith)
]

pub pow→no_padding : (k : ℕ) → needs_padding (2 ^ k) ≡ false
unfolding needs_padding
pow→no_padding k = ground (arith, pow_test k)

-- Every size has a power of two less than its double above it.
pub pow_above : (n : ℕ) → 0 < n → (k : ℕ) × (n ≤ 2 ^ k) × (2 ^ k < n + n)
pow_above zero p = absurd (omega arith)
pow_above (suc zero) p = (0, omega arith, omega arith)
pow_above (suc (suc n)) p =
    let (k, lo, hi) = pow_above (suc n) (omega arith) in
    elim (Bool-cases (ltb (2 ^ k) (suc (suc n)))) [
      | inl short ↦ (suc k, ground (arith, pow-suc 2 k), ground (arith, pow-suc 2 k))
      | inr enough ↦ (k, ground arith, omega arith)
    ]

-- The counting loop stops at a power of two, when its fuel reaches that far.
pub padded_size-stops :
    (fuel size k : ℕ)
    → size ≤ 2 ^ k
    → 2 ^ k ≤ size + fuel
    → (needs_padding (padded_size fuel size) ≡ false) × (size ≤ padded_size fuel size)
unfolding padded_size
padded_size-stops zero size k lo hi =
    let e : size ≡ 2 ^ k = omega arith in (rw e (pow→no_padding k), omega arith)
padded_size-stops (suc fuel) size k lo hi = elim (Bool-cases (needs_padding size)) [
  | inl more ↦
      let ne : size ≢ 2 ^ k =
        λ e. cc (more, subst (λ n. needs_padding n ≡ false) (sym e) (pow→no_padding k)) in
      let (stops, grows) = padded_size-stops fuel (size + 1) k (omega arith) (omega arith) in
      rw more (stops, omega (arith, grows))
  | inr done ↦ rw done (done, omega arith)
]

length-pad :
    (fuel : ℕ) (leaves : List Hash256) → length (pad fuel leaves) ≡ padded_size fuel (length leaves)
unfolding pad padded_size
length-pad zero leaves = refl
length-pad (suc fuel) leaves =
    let one_more : length (leaves ++ (back leaves ∷ [])) ≡ length leaves + 1 =
      length-append leaves (back leaves ∷ []) in
    ground (arith, one_more, length-pad fuel (leaves ++ (back leaves ∷ [])))

-- Padding keeps the leaves in front.
pub pad-keeps :
    (fuel : ℕ) (leaves : List Hash256)
    → (extra : List Hash256) × (pad fuel leaves ≡ leaves ++ extra)
unfolding pad
pad-keeps zero leaves = ([], sym (append-nil leaves))
pad-keeps (suc fuel) leaves = elim (Bool-cases (needs_padding (length leaves))) [
  | inl more ↦
      let (extra, e) = pad-keeps fuel (leaves ++ (back leaves ∷ [])) in
      ((back leaves ∷ []) ++ extra, rw more (e ∙ append_assoc leaves (back leaves ∷ []) extra))
  | inr done ↦ ([], rw done (sym (append-nil leaves)))
]

-- For a non-empty list of leaves, with as much fuel as leaves, both padding loops end, and at
-- the same power of two, which is at least the number of leaves.
pub padded-pow :
    (leaves : List Hash256)
    → 0 < length leaves
    → (k : ℕ) × (padded_size (length leaves) (length leaves) ≡ 2 ^ k)
      × (length (pad (length leaves) leaves) ≡ 2 ^ k)
      × (length leaves ≤ 2 ^ k)
padded-pow leaves p =
    let n : ℕ = length leaves in
    let (j, lo, hi) = pow_above n p in
    let (stops, grows) = padded_size-stops n n j lo (omega arith) in
    let (k, e) = no_padding→pow (padded_size n n) (omega arith) stops in
    (k, e, length-pad n leaves ∙ e, omega (arith, e, grows))
