-- ===== src/Core/Target/Compact.antt =====
-- What `target_to_bits` yields: the target's leading bytes, rounded down.
use avalon_miner.Prelude.{
  ℕ, zero, suc, ◌+◌, ◌-◌, ◌*◌, ◌/◌, ◌^◌, ◌≤◌, ◌<◌, ◌≡◌, ◌≢◌, refl, ◌∙◌, arith, leb, ltb, get_or,
  Bool-cases, inl, inr, ltb→lt, leb→le, le→leb, get_or_beyond,
}
use avalon_miner.Prelude.Bits.{bit_or_fields}
use avalon_miner.Core.Uint256.{Hash256, IsHash256}
use avalon_miner.Core.Uint256.Value.{value}
use avalon_miner.Core.Target.{bits_to_target, top_byte, leading, normalise, target_to_bits}
use avalon_miner.Core.Target.Expand.{bits_to_target-expanded, bits_to_target-value_zero}
use avalon_miner.Core.Target.Window.{
  top_byte_above, top_byte-le, value-three, value-window, join_mantissa, normalise_low,
  normalise_high, RoundsDown, exact_at, get_or-IsByte, normalise_window,
}

module _ (t : Hash256) (h : IsHash256 t) where
  pub zeros_above : (j : ℕ) → top_byte 31 t < j → get_or t j 0 ≡ 0
  zeros_above j above = elim (Bool-cases (leb j 31)) [
    | inl inside ↦ top_byte_above 31 j t above (leb→le j 31 inside)
    | inr outside ↦ get_or_beyond t j 0 (ground (arith, h.full))
  ]

  -- The window that ends at byte `i`.
  leading_window :
      (k : ℕ)
      → leading t (k + 2)
        ≡ (get_or t k 0 + get_or t (k + 1) 0 * 256 + get_or t (k + 2) 0 * 65536, k + 3)
  unfolding leading
  leading_window k =
      let e₁ : k + 2 - 1 ≡ k + 1 = omega arith in
      let e₂ : k + 2 - 2 ≡ k = omega arith in
      let j =
        join_mantissa (get_or t (k + 2) 0) (get_or t (k + 1) 0) (get_or t k 0)
          (get_or-IsByte t (k + 1) h.bytes) (get_or-IsByte t k h.bytes) in
      rw (le→leb 2 (k + 2) (omega arith), e₁, e₂, j) (ground arith)

  window_rounds :
      (k : ℕ)
      → top_byte 31 t ≡ k + 2
      → normalise (leading t (k + 2)) / 2 ^ 24 < 32
      → RoundsDown (normalise (leading t (k + 2))) (value t)
  window_rounds k e =
      let (r, hr, hv) = value-window k t h.bytes (λ j hj. zeros_above j (omega arith)) in
      rw (leading_window k) (
        normalise_window (get_or t k 0 + get_or t (k + 1) 0 * 256 + get_or t (k + 2) 0 * 65536) k r
          (value t)
          (omega (
            arith,
            get_or-IsByte t k h.bytes,
            get_or-IsByte t (k + 1) h.bytes,
            get_or-IsByte t (k + 2) h.bytes,
          ))
          hr hv)

  one_rounds : top_byte 31 t ≡ 1 → RoundsDown (normalise (leading t 1)) (value t)
  unfolding leading
  one_rounds e =
      let m : ℕ = get_or t 1 0 * 65536 + get_or t 0 0 * 256 in
      let v = value-three t (λ j hj. zeros_above j (omega arith)) in
      let z = zeros_above 2 (omega arith) in
      let b₀ = get_or-IsByte t 0 h.bytes in
      let b₁ = get_or-IsByte t 1 h.bytes in
      rw (bit_or_fields 16 (get_or t 1 0) (get_or t 0 0 * 2 ^ 8) (omega arith))
        (elim (Bool-cases (ltb m (2 ^ 23))) [
          | inl low ↦
              exact_at (normalise (m, 2)) 2 m (value t) (normalise_low m 2 (ltb→lt m (2 ^ 23) low))
                (omega arith) (omega arith)
          | inr high ↦
              exact_at (normalise (m, 2)) 3 (m / 256) (value t)
                (normalise_high m 2 (ground arith) (omega arith)) (omega arith) (omega arith)
        ])

  zero_rounds : top_byte 31 t ≡ 0 → RoundsDown (normalise (leading t 0)) (value t)
  unfolding leading
  zero_rounds e =
      let m : ℕ = get_or t 0 0 * 65536 in
      let v = value-three t (λ j hj. zeros_above j (omega arith)) in
      let z₁ = zeros_above 1 (omega arith) in
      let z₂ = zeros_above 2 (omega arith) in
      let b₀ = get_or-IsByte t 0 h.bytes in
      elim (Bool-cases (ltb m (2 ^ 23))) [
        | inl low ↦
            exact_at (normalise (m, 1)) 1 m (value t) (normalise_low m 1 (ltb→lt m (2 ^ 23) low))
              (omega arith) (omega arith)
        | inr high ↦
            exact_at (normalise (m, 1)) 2 (m / 256) (value t)
              (normalise_high m 1 (ground arith) (omega arith)) (omega arith) (omega arith)
      ]

  leading_rounds :
      (i : ℕ)
      → top_byte 31 t ≡ i
      → normalise (leading t i) / 2 ^ 24 < 32
      → RoundsDown (normalise (leading t i)) (value t)
  leading_rounds zero e fits = zero_rounds e
  leading_rounds (suc zero) e fits = one_rounds e
  leading_rounds (suc (suc k)) e fits =
      let s : suc (suc k) ≡ k + 2 = omega arith in rw s (window_rounds k (e ∙ s) (rw s at fits))

  -- For a target of 32 bytes whose compact form keeps an exponent below 32, expanding that form
  -- gives the target rounded down to its leading bytes: at most the target, and less than one
  -- unit of the last kept byte below it.
  pub bits_to_target-target_to_bits :
      target_to_bits t / 2 ^ 24 < 32
      → (value (bits_to_target (target_to_bits t)) ≤ value t)
        × (value t
            < value (bits_to_target (target_to_bits t)) + 256 ^ (target_to_bits t / 2 ^ 24 - 3))
  unfolding target_to_bits
  bits_to_target-target_to_bits fits =
      rw (bits_to_target-expanded (normalise (leading t (top_byte 31 t))))
        (leading_rounds (top_byte 31 t) refl fits)

top_byte_nonzero : (i : ℕ) (t : Hash256) → get_or t (suc i) 0 ≢ 0 → top_byte (suc i) t ≡ suc i
unfolding top_byte
top_byte_nonzero i t nz = ground arith

exponent_wide : (m : ℕ) → m < 2 ^ 24 → 32 ≤ normalise (m, 32) / 2 ^ 24
exponent_wide m hm = elim (Bool-cases (ltb m (2 ^ 23))) [
  | inl low ↦ omega (arith, (normalise_low m 32 (ltb→lt m (2 ^ 23) low)).0)
  | inr high ↦ omega (arith, (normalise_high m 32 (ground arith) hm).0)
]

pub target_to_bits_lem : (t : Hash256) → target_to_bits t ≡ normalise (leading t (top_byte 31 t))
unfolding target_to_bits
target_to_bits_lem t = refl

-- Every target of 32 bytes whose highest byte is not zero is lost: it is at least 256 ^ 31, and
-- its compact form expands to zero.
pub bits_to_target_loses_top :
    (t : Hash256)
    → IsHash256 t
    → get_or t 31 0 ≢ 0
    → (256 ^ 31 ≤ value t) × (value (bits_to_target (target_to_bits t)) ≡ 0)
bits_to_target_loses_top t h nz =
    let b₂₉ = get_or-IsByte t 29 h.bytes in
    let b₃₀ = get_or-IsByte t 30 h.bytes in
    let b₃₁ = get_or-IsByte t 31 h.bytes in
    let (r, hr, hv) =
      value-window 29 t h.bytes (λ j hj. zeros_above t h j (omega (arith, top_byte-le 31 t))) in
    (
      omega (arith, hv),
      rw (target_to_bits_lem t, top_byte_nonzero 30 t nz, leading_window t h 29)
          (bits_to_target-value_zero _ (inr (exponent_wide _ (omega arith)))),
    )
