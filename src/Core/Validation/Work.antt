-- ===== src/Core/Validation/Work.antt =====
-- The headers that `PowValidator::validate_pow` accepts.
use avalon_miner.Prelude.{
  ℕ, inl, inr, ltb, Bool-cases, ◌<◌, ◌/◌, ◌%◌, ◌^◌, ◌≤◌, ◌≡◌, ◌≢◌, ◌↔◌, ◌⊎◌, true, arith,
}
use avalon_miner.Core.Uint256.{le256}
use avalon_miner.Core.Uint256.Value.{value}
use avalon_miner.Core.Uint256.Order.{le256_iff}
use avalon_miner.Core.Target.{bits_to_target}
use avalon_miner.Core.Target.Expand.{
  bits_to_target-expanded, bits_to_target-IsHash256, expanded, compact_value,
  expanded-compact_value, expanded-dropped, mantissa_mod, sign_bit,
}
use avalon_miner.Core.BlockHeader.{BlockHeader}
use avalon_miner.Core.BlockHeader
use avalon_miner.Core.BlockHeader.ProofOfWork.{check_pow_iff}
use avalon_miner.Core.Validation.{ChainParams, validate_bits, validate_pow}

-- Bits that `validate_bits` lets pass, by what the decoder makes of them.
record Allowed (params : ChainParams) (bits : ℕ) : Type 0 where
  within_limit : expanded bits ≤ expanded params.pow_limit_bits
  not_negative : bits / 2 ^ 23 % 2 ≡ 0
  not_zero : (bits % 2 ^ 23 ≢ 0) ⊎ (bits / 2 ^ 24 ≢ 0)

target_le :
    (a b : ℕ) → (le256 (bits_to_target a) (bits_to_target b) ≡ true) ↔ (expanded a ≤ expanded b)
target_le a b =
    rw (← bits_to_target-expanded a, ← bits_to_target-expanded b)
      (le256_iff (bits_to_target a) (bits_to_target b) (bits_to_target-IsHash256 a)
        (bits_to_target-IsHash256 b))

-- Bits are valid exactly when their target is at most the chain's limit, their sign bit is clear,
-- and mantissa and exponent are not both zero.
validate_bits_iff :
    (params : ChainParams) (bits : ℕ) → (validate_bits params bits ≡ true) ↔ Allowed params bits
unfolding validate_bits
validate_bits_iff params bits =
    let limit = target_le bits params.pow_limit_bits in
    let m = mantissa_mod bits in
    let s = sign_bit bits in
    (
      λ h.
          let l : le256 (bits_to_target bits) (bits_to_target params.pow_limit_bits) ≡ true =
            ground arith in
          record { within_limit = limit.0 l; not_negative = ground arith; not_zero = ground arith },
      λ p.
          let l = limit.1 p.within_limit in
          let n = p.not_negative in let z = p.not_zero in ground arith,
    )

validate_pow-Allowed :
    (params : ChainParams) (h : BlockHeader)
    → (validate_pow params h ≡ true)
      ↔ (Allowed params h.bits × (value (BlockHeader.hash h) ≤ expanded h.bits))
unfolding validate_pow
validate_pow-Allowed params h =
    let b = validate_bits_iff params h.bits in
    let w = check_pow_iff h in
    (
      λ e.
          let e₁ : validate_bits params h.bits ≡ true = ground arith in
          let e₂ : BlockHeader.check_pow h ≡ true = ground arith in (b.0 e₁, w.0 e₂),
      λ p. rw (b.1 p.0) (w.1 p.1),
    )

-- The hash, as a number, is at most what the bits stand for, and this at most what the bits of the
-- limit stand for; or the exponent is 32 or more, and the hash is 0.
abbrev pub HasWork : ChainParams → BlockHeader → Type 0
HasWork params h =
    ((h.bits / 2 ^ 24 < 32)
      × (compact_value h.bits ≤ compact_value params.pow_limit_bits)
      × (value (BlockHeader.hash h) ≤ compact_value h.bits))
    ⊎ ((32 ≤ h.bits / 2 ^ 24) × (value (BlockHeader.hash h) ≡ 0))

-- What a header that passes has: bits that are not negative and are not 0 in mantissa and exponent at
-- once, and work.
pub record Passes (params : ChainParams) (h : BlockHeader) : Type 0 where
  pub not_negative : h.bits / 2 ^ 23 % 2 ≡ 0
  pub some_field : (h.bits % 2 ^ 23 ≢ 0) ⊎ (h.bits / 2 ^ 24 ≢ 0)
  pub work : HasWork params h

module _ (params : ChainParams) (h : BlockHeader)
    (limit : params.pow_limit_bits / 2 ^ 24 < 32) where
  to_work :
      expanded h.bits ≤ expanded params.pow_limit_bits
      → value (BlockHeader.hash h) ≤ expanded h.bits
      → HasWork params h
  to_work within below = elim (Bool-cases (ltb (h.bits / 2 ^ 24) 32)) [
    | inl lo ↦
        let small : h.bits / 2 ^ 24 < 32 = ground arith in
        inl (
          small,
          rw
              (
                ← expanded-compact_value h.bits small,
                ← expanded-compact_value params.pow_limit_bits limit,
              )
              within,
          rw (← expanded-compact_value h.bits small) below,
        )
    | inr hi ↦
        let large : 32 ≤ h.bits / 2 ^ 24 = ground arith in
        let dropped = expanded-dropped h.bits large in inr (large, omega arith)
  ]

  within_limit : HasWork params h → expanded h.bits ≤ expanded params.pow_limit_bits
  within_limit (inl (small, within, below)) =
      rw (expanded-compact_value h.bits small, expanded-compact_value params.pow_limit_bits limit)
        within
  within_limit (inr (large, none_left)) = let dropped = expanded-dropped h.bits large in omega arith

  below_target : HasWork params h → value (BlockHeader.hash h) ≤ expanded h.bits
  below_target (inl (small, within, below)) = rw (expanded-compact_value h.bits small) below
  below_target (inr (large, none_left)) = omega (arith, none_left)

  -- Under a limit whose exponent is below 32 a header passes exactly when its bits are not negative,
  -- their mantissa and exponent are not both 0, and either their exponent is below 32, they stand for
  -- at most the limit and the hash is at most what they stand for, or their exponent is 32 or more,
  -- which the decoder makes 0 of, and the hash is 0.
  pub validate_pow_iff : (validate_pow params h ≡ true) ↔ Passes params h
  validate_pow_iff =
      let iff = validate_pow-Allowed params h in
      (
        λ e.
            let (allowed, below) = iff.0 e in
            record {
              not_negative = allowed.not_negative;
              some_field = allowed.not_zero;
              work = to_work allowed.within_limit below;
            },
        λ p. iff.1 (
          record {
            within_limit = within_limit p.work;
            not_negative = p.not_negative;
            not_zero = p.some_field;
          },
          below_target p.work,
        ),
      )
