-- ===== src/Core/Uint256/Value.antt =====
-- The number that 32 bytes stand for, and how a write changes it.
use avalon_miner.Prelude.{
  ℕ, zero, suc, ◌+◌, ◌*◌, ◌^◌, ◌<◌, ◌≡◌, refl, ap, List, [], ◌∷◌, ◌++◌, arith, All, length, get_or,
  set, replicate,
}
use avalon_miner.Prelude.Bytes.{IsByte}
use native.Mathlib.Nat.{pow-suc}

-- The lowest byte first.
abbrev pub value : List ℕ → ℕ
value [] = 0
value (b ∷ bs) = b + 256 * value bs

pub value-replicate_zero : (n : ℕ) → value (replicate n 0) ≡ 0
value-replicate_zero zero = refl
value-replicate_zero (suc n) = omega (arith, value-replicate_zero n)

-- Writing `v` over byte `i` exchanges that byte's share of the number.
pub value-set :
    (bs : List ℕ) (i v : ℕ)
    → i < length bs
    → value (set bs i v) + get_or bs i 0 * 256 ^ i ≡ value bs + v * 256 ^ i
value-set [] i v h = absurd (omega arith)
value-set (b ∷ bs) zero v h = omega arith
value-set (b ∷ bs) (suc i) v h = omega (
  arith,
  value-set bs i v (omega arith),
  ap (λ (t : ℕ). get_or bs i 0 * t) (pow-suc 256 i),
  ap (λ (t : ℕ). v * t) (pow-suc 256 i),
)

pub value-append : (as' bs : List ℕ) → value (as' ++ bs) ≡ value as' + 256 ^ length as' * value bs
value-append [] bs = omega arith
value-append (a ∷ as') bs =
    omega (arith, value-append as' bs, ap (λ (t : ℕ). t * value bs) (pow-suc 256 (length as')))

pub value-lt : (bs : List ℕ) → All IsByte bs → value bs < 256 ^ length bs
value-lt [] h = omega arith
value-lt (b ∷ bs) h = omega (arith, value-lt bs h.1, pow-suc 256 (length bs))
