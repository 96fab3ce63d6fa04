-- ===== src/Prelude/Xor.antt =====
-- Laws of `^` at variables: a value joined twice falls out, whatever came between.
use Prim.Native.Nat.{ℕ, zero, suc, ◌+◌, ◌*◌, ◌/◌, ◌%◌, ◌^◌, ◌<◌, bit_xor, differ, bit_xor-bitwise}
use mathlib.Core.Path.{◌≡◌, refl, ap, sym, ◌∙◌}
use native.Mathlib.Nat.{pow-suc}
use native.Mathlib.Omega.{arith}
use avalon_miner.Prelude.Bits.{halved}

bit_xor_step : (x y : ℕ) → bit_xor x y ≡ differ (x % 2) (y % 2) + 2 * bit_xor (x / 2) (y / 2)
bit_xor_step zero y = simp bit_xor-bitwise (omega arith)
bit_xor_step (suc x) y = simp bit_xor-bitwise (halved (λ rest. rest) differ x y)

differ_zero : (x : ℕ) → x ≡ differ x 0
differ_zero zero = refl
differ_zero (suc x) = refl

differ_self : (y : ℕ) → differ y y ≡ 0
differ_self zero = refl
differ_self (suc y) = differ_self y

differ_lt : (x y : ℕ) → x < 2 → y < 2 → differ x y < 2
differ_lt zero y h k = k
differ_lt (suc x) zero h k = h
differ_lt (suc x) (suc y) h k = differ_lt x y (omega arith) (omega arith)

differ_swap : (x y z : ℕ) → x < 2 → y < 2 → z < 2 → differ (differ x y) z ≡ differ (differ x z) y
differ_swap zero zero z h k l = differ_zero z
differ_swap zero (suc zero) zero h k l = refl
differ_swap zero (suc zero) (suc zero) h k l = refl
differ_swap (suc zero) zero zero h k l = refl
differ_swap (suc zero) zero (suc zero) h k l = refl
differ_swap (suc zero) (suc zero) zero h k l = refl
differ_swap (suc zero) (suc zero) (suc zero) h k l = refl
differ_swap (suc (suc x)) y z h k l = absurd (omega arith)
differ_swap zero (suc (suc y)) z h k l = absurd (omega arith)
differ_swap (suc zero) (suc (suc y)) z h k l = absurd (omega arith)
differ_swap zero (suc zero) (suc (suc z)) h k l = absurd (omega arith)
differ_swap (suc zero) zero (suc (suc z)) h k l = absurd (omega arith)
differ_swap (suc zero) (suc zero) (suc (suc z)) h k l = absurd (omega arith)

differ_cancel : (x y : ℕ) → x < 2 → y < 2 → differ (differ x y) y ≡ x
differ_cancel zero y h k = rw (differ_self y) refl
differ_cancel (suc zero) zero h k = refl
differ_cancel (suc zero) (suc zero) h k = refl
differ_cancel (suc (suc x)) y h k = absurd (omega arith)
differ_cancel (suc zero) (suc (suc y)) h k = absurd (omega arith)

xor_digit : (x y : ℕ) → bit_xor x y % 2 ≡ differ (x % 2) (y % 2)
xor_digit x y =
    omega (arith, bit_xor_step x y, differ_lt (x % 2) (y % 2) (omega arith) (omega arith))

xor_half : (x y : ℕ) → bit_xor x y / 2 ≡ bit_xor (x / 2) (y / 2)
xor_half x y =
    omega (arith, bit_xor_step x y, differ_lt (x % 2) (y % 2) (omega arith) (omega arith))

digits_eq : (x y : ℕ) → x % 2 ≡ y % 2 → x / 2 ≡ y / 2 → x ≡ y
digits_eq x y d h = omega arith

pub zero-bit_xor : (y : ℕ) → bit_xor 0 y ≡ y
zero-bit_xor y = bit_xor-bitwise 0 y

cancelled : (k x y : ℕ) → x < 2 ^ k → y < 2 ^ k → bit_xor (bit_xor x y) y ≡ x
cancelled zero zero zero h l = refl
cancelled zero (suc x) y h l = absurd (omega arith)
cancelled zero zero (suc y) h l = absurd (omega arith)
cancelled (suc k) x y h l =
    digits_eq _ _
      (xor_digit (bit_xor x y) y
        ∙ ap (λ (d : ℕ). differ d (y % 2)) (xor_digit x y)
        ∙ differ_cancel (x % 2) (y % 2) (omega arith) (omega arith))
      (xor_half (bit_xor x y) y
        ∙ ap (λ (d : ℕ). bit_xor d (y / 2)) (xor_half x y)
        ∙ cancelled k (x / 2) (y / 2) (omega (arith, pow-suc 2 k)) (omega (arith, pow-suc 2 k)))

swapped :
    (k x y z : ℕ)
    → x < 2 ^ k
    → y < 2 ^ k
    → z < 2 ^ k
    → bit_xor (bit_xor x y) z ≡ bit_xor (bit_xor x z) y
swapped zero zero zero zero h l m = refl
swapped zero (suc x) y z h l m = absurd (omega arith)
swapped zero zero (suc y) z h l m = absurd (omega arith)
swapped zero zero zero (suc z) h l m = absurd (omega arith)
swapped (suc k) x y z h l m =
    let digit : (y z : ℕ) → bit_xor (bit_xor x y) z % 2 ≡ differ (differ (x % 2) (y % 2)) (z % 2) =
      λ y z. xor_digit (bit_xor x y) z ∙ ap (λ (d : ℕ). differ d (z % 2)) (xor_digit x y) in
    let half : (y z : ℕ) → bit_xor (bit_xor x y) z / 2 ≡ bit_xor (bit_xor (x / 2) (y / 2)) (z / 2) =
      λ y z. xor_half (bit_xor x y) z ∙ ap (λ (d : ℕ). bit_xor d (z / 2)) (xor_half x y) in
    digits_eq _ _
      (digit y z
        ∙ differ_swap (x % 2) (y % 2) (z % 2) (omega arith) (omega arith) (omega arith)
        ∙ sym (digit z y))
      (half y z
        ∙ swapped k (x / 2) (y / 2) (z / 2) (omega (arith, pow-suc 2 k))
            (omega (arith, pow-suc 2 k)) (omega (arith, pow-suc 2 k))
        ∙ sym (half z y))

pub bit_xor_cancel : (x y : ℕ) → x < 256 → y < 256 → bit_xor (bit_xor x y) y ≡ x
bit_xor_cancel x y h l = cancelled 8 x y (omega arith) (omega arith)

pub bit_xor_swap :
    (x y z : ℕ) → x < 256 → y < 256 → z < 256 → bit_xor (bit_xor x y) z ≡ bit_xor (bit_xor x z) y
bit_xor_swap x y z h l m = swapped 8 x y z (omega arith) (omega arith) (omega arith)

below : (k x y : ℕ) → x < 2 ^ k → y < 2 ^ k → bit_xor x y < 2 ^ k
below zero zero zero h l = omega arith
below zero (suc x) y h l = absurd (omega arith)
below zero zero (suc y) h l = absurd (omega arith)
below (suc k) x y h l = omega (
  arith,
  pow-suc 2 k,
  xor_half x y,
  below k (x / 2) (y / 2) (omega (arith, pow-suc 2 k)) (omega (arith, pow-suc 2 k)),
)

pub bit_xor-lt : (x y : ℕ) → x < 256 → y < 256 → bit_xor x y < 256
bit_xor-lt x y h l = let small = below 8 x y (omega arith) (omega arith) in omega (arith, small)
