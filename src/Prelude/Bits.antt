-- ===== src/Prelude/Bits.antt =====
-- Laws of `|` and `&` at variables: disjoint fields, low masks and shifted masks, as arithmetic.
use Prim.Native.Nat.{
  ℕ, zero, suc, ◌+◌, ◌-◌, ◌*◌, ◌/◌, ◌%◌, ◌^◌, ◌≤◌, ◌<◌, min, max, bit_and, bit_or, bitwise, digits,
  bit_or-bitwise, bit_and-bitwise,
}
use mathlib.Core.Path.{◌≡◌, refl, ap, sym}
use native.Mathlib.Nat.{
  pow-suc, pow-succ', one-le-pow, div-div-eq-div-mul, mod-eq-sub-div-mul, div-mul-le_self,
}
use native.Mathlib.Omega.{arith}

-- Fuel beyond the number itself makes no difference to the recursion on binary digits.
surplus :
    (last : ℕ → ℕ) (join : ℕ → ℕ → ℕ) (extra enough x y : ℕ)
    → x ≤ enough
    → digits last join (extra + enough) x y ≡ digits last join enough x y
surplus last join zero enough x y h = ap (λ (fuel : ℕ). digits last join fuel x y) (omega arith)
surplus last join (suc extra) zero zero y h =
    let fuel : suc extra + zero ≡ suc extra = omega arith in rw fuel refl
surplus last join (suc extra) zero (suc x) y h = absurd (omega arith)
surplus last join (suc extra) (suc enough) zero y h =
    let fuel : suc extra + suc enough ≡ suc (extra + suc enough) = omega arith in rw fuel refl
surplus last join (suc extra) (suc enough) (suc x) y h =
    let fuel : suc extra + suc enough ≡ suc (suc extra + enough) = omega arith in
    rw (fuel, surplus last join (suc extra) enough (suc x / 2) (y / 2) (omega arith)) refl

-- The lowest digit of a bitwise operation, and the operation on the halves.
pub halved :
    (last : ℕ → ℕ) (join : ℕ → ℕ → ℕ) (x y : ℕ)
    → bitwise last join (suc x) y
      ≡ join (suc x % 2) (y % 2) + 2 * bitwise last join (suc x / 2) (y / 2)
halved last join x y =
    let half : ℕ = suc x / 2 in
    let fuel : x - half + half ≡ x = omega arith in
    omega (
      arith,
      surplus last join (x - half) half half (y / 2) (omega arith),
      ap (λ (k : ℕ). digits last join k half (y / 2)) fuel,
    )

pub bit_or_step : (x y : ℕ) → bit_or x y ≡ max (x % 2) (y % 2) + 2 * bit_or (x / 2) (y / 2)
bit_or_step zero y = simp bit_or-bitwise (omega arith)
bit_or_step (suc x) y = simp bit_or-bitwise (halved (λ rest. rest) max x y)

pub bit_and_step : (x y : ℕ) → bit_and x y ≡ min (x % 2) (y % 2) + 2 * bit_and (x / 2) (y / 2)
bit_and_step zero y = simp bit_and-bitwise (omega arith)
bit_and_step (suc x) y = simp bit_and-bitwise (halved (λ rest. 0) min x y)

zero-bit_or : (b : ℕ) → bit_or 0 b ≡ b
zero-bit_or b = bit_or-bitwise 0 b

cleared : (bound x : ℕ) → x < bound → bit_and x 0 ≡ 0
cleared zero x small = absurd (omega arith)
cleared (suc bound) zero small = refl
cleared (suc bound) (suc x) small =
    let half = cleared bound (suc x / 2) (omega arith) in
    omega (arith, half, bit_and_step (suc x) 0)

pub bit_and-zero : (x : ℕ) → bit_and x 0 ≡ 0
bit_and-zero x = cleared (suc x) x (omega arith)

-- A number shifted by one more bit.
shift_once : (k q : ℕ) → q * 2 ^ suc k ≡ q * 2 ^ k * 2
shift_once k q = let doubled = pow-suc 2 k in omega (arith, ap (λ (power : ℕ). q * power) doubled)

-- A field that fits `k` bits joined with one shifted past it is a sum.
pub bit_or_disjoint : (k r q : ℕ) → r < 2 ^ k → bit_or r (q * 2 ^ k) ≡ r + q * 2 ^ k
bit_or_disjoint zero zero q fits = ground (arith, zero-bit_or (q * 2 ^ 0))
bit_or_disjoint zero (suc r) q fits = absurd (omega arith)
bit_or_disjoint (suc k) r q fits = ground (
  arith,
  bit_or_step r (q * 2 ^ suc k),
  shift_once k q,
  pow-suc 2 k,
  bit_or_disjoint k (r / 2) q (omega (arith, pow-suc 2 k)),
)

kept : (bound x : ℕ) → x < bound → bit_or x 0 ≡ x
kept zero x small = absurd (omega arith)
kept (suc bound) zero small = refl
kept (suc bound) (suc x) small =
    let half = kept bound (suc x / 2) (omega arith) in omega (arith, half, bit_or_step (suc x) 0)

-- The same with the shifted field first.
pub bit_or_fields : (k q r : ℕ) → r < 2 ^ k → bit_or (q * 2 ^ k) r ≡ q * 2 ^ k + r
bit_or_fields zero q zero fits = ground (arith, kept (suc (q * 2 ^ 0)) (q * 2 ^ 0) (omega arith))
bit_or_fields zero q (suc r) fits = absurd (omega arith)
bit_or_fields (suc k) q r fits = ground (
  arith,
  bit_or_step (q * 2 ^ suc k) r,
  shift_once k q,
  pow-suc 2 k,
  bit_or_fields k q (r / 2) (omega (arith, pow-suc 2 k)),
)

pub div-two-pow-suc : (k x : ℕ) → x / 2 ^ suc k ≡ x / 2 / 2 ^ k
div-two-pow-suc k x = rw (pow-succ' 2 k) (sym (div-div-eq-div-mul x 2 (2 ^ k)))

pub mod-two-pow-suc : (k x : ℕ) → x % 2 ^ suc k ≡ x / 2 % 2 ^ k * 2 + x % 2
mod-two-pow-suc k x = omega (
  arith,
  div-two-pow-suc k x,
  mod-eq-sub-div-mul x (2 ^ suc k),
  mod-eq-sub-div-mul (x / 2) (2 ^ k),
  div-mul-le_self (x / 2) (2 ^ k),
  ap (λ (t : ℕ). t * 2 ^ suc k) (div-two-pow-suc k x),
  shift_once k (x / 2 / 2 ^ k),
)

-- A mask moved up by `k` bits selects the same bits of the number moved down.
pub bit_and_shifted : (k x m : ℕ) → bit_and x (m * 2 ^ k) ≡ bit_and (x / 2 ^ k) m * 2 ^ k
bit_and_shifted zero x m = ground arith
bit_and_shifted (suc k) x m = ground (
  arith,
  bit_and_step x (m * 2 ^ suc k),
  shift_once k m,
  div-two-pow-suc k x,
  shift_once k (bit_and (x / 2 ^ suc k) m),
  bit_and_shifted k (x / 2) m,
)

-- A mask of `k` low bits is the remainder by `2 ^ k`.
pub bit_and_mask : (k x : ℕ) → bit_and x (2 ^ k - 1) ≡ x % 2 ^ k
bit_and_mask zero x = rw bit_and-zero (omega arith)
bit_and_mask (suc k) x = ground (
  arith,
  bit_and_step x (2 ^ suc k - 1),
  pow-suc 2 k,
  one-le-pow k 2,
  mod-two-pow-suc k x,
  bit_and_mask k (x / 2),
)

pub bit_and-one : (x : ℕ) → bit_and x 1 ≡ x % 2
bit_and-one x = omega (arith, bit_and_step x 1, bit_and-zero (x / 2))
