-- ===== src/Mining/VersionRolling/Rolling.antt =====
-- Rolled versions: what a rolling value changes, and how it is read back.
use avalon_miner.Prelude.{
  ℕ, zero, suc, ◌+◌, ◌-◌, ◌*◌, ◌/◌, ◌%◌, ◌^◌, ◌<◌, ◌≡◌, ap, ap₂, sym, ◌∙◌, true, min, arith,
  bit_and, bit_or, ==_iff,
}
use avalon_miner.Prelude.Bits.{
  bit_and_step, bit_or_step, bit_and-zero, bit_and_shifted, bit_and_mask,
}
use Prim.Native.Nat.{max}
use native.Mathlib.Nat.{pow-suc}
use avalon_miner.Mining.VersionRolling.{
  VersionRollingConfig, version_rolling_mask_default, apply_rolling, extract_rolling,
  validate_version, VersionRollingManager, next_rolling_value, reset_rolling_counter,
}

and_digit : (x y : ℕ) → bit_and x y % 2 ≡ min (x % 2) (y % 2)
and_digit x y = omega (arith, bit_and_step x y)

and_half : (x y : ℕ) → bit_and x y / 2 ≡ bit_and (x / 2) (y / 2)
and_half x y = omega (arith, bit_and_step x y)

or_digit : (x y : ℕ) → bit_or x y % 2 ≡ max (x % 2) (y % 2)
or_digit x y = omega (arith, bit_or_step x y)

or_half : (x y : ℕ) → bit_or x y / 2 ≡ bit_or (x / 2) (y / 2)
or_half x y = omega (arith, bit_or_step x y)

digits_eq : (x y : ℕ) → x % 2 ≡ y % 2 → x / 2 ≡ y / 2 → x ≡ y
digits_eq x y d h = omega arith

rest_half : (k m : ℕ) → m < 2 ^ suc k → (2 ^ suc k - 1 - m) / 2 ≡ 2 ^ k - 1 - m / 2
rest_half k m h = omega (arith, pow-suc 2 k)

rest_digit : (k m : ℕ) → m < 2 ^ suc k → (2 ^ suc k - 1 - m) % 2 ≡ 1 - m % 2
rest_digit k m h = omega (arith, pow-suc 2 k)

module _ (b r m n : ℕ) where
  joined : ℕ
  joined = bit_or (bit_and b n) (bit_and r m)

  joined_digit : joined % 2 ≡ max (min (b % 2) (n % 2)) (min (r % 2) (m % 2))
  unfolding joined
  joined_digit = or_digit (bit_and b n) (bit_and r m) ∙ ap₂ max (and_digit b n) (and_digit r m)

joined_half : (b r m n : ℕ) → joined b r m n / 2 ≡ joined (b / 2) (r / 2) (m / 2) (n / 2)
unfolding joined
joined_half b r m n = or_half (bit_and b n) (bit_and r m) ∙ ap₂ bit_or (and_half b n) (and_half r m)

-- The bits outside a mask of those joined from two numbers are those of the first.
outside_mask :
    (k b r m : ℕ)
    → m < 2 ^ k
    → bit_and (joined b r m (2 ^ k - 1 - m)) (2 ^ k - 1 - m) ≡ bit_and b (2 ^ k - 1 - m)
outside_mask zero b r m h =
    let none_left : 2 ^ 0 - 1 - m ≡ 0 = omega arith in
    ap (λ (n : ℕ). bit_and (joined b r m n) n) none_left
    ∙ bit_and-zero (joined b r m 0)
    ∙ sym (ap (bit_and b) none_left ∙ bit_and-zero b)
outside_mask (suc k) b r m h =
    let n : ℕ = 2 ^ suc k - 1 - m in
    let n' : ℕ = 2 ^ k - 1 - m / 2 in
    let halved : n / 2 ≡ n' = rest_half k m h in
    digits_eq (bit_and (joined b r m n) n) (bit_and b n)
      (omega (
        arith,
        and_digit (joined b r m n) n,
        joined_digit b r m n,
        and_digit b n,
        rest_digit k m h,
      ))
      (and_half (joined b r m n) n
        ∙ ap (λ (x : ℕ). bit_and x (n / 2)) (joined_half b r m n)
        ∙ ap (λ (x : ℕ). bit_and (joined (b / 2) (r / 2) (m / 2) x) x) halved
        ∙ outside_mask k (b / 2) (r / 2) (m / 2) (omega (arith, pow-suc 2 k))
        ∙ sym (and_half b n ∙ ap (bit_and (b / 2)) halved))

-- The bits inside the mask are those of the second.
inside_mask : (k b r m : ℕ) → m < 2 ^ k → bit_and (joined b r m (2 ^ k - 1 - m)) m ≡ bit_and r m
inside_mask zero b r m h =
    let none_left : m ≡ 0 = omega arith in
    ap (bit_and (joined b r m (2 ^ 0 - 1 - m))) none_left
    ∙ bit_and-zero (joined b r m (2 ^ 0 - 1 - m))
    ∙ sym (ap (bit_and r) none_left ∙ bit_and-zero r)
inside_mask (suc k) b r m h =
    let n : ℕ = 2 ^ suc k - 1 - m in
    let n' : ℕ = 2 ^ k - 1 - m / 2 in
    let halved : n / 2 ≡ n' = rest_half k m h in
    digits_eq (bit_and (joined b r m n) m) (bit_and r m)
      (omega (
        arith,
        and_digit (joined b r m n) m,
        joined_digit b r m n,
        and_digit r m,
        rest_digit k m h,
      ))
      (and_half (joined b r m n) m
        ∙ ap (λ (x : ℕ). bit_and x (m / 2)) (joined_half b r m n)
        ∙ ap (λ (x : ℕ). bit_and (joined (b / 2) (r / 2) (m / 2) x) (m / 2)) halved
        ∙ inside_mask k (b / 2) (r / 2) (m / 2) (omega (arith, pow-suc 2 k))
        ∙ sym (and_half r m))

-- Whatever the mask, a rolled version is valid, and the bits under the mask are the rolling
-- value's, moved up by 13.
pub validate_version-apply_rolling :
    (c : VersionRollingConfig) (rolling_value : ℕ)
    → c.version_mask < 2 ^ 32
    → (validate_version c (apply_rolling c rolling_value) ≡ true)
      × (extract_rolling c (apply_rolling c rolling_value)
          ≡ bit_and (rolling_value * 2 ^ 13 % 2 ^ 32) c.version_mask / 2 ^ 13 % 2 ^ 16)
unfolding validate_version extract_rolling apply_rolling joined
validate_version-apply_rolling c rolling_value fits = (
  (==_iff _ _).1
      (outside_mask 32 c.version_base (rolling_value * 2 ^ 13 % 2 ^ 32) c.version_mask fits),
  ap (λ (x : ℕ). x / 2 ^ 13 % 2 ^ 16)
      (inside_mask 32 c.version_base (rolling_value * 2 ^ 13 % 2 ^ 32) c.version_mask fits),
)

default_mask : (r : ℕ) → r < 2 ^ 16 → bit_and (r * 2 ^ 13 % 2 ^ 32) 0x1fffe000 / 2 ^ 13 % 2 ^ 16 ≡ r
default_mask r fits =
    let masked : bit_and (r * 2 ^ 13 % 2 ^ 32) 0x1fffe000
        ≡ bit_and (r * 2 ^ 13 % 2 ^ 32 / 2 ^ 13) 0xffff * 2 ^ 13 =
      bit_and_shifted 13 (r * 2 ^ 13 % 2 ^ 32) 0xffff in
    omega (arith, masked, bit_and_mask 16 (r * 2 ^ 13 % 2 ^ 32 / 2 ^ 13))

-- With the default mask every 16-bit rolling value is read back from the version it was applied to,
-- so two such values never give the same version.
pub extract_rolling-apply_rolling :
    (c : VersionRollingConfig) (r : ℕ)
    → c.version_mask ≡ version_rolling_mask_default
    → r < 2 ^ 16
    → extract_rolling c (apply_rolling c r) ≡ r
unfolding extract_rolling apply_rolling
extract_rolling-apply_rolling c r mask fits =
    (validate_version-apply_rolling c r (omega arith)).1
    ∙ ap (λ (m : ℕ). bit_and (r * 2 ^ 13 % 2 ^ 32) m / 2 ^ 13 % 2 ^ 16) mask
    ∙ default_mask r fits

-- The manager after `n` calls of `next_rolling_value`.
unfoldable pub after : ℕ → VersionRollingManager → VersionRollingManager
after zero m = m
after (suc n) m = after n ((next_rolling_value m).0)

rolled_counter :
    (n : ℕ) (m : VersionRollingManager)
    → m.rolling_counter < 2 ^ 16
    → (after n m).rolling_counter ≡ (m.rolling_counter + n) % 2 ^ 16
unfolding after next_rolling_value
rolled_counter zero m h = omega arith
rolled_counter (suc n) m h =
    omega (arith, rolled_counter n ((next_rolling_value m).0) (omega arith))

-- From a reset counter the n-th value handed out is `n` modulo 2 ^ 16, so that all 2 ^ 16 values
-- appear before one repeats.
pub next_rolling_value-after :
    (m : VersionRollingManager) (n : ℕ)
    → (next_rolling_value (after n (reset_rolling_counter m))).1 ≡ n % 2 ^ 16
unfolding next_rolling_value reset_rolling_counter
next_rolling_value-after m n =
    let counter = rolled_counter n (reset_rolling_counter m) (omega arith) in
    let masked = bit_and_mask 16 (after n (reset_rolling_counter m)).rolling_counter in
    omega (arith, counter, masked)
