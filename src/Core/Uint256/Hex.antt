-- ===== src/Core/Uint256/Hex.antt =====
-- Text forms of uint256: what is printed is read back, and what is not 64 hex digits is refused.
use avalon_miner.Prelude.{
  ℕ, zero, suc, ◌+◌, ◌-◌, ◌*◌, ◌/◌, ◌%◌, ◌^◌, ◌<◌, ◌≡◌, refl, inl, inr, ◌∷◌, [], List, some, none,
  Option, bit_or, arith, ◌==◌, All, length, get_or, Bool-cases, subst, ◌∙◌,
}
use mathlib.Core.Option.{some-injective}
use avalon_miner.Prelude.Bits.{bit_or_fields}
use avalon_miner.Prelude.Bytes.{IsByte}
use avalon_miner.Core.Uint256.{
  Hash256, IsHash256, hex_digit, hex_down, to_hex, to_hex_le, hex_char_to_int, read_hex, from_hex,
  from_hex_le, ◌>>=◌,
}

digit_read : (d : ℕ) → d < 16 → hex_char_to_int (hex_digit d) ≡ some d
unfolding hex_char_to_int
digit_read d h = ground arith

byte_joined : (b : ℕ) → IsByte b → bit_or (b / 16 * 2 ^ 4) (b % 16) % 256 ≡ b
byte_joined b h = rw (bit_or_fields 4 (b / 16) (b % 16) (omega arith)) (omega arith)

-- What the reader must find for byte `i` of the result.
abbrev Digits : List ℕ → ℕ → ℕ → Type 0
Digits hex at b =
    (get_or hex at 0 ≡ hex_digit (b / 16)) × (get_or hex (at + 1) 0 ≡ hex_digit (b % 16))

read_hex-bytes :
    (index : ℕ → ℕ) (hex bs : List ℕ) (n i : ℕ)
    → length bs ≡ n
    → All IsByte bs
    → ((j : ℕ) → j < n → Digits hex (index (i + j)) (get_or bs j 0))
    → read_hex index n i hex ≡ some bs
unfolding read_hex
read_hex-bytes index hex [] zero i l h f = refl
read_hex-bytes index hex [] (suc n) i l h f = absurd (omega arith)
read_hex-bytes index hex (b ∷ bs) zero i l h f = absurd (omega arith)
read_hex-bytes index hex (b ∷ bs) (suc n) i l h f =
    let e : i + 0 ≡ i = omega arith in
    let first : Digits hex (index i) b = rw e at (f 0 (omega arith)) in
    rw (
      first.0,
      first.1,
      digit_read (b / 16) (omega (arith, h.0)),
      digit_read (b % 16) (omega arith),
      read_hex-bytes index hex bs n (i + 1) (omega arith) h.1
          (λ j hj. rw (shift j) (f (suc j) (omega arith))),
      byte_joined b h.0,
    )
  where
    shift : (j : ℕ) → i + 1 + j ≡ i + suc j
    shift j = omega arith

hex_down-Digits :
    (n i : ℕ) (a : Hash256) → i < n → Digits (hex_down n a) ((n - 1 - i) * 2) (get_or a i 0)
unfolding hex_down
hex_down-Digits zero i a h = absurd (omega arith)
hex_down-Digits (suc n) i a h = elim (Bool-cases (i == n)) [
  | inl same ↦
      let e : i ≡ n = ground arith in
      let z : (suc n - 1 - n) * 2 ≡ 0 = omega arith in rw (e, z) (refl, refl)
  | inr other ↦
      let s : (suc n - 1 - i) * 2 ≡ suc (suc ((n - 1 - i) * 2)) = ground arith in
      let t : suc (suc ((n - 1 - i) * 2)) + 1 ≡ suc (suc ((n - 1 - i) * 2 + 1)) = omega arith in
      rw (s, t) (hex_down-Digits n i a (ground arith))
]

length-hex_down : (n : ℕ) (a : Hash256) → length (hex_down n a) ≡ n * 2
unfolding hex_down
length-hex_down zero a = refl
length-hex_down (suc n) a = omega (arith, length-hex_down n a)

length-to_hex : (a : Hash256) → length (to_hex a) ≡ 64
unfolding to_hex
length-to_hex a = length-hex_down 32 a

to_hex-Digits : (a : Hash256) (i : ℕ) → i < 32 → Digits (to_hex a) ((32 - 1 - i) * 2) (get_or a i 0)
unfolding to_hex
to_hex-Digits a i h = hex_down-Digits 32 i a h

from_hex_of_length :
    (hex : List ℕ) → length hex ≡ 64 → from_hex hex ≡ read_hex (λ i. (32 - 1 - i) * 2) 32 0 hex
unfolding from_hex
from_hex_of_length hex e = rw e

-- Reading the big-endian text of a uint256 of 32 bytes gives it back.
pub from_hex-to_hex : (a : Hash256) → IsHash256 a → from_hex (to_hex a) ≡ some a
from_hex-to_hex a ha =
    from_hex_of_length (to_hex a) (length-to_hex a)
    ∙ read_hex-bytes (λ i. (32 - 1 - i) * 2) (to_hex a) a 32 0 ha.full ha.bytes
        (λ j hj. let e : 0 + j ≡ j = omega arith in rw e (to_hex-Digits a j hj))

to_hex_le-Digits :
    (a : Hash256) (i : ℕ) → i < length a → Digits (to_hex_le a) (i * 2) (get_or a i 0)
unfolding to_hex_le
to_hex_le-Digits [] i h = absurd (omega arith)
to_hex_le-Digits (b ∷ bs) zero h = (refl, refl)
to_hex_le-Digits (b ∷ bs) (suc i) h =
    let s : suc i * 2 ≡ suc (suc (i * 2)) = omega arith in
    let t : suc (suc (i * 2)) + 1 ≡ suc (suc (i * 2 + 1)) = omega arith in
    rw (s, t) (to_hex_le-Digits bs i (omega arith))

length-to_hex_le : (a : Hash256) → length (to_hex_le a) ≡ length a * 2
unfolding to_hex_le
length-to_hex_le [] = refl
length-to_hex_le (b ∷ bs) = omega (arith, length-to_hex_le bs)

from_hex_le_of_length :
    (hex : List ℕ) → length hex ≡ 64 → from_hex_le hex ≡ read_hex (λ i. i * 2) 32 0 hex
unfolding from_hex_le
from_hex_le_of_length hex e = rw e

-- So does reading the little-endian text.
pub from_hex_le-to_hex_le : (a : Hash256) → IsHash256 a → from_hex_le (to_hex_le a) ≡ some a
from_hex_le-to_hex_le a ha =
    from_hex_le_of_length (to_hex_le a) (omega (arith, length-to_hex_le a, ha.full))
    ∙ read_hex-bytes (λ i. i * 2) (to_hex_le a) a 32 0 ha.full ha.bytes
        (λ j hj.
          let e : 0 + j ≡ j = omega arith in rw e (to_hex_le-Digits a j (omega (arith, ha.full))))

bind-eq-some :
    {A B : Type 0} (m : Option A) (f : A → Option B) {b : B}
    → (m >>= f) ≡ some b
    → (a : A) × (m ≡ some a) × (f a ≡ some b)
bind-eq-some none f h = cc
bind-eq-some (some a) f h = (a, refl, h)

read_hex-some :
    (index : ℕ → ℕ) (n i : ℕ) (hex bs : List ℕ)
    → read_hex index n i hex ≡ some bs
    → (length bs ≡ n) × All IsByte bs
unfolding read_hex
read_hex-some index zero i hex bs e =
    subst (λ (t : List ℕ). (length t ≡ 0) × All IsByte t) (some-injective _ _ e) (refl, tt)
read_hex-some index (suc n) i hex bs e =
    let (high, _, e₁) = bind-eq-some (hex_char_to_int (get_or hex (index i) 0)) _ e in
    let (low, _, e₂) = bind-eq-some (hex_char_to_int (get_or hex (index i + 1) 0)) _ e₁ in
    let (rest, er, e₃) = bind-eq-some (read_hex index n (i + 1) hex) _ e₂ in
    let (l, h) = read_hex-some index n (i + 1) hex rest er in
    subst (λ (t : List ℕ). (length t ≡ suc n) × All IsByte t) (some-injective _ _ e₃)
      (omega (arith, l), (omega arith, h))

-- Whatever text is accepted has 64 characters, and the result is 32 bytes.
pub from_hex-IsHash256 :
    (hex : List ℕ) (a : Hash256) → from_hex hex ≡ some a → (length hex ≡ 64) × IsHash256 a
unfolding from_hex
from_hex-IsHash256 hex a e = elim (Bool-cases (length hex == 64)) [
  | inl fits ↦
      let (l, h) = read_hex-some (λ i. (32 - 1 - i) * 2) 32 0 hex a (rw fits at e) in
      (ground arith, record { full = l; bytes = h })
  | inr other ↦ cc (rw other at e)
]
