-- ===== src/Prelude/Bytes.antt =====
-- Unsigned words of 8, 16, 32 and 64 bits as native numbers, and their little-endian bytes.
-- The casts and shifts of the source are `% 2 ^ w`, `/ 2 ^ k` and `* 2 ^ k`.
use Prim.Native.Nat.{ℕ, ◌+◌, ◌*◌, ◌/◌, ◌%◌, ◌^◌, ◌<◌, bit_or}
use mathlib.Core.Path.{◌≡◌}
use mathlib.Core.List.{List, [], ◌∷◌}
use native.Mathlib.Omega.{arith}
use avalon_miner.Prelude.Lists.{All, get_or}
use avalon_miner.Prelude.Bits.{bit_or_disjoint}

abbrev pub IsByte : ℕ → Type 0
IsByte b = b < 256

abbrev pub IsU16 : ℕ → Type 0
IsU16 x = x < 2 ^ 16

abbrev pub IsU32 : ℕ → Type 0
IsU32 x = x < 2 ^ 32

abbrev pub IsU64 : ℕ → Type 0
IsU64 x = x < 2 ^ 64

-- `static_cast<uint8_t>(x >> k)`.
abbrev pub byte : ℕ → ℕ → ℕ
byte k x = x / 2 ^ k % 256

abbrev pub le_bytes16 : ℕ → List ℕ
le_bytes16 x = byte 0 x ∷ byte 8 x ∷ []

abbrev pub le_bytes32 : ℕ → List ℕ
le_bytes32 x = byte 0 x ∷ byte 8 x ∷ byte 16 x ∷ byte 24 x ∷ []

abbrev pub le_bytes64 : ℕ → List ℕ
le_bytes64 x =
    byte 0 x ∷ byte 8 x ∷ byte 16 x ∷ byte 24 x ∷ byte 32 x ∷ byte 40 x ∷ byte 48 x ∷ byte 56 x ∷ []

-- The bytes joined by `|` and `<<`, lowest first.
unfoldable pub join16 : ℕ → ℕ → ℕ
join16 b c = bit_or b (c * 2 ^ 8)

unfoldable pub join32 : ℕ → ℕ → ℕ → ℕ → ℕ
join32 b c d e = bit_or (bit_or (bit_or b (c * 2 ^ 8)) (d * 2 ^ 16)) (e * 2 ^ 24)

unfoldable pub join64 : ℕ → ℕ → ℕ → ℕ → ℕ → ℕ → ℕ → ℕ → ℕ
unfolding join32
join64 b c d e f g h i =
    bit_or (bit_or (bit_or (bit_or (join32 b c d e) (f * 2 ^ 32)) (g * 2 ^ 40)) (h * 2 ^ 48))
      (i * 2 ^ 56)

pub join16-sum : (b c : ℕ) → IsByte b → join16 b c ≡ b + c * 2 ^ 8
unfolding join16
join16-sum b c hb = bit_or_disjoint 8 b c (omega arith)

pub join32-sum :
    (b c d e : ℕ)
    → IsByte b
    → IsByte c
    → IsByte d
    → join32 b c d e ≡ b + c * 2 ^ 8 + d * 2 ^ 16 + e * 2 ^ 24
unfolding join32
join32-sum b c d e hb hc hd = rw (
  bit_or_disjoint 8 b c (omega arith),
  bit_or_disjoint 16 (b + c * 2 ^ 8) d (omega arith),
  bit_or_disjoint 24 (b + c * 2 ^ 8 + d * 2 ^ 16) e (omega arith),
)

pub join64-sum :
    (b c d e f g h i : ℕ)
    → All IsByte (b ∷ c ∷ d ∷ e ∷ f ∷ g ∷ h ∷ [])
    → join64 b c d e f g h i
      ≡ b + c * 2 ^ 8 + d * 2 ^ 16 + e * 2 ^ 24 + f * 2 ^ 32 + g * 2 ^ 40 + h * 2 ^ 48 + i * 2 ^ 56
unfolding join64
join64-sum b c d e f g h i hs =
    let s : ℕ = b + c * 2 ^ 8 + d * 2 ^ 16 + e * 2 ^ 24 in
    let t : ℕ = s + f * 2 ^ 32 in
    let u : ℕ = t + g * 2 ^ 40 in
    rw (
      join32-sum b c d e hs.0 hs.1.0 hs.1.1.0,
      bit_or_disjoint 32 s f (omega arith),
      bit_or_disjoint 40 t g (omega arith),
      bit_or_disjoint 48 u h (omega arith),
      bit_or_disjoint 56 (u + h * 2 ^ 48) i (omega arith),
    )

pub join16-bytes : (x : ℕ) → IsU16 x → join16 (byte 0 x) (byte 8 x) ≡ x
join16-bytes x h = rw (join16-sum (byte 0 x) (byte 8 x) (omega arith)) (omega arith)

pub join32-bytes : (x : ℕ) → IsU32 x → join32 (byte 0 x) (byte 8 x) (byte 16 x) (byte 24 x) ≡ x
join32-bytes x h =
    rw
      (join32-sum (byte 0 x) (byte 8 x) (byte 16 x) (byte 24 x) (omega arith) (omega arith)
        (omega arith))
      (omega arith)

pub join64-bytes :
    (x : ℕ)
    → IsU64 x
    → join64
        (byte 0 x)
        (byte 8 x)
        (byte 16 x)
        (byte 24 x)
        (byte 32 x)
        (byte 40 x)
        (byte 48 x)
        (byte 56 x)
      ≡ x
join64-bytes x h =
    rw
      (join64-sum (byte 0 x) (byte 8 x) (byte 16 x) (byte 24 x) (byte 32 x) (byte 40 x) (byte 48 x)
        (byte 56 x) (omega arith))
      (omega arith)

-- Four bytes are the bytes of the word that they join to.
pub le_bytes32-join32 :
    (b c d e : ℕ)
    → All IsByte (b ∷ c ∷ d ∷ e ∷ [])
    → le_bytes32 (join32 b c d e) ≡ b ∷ c ∷ d ∷ e ∷ []
le_bytes32-join32 b c d e hs = rw (join32-sum b c d e hs.0 hs.1.0 hs.1.1.0) (ground arith)

pub join32-lt : (b c d e : ℕ) → All IsByte (b ∷ c ∷ d ∷ e ∷ []) → IsU32 (join32 b c d e)
join32-lt b c d e hs = rw (join32-sum b c d e hs.0 hs.1.0 hs.1.1.0) (omega arith)

-- The bytes read at a pointer.
abbrev pub read16 : List ℕ → ℕ
read16 src = join16 (get_or src 0 0) (get_or src 1 0)

abbrev pub read32 : List ℕ → ℕ
read32 src = join32 (get_or src 0 0) (get_or src 1 0) (get_or src 2 0) (get_or src 3 0)

abbrev pub read64 : List ℕ → ℕ
read64 src =
    join64 (get_or src 0 0) (get_or src 1 0) (get_or src 2 0) (get_or src 3 0) (get_or src 4 0)
      (get_or src 5 0) (get_or src 6 0) (get_or src 7 0)
