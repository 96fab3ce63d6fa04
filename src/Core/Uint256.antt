-- ===== src/Core/Uint256.antt =====
-- src/core/primitives/uint256.hpp and uint256.cpp: 256-bit unsigned integers as 32 bytes, lowest first.
pub mod Value
pub mod Order
pub mod Hex
use Prim.Native.Nat.{Ordering}
use avalon_miner.Prelude.{
  ℕ, zero, suc, ◌+◌, ◌-◌, ◌*◌, ◌/◌, ◌%◌, ◌^◌, ◌≡◌, Bool, true, false, ◌&&◌, Option, none, some,
  List, [], ◌∷◌, ◌++◌, bit_or, ltb, leb, ◌==◌, if◌then◌else◌, All, length, get_or, replicate,
}
use avalon_miner.Prelude.Bytes.{IsByte, le_bytes64}

abbrev pub size : ℕ
size = 32

-- `std::array<uint8_t, 32>`: its elements, whose number the C++ type fixes.
abbrev pub Hash256 : Type 0
Hash256 = List ℕ

pub record IsHash256 (h : Hash256) : Type 0 where
  pub full : length h ≡ 32
  pub bytes : All IsByte h

-- `Hash256{}` and `uint256::zero()`.
abbrev pub zero_hash : Hash256
zero_hash = replicate 32 0

unfoldable pub from_u64 : ℕ → Hash256
from_u64 value = le_bytes64 value ++ replicate 24 0

unfoldable pub max_value : Hash256
max_value = replicate 32 0xff

unfoldable pub one : Hash256
unfolding from_u64
one = from_u64 1

unfoldable pub is_zero : Hash256 → Bool
is_zero [] = true
is_zero (b ∷ bs) = if b == 0 then is_zero bs else false

-- `for (i = SIZE; i-- > 0;)`: from the highest byte down, the first difference decides.
unfoldable pub compare_down : ℕ → Hash256 → Hash256 → Ordering
compare_down zero a b = Ordering.eq
compare_down (suc i) a b =
    let rest = compare_down i a b in
    if ltb (get_or a i 0) (get_or b i 0)
    then Ordering.lt
    else if ltb (get_or b i 0) (get_or a i 0)
    then Ordering.gt
    else rest

-- `operator<=>`
unfoldable pub three_way : Hash256 → Hash256 → Ordering
unfolding compare_down
three_way a b = compare_down size a b

-- `a <= b`, which C++ derives from `<=>`.
unfoldable pub le256 : Hash256 → Hash256 → Bool
unfolding three_way
le256 a b = elim (three_way a b) [ Ordering.gt ↦ false | _ ↦ true ]

-- `operator==` of the arrays.
unfoldable pub eq256 : Hash256 → Hash256 → Bool
eq256 [] [] = true
eq256 [] (b ∷ bs) = false
eq256 (a ∷ as') [] = false
eq256 (a ∷ as') (b ∷ bs) = a == b && eq256 as' bs

-- One byte under `std::hex`, `std::setw(2)` and `std::setfill('0')`.
abbrev pub hex_digit : ℕ → ℕ
hex_digit d = if ltb d 10 then d + 48 else d + 87

abbrev pub hex_byte : ℕ → List ℕ
hex_byte b = hex_digit (b / 16) ∷ hex_digit (b % 16) ∷ []

unfoldable pub hex_down : ℕ → Hash256 → List ℕ
hex_down zero a = []
hex_down (suc i) a = hex_byte (get_or a i 0) ++ hex_down i a

unfoldable pub to_hex : Hash256 → List ℕ
unfolding hex_down
to_hex a = hex_down size a

unfoldable pub to_hex_le : Hash256 → List ℕ
to_hex_le [] = []
to_hex_le (b ∷ bs) = hex_byte b ++ to_hex_le bs

-- `none` is the exception `std::invalid_argument`.
unfoldable pub hex_char_to_int : ℕ → Option ℕ
hex_char_to_int c =
    if leb b'0' c && leb c b'9'
    then some (c - b'0')
    else if leb b'a' c && leb c b'f'
    then some (c - b'a' + 10)
    else if leb b'A' c && leb c b'F'
    then some (c - b'A' + 10)
    else none

infixl 5 ◌>>=◌
abbrev pub ◌>>=◌ {ℓ κ} : {A : Type ℓ} {B : Type κ} → Option A → (A → Option B) → Option B
none >>= f = none
some a >>= f = f a

-- The loop of both readers: byte `i` stands at `hex[index i]` and the character behind it.
unfoldable pub read_hex : (ℕ → ℕ) → ℕ → ℕ → List ℕ → Option Hash256
unfolding hex_char_to_int
read_hex index zero i hex = some []
read_hex index (suc n) i hex = do
  high ← hex_char_to_int (get_or hex (index i) 0)
  low ← hex_char_to_int (get_or hex (index i + 1) 0)
  rest ← read_hex index n (i + 1) hex
  some (bit_or (high * 2 ^ 4) low % 256 ∷ rest)

unfoldable pub from_hex : List ℕ → Option Hash256
unfolding read_hex
from_hex hex =
    if length hex == size * 2 then read_hex (λ i. (size - 1 - i) * 2) size 0 hex else none

unfoldable pub from_hex_le : List ℕ → Option Hash256
unfolding read_hex
from_hex_le hex = if length hex == size * 2 then read_hex (λ i. i * 2) size 0 hex else none
