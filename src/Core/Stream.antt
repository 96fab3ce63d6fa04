-- ===== src/Core/Stream.antt =====
-- src/core/serialization/stream.cpp and .hpp: reading from bytes at a position, and writing bytes.
-- A read that throws is `stream_error`; one that would leave the bytes is `undefined`. A signed
-- word is its bit pattern, so that the signed reads and writes are the unsigned ones.
pub mod Position
pub mod Varint
use avalon_miner.Prelude.{
  ℕ, ◌+◌, ◌-◌, ◌%◌, ◌^◌, Bool, List, [], ◌∷◌, ◌++◌, ltb, leb, ◌==◌, if◌then◌else◌, length, take,
  drop, get_or,
}
use avalon_miner.Prelude.Bytes.{le_bytes16, le_bytes32, le_bytes64, read16, read32, read64}
use avalon_miner.Core.Uint256.{Hash256}

pub record ReadStream : Type 0 where
  pub bytes : List ℕ
  pub pos : ℕ

unfoldable pub read_stream : List ℕ → ReadStream
read_stream bytes = record { bytes = bytes; pos = 0 }

pub data Outcome {ℓ} (A : Type ℓ) : Type ℓ where
  ok : A → ReadStream → Outcome A
  stream_error : Outcome A
  undefined : Outcome A

infixl 5 ◌>>=◌
abbrev pub ◌>>=◌ {ℓ κ} :
    {A : Type ℓ} {B : Type κ}
    → (ReadStream → Outcome A)
    → (A → ReadStream → Outcome B)
    → ReadStream
    → Outcome B
◌>>=◌ m f s = elim (m s) [ ok a s' ↦ f a s' | stream_error ↦ stream_error | undefined ↦ undefined ]

-- `ensure_available`; the sum wraps.
unfoldable pub is_available : ℕ → ReadStream → Bool
is_available count s = leb ((s.pos + count) % 2 ^ 64) (length s.bytes)

unfoldable pub advance : ℕ → ReadStream → ReadStream
advance count s = record { bytes = s.bytes; pos = (s.pos + count) % 2 ^ 64 }

-- A read of `count` bytes at the position.
unfoldable pub read_at {ℓ} : {A : Type ℓ} → ℕ → (List ℕ → A) → ReadStream → Outcome A
read_at count f s =
    if is_available count s then ok (f (drop s.pos s.bytes)) (advance count s) else stream_error

unfoldable pub read_u8 : ReadStream → Outcome ℕ
unfolding read_at
read_u8 = read_at 1 (λ ptr. get_or ptr 0 0)

unfoldable pub read_u16_le : ReadStream → Outcome ℕ
unfolding read_at
read_u16_le = read_at 2 (λ ptr. read16 ptr)

unfoldable pub read_u32_le : ReadStream → Outcome ℕ
unfolding read_at
read_u32_le = read_at 4 (λ ptr. read32 ptr)

unfoldable pub read_u64_le : ReadStream → Outcome ℕ
unfolding read_at
read_u64_le = read_at 8 (λ ptr. read64 ptr)

unfoldable pub read_hash256 : ReadStream → Outcome Hash256
unfolding read_at
read_hash256 = read_at 32 (λ ptr. take 32 ptr)

unfoldable pub varint_tail : ℕ → ReadStream → Outcome ℕ
varint_tail first s =
    if ltb first 0xfd
    then ok first s
    else (if first == 0xfd
        then read_u16_le s
        else (if first == 0xfe then read_u32_le s else read_u64_le s))

unfoldable pub read_varint : ReadStream → Outcome ℕ
read_varint = read_u8 >>= varint_tail

-- If the sum wraps, the end of the range lies before its beginning.
unfoldable pub read_bytes : ℕ → ReadStream → Outcome (List ℕ)
read_bytes count s =
    if is_available count s
    then (if ltb (s.pos + count) (2 ^ 64)
        then ok (take count (drop s.pos s.bytes)) (advance count s)
        else undefined)
    else stream_error

unfoldable pub string_body : ℕ → ReadStream → Outcome (List ℕ)
string_body len s = if ltb 10000000 len then stream_error else read_bytes len s

unfoldable pub read_string : ReadStream → Outcome (List ℕ)
read_string = read_varint >>= string_body

unfoldable pub skip : ℕ → ReadStream → Outcome (Unit {0})
skip count s = if is_available count s then ok tt (advance count s) else stream_error

unfoldable pub remaining : ReadStream → ℕ
remaining s = (length s.bytes + 2 ^ 64 - s.pos) % 2 ^ 64

unfoldable pub eof : ReadStream → Bool
eof s = leb (length s.bytes) s.pos

-- A `WriteStream` is the bytes written so far.
abbrev pub WriteStream : Type 0
WriteStream = List ℕ

unfoldable pub write_u8 : WriteStream → ℕ → WriteStream
write_u8 w value = w ++ (value % 256 ∷ [])

unfoldable pub write_u16_le : WriteStream → ℕ → WriteStream
write_u16_le w value = w ++ le_bytes16 value

unfoldable pub write_u32_le : WriteStream → ℕ → WriteStream
write_u32_le w value = w ++ le_bytes32 value

unfoldable pub write_u64_le : WriteStream → ℕ → WriteStream
write_u64_le w value = w ++ le_bytes64 value

unfoldable pub write_varint : WriteStream → ℕ → WriteStream
write_varint w value =
    if ltb value 0xfd
    then write_u8 w value
    else (if leb value 0xffff
        then write_u16_le (write_u8 w 0xfd) (value % 2 ^ 16)
        else (if leb value 0xffffffff
            then write_u32_le (write_u8 w 0xfe) (value % 2 ^ 32)
            else write_u64_le (write_u8 w 0xff) value))

unfoldable pub write_bytes : WriteStream → List ℕ → WriteStream
write_bytes w bytes = w ++ bytes

unfoldable pub write_hash256 : WriteStream → Hash256 → WriteStream
write_hash256 w hash = w ++ hash

unfoldable pub write_string : WriteStream → List ℕ → WriteStream
write_string w str = write_varint w (length str) ++ str

unfoldable pub varint_size : ℕ → ℕ
varint_size value =
    if ltb value 0xfd
    then 1
    else (if leb value 0xffff then 3 else (if leb value 0xffffffff then 5 else 9))
