-- ===== src/Relay/FibreProtocol/Words.antt =====
-- Big-endian words are read back.
use avalon_miner.Prelude.{ℕ, ◌+◌, ◌*◌, ◌^◌, ◌≡◌, ap, ◌∙◌, List, ◌++◌, bit_or, arith}
use avalon_miner.Prelude.Bytes.{IsU16, IsU32, byte}
use avalon_miner.Prelude.Bits.{bit_or_fields}
use avalon_miner.Relay.FibreProtocol.{read_be16, read_be32, write_be16, write_be32}

pub read_be16-write_be16 : (x : ℕ) (rest : List ℕ) → IsU16 x → read_be16 (write_be16 x ++ rest) ≡ x
unfolding read_be16
read_be16-write_be16 x rest h = bit_or_fields 8 (byte 8 x) (byte 0 x) (omega arith) ∙ omega arith

pub read_be32-write_be32 : (x : ℕ) (rest : List ℕ) → IsU32 x → read_be32 (write_be32 x ++ rest) ≡ x
unfolding read_be32
read_be32-write_be32 x rest h =
    let a : ℕ = byte 24 x in
    let b : ℕ = byte 16 x in
    let c : ℕ = byte 8 x in
    let d : ℕ = byte 0 x in
    let two : ℕ = a * 2 ^ 8 + b in
    let three : ℕ = two * 2 ^ 8 + c in
    let first : bit_or (a * 2 ^ 24) (b * 2 ^ 16) ≡ two * 2 ^ 16 =
      bit_or_fields 24 a (b * 2 ^ 16) (omega arith) ∙ omega arith in
    let next : bit_or (two * 2 ^ 16) (c * 2 ^ 8) ≡ three * 2 ^ 8 =
      bit_or_fields 16 two (c * 2 ^ 8) (omega arith) ∙ omega arith in
    ap (λ (y : ℕ). bit_or (bit_or y (c * 2 ^ 8)) d) first
    ∙ ap (λ (y : ℕ). bit_or y d) next
    ∙ bit_or_fields 8 three d (omega arith)
    ∙ omega arith
