-- ===== src/Relay/FibreProtocol.antt =====
-- src/relay/fibre_protocol.cpp and .hpp: the datagram that carries one chunk, a header of 50 bytes
-- and the payload. The words are big-endian.
pub mod Words
pub mod Roundtrip
pub mod Control
use avalon_miner.Prelude.{
  ℕ, ◌+◌, ◌-◌, ◌*◌, ◌/◌, ◌%◌, ◌^◌, Bool, true, false, ◌&&◌, not, Option, none, some, List, [], ◌∷◌,
  ◌++◌, bit_and, bit_or, ltb, leb, ◌==◌, if◌then◌else◌, length, get_or, take, drop, replicate,
}
use avalon_miner.Prelude.Bytes.{byte}
use avalon_miner.Core.Uint256.{Hash256, zero_hash}
use avalon_miner.Relay.FecDecoder.Delivery.{Sent}

abbrev pub fibre_magic : ℕ
fibre_magic = 0xf1b3e001

abbrev pub fibre_version : ℕ
fibre_version = 1

abbrev pub fibre_header_size : ℕ
fibre_header_size = 50

abbrev pub fibre_max_payload_size : ℕ
fibre_max_payload_size = 1450

-- `FibreFlags`
abbrev pub fec_chunk : ℕ
fec_chunk = 0x01

abbrev pub last_chunk : ℕ
last_chunk = 0x02

abbrev pub keepalive : ℕ
keepalive = 0x08

abbrev pub ack : ℕ
ack = 0x10

unfoldable pub has_flag : ℕ → ℕ → Bool
has_flag flags flag = not (bit_and flags flag == 0)

unfoldable pub read_be16 : List ℕ → ℕ
read_be16 src = bit_or (get_or src 0 0 * 2 ^ 8) (get_or src 1 0)

unfoldable pub read_be32 : List ℕ → ℕ
read_be32 src =
    bit_or
      (bit_or (bit_or (get_or src 0 0 * 2 ^ 24) (get_or src 1 0 * 2 ^ 16)) (get_or src 2 0 * 2 ^ 8))
      (get_or src 3 0)

abbrev pub write_be16 : ℕ → List ℕ
write_be16 value = byte 8 value ∷ byte 0 value ∷ []

abbrev pub write_be32 : ℕ → List ℕ
write_be32 value = byte 24 value ∷ byte 16 value ∷ byte 8 value ∷ byte 0 value ∷ []

pub record FibreHeader : Type 0 where
  pub magic : ℕ
  pub version : ℕ
  pub flags : ℕ
  pub chunk_id : ℕ
  pub block_height : ℕ
  pub block_hash : Hash256
  pub total_chunks : ℕ
  pub data_chunks : ℕ
  pub payload_size : ℕ

unfoldable pub is_fec : FibreHeader → Bool
is_fec h = has_flag h.flags fec_chunk

unfoldable pub is_last : FibreHeader → Bool
is_last h = has_flag h.flags last_chunk

unfoldable pub is_keepalive : FibreHeader → Bool
is_keepalive h = has_flag h.flags keepalive

unfoldable pub fec_chunks : FibreHeader → ℕ
fec_chunks h = if ltb h.data_chunks h.total_chunks then h.total_chunks - h.data_chunks else 0

unfoldable pub is_valid : FibreHeader → Bool
is_valid h =
    (h.magic == fibre_magic)
    && (leb 1 h.version
        && (leb h.payload_size fibre_max_payload_size
            && (ltb h.chunk_id h.total_chunks && leb h.data_chunks h.total_chunks)))

pub record FibrePacket : Type 0 where
  pub header : FibreHeader
  pub payload : List ℕ

unfoldable pub packet_is_valid : FibrePacket → Bool
packet_is_valid p = is_valid p.header && (length p.payload == p.header.payload_size)

unfoldable pub to_fec_chunk : FibrePacket → Sent
to_fec_chunk p = record {
  chunk_id =
      if is_fec p.header
      then (p.header.chunk_id + 2 ^ 16 - p.header.data_chunks) % 2 ^ 16
      else p.header.chunk_id;
  is_fec = is_fec p.header;
  bytes = p.payload;
}

-- The errors of the parser, all `CryptoInvalidLength`, by their messages.
pub data ParseError : Type 0 where
  short_packet : ParseError
  bad_magic : ParseError
  bad_header : ParseError
  short_payload : ParseError

pub data Parsed {ℓ} (A : Type ℓ) : Type ℓ where
  ok : A → Parsed A
  err : ParseError → Parsed A

-- The fields stand one after another.
unfoldable pub read_header : List ℕ → FibreHeader
read_header src = record {
  magic = read_be32 src;
  version = get_or src 4 0;
  flags = get_or src 5 0;
  chunk_id = read_be16 (drop 6 src);
  block_height = read_be32 (drop 8 src);
  block_hash = take 32 (drop 12 src);
  total_chunks = read_be16 (drop 44 src);
  data_chunks = read_be16 (drop 46 src);
  payload_size = read_be16 (drop 48 src);
}

unfoldable pub parse_header : List ℕ → Parsed FibreHeader
parse_header src =
    if ltb (length src) fibre_header_size
    then err short_packet
    else (if not (read_be32 src == fibre_magic)
        then err bad_magic
        else (if is_valid (read_header src) then ok (read_header src) else err bad_header))

unfoldable pub parse_payload : List ℕ → FibreHeader → Parsed FibrePacket
parse_payload src header =
    if ltb (length src) (fibre_header_size + header.payload_size)
    then err short_payload
    else ok (record {
      header = header;
      payload = take header.payload_size (drop fibre_header_size src);
    })

unfoldable pub parse : List ℕ → Parsed FibrePacket
parse src = elim (parse_header src) [ ok header ↦ parse_payload src header | err e ↦ err e ]

unfoldable pub write_header : FibreHeader → List ℕ
write_header h =
    write_be32 h.magic
    ++ ((h.version ∷ h.flags ∷ write_be16 h.chunk_id)
        ++ (write_be32 h.block_height
            ++ (h.block_hash
                ++ (write_be16 h.total_chunks
                    ++ (write_be16 h.data_chunks ++ write_be16 h.payload_size)))))

unfoldable pub serialize : FibrePacket → List ℕ
serialize p = write_header p.header ++ p.payload

unfoldable pub check_magic : List ℕ → Bool
check_magic src = if ltb (length src) 4 then false else read_be32 src == fibre_magic

unfoldable pub create_keepalive : List ℕ
create_keepalive =
    write_be32 fibre_magic
    ++ ((fibre_version ∷ keepalive ∷ []) ++ replicate (fibre_header_size - 6) 0)

unfoldable pub create_ack : Hash256 → ℕ → List ℕ
create_ack block_hash chunk_id =
    write_be32 fibre_magic
    ++ ((fibre_version ∷ ack ∷ write_be16 chunk_id)
        ++ (write_be32 0 ++ (block_hash ++ replicate 6 0)))
