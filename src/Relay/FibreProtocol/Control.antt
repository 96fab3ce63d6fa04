-- ===== src/Relay/FibreProtocol/Control.antt =====
-- The packets without chunks that the parser writes, and that it refuses.
use avalon_miner.Prelude.{
  ℕ, ◌≡◌, refl, ap, ◌∙◌, true, false, List, ◌++◌, arith, ltb, ◌==◌, length, replicate,
}
use avalon_miner.Prelude.Bytes.{IsU16}
use avalon_miner.Core.Uint256.{Hash256}
use avalon_miner.Relay.FibreProtocol.{
  FibreHeader, fibre_magic, fibre_header_size, fibre_version, ack, keepalive, read_be32, is_valid,
  bad_header, err, parse_header, parse, write_header, create_keepalive, create_ack,
}
use avalon_miner.Relay.FibreProtocol.Roundtrip.{
  IsFibreHeader, length-write_header, magic_read, read_header-write_header, parse-err,
}

parse_header-invalid :
    (h : FibreHeader) (rest : List ℕ)
    → IsFibreHeader h
    → h.magic ≡ fibre_magic
    → is_valid h ≡ false
    → parse_header (write_header h ++ rest) ≡ err bad_header
unfolding parse_header
parse_header-invalid h rest w m v =
    let long : ltb (length (write_header h ++ rest)) fibre_header_size ≡ false =
      ground (arith, length-write_header h rest w) in
    let magic : (read_be32 (write_header h ++ rest) == fibre_magic) ≡ true =
      ground (arith, magic_read h rest w) in
    rw (long, magic, read_header-write_header h rest w, v) refl

control_header : ℕ → Hash256 → ℕ → FibreHeader
control_header flags block_hash chunk_id = record {
  magic = fibre_magic;
  version = fibre_version;
  flags = flags;
  chunk_id = chunk_id;
  block_height = 0;
  block_hash = block_hash;
  total_chunks = 0;
  data_chunks = 0;
  payload_size = 0;
}

control_invalid :
    (flags : ℕ) (block_hash : Hash256) (chunk_id : ℕ)
    → is_valid (control_header flags block_hash chunk_id) ≡ false
unfolding is_valid control_header
control_invalid flags block_hash chunk_id = ground arith

module _ (flags : ℕ) (block_hash : Hash256) (chunk_id : ℕ) (rest : List ℕ)
    (full : length block_hash ≡ 32) (fits : IsU16 chunk_id) where
  control_refused :
      parse_header (write_header (control_header flags block_hash chunk_id) ++ rest)
      ≡ err bad_header
  unfolding control_header
  control_refused =
      parse_header-invalid (control_header flags block_hash chunk_id) rest
        (record {
          magic_fits = omega arith;
          chunk_id_fits = fits;
          block_height_fits = omega arith;
          block_hash_full = full;
          total_chunks_fits = omega arith;
          data_chunks_fits = omega arith;
          payload_size_fits = omega arith;
        })
        refl (control_invalid flags block_hash chunk_id)

create_ack_lem :
    (block_hash : Hash256) (chunk_id : ℕ)
    → create_ack block_hash chunk_id ≡ write_header (control_header ack block_hash chunk_id)
unfolding create_ack write_header control_header
create_ack_lem block_hash chunk_id = refl

create_keepalive_lem : create_keepalive ≡ write_header (control_header keepalive (replicate 32 0) 0)
unfolding create_keepalive write_header control_header
create_keepalive_lem = refl

-- The parser refuses the keepalive and every acknowledgement that its own functions write: their
-- number of chunks is 0, and the chunk id of a valid header is below that number.
pub parse-create_ack :
    (block_hash : Hash256) (chunk_id : ℕ) (rest : List ℕ)
    → length block_hash ≡ 32
    → IsU16 chunk_id
    → (parse (create_keepalive ++ rest) ≡ err bad_header)
      × (parse (create_ack block_hash chunk_id ++ rest) ≡ err bad_header)
parse-create_ack block_hash chunk_id rest full fits = (
  parse-err (create_keepalive ++ rest) bad_header (
      ap (λ (bytes : List ℕ). parse_header (bytes ++ rest)) create_keepalive_lem
      ∙ control_refused keepalive (replicate 32 0) 0 rest refl (omega arith)),
  parse-err (create_ack block_hash chunk_id ++ rest) bad_header (
      ap (λ (bytes : List ℕ). parse_header (bytes ++ rest)) (create_ack_lem block_hash chunk_id)
      ∙ control_refused ack block_hash chunk_id rest full fits),
)
