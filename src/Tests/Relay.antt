-- ===== src/Tests/Relay.antt =====
-- Chunks, packets and the reconstruction of a block.
use avalon_miner.Prelude.{
  ℕ, suc, ◌-◌, ◌≤◌, ◌≡◌, ◌⊎◌, refl, true, false, none, some, List, [], ◌∷◌, ◌++◌, arith, length,
  All,
}
use avalon_miner.Tests.Data.{all_sevens}
use avalon_miner.Core.Uint256.{eq256}
use avalon_miner.Relay.FecDecoder.{
  FecParams, FecDecoder, can_decode, decode, xor_chunks, xor_all, xor_bytes,
}
use avalon_miner.Relay.FecDecoder
use avalon_miner.Relay.FecDecoder.Recovery.{IsChunk}
use avalon_miner.Relay.FecDecoder.Delivery.{Sent, IsTrue, deliver, concat}
use avalon_miner.Relay.FecDecoder.Decoding.{Decodes}
use avalon_miner.Relay.FecDecoder.Roundtrip.{decode-deliver}
use avalon_miner.Relay.FibreProtocol.{
  FibrePacket, has_flag, is_fec, is_valid, packet_is_valid, parse, ok, err, bad_header, serialize,
  create_keepalive, create_ack, to_fec_chunk, fibre_max_payload_size,
}
use avalon_miner.Relay.FibreProtocol.Roundtrip.{
  IsFibreHeader, parse-serialize, parse-packet_is_valid,
}
use avalon_miner.Relay.FibreProtocol.Control.{parse-create_ack}
use avalon_miner.Relay.BlockReconstructor.{
  BlockReconstructor, initial, is_over, receive, on_packet, count_duplicate,
}
use avalon_miner.Relay.BlockReconstructor.Faithful.{receive-block}
use avalon_miner.Relay.BlockReconstructor.States.{on_packet-to_fec_chunk}

-- A block of two chunks and their XOR.
abbrev chunks : List (List ℕ)
chunks = (1 ∷ 2 ∷ []) ∷ (3 ∷ 4 ∷ []) ∷ []

abbrev fec_params : FecParams
fec_params = record { data_chunk_count = 2; fec_chunk_count = 1; chunk_size = 2 }

abbrev second_chunk : Sent
second_chunk = record { chunk_id = 1; is_fec = false; bytes = 3 ∷ 4 ∷ [] }

abbrev fec_chunk : Sent
fec_chunk = record { chunk_id = 0; is_fec = true; bytes = 2 ∷ 6 ∷ [] }

chunks-IsChunk : All (IsChunk 2) chunks
chunks-IsChunk =
    (record { full = refl; bytes = omega arith }, (record { full = refl; bytes = omega arith }, tt))

sent-IsTrue : All (IsTrue chunks (xor_chunks chunks 2)) (second_chunk ∷ fec_chunk ∷ [])
unfolding xor_chunks xor_all xor_bytes
sent-IsTrue = (refl, (refl, tt))

decode-deliver_example :
    (d : FecDecoder) × (deliver (FecDecoder.initial fec_params) (second_chunk ∷ fec_chunk ∷ [])
      ≡ some d)
    × (length chunks ≤ suc d.data_count
        → can_decode d ≡ true
        → Decodes (concat chunks) (length chunks - d.data_count) (decode d).1)
decode-deliver_example =
    decode-deliver 2 chunks fec_params (second_chunk ∷ fec_chunk ∷ []) chunks-IsChunk refl
      (omega arith) (omega arith) sent-IsTrue

timed-IsTrue :
    All
      (λ (x : Sent × ℕ). IsTrue chunks (xor_chunks chunks 2) x.0)
      ((second_chunk, 10) ∷ (fec_chunk, 20) ∷ [])
unfolding xor_chunks xor_all xor_bytes
timed-IsTrue = (refl, (refl, tt))

receive-block_example :
    (r : BlockReconstructor) × (receive
        (initial all_sevens 800000 fec_params 5000 0)
        ((second_chunk, 10) ∷ (fec_chunk, 20) ∷ [])
      ≡ some r)
    × ((r.block_data ≡ none) ⊎ (r.block_data ≡ some (concat chunks)))
receive-block_example =
    receive-block 2 chunks fec_params all_sevens 800000 5000 0
      ((second_chunk, 10) ∷ (fec_chunk, 20) ∷ []) chunks-IsChunk refl (omega arith) (omega arith)
      timed-IsTrue

abbrev packet : FibrePacket
packet = record {
  header = record {
    magic = 0xf1b3e001;
    version = 1;
    flags = 1;
    chunk_id = 2;
    block_height = 800000;
    block_hash = all_sevens;
    total_chunks = 3;
    data_chunks = 2;
    payload_size = 2;
  };
  payload = 2 ∷ 6 ∷ [];
}

packet-IsFibreHeader : IsFibreHeader packet.header
packet-IsFibreHeader = record {
  magic_fits = omega arith;
  chunk_id_fits = omega arith;
  block_height_fits = omega arith;
  block_hash_full = refl;
  total_chunks_fits = omega arith;
  data_chunks_fits = omega arith;
  payload_size_fits = omega arith;
}

packet_valid : packet_is_valid packet ≡ true
unfolding packet_is_valid is_valid
packet_valid = refl

parse-serialize_example : parse (serialize packet ++ (9 ∷ [])) ≡ ok packet
parse-serialize_example = parse-serialize packet (9 ∷ []) packet-IsFibreHeader packet_valid

packet_read : parse (serialize packet ++ []) ≡ ok packet
packet_read = parse-serialize packet [] packet-IsFibreHeader packet_valid

parse-packet_is_valid_example :
    (packet_is_valid packet ≡ true) × (length packet.payload ≤ fibre_max_payload_size)
parse-packet_is_valid_example = parse-packet_is_valid (serialize packet ++ []) packet packet_read

parse-create_ack_example :
    (parse (create_keepalive ++ []) ≡ err bad_header)
    × (parse (create_ack all_sevens 3 ++ []) ≡ err bad_header)
parse-create_ack_example = parse-create_ack all_sevens 3 [] refl (omega arith)

on_packet-to_fec_chunk_example :
    (on_packet (initial all_sevens 800000 fec_params 5000 0) packet 10
      ≡ some (count_duplicate (initial all_sevens 800000 fec_params 5000 0), false))
    × ((to_fec_chunk packet).chunk_id ≡ 0)
unfolding initial FecDecoder.initial is_over eq256 is_fec has_flag
on_packet-to_fec_chunk_example =
    on_packet-to_fec_chunk (initial all_sevens 800000 fec_params 5000 0) packet 0 10 refl refl refl
      refl (omega arith) (omega arith)
