-- ===== src/Relay/BlockReconstructor/States.antt =====
-- What ends a reconstruction, and which packets it refuses.
use avalon_miner.Prelude.{
  ℕ, ◌+◌, ◌^◌, ◌≤◌, ◌<◌, ◌≡◌, refl, ◌⊎◌, true, false, some, List, [], ◌∷◌, arith,
}
use avalon_miner.Core.Uint256.{eq256}
use avalon_miner.Relay.FecDecoder.{FecDecoder, add_chunk, add_fec}
use avalon_miner.Relay.FecDecoder.Delivery.{Sent}
use avalon_miner.Relay.FibreProtocol.{FibrePacket, is_fec, to_fec_chunk}
use avalon_miner.Relay.BlockReconstructor.{
  BlockReconstructor, is_over, with_decoder, count_duplicate, after_adding, on_chunk, on_packet,
  check_timeout, try_complete, receive,
}

-- An FEC chunk beyond their number is no chunk.
add_chunk_beyond :
    (d : FecDecoder) (i : ℕ) (x : List ℕ)
    → d.params.fec_chunk_count ≤ i
    → add_chunk d i true x ≡ some (d, false)
unfolding add_chunk add_fec
add_chunk_beyond d i x h = ground arith

fec_refused :
    (r : BlockReconstructor) (p : FibrePacket) (now : ℕ)
    → is_over r.state ≡ false
    → eq256 p.header.block_hash r.block_hash ≡ true
    → is_fec p.header ≡ true
    → r.fec_decoder.params.fec_chunk_count ≤ p.header.chunk_id
    → on_packet r p now ≡ some (count_duplicate r, false)
unfolding on_packet on_chunk after_adding with_decoder
fec_refused r p now running same fec beyond =
    rw (same, running, fec, add_chunk_beyond r.fec_decoder p.header.chunk_id p.payload beyond) refl

fec_place :
    (p : FibrePacket) (j : ℕ)
    → is_fec p.header ≡ true
    → p.header.chunk_id ≡ p.header.data_chunks + j
    → j < 2 ^ 16
    → (to_fec_chunk p).chunk_id ≡ j
unfolding to_fec_chunk
fec_place p j fec place small = rw fec (omega arith)

-- Of a block with at least as many data chunks as FEC chunks, the packet of the FEC chunk `j`, whose
-- chunk id is the number of data chunks plus `j`, is refused and counted as a duplicate, while its
-- conversion to an FEC chunk gives the place `j`.
pub on_packet-to_fec_chunk :
    (r : BlockReconstructor) (p : FibrePacket) (j now : ℕ)
    → is_over r.state ≡ false
    → eq256 p.header.block_hash r.block_hash ≡ true
    → is_fec p.header ≡ true
    → p.header.chunk_id ≡ p.header.data_chunks + j
    → j < 2 ^ 16
    → r.fec_decoder.params.fec_chunk_count ≤ p.header.data_chunks
    → (on_packet r p now ≡ some (count_duplicate r, false)) × ((to_fec_chunk p).chunk_id ≡ j)
on_packet-to_fec_chunk r p j now running same fec place small fewer =
    (fec_refused r p now running same fec (omega arith), fec_place p j fec place small)

receives :
    (r : BlockReconstructor) (sent : List (Sent × ℕ))
    → is_over r.state ≡ true
    → receive r sent ≡ some r
unfolding receive on_chunk
receives r [] over = refl
receives r ((s, now) ∷ sent) over = rw (receive, over) (receives r sent over)

not_late : (r : BlockReconstructor) (now : ℕ) → is_over r.state ≡ true → check_timeout r now ≡ r
unfolding check_timeout
not_late r now over = rw over refl

completes :
    (r : BlockReconstructor) (now : ℕ)
    → is_over r.state ≡ true
    → (try_complete r now ≡ some (r, true)) ⊎ (try_complete r now ≡ some (r, false))
unfolding try_complete is_over
completes r now over = ground arith

-- Once the reconstruction is over, nothing that is received, checked or tried again changes it.
pub receive-over :
    (r : BlockReconstructor) (sent : List (Sent × ℕ)) (now : ℕ)
    → is_over r.state ≡ true
    → (receive r sent ≡ some r)
      × (check_timeout r now ≡ r)
      × ((try_complete r now ≡ some (r, true)) ⊎ (try_complete r now ≡ some (r, false)))
receive-over r sent now over = (receives r sent over, not_late r now over, completes r now over)
