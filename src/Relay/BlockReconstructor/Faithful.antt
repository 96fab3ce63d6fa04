-- ===== src/Relay/BlockReconstructor/Faithful.antt =====
-- With one FEC chunk the block that comes out is the block that was sent.
use avalon_miner.Prelude.{
  ℕ, ◌-◌, ◌≤◌, ◌≡◌, refl, ap, ◌∙◌, ◌⊎◌, inl, inr, Bool, true, false, Option, none, some, List, [],
  ◌∷◌, arith, length, All, Bool-cases, option_both,
}
use avalon_miner.Core.Uint256.{Hash256}
use avalon_miner.Bitcoin.Block.{BlockHeader}
use avalon_miner.Bitcoin.Block
use avalon_miner.Relay.FecDecoder.{
  FecParams, FecDecoder, Slots, DecodeOutcome, decoded, too_few_chunks, too_many_lost,
  not_recovered, out_of_range, FecDecodeResult, add_chunk, can_decode, decode, xor_chunks,
  max_data_chunks, get_first_n_bytes, add_fec, add_data, put_fec, put_data,
}
use avalon_miner.Relay.FecDecoder
use avalon_miner.Relay.FecDecoder.Recovery.{IsChunk}
use avalon_miner.Relay.FecDecoder.Delivery.{
  concat, Carries, Sent, IsTrue, count_present, add_chunk-Carries,
}
use avalon_miner.Relay.FecDecoder.Decoding.{Decodes}
use avalon_miner.Relay.FecDecoder.Roundtrip.{decode-Carries, initial-Carries}
use avalon_miner.Relay.BlockReconstructor.{
  ReconstructionState, complete, BlockReconstructor, is_over, store_header, try_extract_header,
  header_of_block, store_block, with_decoder, after_decoding, try_decode_block, count_chunk,
  count_duplicate, after_adding, on_chunk, initial, returning, receive,
}

count_present-le : (slots : Slots) → count_present slots ≤ length slots
count_present-le [] = omega arith
count_present-le (none ∷ slots) = omega (arith, count_present-le slots)
count_present-le (some x ∷ slots) = omega (arith, count_present-le slots)

-- The block, if it is there, is the one sent; until it is there, the decoder knows nothing false.
pub record IsFaithful (size : ℕ) (cs : List (List ℕ)) (r : BlockReconstructor) : Type 0 where
  pub open_ :
      is_over r.state ≡ false
      → Carries cs (xor_chunks cs size) r.fec_decoder × (r.fec_decoder.params.fec_chunk_count ≤ 1)
  pub block : (r.block_data ≡ none) ⊎ (r.block_data ≡ some (concat cs))

add_chunk-params :
    (d : FecDecoder) (i : ℕ) (chunk_is_fec : Bool) (x : List ℕ) (d' : FecDecoder) (added : Bool)
    → add_chunk d i chunk_is_fec x ≡ some (d', added)
    → d'.params.fec_chunk_count ≡ d.params.fec_chunk_count
unfolding add_chunk add_fec add_data put_fec put_data
add_chunk-params d i chunk_is_fec x d' added e = ground arith

-- What looking for the header leaves alone.
record SameWork (r s : BlockReconstructor) : Type 0 where
  decoder : s.fec_decoder ≡ r.fec_decoder
  block : s.block_data ≡ r.block_data
  still : is_over r.state ≡ false → is_over s.state ≡ false

store_header-SameWork :
    (r : BlockReconstructor) (now : ℕ) (h : BlockHeader) → SameWork r (store_header r now h)
unfolding store_header is_over
store_header-SameWork r now h = record { decoder = refl; block = refl; still = λ _. refl }

unchanged : (r : BlockReconstructor) → SameWork r r
unchanged r = record { decoder = refl; block = refl; still = λ e. e }

try_extract_header-SameWork :
    (r : BlockReconstructor) (now : ℕ) → SameWork r (try_extract_header r now)
unfolding try_extract_header
try_extract_header-SameWork r now =
    option_both (SameWork r) r.header _ _
      (option_both (SameWork r) (get_first_n_bytes r.fec_decoder 80) _ _ (unchanged r) λ bytes.
        option_both (SameWork r) (Block.deserialize bytes) _ _ (unchanged r)
          (store_header-SameWork r now))
      λ _. unchanged r

count_chunk-SameWork :
    (r : BlockReconstructor) (chunk_is_fec : Bool) → SameWork r (count_chunk r chunk_is_fec)
unfolding count_chunk
count_chunk-SameWork r true = record { decoder = refl; block = refl; still = λ e. e }
count_chunk-SameWork r false = record { decoder = refl; block = refl; still = λ e. e }

header_of_block-kept :
    (r : BlockReconstructor) (now : ℕ) (block : List ℕ)
    → ((header_of_block r now block).block_data ≡ r.block_data)
      × ((header_of_block r now block).state ≡ r.state)
unfolding header_of_block
header_of_block-kept r now block = ground arith

store_block-kept :
    (r : BlockReconstructor) (now : ℕ) (result : FecDecodeResult)
    → ((store_block r now result).block_data ≡ some result.bytes)
      × ((store_block r now result).state ≡ complete)
unfolding store_block
store_block-kept r now result =
    let stored : BlockReconstructor = record r {
      block_data = some result.bytes;
      stats = record r.stats { chunks_recovered = result.chunks_recovered; complete_time = now };
      state = complete;
    } in
    ground (arith, header_of_block-kept stored now result.bytes)

module _ (size : ℕ) (cs : List (List ℕ)) (chunks : All (IsChunk size) cs)
    (few : length cs ≤ max_data_chunks) where
  -- With one FEC chunk, enough chunks are all chunks but one.
  enough-Decodes :
      (d : FecDecoder)
      → Carries cs (xor_chunks cs size) d
      → d.params.fec_chunk_count ≤ 1
      → can_decode d ≡ true
      → Decodes (concat cs) (length cs - d.data_count) (decode d).1
  unfolding can_decode
  enough-Decodes d h single enough =
      let number = h.chunks in
      let counted = h.fec_counted in
      let fec_size = h.fec_size in
      decode-Carries size cs chunks few d h (ground (arith, count_present-le d.fec_chunks)) enough

  abbrev Goes : Option (BlockReconstructor × Bool) → Type 0
  Goes o = (r : BlockReconstructor) × (b : Bool) × (o ≡ some (r, b)) × IsFaithful size cs r

  store_block-IsFaithful :
      (r : BlockReconstructor) (now : ℕ) (result : FecDecodeResult)
      → result.bytes ≡ concat cs
      → IsFaithful size cs (store_block r now result)
  unfolding is_over
  store_block-IsFaithful r now result e =
      let kept = store_block-kept r now result in
      record { open_ = λ running. absurd (over kept.1 running); block = inr (kept.0 ∙ ap some e) }
    where
      over : {s : ReconstructionState} → s ≡ complete → is_over s ≡ false → ⊥
      over e f = let ended = ap is_over e in cc

  try_decode_block-Goes :
      (r : BlockReconstructor) (now : ℕ)
      → IsFaithful size cs r
      → is_over r.state ≡ false
      → Goes (try_decode_block r now)
  unfolding try_decode_block after_decoding
  try_decode_block-Goes r now f running = elim (Bool-cases (can_decode r.fec_decoder)) [
    | inr more ↦ rw more (r, false, refl, f)
    | inl enough ↦
        let held = f.open_ running in
        let (result, outcome, block, _) = enough-Decodes r.fec_decoder held.0 held.1 enough in
        let with_new : BlockReconstructor = with_decoder r (decode r.fec_decoder).0 in
        rw (enough, outcome)
          (
            store_block with_new now result,
            true,
            refl,
            store_block-IsFaithful with_new now result block,
          )
  ]

  after_adding-Goes :
      (r : BlockReconstructor) (chunk_is_fec : Bool) (now : ℕ) (d : FecDecoder) (added : Bool)
      → (r.block_data ≡ none) ⊎ (r.block_data ≡ some (concat cs))
      → is_over r.state ≡ false
      → Carries cs (xor_chunks cs size) d
      → d.params.fec_chunk_count ≤ 1
      → Goes (after_adding r chunk_is_fec now (d, added))
  unfolding after_adding with_decoder count_duplicate
  after_adding-Goes r chunk_is_fec now d false block running held single =
      (_, false, refl, record { open_ = λ _. (held, single); block = block })
  after_adding-Goes r chunk_is_fec now d true block running held single =
      let s : BlockReconstructor = count_chunk (with_decoder r d) chunk_is_fec in
      let counted : SameWork (with_decoder r d) s =
        count_chunk-SameWork (with_decoder r d) chunk_is_fec in
      let t : BlockReconstructor = try_extract_header s now in
      let read : SameWork s t = try_extract_header-SameWork s now in
      let decoder : t.fec_decoder ≡ d = read.decoder ∙ counted.decoder in
      let faithful : IsFaithful size cs t = record {
        open_ = λ _. rw decoder (held, single);
        block = rw (read.block, counted.block) block;
      } in
      let (r', b, step, f) =
        try_decode_block-Goes t now faithful (read.still (counted.still running)) in
      (r', true, ap (returning true) step, f)

  -- Whatever chunk of the block or FEC chunk comes next, it is taken without an exception, and the
  -- block is still the one sent.
  on_chunk-IsFaithful :
      (r : BlockReconstructor) (s : Sent) (now : ℕ)
      → IsFaithful size cs r
      → IsTrue cs (xor_chunks cs size) s
      → Goes (on_chunk r s.chunk_id s.is_fec s.bytes now)
  unfolding on_chunk
  on_chunk-IsFaithful r s now f true_one = elim (Bool-cases (is_over r.state)) [
    | inl over ↦ rw over (r, false, refl, f)
    | inr running ↦
        let held = f.open_ running in
        let (d, added, step, carried) =
          add_chunk-Carries cs (xor_chunks cs size) few r.fec_decoder s.chunk_id s.is_fec s.bytes
            held.0 true_one in
        let same = add_chunk-params r.fec_decoder s.chunk_id s.is_fec s.bytes d added step in
        let limit = held.1 in
        rw (running, step)
          (after_adding-Goes r s.is_fec now d added f.block running carried (omega arith))
  ]

  receive-IsFaithful :
      (r : BlockReconstructor) (sent : List (Sent × ℕ))
      → IsFaithful size cs r
      → All (λ (x : Sent × ℕ). IsTrue cs (xor_chunks cs size) x.0) sent
      → (r' : BlockReconstructor) × (receive r sent ≡ some r') × IsFaithful size cs r'
  unfolding receive
  receive-IsFaithful r [] f t = (r, refl, f)
  receive-IsFaithful r ((s, now) ∷ sent) f t =
      let (r', b, step, f') = on_chunk-IsFaithful r s now f t.0 in
      let (last, rest, g) = receive-IsFaithful r' sent f' t.1 in (last, rw (step, receive) rest, g)

-- Of a block of equally long chunks that is sent with one FEC chunk, whatever chunks are received,
-- in any order, some lost and some twice, the reconstructor takes them without an exception, and
-- the block that it has put together, if it has one, is the block that was sent.
pub receive-block :
    (size : ℕ) (cs : List (List ℕ)) (p : FecParams) (block_hash : Hash256)
    (height timeout_ms start : ℕ) (sent : List (Sent × ℕ))
    → All (IsChunk size) cs
    → p.data_chunk_count ≡ length cs
    → length cs ≤ max_data_chunks
    → p.fec_chunk_count ≤ 1
    → All (λ (x : Sent × ℕ). IsTrue cs (xor_chunks cs size) x.0) sent
    → (r : BlockReconstructor) × (receive (initial block_hash height p timeout_ms start) sent
        ≡ some r)
      × ((r.block_data ≡ none) ⊎ (r.block_data ≡ some (concat cs)))
unfolding initial FecDecoder.initial
receive-block size cs p block_hash height timeout_ms start sent chunks number few single true_all =
    let (r, received, f) =
      receive-IsFaithful size cs chunks few (initial block_hash height p timeout_ms start) sent
        (record {
          open_ = λ _. (initial-Carries p cs (xor_chunks cs size) number (omega arith), single);
          block = inl refl;
        })
        true_all in
    (r, received, f.block)
