-- ===== src/Relay/BlockReconstructor.antt =====
-- src/relay/block_reconstructor.cpp and .hpp: a block put together from its chunks. Each method is
-- one step under the mutex, at the clock value `now` in nanoseconds. A callback is kept as whether it
-- is set, with what it was called with. `none` stands for the exception that the decoder throws.
pub mod States
pub mod Faithful
use avalon_miner.Prelude.{
  ℕ, ◌+◌, ◌-◌, ◌/◌, ◌%◌, ◌^◌, Bool, true, false, not, Option, none, some, List, [], ◌∷◌, ◌++◌, ltb,
  leb, ◌==◌, if◌then◌else◌, length, take,
}
use avalon_miner.Core.Uint256.{Hash256, eq256}
use avalon_miner.Bitcoin.Block.{BlockHeader}
use avalon_miner.Bitcoin.Block
use avalon_miner.Relay.FecDecoder.{
  FecParams, FecDecoder, DecodeOutcome, decoded, too_few_chunks, too_many_lost, not_recovered,
  out_of_range, FecDecodeResult, add_chunk, can_decode, decode, get_first_n_bytes,
}
use avalon_miner.Relay.FecDecoder
use avalon_miner.Relay.FecDecoder.Delivery.{Sent}
use avalon_miner.Relay.FibreProtocol.{FibrePacket, is_fec}

pub data ReconstructionState : Type 0 where
  waiting : ReconstructionState
  header_received : ReconstructionState
  complete : ReconstructionState
  timed_out : ReconstructionState
  failed : ReconstructionState

pub record ReconstructionStats : Type 0 where
  pub start_time : ℕ
  pub header_time : ℕ
  pub complete_time : ℕ
  pub data_chunks_received : ℕ
  pub fec_chunks_received : ℕ
  pub chunks_recovered : ℕ
  pub duplicates : ℕ

pub record BlockReconstructor : Type 0 where
  pub block_hash : Hash256
  pub height : ℕ
  pub fec_decoder : FecDecoder
  pub timeout_ms : ℕ
  pub state : ReconstructionState
  pub stats : ReconstructionStats
  pub header : Option BlockHeader
  pub block_data : Option (List ℕ)
  pub header_callback : Bool
  pub headers_announced : List BlockHeader
  pub block_callback : Bool
  pub blocks_announced : List (List ℕ)
  pub timeout_callback : Bool
  pub timeouts_announced : ℕ

unfoldable pub initial : Hash256 → ℕ → FecParams → ℕ → ℕ → BlockReconstructor
initial block_hash height params timeout_ms now = record {
  block_hash = block_hash;
  height = height;
  fec_decoder = FecDecoder.initial params;
  timeout_ms = timeout_ms;
  state = waiting;
  stats = record {
    start_time = now;
    header_time = 0;
    complete_time = 0;
    data_chunks_received = 0;
    fec_chunks_received = 0;
    chunks_recovered = 0;
    duplicates = 0;
  };
  header = none;
  block_data = none;
  header_callback = false;
  headers_announced = [];
  block_callback = false;
  blocks_announced = [];
  timeout_callback = false;
  timeouts_announced = 0;
}

-- Complete, timed out or failed.
unfoldable pub is_over : ReconstructionState → Bool
is_over waiting = false
is_over header_received = false
is_over complete = true
is_over timed_out = true
is_over failed = true

unfoldable pub store_header : BlockReconstructor → ℕ → BlockHeader → BlockReconstructor
store_header r now h = record r {
  header = some h;
  stats = record r.stats { header_time = now };
  state = header_received;
  headers_announced =
      if r.header_callback then r.headers_announced ++ (h ∷ []) else r.headers_announced;
}

unfoldable pub try_extract_header : BlockReconstructor → ℕ → BlockReconstructor
try_extract_header r now = elim r.header [
  | some _ ↦ r
  | none ↦ elim (get_first_n_bytes r.fec_decoder 80) [
    | none ↦ r
    | some first_bytes ↦ elim (Block.deserialize first_bytes) [
      | none ↦ r
      | some h ↦ store_header r now h
    ]
  ]
]

-- The header out of the whole block, where none has been found before.
unfoldable pub header_of_block : BlockReconstructor → ℕ → List ℕ → BlockReconstructor
header_of_block r now block = elim r.header [
  | some _ ↦ r
  | none ↦ elim (if leb 80 (length block) then Block.deserialize (take 80 block) else none) [
    | none ↦ r
    | some h ↦ record r {
      header = some h;
      stats = record r.stats {
        header_time = if r.stats.header_time == 0 then now else r.stats.header_time;
      };
    }
  ]
]

unfoldable pub store_block : BlockReconstructor → ℕ → FecDecodeResult → BlockReconstructor
store_block r now result =
    let stored = record r {
      block_data = some result.bytes;
      stats = record r.stats { chunks_recovered = result.chunks_recovered; complete_time = now };
      state = complete;
    } in
    let read = header_of_block stored now result.bytes in
    if read.block_callback
    then record read { blocks_announced = read.blocks_announced ++ (result.bytes ∷ []) }
    else read

unfoldable pub with_decoder : BlockReconstructor → FecDecoder → BlockReconstructor
with_decoder r d = record r { fec_decoder = d }

unfoldable pub after_decoding :
    BlockReconstructor → ℕ → DecodeOutcome → Option (BlockReconstructor × Bool)
after_decoding r now (decoded result) = some (store_block r now result, true)
after_decoding r now out_of_range = none
after_decoding r now too_few_chunks = some (record r { state = failed }, false)
after_decoding r now too_many_lost = some (record r { state = failed }, false)
after_decoding r now not_recovered = some (record r { state = failed }, false)

unfoldable pub try_decode_block : BlockReconstructor → ℕ → Option (BlockReconstructor × Bool)
try_decode_block r now =
    if not (can_decode r.fec_decoder)
    then some (r, false)
    else (let result = decode r.fec_decoder in
        after_decoding (with_decoder r result.0) now result.1)

unfoldable pub count_chunk : BlockReconstructor → Bool → BlockReconstructor
count_chunk r chunk_is_fec =
    if chunk_is_fec
    then record r {
      stats = record r.stats { fec_chunks_received = r.stats.fec_chunks_received + 1 };
    }
    else record r {
      stats = record r.stats { data_chunks_received = r.stats.data_chunks_received + 1 };
    }

unfoldable pub count_duplicate : BlockReconstructor → BlockReconstructor
count_duplicate r = record r { stats = record r.stats { duplicates = r.stats.duplicates + 1 } }

-- What the block's own attempt returns is not looked at.
abbrev pub returning :
    Bool → Option (BlockReconstructor × Bool) → Option (BlockReconstructor × Bool)
returning b none = none
returning b (some (r, _)) = some (r, b)

unfoldable pub after_adding :
    BlockReconstructor → Bool → ℕ → FecDecoder × Bool → Option (BlockReconstructor × Bool)
after_adding r chunk_is_fec now (d, added) =
    if added
    then returning true (
        try_decode_block (try_extract_header (count_chunk (with_decoder r d) chunk_is_fec) now) now)
    else some (count_duplicate (with_decoder r d), false)

unfoldable pub on_chunk :
    BlockReconstructor → ℕ → Bool → List ℕ → ℕ → Option (BlockReconstructor × Bool)
on_chunk r chunk_id chunk_is_fec bytes now =
    if is_over r.state
    then some (r, false)
    else elim (add_chunk r.fec_decoder chunk_id chunk_is_fec bytes) [
      | none ↦ none
      | some added ↦ after_adding r chunk_is_fec now added
    ]

unfoldable pub on_packet : BlockReconstructor → FibrePacket → ℕ → Option (BlockReconstructor × Bool)
on_packet r p now =
    if not (eq256 p.header.block_hash r.block_hash)
    then some (r, false)
    else on_chunk r p.header.chunk_id (is_fec p.header) p.payload now

-- `static_cast<uint32_t>(elapsed) >= timeout_ms_`, of milliseconds.
unfoldable pub has_timed_out : BlockReconstructor → ℕ → Bool
has_timed_out r now = leb r.timeout_ms ((now - r.stats.start_time) / 10 ^ 6 % 2 ^ 32)

unfoldable pub check_timeout : BlockReconstructor → ℕ → BlockReconstructor
check_timeout r now =
    if is_over r.state
    then r
    else (if has_timed_out r now
        then record r {
          state = timed_out;
          timeouts_announced =
              if r.timeout_callback then r.timeouts_announced + 1 else r.timeouts_announced;
        }
        else r)

unfoldable pub try_complete : BlockReconstructor → ℕ → Option (BlockReconstructor × Bool)
try_complete r now = elim r.state [
  | complete ↦ some (r, true)
  | timed_out ↦ some (r, false)
  | failed ↦ some (r, false)
  | waiting ↦ try_decode_block r now
  | header_received ↦ try_decode_block r now
]

-- Chunks in a row, each with its time.
unfoldable pub receive : BlockReconstructor → List (Sent × ℕ) → Option BlockReconstructor
receive r [] = some r
receive r ((s, now) ∷ sent) = elim (on_chunk r s.chunk_id s.is_fec s.bytes now) [
  | none ↦ none
  | some (r', _) ↦ receive r' sent
]
