-- ===== src/Relay/FecDecoder.antt =====
-- src/relay/fec_decoder.cpp and .hpp: the chunks of a block, and the recovery of a lost one by XOR.
-- A chunk is there exactly if its bit is set in the mask of received chunks, so the two are one list.
-- The masks have room for 256 data chunks and 128 FEC chunks, and `test` throws beyond that.
pub mod Recovery
pub mod Delivery
pub mod Decoding
pub mod Single
pub mod Roundtrip
use avalon_miner.Prelude.{
  ℕ, zero, suc, ◌+◌, ◌-◌, ◌≤◌, Bool, true, false, ◌&&◌, ◌||◌, Option, none, some, List, [], ◌∷◌,
  ◌++◌, min, ltb, leb, ◌==◌, if◌then◌else◌, length, get_or, set, take, replicate,
}
use Prim.Native.Nat.{bit_xor}

abbrev pub max_chunk_size : ℕ
max_chunk_size = 1400

abbrev pub max_data_chunks : ℕ
max_data_chunks = 256

abbrev pub max_fec_chunks : ℕ
max_fec_chunks = 128

-- The bytes of `src` are joined to as many of `dst`.
unfoldable pub xor_bytes : List ℕ → List ℕ → List ℕ
xor_bytes [] src = []
xor_bytes (d ∷ dst) [] = d ∷ dst
xor_bytes (d ∷ dst) (s ∷ src) = bit_xor d s ∷ xor_bytes dst src

unfoldable pub xor_all : List ℕ → List (List ℕ) → List ℕ
xor_all result [] = result
xor_all result (chunk ∷ chunks) = xor_all (xor_bytes result chunk) chunks

unfoldable pub xor_chunks : List (List ℕ) → ℕ → List ℕ
xor_chunks chunks chunk_size = xor_all (replicate chunk_size 0) chunks

pub record FecParams : Type 0 where
  pub data_chunk_count : ℕ
  pub fec_chunk_count : ℕ
  pub chunk_size : ℕ

abbrev pub Slots : Type 0
Slots = List (Option (List ℕ))

pub record FecDecoder : Type 0 where
  pub params : FecParams
  pub data_chunks : Slots
  pub fec_chunks : Slots
  pub data_count : ℕ
  pub fec_count : ℕ

unfoldable pub initial : FecParams → FecDecoder
initial p = record {
  params = p;
  data_chunks = replicate p.data_chunk_count none;
  fec_chunks = replicate p.fec_chunk_count none;
  data_count = 0;
  fec_count = 0;
}

unfoldable pub reset : FecDecoder → FecDecoder
reset d = initial d.params

unfoldable pub reset_with : FecDecoder → FecParams → FecDecoder
reset_with d p = initial p

unfoldable pub is_received : Slots → ℕ → Bool
is_received slots i = elim (get_or slots i none) [ none ↦ false | some _ ↦ true ]

unfoldable pub put_fec : FecDecoder → ℕ → List ℕ → FecDecoder
put_fec d i chunk = record d {
  fec_chunks = set d.fec_chunks i (some chunk);
  fec_count = d.fec_count + 1;
}

unfoldable pub put_data : FecDecoder → ℕ → List ℕ → FecDecoder
put_data d i chunk = record d {
  data_chunks = set d.data_chunks i (some chunk);
  data_count = d.data_count + 1;
}

-- `none` is the exception of `test`.
unfoldable pub add_fec : FecDecoder → ℕ → List ℕ → Option (FecDecoder × Bool)
add_fec d i chunk =
    if leb d.params.fec_chunk_count i
    then some (d, false)
    else (if leb max_fec_chunks i
        then none
        else (if is_received d.fec_chunks i
            then some (d, false)
            else some (put_fec d i chunk, true)))

unfoldable pub add_data : FecDecoder → ℕ → List ℕ → Option (FecDecoder × Bool)
add_data d i chunk =
    if leb d.params.data_chunk_count i
    then some (d, false)
    else (if leb max_data_chunks i
        then none
        else (if is_received d.data_chunks i
            then some (d, false)
            else some (put_data d i chunk, true)))

unfoldable pub add_chunk : FecDecoder → ℕ → Bool → List ℕ → Option (FecDecoder × Bool)
add_chunk d chunk_id is_fec chunk =
    if (length chunk == 0) || ltb max_chunk_size (length chunk)
    then some (d, false)
    else (if is_fec then add_fec d chunk_id chunk else add_data d chunk_id chunk)

unfoldable pub can_decode : FecDecoder → Bool
can_decode d = leb d.params.data_chunk_count (d.data_count + d.fec_count)

unfoldable pub has_all_data_chunks : FecDecoder → Bool
has_all_data_chunks d = leb d.params.data_chunk_count d.data_count

pub record FecDecodeResult : Type 0 where
  pub bytes : List ℕ
  pub data_chunks_used : ℕ
  pub fec_chunks_used : ℕ
  pub chunks_recovered : ℕ

pub data DecodeOutcome : Type 0 where
  decoded : FecDecodeResult → DecodeOutcome
  too_few_chunks : DecodeOutcome
  too_many_lost : DecodeOutcome
  not_recovered : DecodeOutcome
  out_of_range : DecodeOutcome

-- The chunks that are there, end to end.
unfoldable pub gather : Slots → List ℕ
gather [] = []
gather (none ∷ slots) = gather slots
gather (some chunk ∷ slots) = chunk ++ gather slots

-- The places from `i` on that no chunk has come for.
unfoldable pub missing_from : ℕ → Slots → List ℕ
missing_from i [] = []
missing_from i (none ∷ slots) = i ∷ missing_from (i + 1) slots
missing_from i (some _ ∷ slots) = missing_from (i + 1) slots

-- The first FEC chunk that is left, with its place.
unfoldable pub first_fec : ℕ → Slots → Option (ℕ × List ℕ)
first_fec i [] = none
first_fec i (none ∷ slots) = first_fec (i + 1) slots
first_fec i (some chunk ∷ slots) = some (i, chunk)

-- The loop over the data chunks from the place `i` on, but for `missing_idx`.
unfoldable pub xor_others : ℕ → ℕ → List ℕ → Slots → List ℕ
xor_others missing_idx i recovered [] = recovered
xor_others missing_idx i recovered (none ∷ slots) = xor_others missing_idx (i + 1) recovered slots
xor_others missing_idx i recovered (some chunk ∷ slots) =
    xor_others missing_idx (i + 1)
      (if i == missing_idx then recovered else xor_bytes recovered chunk) slots

-- One lost chunk from one FEC chunk, which is used up.
unfoldable pub recover_one : FecDecoder → ℕ → ℕ → List ℕ → FecDecoder
recover_one d missing_idx fec_idx fec = record d {
  data_chunks = set d.data_chunks missing_idx (some (xor_others missing_idx 0 fec d.data_chunks));
  data_count = d.data_count + 1;
  fec_chunks = set d.fec_chunks fec_idx none;
  fec_count = d.fec_count - 1;
}

-- The loop over the lost chunks, with how many have been recovered.
unfoldable pub recover : List ℕ → FecDecoder → ℕ → FecDecoder × ℕ
recover [] d chunks_recovered = (d, chunks_recovered)
recover (missing_idx ∷ missing_chunks) d chunks_recovered = elim (d.fec_count == 0) [
  | true ↦ (d, chunks_recovered)
  | false ↦ elim (first_fec 0 d.fec_chunks) [
    | none ↦ (d, chunks_recovered)
    | some (fec_idx, fec) ↦
        recover missing_chunks (recover_one d missing_idx fec_idx fec) (chunks_recovered + 1)
  ]
]

unfoldable pub collect : FecDecoder → ℕ → DecodeOutcome
collect d chunks_recovered =
    if has_all_data_chunks d
    then decoded (record {
      bytes = gather d.data_chunks;
      data_chunks_used = d.data_count;
      fec_chunks_used = chunks_recovered;
      chunks_recovered = chunks_recovered;
    })
    else not_recovered

unfoldable pub decode_with_fec : FecDecoder → FecDecoder × DecodeOutcome
decode_with_fec d =
    let missing_chunks = missing_from 0 d.data_chunks in
    if ltb 1 (length missing_chunks) && ltb d.fec_count (length missing_chunks)
    then (d, too_many_lost)
    else (let after = recover missing_chunks d 0 in (after.0, collect after.0 after.1))

unfoldable pub decode : FecDecoder → FecDecoder × DecodeOutcome
decode d =
    if has_all_data_chunks d
    then (d, collect d 0)
    else (if can_decode d
        then (if ltb max_data_chunks d.params.data_chunk_count
            then (d, out_of_range)
            else decode_with_fec d)
        else (d, too_few_chunks))

-- The loop over the data chunks, while fewer than `n` bytes are there. No chunk is empty, so for
-- `n` up to 256 it ends before the end of the mask.
unfoldable pub first_bytes : ℕ → List ℕ → Slots → List ℕ
first_bytes n result [] = result
first_bytes n result (none ∷ slots) = result
first_bytes n result (some chunk ∷ slots) =
    let rest =
      first_bytes n (result ++ take (min (n - length result) (length chunk)) chunk) slots in
    if ltb (length result) n then rest else result

unfoldable pub get_first_n_bytes : FecDecoder → ℕ → Option (List ℕ)
get_first_n_bytes d n =
    let result = first_bytes n [] d.data_chunks in
    if n == 0 then some [] else (if ltb (length result) n then none else some result)
