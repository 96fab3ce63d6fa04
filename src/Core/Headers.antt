-- ===== src/Core/Headers.antt =====
-- src/core/sync/headers_store.cpp and `process_headers` of src/core/sync/headers_sync.cpp: the chain of
-- validated headers and its index by hash.
-- Each method runs under the store's mutex, so that a call is one step.
pub mod Chain
pub mod Locator
pub mod Process
use avalon_miner.Prelude.{
  ℕ, suc, ◌+◌, ◌-◌, ◌%◌, ◌^◌, Bool, true, false, Option, none, some, List, [], ◌∷◌, ◌++◌, ltb, ◌==◌,
  ◌&&◌, not, if◌then◌else◌, length, get_elem?, drop,
}
use avalon_miner.Prelude.Maps.{find, assign}
use avalon_miner.Core.Uint256.{Hash256, eq256, zero_hash}
use avalon_miner.Core.BlockHeader.{BlockHeader}
use avalon_miner.Core.BlockHeader
use avalon_miner.Core.Validation.{ChainParams, validate_pow}

pub record HeadersStore : Type 0 where
  pub genesis : BlockHeader
  pub headers : List BlockHeader
  pub hash_index : List (Hash256 × ℕ)

unfoldable pub genesis_header : ChainParams → BlockHeader
genesis_header params = record {
  version = 1;
  prev_hash = zero_hash;
  merkle_root = zero_hash;
  timestamp = 1231006505;
  bits = params.pow_limit_bits;
  nonce = 2083236893;
}

unfoldable pub only_genesis : BlockHeader → HeadersStore
only_genesis genesis = record {
  genesis = genesis;
  headers = genesis ∷ [];
  hash_index = (BlockHeader.hash genesis, 0) ∷ [];
}

-- The constructor.
unfoldable pub initial : ChainParams → HeadersStore
initial params = only_genesis (genesis_header params)

unfoldable pub clear : HeadersStore → HeadersStore
clear s = only_genesis s.genesis

-- `get_tip`, with `none` for the exception on an empty store.
unfoldable pub get_tip : HeadersStore → Option BlockHeader
get_tip s = get_elem? s.headers (length s.headers - 1)

unfoldable pub get_tip_height : HeadersStore → ℕ
get_tip_height s = if length s.headers == 0 then 0 else (length s.headers - 1) % 2 ^ 32

unfoldable pub get_tip_hash : HeadersStore → Hash256
get_tip_hash s = elim (get_tip s) [ none ↦ zero_hash | some tip ↦ BlockHeader.hash tip ]

unfoldable pub push : HeadersStore → BlockHeader → ℕ → HeadersStore
push s header height = record {
  genesis = s.genesis;
  headers = s.headers ++ (header ∷ []);
  hash_index = assign eq256 (BlockHeader.hash header) height s.hash_index;
}

-- The store after the call, and what it returns.
unfoldable pub add_header : HeadersStore → BlockHeader → ℕ → HeadersStore × Bool
add_header s header height =
    if not (height == length s.headers)
    then (s, false)
    else if ltb 0 height && not (eq256 header.prev_hash (get_tip_hash s))
    then (s, false)
    else (push s header height, true)

unfoldable pub get_by_height : HeadersStore → ℕ → Option BlockHeader
get_by_height s height = get_elem? s.headers height

unfoldable pub get_height : HeadersStore → Hash256 → Option ℕ
get_height s hash = find eq256 hash s.hash_index

unfoldable pub get_by_hash : HeadersStore → Hash256 → Option BlockHeader
get_by_hash s hash = elim (get_height s hash) [
  | none ↦ none
  | some height ↦ get_elem? s.headers height
]

unfoldable pub has_header : HeadersStore → Hash256 → Bool
has_header s hash = elim (get_height s hash) [ none ↦ false | some height ↦ true ]

unfoldable pub get_recent_headers : HeadersStore → ℕ → List BlockHeader
get_recent_headers s count =
    drop (if ltb count (length s.headers) then length s.headers - count else 0) s.headers

-- `HeadersSync::process_headers`: the store, the callback's calls and the result. Headers that
-- were added before one that fails stay.
pub record Processed : Type 0 where
  pub store : HeadersStore
  pub announced : List (BlockHeader × ℕ)
  pub accepted : Bool

unfoldable pub announce : BlockHeader × ℕ → Processed → Processed
announce call p = record { store = p.store; announced = call ∷ p.announced; accepted = p.accepted }

unfoldable pub process_from : ChainParams → HeadersStore → ℕ → List BlockHeader → Processed
process_from params s current [] = record { store = s; announced = []; accepted = true }
process_from params s current (header ∷ rest) =
    let new_height = (current + 1) % 2 ^ 32 in
    let added = add_header s header new_height in
    let after = announce (header, new_height) (process_from params added.0 new_height rest) in
    if not (validate_pow params header)
    then record { store = s; announced = []; accepted = false }
    else if not added.1
    then record { store = added.0; announced = []; accepted = false }
    else after

unfoldable pub process_headers : ChainParams → HeadersStore → List BlockHeader → Processed
process_headers params s headers = process_from params s (get_tip_height s) headers
