-- ===== src/Mining/TemplateCache.antt =====
-- src/mining/template_cache.cpp: the template that is mined and the one prepared for the next block.
-- A method is a function from the cache to the cache behind the call.
pub mod Built
use avalon_miner.Prelude.{ℕ, ◌+◌, ◌%◌, ◌^◌, Bool, true, false, Option, none, some, List, [], ◌∷◌}
use avalon_miner.Core.Uint256.{Hash256, zero_hash}
use avalon_miner.Bitcoin.Target.{bits_to_target}
use avalon_miner.Bitcoin.Block.{BlockHeader, BlockTemplate, header_midstate_of}
use avalon_miner.Bitcoin.Coinbase.{CoinbaseBuilder, build_with_midstate, compute_txid}

abbrev pub block_version : ℕ
block_version = 0x20000000

pub record TemplateCache : Type 0 where
  pub coinbase_builder : CoinbaseBuilder
  pub current_template : Option BlockTemplate
  pub precomputed_template : Option BlockTemplate
  pub current_extranonce : ℕ

unfoldable pub template_cache : CoinbaseBuilder → TemplateCache
template_cache builder = record {
  coinbase_builder = builder;
  current_template = none;
  precomputed_template = none;
  current_extranonce = 0;
}

-- What a call says of the block that is to be mined.
pub record Block : Type 0 where
  pub prev_hash : Hash256
  pub height : ℕ
  pub bits : ℕ
  pub timestamp : ℕ
  pub coinbase_value : ℕ

unfoldable pub template_header : Block → Hash256 → BlockHeader
template_header k root = record {
  version = block_version;
  prev_block = k.prev_hash;
  merkle_root = root;
  timestamp = k.timestamp;
  bits = k.bits;
  nonce = 0;
}

-- `create_template`, with the extranonce of the cache as an argument.
unfoldable pub create_template : CoinbaseBuilder → Block → ℕ → BlockTemplate
create_template builder k extranonce =
    let (coinbase, coinbase_midstate) =
      build_with_midstate builder k.height k.coinbase_value extranonce in
    let header = template_header k (compute_txid coinbase) in
    record {
      height = k.height;
      header = header;
      header_midstate = header_midstate_of header;
      coinbase_tx = coinbase;
      coinbase_midstate = coinbase_midstate;
      target = bits_to_target k.bits;
      coinbase_value = k.coinbase_value;
      is_speculative = false;
    }

unfoldable pub update_template : TemplateCache → Block → TemplateCache
update_template c k =
    let extranonce = (c.current_extranonce + 1) % 2 ^ 64 in
    record c {
      current_extranonce = extranonce;
      current_template = some (create_template c.coinbase_builder k extranonce);
    }

-- The block after the current one: no previous hash, ten minutes later, the same reward.
unfoldable pub next_block : BlockTemplate → ℕ → ℕ → Block
next_block t estimated_next_height estimated_bits = record {
  prev_hash = zero_hash;
  height = estimated_next_height;
  bits = estimated_bits;
  timestamp = (t.header.timestamp + 600) % 2 ^ 32;
  coinbase_value = t.coinbase_value;
}

unfoldable pub precompute_next : TemplateCache → ℕ → ℕ → TemplateCache
precompute_next c estimated_next_height estimated_bits = elim c.current_template [
  | none ↦ c
  | some t ↦ record c {
    precomputed_template = some (
        create_template c.coinbase_builder (next_block t estimated_next_height estimated_bits)
          c.current_extranonce);
  }
]

unfoldable pub activate_precomputed : TemplateCache → TemplateCache × Bool
activate_precomputed c = elim c.precomputed_template [
  | none ↦ (c, false)
  | some t ↦ (record c { current_template = some t; precomputed_template = none }, true)
]

unfoldable pub clear : TemplateCache → TemplateCache
clear c = record c { current_template = none; precomputed_template = none }

unfoldable pub current_height : TemplateCache → ℕ
current_height c = elim c.current_template [ none ↦ 0 | some t ↦ t.height ]

-- A call that changes the cache.
pub data Call : Type 0 where
  update : Block → Call
  precompute : ℕ → ℕ → Call
  activate : Call
  empty : Call

unfoldable pub after_call : TemplateCache → Call → TemplateCache
after_call c (update k) = update_template c k
after_call c (precompute height bits) = precompute_next c height bits
after_call c activate = (activate_precomputed c).0
after_call c empty = clear c

unfoldable pub run : TemplateCache → List Call → TemplateCache
run c [] = c
run c (call ∷ calls) = run (after_call c call) calls
