-- ===== src/Tests/Bitcoin.antt =====
-- The compact targets and the block template of the Bitcoin side.
use avalon_miner.Prelude.{
  List, ℕ, ◌*◌, ◌≡◌, ◌≢◌, ◌⊎◌, refl, arith, ◌^◌, ◌-◌, ◌/◌, ◌%◌, length-replicate,
}
use avalon_miner.Tests.Data.{all_sevens, all_sevens-IsHash256, all_nines, template}
use avalon_miner.Core.Uint256.{le256}
use avalon_miner.Core.Uint256.Value.{value}
use avalon_miner.Core.Target
use avalon_miner.Bitcoin.Target.{bits_to_target, target_to_bits, meets_target}
use avalon_miner.Bitcoin.Target.Shift.{bits_to_target-value, core_is_larger}
use avalon_miner.Bitcoin.Target.Agreement.{meets_target-le256, target_to_bits-cases}
use avalon_miner.Bitcoin.Block.{update_extranonce}
use avalon_miner.Bitcoin.Block.Coinbase.{update_extranonce_distinct}
use avalon_miner.Prelude.{◌↔◌, [], ◌∷◌, replicate}
use avalon_miner.Bitcoin.Block.{coinbase_with}
use avalon_miner.Bitcoin.Coinbase.{CoinbaseBuilder, build, create_coinbase_scriptsig}
use avalon_miner.Bitcoin.Coinbase.Bytes.{coinbase_with-build}
use avalon_miner.Bitcoin.Coinbase.Script.{declared_script, declared_script_iff}
use avalon_miner.Bitcoin.Block.{BlockTemplate}
use avalon_miner.Mining.TemplateCache.{
  Block, Call, update, precompute, activate, create_template, next_block, run, after_call,
  update_template, precompute_next, activate_precomputed, template_cache,
}
use avalon_miner.Mining.TemplateCache.Built.{IsWork, run-IsWork}

bits_to_target-value_example :
    value (bits_to_target 0x1b0404cb) ≡ 0x1b0404cb % 2 ^ 23 * 256 ^ (0x1b0404cb / 2 ^ 24 - 5)
bits_to_target-value_example =
    bits_to_target-value 0x1b0404cb (omega arith) refl (omega arith) (omega arith)

core_is_larger_example :
    value (Target.bits_to_target 0x1b0404cb) ≡ 65536 * value (bits_to_target 0x1b0404cb)
core_is_larger_example = core_is_larger 0x1b0404cb (omega arith) refl (omega arith) (omega arith)

meets_target-le256_example : meets_target all_sevens all_nines ≡ le256 all_sevens all_nines
meets_target-le256_example = meets_target-le256 all_sevens all_nines

target_to_bits-cases_example :
    ((value all_sevens ≢ 0) × (target_to_bits all_sevens ≡ Target.target_to_bits all_sevens))
    ⊎ ((value all_sevens ≡ 0)
        × (target_to_bits all_sevens ≡ 0)
        × (Target.target_to_bits all_sevens ≡ 0x01000000))
target_to_bits-cases_example = target_to_bits-cases all_sevens all_sevens-IsHash256

update_extranonce_distinct_example :
    (update_extranonce template 5).coinbase_tx ≢ (update_extranonce template 6).coinbase_tx
update_extranonce_distinct_example =
    update_extranonce_distinct template 5 6 (omega (arith, length-replicate {A = ℕ} 110 1))
      (omega arith) (omega arith) (omega arith)

abbrev builder : CoinbaseBuilder
builder = record { pubkey_hash = replicate 20 5; coinbase_tag = 113 ∷ 117 ∷ [] }

coinbase_with-build_example :
    coinbase_with 77 (build builder 800000 312500000 5) ≡ build builder 800000 312500000 77
coinbase_with-build_example = coinbase_with-build builder 800000 312500000 77 5 refl

declared_script_iff_example :
    (declared_script (build builder 800000 312500000 7)
      ≡ create_coinbase_scriptsig 800000 builder.coinbase_tag 7)
    ↔ (◌≡◌ {A = ℕ} 7 0)
declared_script_iff_example = declared_script_iff builder 800000 312500000 7 (omega arith)

abbrev genesis_work : Block
genesis_work = record {
  prev_hash = replicate 32 9;
  height = 800000;
  bits = 0x1d00ffff;
  timestamp = 1700000000;
  coinbase_value = 312500000;
}

abbrev cache_calls : List Call
cache_calls = update genesis_work ∷ precompute 800001 0x1d00ffff ∷ activate ∷ []

-- What the cache hands out after these calls.
abbrev handed_out : BlockTemplate
handed_out =
    create_template builder (next_block (create_template builder genesis_work 1) 800001 0x1d00ffff)
      1

run-IsWork_example : IsWork builder 42 (update_extranonce handed_out 42)
unfolding run after_call update_template precompute_next activate_precomputed template_cache
run-IsWork_example = run-IsWork builder cache_calls handed_out 42 refl refl
