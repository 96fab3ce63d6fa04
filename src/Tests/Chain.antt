-- ===== src/Tests/Chain.antt =====
-- Auxiliary proofs of work, validation and the headers store.
use avalon_miner.Prelude.{
  ℕ, ◌^◌, ◌≤◌, ◌<◌, ◌≡◌, ◌≢◌, ◌↔◌, ◌⊎◌, refl, true, false, some, List, [], ◌∷◌, ◌++◌, arith, length,
  get_elem?,
}
use avalon_miner.Tests.Data.{
  all_sevens, all_sevens-IsHash256, all_nines, header, params, work, commitment,
}
use avalon_miner.Core.Uint256.{Hash256}
use avalon_miner.Core.BlockHeader
use avalon_miner.Core.BlockHeader.{BlockHeader}
use avalon_miner.Core.AuxPow.{
  serialize, find_in_coinbase, at_magic, read_commitment, verify, compute_slot_id, tree_size_for,
  create_commitment,
}
use avalon_miner.Core.AuxPow.Commitment.{
  IsCommitment, NoMagic, find_in_coinbase-serialize, find_in_coinbase_sound,
}
use avalon_miner.Core.AuxPow.Slots.{
  compute_slot_id-lt, tree_size_for-enough, create_commitment_ignores_first,
}
use avalon_miner.Core.AuxPow.Verify.{Proves, verify_iff}
use avalon_miner.Core.Validation.{AuxPowValidationResult, validate, validate_pow}
use avalon_miner.Core.Validation.Work.{Passes, validate_pow_iff}
use avalon_miner.Core.Validation.Auxiliary.{ChainIdFits, validate_iff}
use avalon_miner.Core.Headers.{
  HeadersStore, only_genesis, add_header, push, get_tip_hash, get_by_hash, process_headers,
}
use avalon_miner.Core.Headers.Chain.{
  IsChain, only_genesis-IsChain, add_header-IsChain, add_header-cases, get_by_hash_iff,
}
use avalon_miner.Core.Headers.Process.{Added, process_headers-IsChain, process_headers-Added}
use avalon_miner.Core.Headers.Locator.{get_block_locator, get_block_locator-enough}

commitment-IsCommitment : IsCommitment commitment
commitment-IsCommitment = record {
  root_is = all_sevens-IsHash256;
  size_fits = omega arith;
  nonce_fits = omega arith;
}

no_magic : NoMagic (1 ∷ 2 ∷ []) (serialize commitment ++ (5 ∷ []))
unfolding at_magic
no_magic = (refl, (refl, tt))

found : find_in_coinbase ((1 ∷ 2 ∷ []) ++ (serialize commitment ++ (5 ∷ []))) ≡ some commitment
found = find_in_coinbase-serialize commitment (1 ∷ 2 ∷ []) (5 ∷ []) commitment-IsCommitment no_magic

find_in_coinbase_sound_example :
    (pre : List ℕ) × (rest : List ℕ) × ((1 ∷ 2 ∷ []) ++ (serialize commitment ++ (5 ∷ []))
      ≡ pre ++ rest)
    × NoMagic pre rest
    × (44 ≤ length rest)
    × (at_magic rest ≡ true)
    × (read_commitment rest ≡ commitment)
find_in_coinbase_sound_example =
    find_in_coinbase_sound ((1 ∷ 2 ∷ []) ++ (serialize commitment ++ (5 ∷ []))) commitment found

verify_iff_example : (verify work all_sevens ≡ true) ↔ Proves work all_sevens
verify_iff_example = verify_iff work all_sevens

compute_slot_id-lt_example : compute_slot_id 98 7 16 < 16
compute_slot_id-lt_example = compute_slot_id-lt 98 7 16 (omega arith)

tree_size_for-enough_example : (j : ℕ) × (tree_size_for 5 1 5 ≡ 2 ^ j) × (5 ≤ 2 ^ j)
tree_size_for-enough_example = tree_size_for-enough 5

create_commitment_ignores_first_example :
    create_commitment (all_sevens ∷ all_nines ∷ []) (1 ∷ 2 ∷ [])
    ≡ create_commitment (all_nines ∷ all_nines ∷ []) (1 ∷ 2 ∷ [])
create_commitment_ignores_first_example =
    create_commitment_ignores_first all_sevens all_nines all_nines [] 1 2 []

validate_pow_iff_example : (validate_pow params header ≡ true) ↔ Passes params header
validate_pow_iff_example = validate_pow_iff params header (omega arith)

validate_iff_example :
    (validate params work all_sevens 120 ≡ AuxPowValidationResult.success)
    ↔ ((params.start_height ≤ 120) × (ChainIdFits params work × (verify work all_sevens ≡ true)))
validate_iff_example = validate_iff params work all_sevens 120

abbrev store : HeadersStore
store = only_genesis header

store-IsChain : IsChain store
store-IsChain = only_genesis-IsChain header

-- The header after `header`.
abbrev next : BlockHeader
next = record {
  version = 1;
  prev_hash = BlockHeader.hash header;
  merkle_root = all_nines;
  timestamp = 1700000600;
  bits = 0x1d00ffff;
  nonce = 7;
}

add_header-IsChain_example : IsChain ((add_header store next 1).0)
add_header-IsChain_example = add_header-IsChain store next 1 store-IsChain

add_header-cases_example :
    ((1 ≡ length store.headers)
      × ((next.prev_hash ≡ get_tip_hash store)
          × (add_header store next 1 ≡ (push store next (length store.headers), true))))
    ⊎ (((1 ≢ length store.headers) ⊎ (next.prev_hash ≢ get_tip_hash store))
        × (add_header store next 1 ≡ (store, false)))
add_header-cases_example = add_header-cases store next 1 store-IsChain

get_by_hash_iff_example :
    ((x : BlockHeader) → get_by_hash store all_sevens ≡ some x → BlockHeader.hash x ≡ all_sevens)
    × ((i : ℕ) (x : BlockHeader)
        → get_elem? store.headers i ≡ some x
        → BlockHeader.hash x ≡ all_sevens
        → (y : BlockHeader) × (get_by_hash store all_sevens ≡ some y))
get_by_hash_iff_example = get_by_hash_iff store all_sevens store-IsChain

process_headers-IsChain_example :
    IsChain ((process_headers params store (next ∷ header ∷ [])).store)
process_headers-IsChain_example =
    process_headers-IsChain params store (next ∷ header ∷ []) store-IsChain

process_headers-Added_example :
    Added params store (next ∷ header ∷ []) (process_headers params store (next ∷ header ∷ []))
process_headers-Added_example = process_headers-Added params store (next ∷ header ∷ [])

get_block_locator-enough_example :
    (l : List Hash256) × (get_block_locator 42 store ≡ some l) × (length l ≤ 43)
unfolding only_genesis
get_block_locator-enough_example = get_block_locator-enough store (omega arith) (omega arith)
