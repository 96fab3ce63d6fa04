-- ===== src/Core/Validation.antt =====
-- src/core/validation/pow_validator.cpp and auxpow_validator.cpp: the checks of a header and of an
-- auxiliary proof of work against the parameters of a chain.
-- (`calculate_next_target` returns its first argument, and is not modelled.)
pub mod Work
pub mod Auxiliary
use avalon_miner.Prelude.{
  ℕ, ◌/◌, ◌^◌, Bool, true, false, Option, none, some, bit_and, leb, ◌==◌, ◌&&◌, not, if◌then◌else◌,
}
use avalon_miner.Core.Uint256.{Hash256, le256, eq256}
use avalon_miner.Core.Target.{bits_to_target}
use avalon_miner.Core.BlockHeader.{BlockHeader}
use avalon_miner.Core.BlockHeader
use avalon_miner.Core.Merkle.{compute_root}
use avalon_miner.Core.AuxPow.{AuxPow, AuxPowCommitment, find_in_coinbase, aux_root_matches}
use avalon_miner.Core.AuxPow

-- The fields of `ChainParams` that the validators and the headers store read: `difficulty`'s limit
-- and `auxpow`'s chain id and starting height.
pub record ChainParams : Type 0 where
  pub pow_limit_bits : ℕ
  pub chain_id : ℕ
  pub start_height : ℕ

unfoldable pub validate_bits : ChainParams → ℕ → Bool
validate_bits params bits =
    if not (le256 (bits_to_target bits) (bits_to_target params.pow_limit_bits))
    then false
    else if not (bit_and bits 0x00800000 == 0)
    then false
    else if bit_and bits 0x007fffff == 0 && (bits / 2 ^ 24) == 0
    then false
    else true

unfoldable pub validate_pow : ChainParams → BlockHeader → Bool
validate_pow params header =
    if not (validate_bits params header.bits) then false else BlockHeader.check_pow header

-- `AuxPowValidationResult`: success, or the message of the failure.
pub data AuxPowValidationResult : Type 0 where
  success : AuxPowValidationResult
  not_active : AuxPowValidationResult
  coinbase_branch_invalid : AuxPowValidationResult
  commitment_not_found : AuxPowValidationResult
  aux_branch_invalid : AuxPowValidationResult
  chain_id_mismatch : AuxPowValidationResult
  parent_pow_invalid : AuxPowValidationResult

unfoldable pub is_active : ChainParams → ℕ → Bool
is_active params height = leb params.start_height height

unfoldable pub validate_coinbase_branch : AuxPow → AuxPowValidationResult
validate_coinbase_branch a =
    if not (eq256 (compute_root a.coinbase_branch a.coinbase_hash) a.parent_header.merkle_root)
    then AuxPowValidationResult.coinbase_branch_invalid
    else AuxPowValidationResult.success

unfoldable pub validate_aux_branch : AuxPow → Hash256 → AuxPowValidationResult
validate_aux_branch a aux_hash = elim (find_in_coinbase a.coinbase_tx) [
  | none ↦ AuxPowValidationResult.commitment_not_found
  | some c ↦
      if not (eq256 (compute_root a.aux_branch aux_hash) c.aux_merkle_root)
      then AuxPowValidationResult.aux_branch_invalid
      else AuxPowValidationResult.success
]

unfoldable pub validate_chain_id : ChainParams → AuxPow → AuxPowValidationResult
validate_chain_id params a =
    let parent = AuxPow.get_chain_id a in
    if not (parent == 0) && not (parent == params.chain_id)
    then AuxPowValidationResult.chain_id_mismatch
    else AuxPowValidationResult.success

-- `if (!result) return result;`, and on success the rest.
infix 20 ◌then_check◌
unfoldable pub ◌then_check◌ :
    AuxPowValidationResult → AuxPowValidationResult → AuxPowValidationResult
AuxPowValidationResult.success then_check rest = rest
AuxPowValidationResult.not_active then_check rest = AuxPowValidationResult.not_active
AuxPowValidationResult.coinbase_branch_invalid then_check rest =
    AuxPowValidationResult.coinbase_branch_invalid
AuxPowValidationResult.commitment_not_found then_check rest =
    AuxPowValidationResult.commitment_not_found
AuxPowValidationResult.aux_branch_invalid then_check rest =
    AuxPowValidationResult.aux_branch_invalid
AuxPowValidationResult.chain_id_mismatch then_check rest = AuxPowValidationResult.chain_id_mismatch
AuxPowValidationResult.parent_pow_invalid then_check rest =
    AuxPowValidationResult.parent_pow_invalid

unfoldable pub validate_parent_pow : AuxPow → AuxPowValidationResult
validate_parent_pow a =
    if not (AuxPow.verify_pow a)
    then AuxPowValidationResult.parent_pow_invalid
    else AuxPowValidationResult.success

unfoldable pub validate_required_chain_id : ChainParams → AuxPow → AuxPowValidationResult
validate_required_chain_id params a =
    if not (params.chain_id == 0)
    then validate_chain_id params a
    else AuxPowValidationResult.success

unfoldable pub validate : ChainParams → AuxPow → Hash256 → ℕ → AuxPowValidationResult
validate params a aux_hash height =
    if not (is_active params height)
    then AuxPowValidationResult.not_active
    else (validate_coinbase_branch a then_check (
        validate_aux_branch a aux_hash
        then_check (validate_required_chain_id params a then_check validate_parent_pow a)))
