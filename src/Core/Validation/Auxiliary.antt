-- ===== src/Core/Validation/Auxiliary.antt =====
-- What `AuxPowValidator::validate` accepts.
use avalon_miner.Prelude.{ℕ, ◌≤◌, ◌≡◌, ◌↔◌, ◌⊎◌, inl, inr, true, arith, Option-cases}
use avalon_miner.Core.Uint256.{Hash256}
use avalon_miner.Core.AuxPow.{AuxPow, find_in_coinbase, verify, aux_root_matches}
use avalon_miner.Core.AuxPow
use avalon_miner.Core.Validation.{
  ChainParams, AuxPowValidationResult, validate, validate_coinbase_branch, validate_aux_branch,
  validate_chain_id, validate_required_chain_id, validate_parent_pow, is_active, ◌then_check◌,
}

-- The parent's chain id is that of the chain or 0, unless the chain names none.
abbrev pub ChainIdFits : ChainParams → AuxPow → Type 0
ChainIdFits params a =
    (params.chain_id ≡ 0)
    ⊎ ((AuxPow.get_chain_id a ≡ 0) ⊎ (AuxPow.get_chain_id a ≡ params.chain_id))

then_check_iff :
    (r s : AuxPowValidationResult)
    → ((r then_check s) ≡ AuxPowValidationResult.success)
      ↔ ((r ≡ AuxPowValidationResult.success) × (s ≡ AuxPowValidationResult.success))
unfolding ◌then_check◌
then_check_iff AuxPowValidationResult.success s = ground arith
then_check_iff AuxPowValidationResult.not_active s = ground arith
then_check_iff AuxPowValidationResult.coinbase_branch_invalid s = ground arith
then_check_iff AuxPowValidationResult.commitment_not_found s = ground arith
then_check_iff AuxPowValidationResult.aux_branch_invalid s = ground arith
then_check_iff AuxPowValidationResult.chain_id_mismatch s = ground arith
then_check_iff AuxPowValidationResult.parent_pow_invalid s = ground arith

chain_id_iff :
    (params : ChainParams) (a : AuxPow)
    → (validate_required_chain_id params a ≡ AuxPowValidationResult.success) ↔ ChainIdFits params a
unfolding validate_required_chain_id validate_chain_id
chain_id_iff params a = (λ h. ground arith, λ h. ground arith)

-- The checks of branches and work together are the parent's `verify`.
checks_iff :
    (a : AuxPow) (aux_hash : Hash256)
    → (verify a aux_hash ≡ true) ↔ (
        (validate_coinbase_branch a ≡ AuxPowValidationResult.success)
        × ((validate_aux_branch a aux_hash ≡ AuxPowValidationResult.success)
            × (validate_parent_pow a ≡ AuxPowValidationResult.success)))
unfolding verify validate_coinbase_branch validate_aux_branch validate_parent_pow aux_root_matches
checks_iff a aux_hash = elim (Option-cases (find_in_coinbase a.coinbase_tx)) [
  | inl e ↦ ground arith
  | inr (c, e) ↦ ground arith
]

-- The validator accepts exactly when auxiliary proof of work is active at the height, the parent's
-- chain id fits, and `AuxPow::verify` accepts.
pub validate_iff :
    (params : ChainParams) (a : AuxPow) (aux_hash : Hash256) (height : ℕ)
    → (validate params a aux_hash height ≡ AuxPowValidationResult.success)
      ↔ ((params.start_height ≤ height) × (ChainIdFits params a × (verify a aux_hash ≡ true)))
unfolding validate is_active
validate_iff params a aux_hash height =
    let c₁ = then_check_iff (validate_coinbase_branch a) (
      validate_aux_branch a aux_hash
      then_check (validate_required_chain_id params a then_check validate_parent_pow a)) in
    let c₂ =
      then_check_iff (validate_aux_branch a aux_hash)
        (validate_required_chain_id params a then_check validate_parent_pow a) in
    let c₃ = then_check_iff (validate_required_chain_id params a) (validate_parent_pow a) in
    let i = chain_id_iff params a in
    let v = checks_iff a aux_hash in
    (
      λ h.
          let e₁ = c₁.0 (ground arith) in
          let e₂ = c₂.0 e₁.1 in
          let e₃ = c₃.0 e₂.1 in (ground arith, (i.0 e₃.0, v.1 (e₁.0, (e₂.0, e₃.1)))),
      λ p.
          let w = v.0 p.1.1 in
          let e = c₁.1 (w.0, c₂.1 (w.1.0, c₃.1 (i.1 p.1.0, w.1.1))) in ground arith,
    )
