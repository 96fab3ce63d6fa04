-- ===== src/Core/AuxPow/Verify.antt =====
-- What `AuxPow::verify` accepts.
use avalon_miner.Prelude.{◌≡◌, ◌≤◌, ◌↔◌, true, some, arith, inl, inr, Option-cases}
use avalon_miner.Core.Uint256.{Hash256, eq256}
use avalon_miner.Core.Uint256.Order.{eq256_iff}
use avalon_miner.Core.Uint256.Value.{value}
use avalon_miner.Core.Target.Expand.{expanded}
use avalon_miner.Core.BlockHeader
use avalon_miner.Core.BlockHeader.ProofOfWork.{check_pow_iff}
use avalon_miner.Core.Merkle.{compute_root}
use avalon_miner.Core.AuxPow.{
  AuxPow, AuxPowCommitment, find_in_coinbase, verify, verify_pow, aux_root_matches,
}

-- What an auxiliary proof of work must show for the hash of an auxiliary block.
pub record Proves (a : AuxPow) (aux_hash : Hash256) : Type 0 where
  pub commitment : AuxPowCommitment
  pub coinbase_in_parent :
      compute_root a.coinbase_branch a.coinbase_hash ≡ a.parent_header.merkle_root
  pub committed : find_in_coinbase a.coinbase_tx ≡ some commitment
  pub aux_in_tree : compute_root a.aux_branch aux_hash ≡ commitment.aux_merkle_root
  pub parent_work : value (BlockHeader.hash a.parent_header) ≤ expanded a.parent_header.bits

-- `verify` accepts exactly when the coinbase hash leads to the parent's merkle root, the coinbase
-- transaction holds a commitment, the auxiliary hash leads to the committed root, and the
-- parent's hash is at most its own target.
pub verify_iff : (a : AuxPow) (aux_hash : Hash256) → (verify a aux_hash ≡ true) ↔ Proves a aux_hash
unfolding verify verify_pow aux_root_matches
verify_iff a aux_hash = (accepted, complete)
  where
    accepted : verify a aux_hash ≡ true → Proves a aux_hash
    accepted e = elim (Option-cases (find_in_coinbase a.coinbase_tx)) [
      | inl missing ↦ absurd (ground arith)
      | inr (c, found) ↦
          let coinbase : eq256 (compute_root a.coinbase_branch a.coinbase_hash)
                a.parent_header.merkle_root
              ≡ true =
            ground arith in
          let aux : eq256 (compute_root a.aux_branch aux_hash) c.aux_merkle_root ≡ true =
            ground arith in
          let work : BlockHeader.check_pow a.parent_header ≡ true = ground arith in
          record {
            commitment = c;
            coinbase_in_parent = (eq256_iff _ _).0 coinbase;
            committed = found;
            aux_in_tree = (eq256_iff _ _).0 aux;
            parent_work = (check_pow_iff a.parent_header).0 work;
          }
    ]

    complete : Proves a aux_hash → verify a aux_hash ≡ true
    complete p =
        rw ((eq256_iff _ _).1 p.coinbase_in_parent, p.committed, (eq256_iff _ _).1 p.aux_in_tree)
          ((check_pow_iff a.parent_header).1 p.parent_work)
