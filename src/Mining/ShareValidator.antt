-- ===== src/Mining/ShareValidator.antt =====
-- src/mining/share_validator.cpp: what becomes of a share that a device sends.
-- The job manager, which others change, and the clock are arguments. Difficulties are floating
-- point numbers, of which the code uses the operations in `Floating`. The `std::set` is its numbers
-- in their order; the callback is the list of what it has been called with, newest first.
pub mod Once
use avalon_miner.Prelude.{
  ℕ, ◌+◌, ◌*◌, ◌%◌, ◌^◌, Bool, true, false, Option, none, some, List, [], ◌∷◌, ◌++◌, leb, ltb, ◌==◌,
  if◌then◌else◌, length, drop,
}
use avalon_miner.Prelude.Bytes.{le_bytes32}
use avalon_miner.Core.Uint256.{Hash256, zero_hash}
use avalon_miner.Crypto.Sha256.{hash_header_with_midstate}
use avalon_miner.Bitcoin.Target.{meets_target}
use avalon_miner.Bitcoin.Block.{BlockHeader}
use avalon_miner.Mining.Job.{Job, Share, is_stale}
use avalon_miner.Mining.JobManager.{JobManager, get_job}

pub record Floating (D : Type 0) : Type 0 where
  pub zero_difficulty : D
  pub target_to_difficulty : Hash256 → D
  pub at_least : D → D → Bool

pub data ShareResult : Type 0 where
  valid : ShareResult
  valid_partial : ShareResult
  invalid_nonce : ShareResult
  invalid_job_id : ShareResult
  stale_job : ShareResult
  target_not_met : ShareResult
  duplicate_share : ShareResult

pub record ValidationResult (D : Type 0) : Type 0 where
  pub result : ShareResult
  pub hash : Hash256
  pub job_id : ℕ
  pub nonce : ℕ
  pub difficulty : D

abbrev pub is_result_valid : ShareResult → Bool
is_result_valid valid = true
is_result_valid valid_partial = true
is_result_valid invalid_nonce = false
is_result_valid invalid_job_id = false
is_result_valid stale_job = false
is_result_valid target_not_met = false
is_result_valid duplicate_share = false

unfoldable pub is_valid : {D : Type 0} → ValidationResult D → Bool
is_valid r = is_result_valid r.result

abbrev pub max_seen_shares : ℕ
max_seen_shares = 100000

pub record ShareValidator (D : Type 0) : Type 0 where
  pub partial_difficulty : D
  pub total_shares : ℕ
  pub blocks_found : ℕ
  pub stale_shares : ℕ
  pub duplicate_shares : ℕ
  pub seen_shares : List ℕ
  pub valid_block_callback : Bool
  pub called : List (ValidationResult D × BlockHeader)

unfoldable pub contains : ℕ → List ℕ → Bool
contains key [] = false
contains key (x ∷ seen) = let rest = contains key seen in if key == x then true else rest

unfoldable pub insert : ℕ → List ℕ → List ℕ
insert key [] = key ∷ []
insert key (x ∷ seen) =
    let rest = insert key seen in
    if key == x then x ∷ seen else (if ltb key x then key ∷ x ∷ seen else x ∷ rest)

-- The first tenth goes when the set is full.
unfoldable pub limit_size : List ℕ → List ℕ
limit_size seen = if leb max_seen_shares (length seen) then drop 10000 seen else seen

-- For 32-bit fields, `job_id << 32 | nonce`.
unfoldable pub share_key : Share → ℕ
share_key s = s.job_id * 2 ^ 32 + s.nonce

unfoldable pub check_duplicate : {D : Type 0} → ShareValidator D → Share → ShareValidator D × Bool
check_duplicate v s =
    let seen = limit_size v.seen_shares in
    (record v { seen_shares = insert (share_key s) seen }, contains (share_key s) seen)

-- The header that the callback gets.
unfoldable pub found_header : Job → Share → BlockHeader
found_header job s = record {
  version = 0x20000000;
  prev_block = zero_hash;
  merkle_root = zero_hash;
  timestamp = job.timestamp;
  bits = job.bits;
  nonce = s.nonce;
}

unfoldable pub share_hash : Job → Share → Hash256
share_hash job s =
    hash_header_with_midstate job.midstate
      (le_bytes32 job.timestamp ++ (le_bytes32 job.bits ++ (le_bytes32 s.nonce ++ le_bytes32 0)))

module _ {D : Type 0} (f : Floating D) where
  -- A result without a hash.
  unfoldable pub refused : Share → ShareResult → ValidationResult D
  refused s why = record {
    result = why;
    hash = zero_hash;
    job_id = s.job_id;
    nonce = s.nonce;
    difficulty = f.zero_difficulty;
  }

  unfoldable pub hashed : Job → Share → ShareResult → ValidationResult D
  hashed job s what =
      let hash = share_hash job s in
      record {
        result = what;
        hash = hash;
        job_id = s.job_id;
        nonce = s.nonce;
        difficulty = f.target_to_difficulty hash;
      }

  -- A block is found.
  unfoldable pub accept_block :
      ShareValidator D → Job → Share → ShareValidator D × ValidationResult D
  accept_block v job s =
      let result = hashed job s valid in
      let counted = record v { blocks_found = (v.blocks_found + 1) % 2 ^ 64 } in
      (
        (if v.valid_block_callback
            then record counted { called = (result, found_header job s) ∷ v.called }
            else counted),
        result,
      )

  unfoldable pub check_target :
      ShareValidator D → Job → Share → ShareValidator D × ValidationResult D
  check_target v job s =
      if meets_target (share_hash job s) job.target
      then accept_block v job s
      else (if f.at_least (f.target_to_difficulty (share_hash job s)) v.partial_difficulty
          then (v, hashed job s valid_partial)
          else (v, hashed job s target_not_met))

  unfoldable pub check_unseen :
      ShareValidator D → Job → Share → ShareValidator D × ValidationResult D
  check_unseen v job s =
      let (seen, duplicate) = check_duplicate v s in
      if duplicate
      then (
        record seen { duplicate_shares = (v.duplicate_shares + 1) % 2 ^ 64 },
        refused s duplicate_share,
      )
      else check_target seen job s

  unfoldable pub check_stale :
      ShareValidator D → ℕ → Job → Share → ShareValidator D × ValidationResult D
  check_stale v now job s =
      if is_stale now 60 job
      then (record v { stale_shares = (v.stale_shares + 1) % 2 ^ 64 }, refused s stale_job)
      else check_unseen v job s

  unfoldable pub validate :
      ShareValidator D → JobManager → ℕ → Share → ShareValidator D × ValidationResult D
  validate v m now s =
      let counted = record v { total_shares = (v.total_shares + 1) % 2 ^ 64 } in
      elim (get_job m s.job_id) [
        | none ↦ (counted, refused s invalid_job_id)
        | some job ↦ check_stale counted now job s
      ]

unfoldable pub reset_stats : {D : Type 0} → ShareValidator D → ShareValidator D
reset_stats v = record v {
  total_shares = 0;
  blocks_found = 0;
  stale_shares = 0;
  duplicate_shares = 0;
  seen_shares = [];
}
