-- ===== src/Tests/Mining.antt =====
-- Extranonces, jobs and the job manager.
use avalon_miner.Prelude.{◌≤◌, ◌≡◌, refl, true, false, none, some, [], ◌∷◌, ◌++◌, arith, length}
use avalon_miner.Tests.Data.{all_sevens, initial_state-IsState, template}
use avalon_miner.Crypto.Sha256.{initial_state}
use avalon_miner.Mining.Extranonce.{
  ExtrannonceManager, Distinct, assign_extranonce, release_extranonce, get_extranonce,
  assign_extranonce-Distinct, release_extranonce-Distinct,
}
use avalon_miner.Mining.Job.{
  Job, IsJob, as_received, serialize_job, deserialize_job, deserialize_job-serialize_job,
}
use avalon_miner.Mining.JobManager.{JobManager, initial, create_job, get_job}
use avalon_miner.Mining.JobManager.Newest.{get_job-create_job}
use avalon_miner.Bitcoin.Block.{update_extranonce}
use avalon_miner.Prelude.{ℕ, length-replicate, ◌≢◌}
use avalon_miner.Mining.JobManager.Connections.{connections_differ}
use avalon_miner.Mining.JobManager.Calls.{Call, run, run-bound}
use avalon_miner.Prelude.{◌*◌, ◌%◌, ◌/◌, ◌^◌, bit_and, drop}
use avalon_miner.Tests.Data.{
  header, header-IsBlockHeader, all_sevens-IsHash256, all_nines-IsHash256,
}
use avalon_miner.Core.BlockHeader
use avalon_miner.Core.BlockHeader.{IsBlockHeader}
use avalon_miner.Crypto.Sha256.{hash_header_with_midstate, sha256d}
use avalon_miner.Mining.VersionRolling.{
  default_config, apply_rolling, extract_rolling, validate_version, compute_versioned_midstate,
}
use avalon_miner.Mining.VersionRolling.Rolling.{validate_version-apply_rolling}
use avalon_miner.Mining.VersionRolling.Versioned.{with_version, compute_versioned_midstate-sha256d}
use avalon_miner.Prelude.{leb}
use avalon_miner.Mining.Job.{is_stale}
use avalon_miner.Mining.ShareValidator.{
  Floating, ShareValidator, is_valid, validate, check_stale, check_unseen, check_duplicate,
  limit_size, contains, check_target, accept_block, hashed,
}
use avalon_miner.Mining.ShareValidator.Once.{Submission, submit, submit_all, validate_once}

abbrev manager : ExtrannonceManager
manager = record { next_extranonce = 3; connection_extranonces = (10, 1) ∷ (20, 2) ∷ [] }

manager-Distinct : Distinct manager
unfolding get_extranonce
manager-Distinct = record { fresh = λ c e h. ground arith; own = λ c d e g h. ground arith }

assign_extranonce-Distinct_example :
    Distinct ((assign_extranonce manager 30).0)
    × (get_extranonce ((assign_extranonce manager 30).0) 30
        ≡ some ((assign_extranonce manager 30).1))
assign_extranonce-Distinct_example =
    assign_extranonce-Distinct manager 30 manager-Distinct (omega arith)

release_extranonce-Distinct_example :
    Distinct (release_extranonce manager 20)
    × (get_extranonce (release_extranonce manager 20) 20 ≡ none)
release_extranonce-Distinct_example = release_extranonce-Distinct manager 20 manager-Distinct

abbrev job : Job
job = record {
  job_id = 77;
  midstate = initial_state;
  timestamp = 1700000000;
  bits = 0x1d00ffff;
  nonce = 0;
  height = 800000;
  target = all_sevens;
  is_speculative = true;
  created_at = 12;
}

job-IsJob : IsJob job
job-IsJob = record {
  job_id_fits = omega arith;
  midstate_is = initial_state-IsState;
  timestamp_fits = omega arith;
  bits_fits = omega arith;
  nonce_fits = omega arith;
}

deserialize_job-serialize_job_example :
    deserialize_job 50 (serialize_job job ++ (1 ∷ [])) ≡ some (as_received 50 job)
deserialize_job-serialize_job_example = deserialize_job-serialize_job 50 job (1 ∷ []) job-IsJob

abbrev full : JobManager
full = record {
  job_queue_size = 1;
  extranonce_manager = manager;
  current_template = some template;
  is_speculative = false;
  jobs = (77, job) ∷ [];
  next_job_id = 78;
  new_job_callback = true;
  announced = [];
}

get_job-create_job_example :
    get_job ((create_job full template 60).0) full.next_job_id
    ≡ some ((create_job full template 60).1)
get_job-create_job_example =
    get_job-create_job full template 60 (omega arith) ((refl, omega arith), tt)

run-bound_example :
    length
      (run (initial 1) (Call.new_block template true ∷ Call.next_job 5 ∷ Call.next_job 6 ∷ [])).jobs
    ≤ 1
run-bound_example =
    run-bound 1 (Call.new_block template true ∷ Call.next_job 5 ∷ Call.next_job 6 ∷ [])

first_has : get_extranonce manager 10 ≡ some 1
unfolding get_extranonce
first_has = refl

second_has : get_extranonce manager 20 ≡ some 2
unfolding get_extranonce
second_has = refl

connections_differ_example :
    (update_extranonce template 1).coinbase_tx ≢ (update_extranonce template 2).coinbase_tx
connections_differ_example =
    connections_differ manager template 10 20 1 2 manager-Distinct (omega arith)
      (omega (arith, length-replicate {A = ℕ} 110 1)) first_has second_has (omega arith)

validate_version-apply_rolling_example :
    (validate_version default_config (apply_rolling default_config 0x1234) ≡ true)
    × (extract_rolling default_config (apply_rolling default_config 0x1234)
        ≡ bit_and (0x1234 * 2 ^ 13 % 2 ^ 32) default_config.version_mask / 2 ^ 13 % 2 ^ 16)
unfolding default_config
validate_version-apply_rolling_example =
    validate_version-apply_rolling default_config 0x1234 (omega arith)

rolled-IsBlockHeader : IsBlockHeader (with_version header 0x20002000)
rolled-IsBlockHeader = record {
  version_fits = omega arith;
  prev_hash_is = all_sevens-IsHash256;
  merkle_root_is = all_nines-IsHash256;
  timestamp_fits = omega arith;
  bits_fits = omega arith;
  nonce_fits = omega arith;
}

compute_versioned_midstate-sha256d_example :
    hash_header_with_midstate
      (compute_versioned_midstate (BlockHeader.serialize header) 0x20002000)
      (drop 64 (BlockHeader.serialize header))
    ≡ sha256d (BlockHeader.serialize (with_version header 0x20002000))
compute_versioned_midstate-sha256d_example =
    compute_versioned_midstate-sha256d header 0x20002000 rolled-IsBlockHeader header-IsBlockHeader

-- Difficulties of which all reach 0.
abbrev lengths : Floating ℕ
lengths = record { zero_difficulty = 0; target_to_difficulty = length; at_least = λ d p. leb p d }

abbrev new_validator : ShareValidator ℕ
new_validator = record {
  partial_difficulty = 0;
  total_shares = 0;
  blocks_found = 0;
  stale_shares = 0;
  duplicate_shares = 0;
  seen_shares = [];
  valid_block_callback = false;
  called = [];
}

abbrev submitted : ℕ → Submission
submitted nonce = record {
  jobs = full;
  now = job.created_at;
  share = record { job_id = 77; nonce = nonce };
}

first_is_credited : is_valid (submit lengths new_validator (submitted 5)).1 ≡ true
unfolding validate get_job check_stale is_stale check_unseen check_duplicate limit_size contains
    check_target accept_block is_valid hashed
first_is_credited = ground arith

validate_once_example :
    is_valid
      (submit lengths
        (submit_all lengths (submit lengths new_validator (submitted 5)).0 (submitted 6 ∷ []))
        (submitted 5)).1
    ≡ false
validate_once_example =
    validate_once lengths new_validator (submitted 5) (submitted 5) (submitted 6 ∷ []) refl
      (omega arith) first_is_credited
