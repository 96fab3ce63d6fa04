-- ===== src/Mining/JobManager/Calls.antt =====
-- Sequences of calls of the job manager.
use avalon_miner.Prelude.{
  ℕ, ◌≤◌, ◌≡◌, refl, Bool, Option, none, List, [], ◌∷◌, arith, length, length-map, if_both,
  option_both,
}
use avalon_miner.Bitcoin.Block.{BlockTemplate, update_extranonce}
use avalon_miner.Mining.Extranonce
use avalon_miner.Mining.Job.{Job}
use avalon_miner.Mining.JobManager.{
  JobManager, initial, job_of, create_job, create_job_with_extranonce, call_back, get_next_job,
  get_next_job_for_connection, on_new_block, with_block, confirm_speculative_block, confirm_all,
  confirmed_job, invalidate_speculative_block, register_connection, unregister_connection,
  with_extranonces,
}
use avalon_miner.Mining.JobManager.Queue.{store_job-bound}

-- The calls that change the manager, those that read the clock with its value.
pub data Call : Type 0 where
  new_block : BlockTemplate → Bool → Call
  confirm invalidate : Call
  next_job : ℕ → Call
  next_job_for : ℕ → ℕ → Call
  register unregister : ℕ → Call

unfoldable pub step : JobManager → Call → JobManager
step m (new_block t speculative) = on_new_block m t speculative
step m confirm = confirm_speculative_block m
step m invalidate = invalidate_speculative_block m
step m (next_job now) = (get_next_job m now).0
step m (next_job_for connection_id now) = (get_next_job_for_connection m connection_id now).0
step m (register connection_id) = (register_connection m connection_id).0
step m (unregister connection_id) = unregister_connection m connection_id

unfoldable pub run : JobManager → List Call → JobManager
run m [] = m
run m (c ∷ cs) = run (step m c) cs

-- The jobs are within the limit, and the limit is `q`.
abbrev Within : ℕ → JobManager → Type 0
Within q m = (m.job_queue_size ≡ q) × (length m.jobs ≤ q)

create_job-Within :
    (q : ℕ) (m : JobManager) (t : BlockTemplate) (now : ℕ)
    → Within q m
    → Within q ((create_job m t now).0)
unfolding create_job
create_job-Within q m t now (e, h) =
    (e, omega (arith, store_job-bound m.job_queue_size (job_of m t now) m.jobs (omega arith)))

call_back-Within :
    (q : ℕ) (made : JobManager × Job) → Within q (made.0) → Within q ((call_back made).0)
unfolding call_back
call_back-Within q (m, job) h = h

length-confirm_all : (jobs : List (ℕ × Job)) → length (confirm_all jobs) ≡ length jobs
unfolding confirm_all
length-confirm_all jobs = length-map {B = ℕ × Job} (λ entry. (entry.0, confirmed_job entry.1)) jobs

step-Within : (q : ℕ) (m : JobManager) (c : Call) → Within q m → Within q (step m c)
unfolding step on_new_block with_block confirm_speculative_block invalidate_speculative_block
    get_next_job get_next_job_for_connection create_job_with_extranonce register_connection
    unregister_connection with_extranonces
step-Within q m (new_block t speculative) (e, h) = (e, omega arith)
step-Within q m confirm (e, h) =
    option_both (Within q) m.current_template m _ (e, h)
      (λ t. (e, omega (arith, length-confirm_all m.jobs)))
step-Within q m invalidate (e, h) = if_both (Within q) m.is_speculative _ m (e, omega arith) (e, h)
step-Within q m (next_job now) (e, h) =
    option_both (λ (r : JobManager × Option Job). Within q (r.0)) m.current_template (m, none) _
      (e, h) (λ t. call_back-Within q (create_job m t now) (create_job-Within q m t now (e, h)))
step-Within q m (next_job_for c now) (e, h) =
    option_both (λ (r : JobManager × Option Job). Within q (r.0)) m.current_template (m, none) _
      (e, h)
      (λ t.
        option_both (λ (r : JobManager × Option Job). Within q (r.0))
          (Extranonce.get_extranonce m.extranonce_manager c) (m, none) _ (e, h)
          (λ x.
            call_back-Within q (create_job m (update_extranonce t x) now)
              (create_job-Within q m (update_extranonce t x) now (e, h))))
step-Within q m (register c) (e, h) = (e, h)
step-Within q m (unregister c) (e, h) = (e, h)

run-Within : (q : ℕ) (m : JobManager) (cs : List Call) → Within q m → Within q (run m cs)
unfolding run
run-Within q m [] h = h
run-Within q m (c ∷ cs) h = run-Within q (step m c) cs (step-Within q m c h)

-- After any sequence of calls, a manager that was made for `q` jobs keeps at most `q`.
pub run-bound : (q : ℕ) (calls : List Call) → length (run (initial q) calls).jobs ≤ q
unfolding initial
run-bound q calls = (run-Within q (initial q) calls (refl, omega arith)).1
