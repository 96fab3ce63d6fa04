-- ===== src/Mining/JobManager.antt =====
-- src/mining/job_manager.cpp: the current template, the jobs that were handed out, and the
-- extranonces of the connections. Each method is one step under the mutex. `now` is the clock's
-- value at the call. The callback for new jobs is kept as whether it is set, with the jobs that it
-- was called with; no method calls the one for found blocks.
pub mod Queue
pub mod Newest
pub mod Calls
pub mod Connections
use avalon_miner.Prelude.{
  ℕ, zero, suc, ◌+◌, ◌%◌, ◌^◌, Bool, true, false, Option, none, some, List, [], ◌∷◌, ◌++◌, ltb,
  ◌==◌, if◌then◌else◌, length, map,
}
use avalon_miner.Prelude.Maps.{find, assign, erase}
use avalon_miner.Bitcoin.Block.{BlockTemplate, update_extranonce}
use avalon_miner.Mining.Extranonce.{ExtrannonceManager}
use avalon_miner.Mining.Extranonce
use avalon_miner.Mining.Job.{Job}

pub record JobManager : Type 0 where
  pub job_queue_size : ℕ
  pub extranonce_manager : ExtrannonceManager
  pub current_template : Option BlockTemplate
  pub is_speculative : Bool
  pub jobs : List (ℕ × Job)
  pub next_job_id : ℕ
  pub new_job_callback : Bool
  pub announced : List Job

-- Extranonces start from 1.
unfoldable pub initial : ℕ → JobManager
initial job_queue_size = record {
  job_queue_size = job_queue_size;
  extranonce_manager = Extranonce.start_from 1;
  current_template = none;
  is_speculative = false;
  jobs = [];
  next_job_id = 1;
  new_job_callback = false;
  announced = [];
}

unfoldable pub job_of : JobManager → BlockTemplate → ℕ → Job
job_of m t now = record {
  job_id = m.next_job_id;
  midstate = t.header_midstate;
  timestamp = t.header.timestamp;
  bits = t.header.bits;
  nonce = 0;
  height = t.height;
  target = t.target;
  is_speculative = m.is_speculative;
  created_at = now;
}

-- `std::min_element` by job id: the first entry with the least.
unfoldable pub oldest : List (ℕ × Job) → Option (ℕ × Job)
oldest [] = none
oldest (entry ∷ jobs) = elim (oldest jobs) [
  | none ↦ some entry
  | some later ↦ some (if ltb later.1.job_id entry.1.job_id then later else entry)
]

-- `jobs.erase(oldest)`
unfoldable pub erase_oldest : List (ℕ × Job) → List (ℕ × Job)
erase_oldest jobs = elim (oldest jobs) [ none ↦ jobs | some entry ↦ erase ◌==◌ entry.0 jobs ]

-- `jobs[job.job_id] = job`, and the bound on their number.
unfoldable pub store_job : ℕ → Job → List (ℕ × Job) → List (ℕ × Job)
store_job limit job jobs =
    let stored = assign ◌==◌ job.job_id job jobs in
    if ltb limit (length stored) then erase_oldest stored else stored

-- `create_job` from the current template, which its callers have found, or from the updated copy
-- of it.
unfoldable pub create_job : JobManager → BlockTemplate → ℕ → JobManager × Job
create_job m t now = (
  record {
    job_queue_size = m.job_queue_size;
    extranonce_manager = m.extranonce_manager;
    current_template = m.current_template;
    is_speculative = m.is_speculative;
    jobs = store_job m.job_queue_size (job_of m t now) m.jobs;
    next_job_id = (m.next_job_id + 1) % 2 ^ 32;
    new_job_callback = m.new_job_callback;
    announced = m.announced;
  },
  job_of m t now,
)

unfoldable pub create_job_with_extranonce : JobManager → BlockTemplate → ℕ → ℕ → JobManager × Job
create_job_with_extranonce m t extranonce now = create_job m (update_extranonce t extranonce) now

-- `if (new_job_callback) new_job_callback(job); return job;`
unfoldable pub call_back : JobManager × Job → JobManager × Option Job
call_back (m, job) = (
  record {
    job_queue_size = m.job_queue_size;
    extranonce_manager = m.extranonce_manager;
    current_template = m.current_template;
    is_speculative = m.is_speculative;
    jobs = m.jobs;
    next_job_id = m.next_job_id;
    new_job_callback = m.new_job_callback;
    announced = if m.new_job_callback then m.announced ++ (job ∷ []) else m.announced;
  },
  some job,
)

-- The manager with other template, flag and jobs.
unfoldable pub with_block : JobManager → Option BlockTemplate → Bool → List (ℕ × Job) → JobManager
with_block m t speculative jobs = record {
  job_queue_size = m.job_queue_size;
  extranonce_manager = m.extranonce_manager;
  current_template = t;
  is_speculative = speculative;
  jobs = jobs;
  next_job_id = m.next_job_id;
  new_job_callback = m.new_job_callback;
  announced = m.announced;
}

unfoldable pub on_new_block : JobManager → BlockTemplate → Bool → JobManager
on_new_block m t speculative = with_block m (some t) speculative []

unfoldable pub confirmed_template : BlockTemplate → BlockTemplate
confirmed_template t = record {
  height = t.height;
  header = t.header;
  header_midstate = t.header_midstate;
  coinbase_tx = t.coinbase_tx;
  coinbase_midstate = t.coinbase_midstate;
  target = t.target;
  coinbase_value = t.coinbase_value;
  is_speculative = false;
}

unfoldable pub confirmed_job : Job → Job
confirmed_job j = record {
  job_id = j.job_id;
  midstate = j.midstate;
  timestamp = j.timestamp;
  bits = j.bits;
  nonce = j.nonce;
  height = j.height;
  target = j.target;
  is_speculative = false;
  created_at = j.created_at;
}

unfoldable pub confirm_all : List (ℕ × Job) → List (ℕ × Job)
confirm_all jobs = map (λ entry. (entry.0, confirmed_job entry.1)) jobs

unfoldable pub confirm_speculative_block : JobManager → JobManager
confirm_speculative_block m = elim m.current_template [
  | none ↦ m
  | some t ↦ with_block m (some (confirmed_template t)) false (confirm_all m.jobs)
]

unfoldable pub invalidate_speculative_block : JobManager → JobManager
invalidate_speculative_block m = if m.is_speculative then with_block m none false [] else m

unfoldable pub get_next_job : JobManager → ℕ → JobManager × Option Job
get_next_job m now = elim m.current_template [
  | none ↦ (m, none)
  | some t ↦ call_back (create_job m t now)
]

unfoldable pub get_next_job_for_connection : JobManager → ℕ → ℕ → JobManager × Option Job
get_next_job_for_connection m connection_id now = elim m.current_template [
  | none ↦ (m, none)
  | some t ↦ elim (Extranonce.get_extranonce m.extranonce_manager connection_id) [
    | none ↦ (m, none)
    | some extranonce ↦ call_back (create_job_with_extranonce m t extranonce now)
  ]
]

unfoldable pub get_job : JobManager → ℕ → Option Job
get_job m job_id = find ◌==◌ job_id m.jobs

unfoldable pub with_extranonces : JobManager → ExtrannonceManager → JobManager
with_extranonces m e = record {
  job_queue_size = m.job_queue_size;
  extranonce_manager = e;
  current_template = m.current_template;
  is_speculative = m.is_speculative;
  jobs = m.jobs;
  next_job_id = m.next_job_id;
  new_job_callback = m.new_job_callback;
  announced = m.announced;
}

unfoldable pub register_connection : JobManager → ℕ → JobManager × ℕ
register_connection m connection_id =
    let assigned = Extranonce.assign_extranonce m.extranonce_manager connection_id in
    (with_extranonces m assigned.0, assigned.1)

unfoldable pub unregister_connection : JobManager → ℕ → JobManager
unregister_connection m connection_id =
    with_extranonces m (Extranonce.release_extranonce m.extranonce_manager connection_id)

unfoldable pub current_height : JobManager → ℕ
current_height m = elim m.current_template [ none ↦ 0 | some t ↦ t.height ]
