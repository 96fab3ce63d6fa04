-- ===== src/Fallback/Manager.antt =====
-- src/fallback/fallback_manager.cpp: which of the three sources of jobs is used. A method is a
-- function from the manager to the manager behind the call, for calls that do not overlap. The code
-- does not keep them apart: the switching part of `check_health`, `switch_to_fallback`, `set_mode`,
-- `start` and `stop` run without the mutex. `finish_switch` is the part of a switch that reads the
-- mode again, so that a call of another thread before it can be written down.
pub mod Sound
pub mod Modes
pub mod Ending
pub mod Sources
pub mod Silence
pub mod Changes
use avalon_miner.Prelude.{
  ℕ, ◌+◌, ◌-◌, ◌/◌, ◌%◌, ◌^◌, Bool, true, false, ◌&&◌, ◌||◌, not, Option, none, some, List, [], ◌∷◌,
  ltb, if◌then◌else◌,
}
use avalon_miner.Fallback.Health.{SourceHealth, answer, succeeded, failed, job_received}
use avalon_miner.Fallback.StratumClient.{
  StratumClient, ConnectError, is_connected, disconnect, lose, connect, ends_program,
}
use avalon_miner.Fallback.State.{
  FallbackMode, primary_shm, fallback_zmq, fallback_stratum, same_mode, FallbackManager,
  Observation, call_back,
}

-- More than the timeout has passed since the last success; a success in the future is none.
unfoldable pub timed_out : FallbackManager → ℕ → Bool
timed_out m now = ltb m.primary_timeout ((now - m.shm_health.last_success) / 10 ^ 6)

unfoldable pub check_shm : FallbackManager → Observation → SourceHealth
check_shm m o =
    if answer o.shm_check
    then succeeded m.shm_health o.now
    else failed m.shm_health o.now (if timed_out m o.now then false else m.shm_health.available)

unfoldable pub check_zmq : FallbackManager → Observation → SourceHealth
check_zmq m o =
    if m.zmq_enabled
    then (if answer o.zmq_check
        then succeeded m.zmq_health o.now
        else failed m.zmq_health o.now false)
    else m.zmq_health

unfoldable pub check_stratum : FallbackManager → Observation → SourceHealth
check_stratum m o = elim m.stratum_client [
  | none ↦ m.stratum_health
  | some c ↦
      if is_connected c
      then succeeded m.stratum_health o.now
      else failed m.stratum_health o.now false
]

-- The three checks at the start of `check_health`.
unfoldable pub check_sources : FallbackManager → Observation → FallbackManager
check_sources m o = record m {
  shm_health = check_shm m o;
  zmq_health = check_zmq m o;
  stratum_health = check_stratum m o;
}

unfoldable pub is_stratum_connected : FallbackManager → Bool
is_stratum_connected m = elim m.stratum_client [ none ↦ false | some c ↦ is_connected c ]

unfoldable pub enter_zmq : FallbackManager → FallbackManager
enter_zmq m = record m {
  mode = fallback_zmq;
  stats = record m.stats { zmq_switches = (m.stats.zmq_switches + 1) % 2 ^ 64 };
}

unfoldable pub enter_stratum : FallbackManager → FallbackManager
enter_stratum m = record m {
  mode = fallback_stratum;
  stats = record m.stats { stratum_switches = (m.stats.stratum_switches + 1) % 2 ^ 64 };
}

-- `stratum_client->connect()`, which may end the program.
unfoldable pub attempted : FallbackManager → StratumClient × Option ConnectError → FallbackManager
attempted m r = record m {
  stratum_client = some r.0;
  terminated = ends_program r.1 || m.terminated;
}

-- A connected client at the second look.
unfoldable pub second_look : StratumClient → Observation → StratumClient
second_look c o = if o.lost_meanwhile then lose c else c

-- The attempt of a client that is not connected, with the mark of its health.
unfoldable pub connect_stratum : FallbackManager → Observation → FallbackManager
connect_stratum m o = elim m.stratum_client [
  | none ↦ m
  | some c ↦
      if is_connected c
      then record m { stratum_client = some (second_look c o) }
      else (elim (connect c o.attempt).1 [
        | none ↦ record (attempted m (connect c o.attempt)) {
          stratum_health = record m.stratum_health { available = true; last_success = o.later };
        }
        | some _ ↦ attempted m (connect c o.attempt)
      ])
]

-- The branches of `switch_to_best_fallback`, up to the comparison of the modes.
unfoldable pub choose_fallback : FallbackManager → Observation → FallbackManager
choose_fallback m o =
    if m.zmq_enabled && m.zmq_health.available then enter_zmq m else elim m.stratum_client [
      | none ↦ m
      | some _ ↦
          let tried = connect_stratum m o in
          if is_stratum_connected tried then enter_stratum tried else tried
    ]

-- From the second reading of the mode on.
unfoldable pub finish_switch : FallbackMode → FallbackManager → Observation → FallbackManager
finish_switch old_mode m o =
    if not (same_mode m.mode old_mode)
    then call_back (record m { fallback_started = o.later }) old_mode m.mode
    else m

unfoldable pub switch_to_best_fallback : FallbackManager → Observation → FallbackManager
switch_to_best_fallback m o = finish_switch m.mode (choose_fallback m o) o

unfoldable pub leave_for_stratum : FallbackManager → FallbackManager
leave_for_stratum m =
    let left = enter_stratum m in
    if not (same_mode m.mode fallback_stratum) then call_back left m.mode fallback_stratum else left

-- A failed connection leaves the mode as it is; after a successful one it is not looked at again.
unfoldable pub switch_to_stratum : FallbackManager → Observation → FallbackManager
switch_to_stratum m o = elim m.stratum_client [
  | none ↦ m
  | some c ↦ if is_connected c then leave_for_stratum m else (elim (connect c o.attempt).1 [
    | none ↦ leave_for_stratum (attempted m (connect c o.attempt))
    | some _ ↦ attempted m (connect c o.attempt)
  ])
]

-- A client that has lost its connection is left as it is.
unfoldable pub disconnect_stratum : FallbackManager → FallbackManager
disconnect_stratum m = elim m.stratum_client [
  | none ↦ m
  | some c ↦ if is_connected c then record m { stratum_client = some (disconnect c) } else m
]

-- The start of the fallback lies in the past, so the difference is not negative.
unfoldable pub leave_fallback : FallbackManager → ℕ → FallbackManager
leave_fallback m later = record m {
  mode = primary_shm;
  stats = record m.stats {
    primary_restorations = (m.stats.primary_restorations + 1) % 2 ^ 64;
    fallback_duration_seconds =
        (m.stats.fallback_duration_seconds + (later - m.fallback_started) / 10 ^ 9) % 2 ^ 64;
  };
}

unfoldable pub restore_primary : FallbackManager → Observation → FallbackManager
restore_primary m o =
    if same_mode m.mode primary_shm
    then m
    else call_back (disconnect_stratum (leave_fallback m o.later)) m.mode primary_shm

unfoldable pub is_zmq : FallbackMode → Bool
is_zmq mode = same_mode mode fallback_zmq

-- The switching at the end of `check_health`.
unfoldable pub switch_mode : FallbackManager → Observation → FallbackManager
switch_mode m o =
    if same_mode m.mode primary_shm
    then (if not m.shm_health.available then switch_to_best_fallback m o else m)
    else (if m.shm_health.available
        then restore_primary m o
        else (if is_zmq m.mode && not m.zmq_health.available then switch_to_stratum m o else m))

unfoldable pub check_health : FallbackManager → Observation → FallbackManager
check_health m o = switch_mode (check_sources m o) o

-- The shared memory counts as available from the start.
unfoldable pub start : FallbackManager → ℕ → FallbackManager
start m now = if m.running then m else record m {
  running = true;
  shm_health = record m.shm_health { available = true; last_success = now };
}

unfoldable pub stop : FallbackManager → FallbackManager
stop m = elim m.stratum_client [
  | none ↦ record m { running = false }
  | some c ↦ record m { running = false; stratum_client = some (disconnect c) }
]

unfoldable pub signal_job_received : FallbackManager → ℕ → FallbackManager
signal_job_received m now = elim m.mode [
  | primary_shm ↦ record m {
    shm_health = record (job_received m.shm_health now) {
      consecutive_failures = 0;
      available = true;
    };
  }
  | fallback_zmq ↦ record m { zmq_health = job_received m.zmq_health now }
  | fallback_stratum ↦ record m { stratum_health = job_received m.stratum_health now }
]

unfoldable pub try_restore_primary : FallbackManager → Observation → FallbackManager
try_restore_primary m o = if m.shm_health.available then restore_primary m o else m

unfoldable pub set_mode : FallbackManager → FallbackMode → FallbackManager
set_mode m mode =
    let changed = record m { mode = mode } in
    if not (same_mode m.mode mode) then call_back changed m.mode mode else changed

-- The connection to the pool ends, as the client's reading thread finds.
unfoldable pub lose_connection : FallbackManager → FallbackManager
lose_connection m = elim m.stratum_client [
  | none ↦ m
  | some c ↦ record m { stratum_client = some (lose c) }
]

-- What can happen to a manager, one at a time.
pub data Operation : Type 0 where
  check : Observation → Operation
  fall_back : Observation → Operation
  try_restore : Observation → Operation
  job : ℕ → Operation
  begin : ℕ → Operation
  end : Operation
  force : FallbackMode → Operation
  drop_connection : Operation

unfoldable pub perform_live : FallbackManager → Operation → FallbackManager
perform_live m (check o) = check_health m o
perform_live m (fall_back o) = switch_to_best_fallback m o
perform_live m (try_restore o) = try_restore_primary m o
perform_live m (job now) = signal_job_received m now
perform_live m (begin now) = start m now
perform_live m end = stop m
perform_live m (force mode) = set_mode m mode
perform_live m drop_connection = lose_connection m

-- When the program has ended nothing happens any more.
unfoldable pub perform : FallbackManager → Operation → FallbackManager
perform m op = if m.terminated then m else perform_live m op

unfoldable pub run : FallbackManager → List Operation → FallbackManager
run m [] = m
run m (op ∷ ops) = run (perform m op) ops
