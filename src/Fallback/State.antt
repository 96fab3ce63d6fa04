-- ===== src/Fallback/State.antt =====
-- src/fallback/fallback_manager.hpp: the mode and the state of the manager. What a health check
-- answers and what a connection attempt finds is an input of a call, in `Observation`; `terminated`
-- says that std::terminate has been called. The callback is kept as whether it is set, with the
-- changes that it was called with.
use avalon_miner.Prelude.{
  ℕ, Bool, true, false, Option, none, some, List, [], ◌∷◌, ◌++◌, if◌then◌else◌,
}
use avalon_miner.Fallback.Health.{SourceHealth, unknown_health}
use avalon_miner.Fallback.StratumClient
use avalon_miner.Fallback.StratumClient.{StratumClient, Attempt}

pub data FallbackMode : Type 0 where
  primary_shm : FallbackMode
  fallback_zmq : FallbackMode
  fallback_stratum : FallbackMode

-- The number of the mode, and the comparison of two modes.
abbrev pub to_mode_value : FallbackMode → ℕ
to_mode_value primary_shm = 0
to_mode_value fallback_zmq = 1
to_mode_value fallback_stratum = 2

abbrev pub same_mode : FallbackMode → FallbackMode → Bool
same_mode primary_shm primary_shm = true
same_mode primary_shm fallback_zmq = false
same_mode primary_shm fallback_stratum = false
same_mode fallback_zmq primary_shm = false
same_mode fallback_zmq fallback_zmq = true
same_mode fallback_zmq fallback_stratum = false
same_mode fallback_stratum primary_shm = false
same_mode fallback_stratum fallback_zmq = false
same_mode fallback_stratum fallback_stratum = true

pub record FallbackStats : Type 0 where
  pub zmq_switches : ℕ
  pub stratum_switches : ℕ
  pub primary_restorations : ℕ
  pub fallback_duration_seconds : ℕ

-- `stratum_client` is none where no pool is enabled. `primary_timeout` is in milliseconds.
pub record FallbackManager : Type 0 where
  pub zmq_enabled : Bool
  pub primary_timeout : ℕ
  pub mode : FallbackMode
  pub running : Bool
  pub shm_health : SourceHealth
  pub zmq_health : SourceHealth
  pub stratum_health : SourceHealth
  pub stats : FallbackStats
  pub fallback_started : ℕ
  pub stratum_client : Option StratumClient
  pub mode_change_callback : Bool
  pub mode_changes : List (FallbackMode × FallbackMode)
  pub terminated : Bool

-- `now` is the clock at the start of a check, `later` at its end. A check that is not set is none.
-- `lost_meanwhile` says that the reading thread loses the connection of a client that was connected
-- at the first look of a switch, before the second.
pub record Observation : Type 0 where
  pub now : ℕ
  pub later : ℕ
  pub shm_check : Option Bool
  pub zmq_check : Option Bool
  pub attempt : Attempt
  pub lost_meanwhile : Bool

-- The manager as constructed. A client is made when some pool is enabled.
unfoldable pub initial : Bool → ℕ → Bool → ℕ → FallbackManager
initial zmq_enabled primary_timeout has_pool now = record {
  zmq_enabled = zmq_enabled;
  primary_timeout = primary_timeout;
  mode = primary_shm;
  running = false;
  shm_health = unknown_health now;
  zmq_health = unknown_health now;
  stratum_health = unknown_health now;
  stats = record {
    zmq_switches = 0;
    stratum_switches = 0;
    primary_restorations = 0;
    fallback_duration_seconds = 0;
  };
  fallback_started = 0;
  stratum_client = if has_pool then some StratumClient.initial else none;
  mode_change_callback = false;
  mode_changes = [];
  terminated = false;
}

-- `mode_change_callback(old_mode, new_mode)`, where it is set.
unfoldable pub call_back : FallbackManager → FallbackMode → FallbackMode → FallbackManager
call_back m old_mode new_mode =
    if m.mode_change_callback
    then record m { mode_changes = m.mode_changes ++ ((old_mode, new_mode) ∷ []) }
    else m
