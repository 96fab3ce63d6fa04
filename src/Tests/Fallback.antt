-- ===== src/Tests/Fallback.antt =====
-- The fallback manager and the Stratum client.
use avalon_miner.Prelude.{
  ◌+◌, ◌%◌, ◌^◌, ◌≡◌, ◌≢◌, refl, inl, none, true, false, some, [], ◌∷◌, arith, ◌&&◌, ◌||◌, ◌++◌,
  not, if◌then◌else◌,
}
use avalon_miner.Fallback.Health.{unknown_health}
use avalon_miner.Fallback.State.{
  primary_shm, fallback_zmq, fallback_stratum, same_mode, FallbackManager, Observation, initial,
}
use avalon_miner.Fallback.Manager.{
  check_health, run, perform, perform_live, check, finish_switch, set_mode, choose_fallback,
  is_stratum_connected,
}
use avalon_miner.Fallback.Manager.Sound.{initial-IsSound}
use avalon_miner.Fallback.Manager.Modes.{next_mode, reachable_pool}
use avalon_miner.Fallback.Manager.Sources.{checks}
use avalon_miner.Fallback.Manager.Ending.{
  crashes, wants_pool, finds_shm, finds_zmq, outcome, check_health-terminated,
  check_health-next_mode,
}
use avalon_miner.Fallback.Manager.Silence.{
  silence-leaves_primary, answer-restores_primary, silence-keeps_stratum,
}
use avalon_miner.Fallback.Manager.Changes.{set_mode-lost_switch}
use avalon_miner.Fallback.StratumClient
use avalon_miner.Fallback.StratumClient.{
  StratumClient, Attempt, authorizing, connected, crashed, is_connected, disconnect, lose,
  authorize, subscribe, connect, start_reading, finish, starts_with, true_text, process_notify,
}
use avalon_miner.Fallback.StratumClient.Connection.{connect-is_connected, connect-lose}
use avalon_miner.Fallback.StratumClient.Notify.{
  text_parameter, inner_array, flag, show_all, show_before, notify_line, process_notify_shifted,
  process_notify_stuck,
}

-- ZMQ is enabled, there is a pool, and the timeout is five seconds.
abbrev manager : FallbackManager
manager = initial true 5000 true 0

abbrev told : FallbackManager
told = record manager { mode_change_callback = true }

abbrev on_stratum : FallbackManager
on_stratum = record manager { mode = fallback_stratum }

-- A pool that answers, and a client that is connected to it.
abbrev answers : Attempt
answers = record {
  socket_created = true;
  pool_reached = true;
  subscribe_sent = true;
  after_subscribe = authorizing;
  authorize_sent = true;
  after_authorize = connected;
  lost_at_once = false;
}

abbrev at_pool : StratumClient
at_pool = record { state = connected; running = true; socket_open = true; joinable = true }

-- Nothing answers but ZMQ.
abbrev silent : Observation
silent = record {
  now = 6000000000;
  later = 6000000001;
  shm_check = some false;
  zmq_check = some true;
  attempt = answers;
  lost_meanwhile = false;
}

abbrev answering : Observation
answering = record {
  now = 7000000000;
  later = 7000000001;
  shm_check = some true;
  zmq_check = some true;
  attempt = answers;
  lost_meanwhile = false;
}

check_health-next_mode_example : outcome (check_health manager silent) ≡ (
    if wants_pool manager.mode (finds_shm manager silent) (finds_zmq manager silent)
      && crashes manager silent
    then none
    else some (
        next_mode manager.mode
          (finds_shm manager silent)
          (finds_zmq manager silent)
          (reachable_pool manager silent)))
unfolding initial
check_health-next_mode_example =
    check_health-next_mode manager silent (initial-IsSound true true 5000 0) refl

goes_on : (run manager (checks (silent ∷ []))).terminated ≡ false
unfolding initial run perform perform_live unknown_health
goes_on = check_health-terminated manager silent (initial-IsSound true true 5000 0)

silence-leaves_primary_example :
    ((check_health (run manager (checks (silent ∷ []))) silent).terminated ≡ false)
    × (same_mode (check_health (run manager (checks (silent ∷ []))) silent).mode primary_shm
        ≡ false)
unfolding initial unknown_health
silence-leaves_primary_example =
    silence-leaves_primary manager (silent ∷ []) silent (initial-IsSound true true 5000 0)
      (refl, tt) refl (omega arith) goes_on refl

-- A switch to ZMQ, and another thread that sets the primary mode.
abbrev zmq_answers : FallbackManager
zmq_answers = record told { zmq_health = record told.zmq_health { available = true } }

set_mode-lost_switch_example :
    ((finish_switch zmq_answers.mode
        (set_mode (choose_fallback zmq_answers silent) primary_shm)
        silent).mode_changes
      ≡ zmq_answers.mode_changes ++ ((fallback_zmq, primary_shm) ∷ []))
    × ((finish_switch zmq_answers.mode
          (set_mode (choose_fallback zmq_answers silent) primary_shm)
          silent).stats.zmq_switches
        ≡ (zmq_answers.stats.zmq_switches + 1) % 2 ^ 64)
unfolding initial
set_mode-lost_switch_example = set_mode-lost_switch zmq_answers silent refl refl refl refl

answer-restores_primary_example :
    ((check_health (run manager (check silent ∷ [])) answering).mode ≡ primary_shm)
    × (same_mode (run manager (check silent ∷ [])).mode primary_shm ≡ false
        → ((check_health (run manager (check silent ∷ [])) answering).stats.primary_restorations
            ≡ ((run manager (check silent ∷ [])).stats.primary_restorations + 1) % 2 ^ 64)
          × (is_stratum_connected (check_health (run manager (check silent ∷ [])) answering)
              ≡ false))
answer-restores_primary_example =
    answer-restores_primary manager (check silent ∷ []) answering (initial-IsSound true true 5000 0)
      refl

silence-keeps_stratum_example :
    (run on_stratum (checks (silent ∷ silent ∷ []))).mode ≡ fallback_stratum
unfolding initial unknown_health
silence-keeps_stratum_example =
    silence-keeps_stratum on_stratum (silent ∷ silent ∷ []) (record { zmq = refl })
      (refl, (refl, tt)) refl refl

connect_first : connect StratumClient.initial answers ≡ (at_pool, none)
unfolding StratumClient.initial connect is_connected start_reading subscribe authorize finish
connect_first = refl

connect-is_connected_example :
    (elim (connect at_pool answers).1 [
      | none ↦ is_connected (connect at_pool answers).0 || answers.lost_at_once
      | some _ ↦ not (is_connected (connect at_pool answers).0)
    ]
      ≡ true)
    × (elim (connect at_pool answers).1 [
      | none ↦ true
      | some _ ↦ not (connect at_pool answers).0.socket_open
    ]
        ≡ true)
    × ((connect at_pool answers).0.joinable
        ≡ elim (connect at_pool answers).1 [ none ↦ true | some _ ↦ false ])
unfolding is_connected
connect-is_connected_example = connect-is_connected at_pool answers refl

connect-lose_example :
    ((connect (lose at_pool) answers).1 ≡ some crashed)
    × ((connect (disconnect (lose at_pool)) answers).1 ≢ some crashed)
unfolding is_connected
connect-lose_example = connect-lose at_pool answers refl refl refl refl refl

process_notify_shifted_example :
    process_notify 19 5 (
      notify_line (
        show_all
          (text_parameter (1 ∷ [])
            ∷ text_parameter (2 ∷ [])
            ∷ text_parameter (3 ∷ [])
            ∷ text_parameter (4 ∷ [])
            ∷ inner_array (5 ∷ [])
            ∷ text_parameter (6 ∷ [])
            ∷ text_parameter (7 ∷ [])
            ∷ text_parameter (8 ∷ [])
            ∷ flag true
            ∷ [])
          (b'}' ∷ [])))
    ≡ some (
        some (record {
          job_id = 1 ∷ [];
          prevhash = 2 ∷ [];
          coinbase1 = 3 ∷ [];
          coinbase2 = 4 ∷ [];
          merkle_branch = [];
          version = 7 ∷ [];
          nbits = 8 ∷ [];
          ntime = true_text;
          clean_jobs = false;
          received_at = 5;
        }))
process_notify_shifted_example =
    process_notify_shifted 19 5 (1 ∷ []) (2 ∷ []) (3 ∷ []) (4 ∷ []) (5 ∷ []) (6 ∷ []) (7 ∷ [])
      (8 ∷ []) (b'}' ∷ []) true
      (
        (refl, tt),
        ((refl, tt), ((refl, tt), ((refl, tt), ((refl, tt), ((refl, tt), ((refl, tt), tt)))))),
      )
      (refl, tt) (omega arith)

process_notify_stuck_example :
    process_notify 1000 5
      (notify_line (show_before (text_parameter (1 ∷ []) ∷ []) (b't' ∷ b'o' ∷ b']' ∷ [])))
    ≡ none
unfolding starts_with
process_notify_stuck_example =
    process_notify_stuck (text_parameter (1 ∷ []) ∷ []) 1000 5 b't' (b'o' ∷ b']' ∷ [])
      ((refl, tt), tt) (inl refl) refl refl
