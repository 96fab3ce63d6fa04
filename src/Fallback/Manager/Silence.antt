-- ===== src/Fallback/Manager/Silence.antt =====
-- What becomes of the manager while the shared memory is silent, and when it answers again.
use avalon_miner.Prelude.{
  ◌-◌, ◌/◌, ◌^◌, ◌<◌, ◌≡◌, refl, ◌∙◌, Bool, true, false, ◌&&◌, ◌||◌, not, List, [], ◌∷◌, arith, ◌+◌,
  ◌%◌, All, if_both,
}
use avalon_miner.Fallback.Health.{answer, succeeded, failed}
use avalon_miner.Fallback.State.{
  FallbackMode, primary_shm, fallback_zmq, fallback_stratum, same_mode, FallbackManager,
  Observation, call_back,
}
use avalon_miner.Fallback.Manager.Sound.{IsSound, check_health-IsSound, run-IsSound}
use avalon_miner.Fallback.Manager.{
  timed_out, check_shm, check_sources, is_stratum_connected, disconnect_stratum, leave_fallback,
  restore_primary, is_zmq, switch_mode, check_health, Operation, check, perform_live, perform, run,
}
use avalon_miner.Fallback.StratumClient.{is_connected, disconnect}
use avalon_miner.Fallback.Manager.Sources.{
  checks, IsSilent, SameSource, checks-SameSource, still_late,
}
use avalon_miner.Fallback.Manager.Modes.{
  next_mode, reachable_pool, has_left_over, check_health-mode,
}
use avalon_miner.Fallback.Manager.Ending.{
  crashes, wants_pool, finds_shm, finds_zmq, check_health-terminated,
}

leaves :
    (mode : FallbackMode) (zmq pool : Bool)
    → (zmq || pool) ≡ true
    → same_mode (next_mode mode false zmq pool) primary_shm ≡ false
leaves primary_shm true pool h = refl
leaves primary_shm false true h = refl
leaves primary_shm false false h = cc
leaves fallback_zmq true pool h = refl
leaves fallback_zmq false true h = refl
leaves fallback_zmq false false h = refl
leaves fallback_stratum zmq pool h = refl

by_tests :
    (on was zmq pool left : Bool)
    → on ≡ was
    → ((was && zmq) || (pool && not left)) ≡ true
    → ((on && zmq) || pool) ≡ true
by_tests on was zmq pool left e h = ground arith

no_crash :
    (ended on was zmq pool left shm stratum reached : Bool)
    → ended ≡ false
    → on ≡ was
    → ((was && zmq) || (pool && not left)) ≡ true
    → (ended || ((not shm && (not (on && zmq) && not stratum)) && (left && reached))) ≡ false
no_crash ended on was zmq pool left shm stratum reached r e h = ground arith

-- A shared memory that stays silent is left: after any number of silent checks in a program that
-- still runs, and without calls that overlap, one that comes later than the timeout ends in a fallback mode and does not end the
-- program, if ZMQ is enabled and answers at it, or if there is a pool that is or can be connected and
-- no thread is left over from a lost connection.
pub silence-leaves_primary :
    (m : FallbackManager) (os : List Observation) (o : Observation)
    → IsSound m
    → All IsSilent os
    → IsSilent o
    → m.primary_timeout < (o.now - m.shm_health.last_success) / 10 ^ 6
    → (run m (checks os)).terminated ≡ false
    → ((m.zmq_enabled && answer o.zmq_check)
        || (reachable_pool (run m (checks os)) o && not (has_left_over (run m (checks os)))))
      ≡ true
    → ((check_health (run m (checks os)) o).terminated ≡ false)
      × (same_mode (check_health (run m (checks os)) o).mode primary_shm ≡ false)
silence-leaves_primary m os o sound silent now_silent late runs other =
    let n : FallbackManager = run m (checks os) in
    let same : SameSource m n = checks-SameSource m os silent in
    let still = run-IsSound m (checks os) sound in
    (
      check_health-terminated n o still ∙ goes_on n same runs other,
      rw (check_health-mode n o still, unavailable n same now_silent late)
          (leaves n.mode (n.zmq_enabled && answer o.zmq_check) (reachable_pool n o)
            (elsewhere n same other)),
    )
  where
    unavailable :
        (n : FallbackManager)
        → SameSource m n
        → IsSilent o
        → m.primary_timeout < (o.now - m.shm_health.last_success) / 10 ^ 6
        → (answer o.shm_check || (n.shm_health.available && not (timed_out n o.now))) ≡ false
    unavailable n same s l = let late_too = still_late m n o same l in ground arith

    elsewhere :
        (n : FallbackManager)
        → SameSource m n
        → ((m.zmq_enabled && answer o.zmq_check) || (reachable_pool n o && not (has_left_over n)))
          ≡ true
        → ((n.zmq_enabled && answer o.zmq_check) || reachable_pool n o) ≡ true
    elsewhere n same h =
        let on = same.zmq_enabled in
        by_tests (n.zmq_enabled) (m.zmq_enabled) (answer o.zmq_check) (reachable_pool n o)
          (has_left_over n) on h

    goes_on :
        (n : FallbackManager)
        → SameSource m n
        → n.terminated ≡ false
        → ((m.zmq_enabled && answer o.zmq_check) || (reachable_pool n o && not (has_left_over n)))
          ≡ true
        → (n.terminated || (wants_pool n.mode (finds_shm n o) (finds_zmq n o) && crashes n o))
          ≡ false
    goes_on n same r h =
        let on = same.zmq_enabled in
        no_crash n.terminated n.zmq_enabled m.zmq_enabled (answer o.zmq_check) (reachable_pool n o)
          (has_left_over n) (finds_shm n o) (same_mode n.mode fallback_stratum)
          (o.attempt.socket_created && o.attempt.pool_reached) r on h

-- What a return to the shared memory does besides the mode.
restored :
    (m : FallbackManager) (o : Observation)
    → same_mode m.mode primary_shm ≡ false
    → ((restore_primary m o).stats.primary_restorations
        ≡ (m.stats.primary_restorations + 1) % 2 ^ 64)
      × (is_stratum_connected (restore_primary m o) ≡ false)
unfolding restore_primary leave_fallback disconnect_stratum call_back is_stratum_connected
    disconnect is_connected
restored m o other = ground arith

answered :
    (m : FallbackManager) (o : Observation)
    → answer o.shm_check ≡ true
    → (check_shm m o).available ≡ true
unfolding check_shm succeeded
answered m o up = ground arith

returns :
    (m : FallbackManager) (o : Observation)
    → answer o.shm_check ≡ true
    → same_mode m.mode primary_shm ≡ false
    → ((check_health m o).stats.primary_restorations ≡ (m.stats.primary_restorations + 1) % 2 ^ 64)
      × (is_stratum_connected (check_health m o) ≡ false)
unfolding check_health switch_mode check_sources check_shm
returns m o up other =
    let n : FallbackManager = check_sources m o in rw (other, answered m o up) (restored n o other)

still_down :
    (m : FallbackManager) (o : Observation)
    → IsSilent o
    → m.shm_health.available ≡ false
    → m.mode ≡ fallback_stratum
    → (check_health m o).shm_health.available ≡ false
unfolding check_health switch_mode check_sources check_shm failed is_zmq
still_down m o silent down mode = ground arith

-- When the shared memory answers, a check ends in the primary mode whatever calls, none of them
-- overlapping, were made before; if the manager was in a fallback mode, the return is counted once
-- and the pool is disconnected.
pub answer-restores_primary :
    (m : FallbackManager) (ops : List Operation) (o : Observation)
    → IsSound m
    → answer o.shm_check ≡ true
    → ((check_health (run m ops) o).mode ≡ primary_shm)
      × (same_mode (run m ops).mode primary_shm ≡ false
          → ((check_health (run m ops) o).stats.primary_restorations
              ≡ ((run m ops).stats.primary_restorations + 1) % 2 ^ 64)
            × (is_stratum_connected (check_health (run m ops) o) ≡ false))
answer-restores_primary m ops o sound up =
    let n : FallbackManager = run m ops in
    let next = check_health-mode n o (run-IsSound m ops sound) in (next ∙ to_primary n, counted n)
  where
    to_primary :
        (n : FallbackManager)
        → next_mode n.mode
            (answer o.shm_check || (n.shm_health.available && not (timed_out n o.now)))
            (n.zmq_enabled && answer o.zmq_check)
            (reachable_pool n o)
          ≡ primary_shm
    to_primary n = ground arith

    counted :
        (n : FallbackManager)
        → same_mode n.mode primary_shm ≡ false
        → ((check_health n o).stats.primary_restorations
            ≡ (n.stats.primary_restorations + 1) % 2 ^ 64)
          × (is_stratum_connected (check_health n o) ≡ false)
    counted n other = returns n o up other

-- A sound manager that is stuck in the Stratum mode.
record IsStuck (m : FallbackManager) : Type 0 where
  sound : IsSound m
  down : m.shm_health.available ≡ false
  on_stratum : m.mode ≡ fallback_stratum

check_health-IsStuck :
    (m : FallbackManager) (o : Observation) → IsSilent o → IsStuck m → IsStuck (check_health m o)
check_health-IsStuck m o silent stuck = record {
  sound = check_health-IsSound m o stuck.sound;
  down = still_down m o silent stuck.down stuck.on_stratum;
  on_stratum = check_health-mode m o stuck.sound ∙ stays m silent stuck.down stuck.on_stratum;
}
  where
    stays :
        (m : FallbackManager)
        → IsSilent o
        → m.shm_health.available ≡ false
        → m.mode ≡ fallback_stratum
        → next_mode m.mode
            (answer o.shm_check || (m.shm_health.available && not (timed_out m o.now)))
            (m.zmq_enabled && answer o.zmq_check)
            (reachable_pool m o)
          ≡ fallback_stratum
    stays m s down mode = ground arith

checks-IsStuck :
    (m : FallbackManager) (os : List Observation)
    → All IsSilent os
    → IsStuck m
    → IsStuck (run m (checks os))
unfolding run perform perform_live
checks-IsStuck m [] silent stuck = stuck
checks-IsStuck m (o ∷ os) silent stuck =
    checks-IsStuck (perform m (check o)) os silent.1
      (if_both IsStuck m.terminated _ _ stuck (check_health-IsStuck m o silent.0 stuck))

-- While the shared memory is silent and counts as unavailable, a manager in the Stratum mode stays
-- in it, whatever ZMQ answers and whether or not the pool is still connected.
pub silence-keeps_stratum :
    (m : FallbackManager) (os : List Observation)
    → IsSound m
    → All IsSilent os
    → m.shm_health.available ≡ false
    → m.mode ≡ fallback_stratum
    → (run m (checks os)).mode ≡ fallback_stratum
silence-keeps_stratum m os sound silent down mode =
    let stuck =
      checks-IsStuck m os silent (record { sound = sound; down = down; on_stratum = mode }) in
    stuck.on_stratum
