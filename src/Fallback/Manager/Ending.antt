-- ===== src/Fallback/Manager/Ending.antt =====
-- When a check of the sources ends the program, and which mode it leads to if it does not.
use avalon_miner.Prelude.{
  ◌≡◌, refl, ◌∙◌, ap, Bool, false, ◌&&◌, ◌||◌, not, Option, none, some, arith, if◌then◌else◌,
}
use avalon_miner.Fallback.Health.{answer}
use avalon_miner.Fallback.StratumClient.{StratumClient, connect}
use avalon_miner.Fallback.StratumClient.Connection.{connect-ends_program}
use avalon_miner.Fallback.State.{
  FallbackMode, fallback_stratum, same_mode, FallbackManager, Observation, call_back,
}
use avalon_miner.Fallback.Manager.Sound.{IsSound, check_sources-IsSound}
use avalon_miner.Fallback.Manager.Modes.{
  next_mode, reachable_pool, has_left_over, check_health-mode, shm_found, zmq_found,
}
use avalon_miner.Fallback.Manager.{
  timed_out, check_sources, enter_zmq, enter_stratum, connect_stratum, choose_fallback,
  switch_to_best_fallback, finish_switch, attempted, leave_for_stratum, switch_to_stratum,
  disconnect_stratum, leave_fallback, restore_primary, is_zmq, switch_mode, check_health,
}

-- An attempt to connect ends the program: a thread is left over, and the pool is reached.
abbrev pub crashes : FallbackManager → Observation → Bool
crashes m o = has_left_over m && (o.attempt.socket_created && o.attempt.pool_reached)

-- In this mode, with what the check finds, a pool is to be connected.
abbrev pub wants_pool : FallbackMode → Bool → Bool → Bool
wants_pool mode shm zmq = not shm && (not zmq && not (same_mode mode fallback_stratum))

connect_stratum-terminated :
    (m : FallbackManager) (o : Observation)
    → (connect_stratum m o).terminated ≡ (m.terminated || crashes m o)
unfolding connect_stratum attempted
connect_stratum-terminated m o = by_client m.stratum_client refl
  where
    by_client :
        (k : Option StratumClient)
        → m.stratum_client ≡ k
        → (connect_stratum m o).terminated ≡ (m.terminated || crashes m o)
    by_client none e = ground arith
    by_client (some c) e = ground (arith, connect-ends_program c o.attempt)

choose_fallback-terminated :
    (m : FallbackManager) (o : Observation)
    → (choose_fallback m o).terminated
      ≡ (m.terminated || (not (m.zmq_enabled && m.zmq_health.available) && crashes m o))
unfolding choose_fallback enter_zmq enter_stratum
choose_fallback-terminated m o = ground (arith, connect_stratum-terminated m o)

call_back-terminated :
    (m : FallbackManager) (a b : FallbackMode) → (call_back m a b).terminated ≡ m.terminated
unfolding call_back
call_back-terminated m a b = ground arith

finish_switch-terminated :
    (mode : FallbackMode) (m : FallbackManager) (o : Observation)
    → (finish_switch mode m o).terminated ≡ m.terminated
unfolding finish_switch
finish_switch-terminated mode m o =
    ground (arith, call_back-terminated (record m { fallback_started = o.later }) mode m.mode)

leave_for_stratum-terminated :
    (m : FallbackManager) → (leave_for_stratum m).terminated ≡ m.terminated
unfolding leave_for_stratum enter_stratum
leave_for_stratum-terminated m =
    ground (arith, call_back-terminated (enter_stratum m) m.mode fallback_stratum)

switch_to_stratum-terminated :
    (m : FallbackManager) (o : Observation)
    → (switch_to_stratum m o).terminated ≡ (m.terminated || crashes m o)
unfolding switch_to_stratum attempted
switch_to_stratum-terminated m o = by_client m.stratum_client refl
  where
    by_client :
        (k : Option StratumClient)
        → m.stratum_client ≡ k
        → (switch_to_stratum m o).terminated ≡ (m.terminated || crashes m o)
    by_client none e = ground arith
    by_client (some c) e = ground (
      arith,
      connect-ends_program c o.attempt,
      leave_for_stratum-terminated m,
      leave_for_stratum-terminated (attempted m (connect c o.attempt)),
    )

restore_primary-terminated :
    (m : FallbackManager) (o : Observation) → (restore_primary m o).terminated ≡ m.terminated
unfolding restore_primary leave_fallback disconnect_stratum call_back
restore_primary-terminated m o = ground arith

switch_mode-terminated :
    (m : FallbackManager) (o : Observation)
    → IsSound m
    → (switch_mode m o).terminated ≡ (
        m.terminated
        || (wants_pool m.mode m.shm_health.available m.zmq_health.available && crashes m o))
unfolding switch_mode switch_to_best_fallback is_zmq
switch_mode-terminated m o s =
    let sound = s.zmq in
    ground (
      arith,
      finish_switch-terminated m.mode (choose_fallback m o) o,
      choose_fallback-terminated m o,
      switch_to_stratum-terminated m o,
      restore_primary-terminated m o,
    )

-- What a check finds of the shared memory and of ZMQ.
abbrev pub finds_shm : FallbackManager → Observation → Bool
finds_shm m o = answer o.shm_check || (m.shm_health.available && not (timed_out m o.now))

abbrev pub finds_zmq : FallbackManager → Observation → Bool
finds_zmq m o = m.zmq_enabled && answer o.zmq_check

pub check_health-terminated :
    (m : FallbackManager) (o : Observation)
    → IsSound m
    → (check_health m o).terminated
      ≡ (m.terminated || (wants_pool m.mode (finds_shm m o) (finds_zmq m o) && crashes m o))
unfolding check_health check_sources
check_health-terminated m o s =
    switch_mode-terminated (check_sources m o) o (check_sources-IsSound m o s)
    ∙ simp (shm_found m o, zmq_found m o s) refl

-- The mode of a program that goes on.
abbrev pub outcome : FallbackManager → Option FallbackMode
outcome m = if m.terminated then none else some m.mode

-- A check of the sources that overlaps with no other call moves the mode as the automaton does, from
-- what the check itself finds: whether the shared memory still counts as available, whether ZMQ
-- answers, and whether the pool is or can be connected. It ends the program instead where it comes to
-- connect a client that has lost its connection and whose thread is left over, and reaches the pool.
pub check_health-next_mode :
    (m : FallbackManager) (o : Observation)
    → IsSound m
    → m.terminated ≡ false
    → outcome (check_health m o) ≡ (
        if wants_pool m.mode (finds_shm m o) (finds_zmq m o) && crashes m o
        then none
        else some (next_mode m.mode (finds_shm m o) (finds_zmq m o) (reachable_pool m o)))
check_health-next_mode m o s runs =
    let X = wants_pool m.mode (finds_shm m o) (finds_zmq m o) && crashes m o in
    let ends = check_health-terminated m o s ∙ ap (λ (b : Bool). b || X) runs in
    let mode = check_health-mode m o s in λ i. if ends i then none else some (mode i)
