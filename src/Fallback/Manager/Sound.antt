-- ===== src/Fallback/Manager/Sound.antt =====
-- That a source of jobs that is switched off is not used, after any operations.
use avalon_miner.Prelude.{
  ℕ, ◌≡◌, refl, Bool, false, ◌&&◌, not, List, [], ◌∷◌, arith, if_both, option_both,
}
use avalon_miner.Fallback.Health.{succeeded, failed, job_received, unknown_health}
use avalon_miner.Fallback.StratumClient.{is_connected, connect}
use avalon_miner.Fallback.State.{
  FallbackMode, primary_shm, same_mode, FallbackManager, Observation, call_back, initial,
}
use avalon_miner.Fallback.Manager.{
  check_zmq, check_sources, enter_zmq, enter_stratum, connect_stratum, choose_fallback,
  switch_to_best_fallback, leave_for_stratum, switch_to_stratum, disconnect_stratum, leave_fallback,
  restore_primary, is_zmq, switch_mode, check_health, start, stop, signal_job_received,
  try_restore_primary, set_mode, lose_connection, Operation, check, fall_back, try_restore, job,
  begin, end, force, drop_connection, perform_live, perform, run, finish_switch, attempted,
}

-- A ZMQ source that is switched off is never taken for available.
pub record IsSound (m : FallbackManager) : Type 0 where
  pub zmq : (m.zmq_health.available && not m.zmq_enabled) ≡ false

quiet_zmq :
    (m n : FallbackManager)
    → IsSound m
    → n.zmq_enabled ≡ m.zmq_enabled
    → n.zmq_health.available ≡ m.zmq_health.available
    → IsSound n
quiet_zmq m n s e a = record { zmq = rw (e, a) s.zmq }

module _ (m : FallbackManager) (o : Observation) where
  pub check_sources-IsSound : IsSound m → IsSound (check_sources m o)
  unfolding check_sources check_zmq succeeded failed
  check_sources-IsSound s = record { zmq = let h = s.zmq in ground arith }

  call_back-IsSound : (a b : FallbackMode) → IsSound m → IsSound (call_back m a b)
  unfolding call_back
  call_back-IsSound a b s = quiet_zmq m _ s (ground arith) (ground arith)

  disconnect_stratum-IsSound : IsSound m → IsSound (disconnect_stratum m)
  unfolding disconnect_stratum
  disconnect_stratum-IsSound s = quiet_zmq m _ s (ground arith) (ground arith)

  choose_fallback-IsSound : IsSound m → IsSound (choose_fallback m o)
  unfolding choose_fallback enter_zmq enter_stratum connect_stratum attempted
  choose_fallback-IsSound s = quiet_zmq m _ s (ground arith) (ground arith)

finish_switch-IsSound :
    (mode : FallbackMode) (m : FallbackManager) (o : Observation)
    → IsSound m
    → IsSound (finish_switch mode m o)
unfolding finish_switch
finish_switch-IsSound mode m o s =
    if_both IsSound (not (same_mode m.mode mode)) _ _
      (call_back-IsSound (record m { fallback_started = o.later }) o mode m.mode
        (record { zmq = s.zmq }))
      s

switch_to_best_fallback-IsSound :
    (m : FallbackManager) (o : Observation) → IsSound m → IsSound (switch_to_best_fallback m o)
unfolding switch_to_best_fallback
switch_to_best_fallback-IsSound m o s =
    finish_switch-IsSound m.mode (choose_fallback m o) o (choose_fallback-IsSound m o s)

leave_for_stratum-IsSound : (m : FallbackManager) → IsSound m → IsSound (leave_for_stratum m)
unfolding leave_for_stratum enter_stratum call_back
leave_for_stratum-IsSound m s = quiet_zmq m _ s (ground arith) (ground arith)

switch_to_stratum-IsSound :
    (m : FallbackManager) (o : Observation) → IsSound m → IsSound (switch_to_stratum m o)
unfolding switch_to_stratum attempted
switch_to_stratum-IsSound m o s = option_both IsSound m.stratum_client _ _ s λ c.
    if_both IsSound (is_connected c) _ _ (leave_for_stratum-IsSound m s) (
      option_both IsSound (connect c o.attempt).1 _ _
        (leave_for_stratum-IsSound (attempted m (connect c o.attempt)) (record { zmq = s.zmq }))
        (λ _. record { zmq = s.zmq }))

restore_primary-IsSound :
    (m : FallbackManager) (o : Observation) → IsSound m → IsSound (restore_primary m o)
unfolding restore_primary leave_fallback
restore_primary-IsSound m o s = if_both IsSound (same_mode m.mode primary_shm) _ _ s (
    call_back-IsSound _ o m.mode primary_shm
      (disconnect_stratum-IsSound (leave_fallback m o.later) o (record { zmq = s.zmq })))

pub check_health-IsSound :
    (m : FallbackManager) (o : Observation) → IsSound m → IsSound (check_health m o)
unfolding check_health switch_mode
check_health-IsSound m o s =
    let n : FallbackManager = check_sources m o in
    let seen : IsSound n = check_sources-IsSound m o s in
    if_both IsSound (same_mode n.mode primary_shm) _ _
      (if_both IsSound (not n.shm_health.available) _ _ (switch_to_best_fallback-IsSound n o seen)
        seen)
      (if_both IsSound n.shm_health.available _ _ (restore_primary-IsSound n o seen) (
        if_both IsSound (is_zmq n.mode && not n.zmq_health.available) _ _
          (switch_to_stratum-IsSound n o seen) seen))

perform_live-IsSound :
    (m : FallbackManager) (op : Operation) → IsSound m → IsSound (perform_live m op)
unfolding perform_live start lose_connection try_restore_primary signal_job_received set_mode
    call_back stop disconnect_stratum job_received
perform_live-IsSound m (check o) s = check_health-IsSound m o s
perform_live-IsSound m (fall_back o) s = switch_to_best_fallback-IsSound m o s
perform_live-IsSound m (try_restore o) s =
    if_both IsSound m.shm_health.available _ _ (restore_primary-IsSound m o s) s
perform_live-IsSound m (job now) s = quiet_zmq m _ s (ground arith) (ground arith)
perform_live-IsSound m (begin now) s = quiet_zmq m _ s (ground arith) (ground arith)
perform_live-IsSound m end s = quiet_zmq m _ s (ground arith) (ground arith)
perform_live-IsSound m (force mode) s = quiet_zmq m _ s (ground arith) (ground arith)
perform_live-IsSound m drop_connection s = quiet_zmq m _ s (ground arith) (ground arith)

perform-IsSound : (m : FallbackManager) (op : Operation) → IsSound m → IsSound (perform m op)
unfolding perform
perform-IsSound m op s = if_both IsSound m.terminated _ _ s (perform_live-IsSound m op s)

-- Every operation keeps the manager sound.
pub run-IsSound : (m : FallbackManager) (ops : List Operation) → IsSound m → IsSound (run m ops)
unfolding run
run-IsSound m [] s = s
run-IsSound m (op ∷ ops) s = run-IsSound (perform m op) ops (perform-IsSound m op s)

pub initial-IsSound : (zmq pool : Bool) (timeout now : ℕ) → IsSound (initial zmq timeout pool now)
unfolding initial unknown_health
initial-IsSound zmq pool timeout now = record { zmq = refl }
