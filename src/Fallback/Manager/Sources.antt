-- ===== src/Fallback/Manager/Sources.antt =====
-- What silent checks of the sources leave alone.
use avalon_miner.Prelude.{
  ◌-◌, ◌/◌, ◌^◌, ◌<◌, ◌≡◌, refl, ◌∙◌, true, false, List, [], ◌∷◌, map, arith, All, if_both,
}
use avalon_miner.Fallback.Health.{answer, failed}
use avalon_miner.Fallback.State.{FallbackMode, FallbackManager, Observation, call_back}
use avalon_miner.Fallback.Manager.{
  timed_out, check_shm, check_sources, enter_zmq, enter_stratum, connect_stratum, choose_fallback,
  switch_to_best_fallback, leave_for_stratum, switch_to_stratum, disconnect_stratum, leave_fallback,
  restore_primary, switch_mode, check_health, Operation, check, perform_live, perform, run,
  finish_switch, attempted,
}

-- Checks in a row.
abbrev pub checks : List Observation → List Operation
checks os = map check os

-- The shared memory does not answer.
abbrev pub IsSilent : Observation → Type 0
IsSilent o = answer o.shm_check ≡ false

-- What silent checks leave alone.
pub record SameSource (m n : FallbackManager) : Type 0 where
  pub zmq_enabled : n.zmq_enabled ≡ m.zmq_enabled
  pub primary_timeout : n.primary_timeout ≡ m.primary_timeout
  pub last_success : n.shm_health.last_success ≡ m.shm_health.last_success

call_back-SameSource : (m : FallbackManager) (a b : FallbackMode) → SameSource m (call_back m a b)
unfolding call_back
call_back-SameSource m a b = ground arith

restore_primary-SameSource :
    (m : FallbackManager) (o : Observation) → SameSource m (restore_primary m o)
unfolding restore_primary leave_fallback disconnect_stratum call_back
restore_primary-SameSource m o = ground arith

switch_to_stratum-SameSource :
    (m : FallbackManager) (o : Observation) → SameSource m (switch_to_stratum m o)
unfolding switch_to_stratum attempted leave_for_stratum enter_stratum call_back
switch_to_stratum-SameSource m o = ground arith

choose_fallback-SameSource :
    (m : FallbackManager) (o : Observation) → SameSource m (choose_fallback m o)
unfolding choose_fallback enter_zmq enter_stratum connect_stratum attempted
choose_fallback-SameSource m o = ground arith

switch_to_best_fallback-SameSource :
    (m : FallbackManager) (o : Observation) → SameSource m (switch_to_best_fallback m o)
unfolding switch_to_best_fallback finish_switch call_back
switch_to_best_fallback-SameSource m o = ground (arith, choose_fallback-SameSource m o)

check_sources-SameSource :
    (m : FallbackManager) (o : Observation) → IsSilent o → SameSource m (check_sources m o)
unfolding check_sources check_shm failed
check_sources-SameSource m o silent = ground arith

switch_mode-SameSource : (m : FallbackManager) (o : Observation) → SameSource m (switch_mode m o)
unfolding switch_mode
switch_mode-SameSource m o = ground (
  arith,
  switch_to_best_fallback-SameSource m o,
  switch_to_stratum-SameSource m o,
  restore_primary-SameSource m o,
)

trans : (m n k : FallbackManager) → SameSource m n → SameSource n k → SameSource m k
trans m n k first next = record {
  zmq_enabled = next.zmq_enabled ∙ first.zmq_enabled;
  primary_timeout = next.primary_timeout ∙ first.primary_timeout;
  last_success = next.last_success ∙ first.last_success;
}

check_health-SameSource :
    (m : FallbackManager) (o : Observation) → IsSilent o → SameSource m (check_health m o)
unfolding check_health
check_health-SameSource m o silent =
    let n : FallbackManager = check_sources m o in
    trans m n _ (check_sources-SameSource m o silent) (switch_mode-SameSource n o)

perform-SameSource :
    (m : FallbackManager) (o : Observation) → IsSilent o → SameSource m (perform m (check o))
unfolding perform perform_live
perform-SameSource m o silent =
    if_both (SameSource m) m.terminated _ _
      (record { zmq_enabled = refl; primary_timeout = refl; last_success = refl })
      (check_health-SameSource m o silent)

pub checks-SameSource :
    (m : FallbackManager) (os : List Observation)
    → All IsSilent os
    → SameSource m (run m (checks os))
unfolding run
checks-SameSource m [] silent = ground arith
checks-SameSource m (o ∷ os) silent =
    let n : FallbackManager = perform m (check o) in
    trans m n _ (perform-SameSource m o silent.0) (checks-SameSource n os silent.1)

pub still_late :
    (m n : FallbackManager) (o : Observation)
    → SameSource m n
    → m.primary_timeout < (o.now - m.shm_health.last_success) / 10 ^ 6
    → timed_out n o.now ≡ true
unfolding timed_out
still_late m n o same late =
    let timeout = same.primary_timeout in let success = same.last_success in ground arith
