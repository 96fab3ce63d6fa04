-- ===== src/Fallback/Manager/Modes.antt =====
-- Which mode a check of the sources leads to.
use avalon_miner.Prelude.{
  ◌≡◌, refl, ◌∙◌, inl, inr, Bool, true, false, ◌&&◌, ◌||◌, not, Option, none, some, arith,
  if◌then◌else◌, Bool-cases,
}
use avalon_miner.Fallback.Health.{answer, succeeded, failed}
use avalon_miner.Fallback.StratumClient.{StratumClient, is_connected, connect}
use avalon_miner.Fallback.StratumClient.Connection.{left_over, connect-failed}
use avalon_miner.Fallback.State.{
  FallbackMode, primary_shm, fallback_zmq, fallback_stratum, same_mode, FallbackManager,
  Observation, call_back,
}
use avalon_miner.Fallback.Manager.Sound.{IsSound, check_sources-IsSound}
use avalon_miner.Fallback.Manager.{
  timed_out, check_shm, check_zmq, check_sources, is_stratum_connected, enter_zmq, enter_stratum,
  connect_stratum, choose_fallback, switch_to_best_fallback, leave_for_stratum, switch_to_stratum,
  disconnect_stratum, leave_fallback, restore_primary, is_zmq, switch_mode, check_health,
  finish_switch, attempted, second_look,
}

-- The automaton of the modes, over what the check finds of the three sources.
abbrev pub next_mode : FallbackMode → Bool → Bool → Bool → FallbackMode
next_mode mode true zmq stratum = primary_shm
next_mode primary_shm false true stratum = fallback_zmq
next_mode primary_shm false false true = fallback_stratum
next_mode primary_shm false false false = primary_shm
next_mode fallback_zmq false true stratum = fallback_zmq
next_mode fallback_zmq false false true = fallback_stratum
next_mode fallback_zmq false false false = fallback_zmq
next_mode fallback_stratum false zmq stratum = fallback_stratum

-- A pool is connected, or an attempt succeeds.
abbrev pub joins_pool : FallbackManager → Observation → Bool
joins_pool m o = elim m.stratum_client [
  | none ↦ false
  | some c ↦
      if is_connected c
      then true
      else (elim (connect c o.attempt).1 [ none ↦ true | some _ ↦ false ])
]

-- The same, and it is still connected at a second look.
abbrev pub keeps_pool : FallbackManager → Observation → Bool
keeps_pool m o = elim m.stratum_client [
  | none ↦ false
  | some c ↦
      if is_connected c then is_connected (second_look c o) else (elim (connect c o.attempt).1 [
        | none ↦ is_connected (connect c o.attempt).0
        | some _ ↦ false
      ])
]

-- From the primary mode there is a second look, from ZMQ there is none.
abbrev pub reachable_pool : FallbackManager → Observation → Bool
reachable_pool m o = if same_mode m.mode primary_shm then keeps_pool m o else joins_pool m o

-- The client has lost a connection, and its thread has not been waited for.
abbrev pub has_left_over : FallbackManager → Bool
has_left_over m = elim m.stratum_client [ none ↦ false | some c ↦ left_over c ]

call_back-mode : (m : FallbackManager) (a b : FallbackMode) → (call_back m a b).mode ≡ m.mode
unfolding call_back
call_back-mode m a b = ground arith

disconnect_stratum-mode : (m : FallbackManager) → (disconnect_stratum m).mode ≡ m.mode
unfolding disconnect_stratum
disconnect_stratum-mode m = ground arith

restore_primary-mode :
    (m : FallbackManager) (o : Observation) → (restore_primary m o).mode ≡ primary_shm
unfolding restore_primary leave_fallback
restore_primary-mode m o = elim (Bool-cases (same_mode m.mode primary_shm)) [
  | inl s ↦ rw s (primary m.mode s)
  | inr d ↦
      rw d
        (call_back-mode _ m.mode primary_shm ∙ disconnect_stratum-mode (leave_fallback m o.later))
]
  where
    primary : (mode : FallbackMode) → same_mode mode primary_shm ≡ true → mode ≡ primary_shm
    primary primary_shm h = refl
    primary fallback_zmq h = cc
    primary fallback_stratum h = cc

abbrev fallback_choice : FallbackMode → Bool → Bool → FallbackMode
fallback_choice mode zmq pool =
    if zmq then fallback_zmq else (if pool then fallback_stratum else mode)

connect_stratum-mode : (m : FallbackManager) (o : Observation) → (connect_stratum m o).mode ≡ m.mode
unfolding connect_stratum attempted
connect_stratum-mode m o = ground arith

connect_stratum-connected :
    (m : FallbackManager) (o : Observation)
    → is_stratum_connected (connect_stratum m o) ≡ keeps_pool m o
unfolding connect_stratum attempted is_stratum_connected
connect_stratum-connected m o = by_client m.stratum_client refl
  where
    by_client :
        (k : Option StratumClient)
        → m.stratum_client ≡ k
        → is_stratum_connected (connect_stratum m o) ≡ keeps_pool m o
    by_client none e = ground arith
    by_client (some c) e = ground (arith, connect-failed c o.attempt)

choose_fallback-mode :
    (m : FallbackManager) (o : Observation)
    → (choose_fallback m o).mode
      ≡ fallback_choice m.mode (m.zmq_enabled && m.zmq_health.available) (keeps_pool m o)
unfolding choose_fallback enter_zmq enter_stratum
choose_fallback-mode m o = ground (arith, connect_stratum-connected m o, connect_stratum-mode m o)

switch_to_best_fallback-mode :
    (m : FallbackManager) (o : Observation)
    → (switch_to_best_fallback m o).mode
      ≡ fallback_choice m.mode (m.zmq_enabled && m.zmq_health.available) (keeps_pool m o)
unfolding switch_to_best_fallback finish_switch
switch_to_best_fallback-mode m o =
    let n : FallbackManager = choose_fallback m o in
    elim (Bool-cases (same_mode n.mode m.mode)) [
      | inl s ↦ rw s (choose_fallback-mode m o)
      | inr d ↦ rw d (call_back-mode _ m.mode n.mode ∙ choose_fallback-mode m o)
    ]

leave_for_stratum-mode : (m : FallbackManager) → (leave_for_stratum m).mode ≡ fallback_stratum
unfolding leave_for_stratum enter_stratum
leave_for_stratum-mode m = ground (arith, call_back-mode (enter_stratum m) m.mode fallback_stratum)

switch_to_stratum-mode :
    (m : FallbackManager) (o : Observation)
    → (switch_to_stratum m o).mode ≡ (if joins_pool m o then fallback_stratum else m.mode)
unfolding switch_to_stratum attempted
switch_to_stratum-mode m o = by_client m.stratum_client refl
  where
    by_client :
        (k : Option StratumClient)
        → m.stratum_client ≡ k
        → (switch_to_stratum m o).mode ≡ (if joins_pool m o then fallback_stratum else m.mode)
    by_client none e = ground arith
    by_client (some c) e = ground (
      arith,
      leave_for_stratum-mode m,
      leave_for_stratum-mode (attempted m (connect c o.attempt)),
    )

module _ (m : FallbackManager) (o : Observation) where
  switch_mode-mode :
      IsSound m
      → (switch_mode m o).mode
        ≡ next_mode m.mode m.shm_health.available m.zmq_health.available (reachable_pool m o)
  unfolding switch_mode is_zmq
  switch_mode-mode s =
      let sound = s.zmq in
      ground (
        arith,
        switch_to_best_fallback-mode m o,
        switch_to_stratum-mode m o,
        restore_primary-mode m o,
      )

  pub shm_found :
      (check_shm m o).available
      ≡ (answer o.shm_check || (m.shm_health.available && not (timed_out m o.now)))
  unfolding check_shm succeeded failed
  shm_found = ground arith

  pub zmq_found : IsSound m → (check_zmq m o).available ≡ (m.zmq_enabled && answer o.zmq_check)
  unfolding check_zmq succeeded failed
  zmq_found s = let h = s.zmq in ground arith

-- The mode that a check leads to, in a program that goes on.
pub check_health-mode :
    (m : FallbackManager) (o : Observation)
    → IsSound m
    → (check_health m o).mode
      ≡ next_mode m.mode
          (answer o.shm_check || (m.shm_health.available && not (timed_out m o.now)))
          (m.zmq_enabled && answer o.zmq_check)
          (reachable_pool m o)
unfolding check_health check_sources
check_health-mode m o s =
    switch_mode-mode (check_sources m o) o (check_sources-IsSound m o s) ∙ found
  where
    found :
        next_mode m.mode (check_shm m o).available (check_zmq m o).available (reachable_pool m o)
        ≡ next_mode m.mode
            (answer o.shm_check || (m.shm_health.available && not (timed_out m o.now)))
            (m.zmq_enabled && answer o.zmq_check)
            (reachable_pool m o)
    found = simp (shm_found m o, zmq_found m o s) refl
