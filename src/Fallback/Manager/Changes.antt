-- ===== src/Fallback/Manager/Changes.antt =====
-- The changes of mode that the callback is told of.
use avalon_miner.Prelude.{
  ℕ, ◌+◌, ◌%◌, ◌^◌, ◌≡◌, refl, sym, subst, ◌∙◌, inl, inr, Bool, true, false, ◌&&◌, not, List, [],
  ◌∷◌, ◌++◌, arith, if◌then◌else◌, Bool-cases, if_both, option_both,
}
use avalon_miner.Fallback.StratumClient.{is_connected, connect}
use avalon_miner.Fallback.State.{
  FallbackMode, primary_shm, fallback_zmq, fallback_stratum, same_mode, FallbackManager,
  Observation, call_back,
}
use avalon_miner.Fallback.Manager.{
  check_sources, enter_zmq, enter_stratum, connect_stratum, choose_fallback,
  switch_to_best_fallback, leave_for_stratum, switch_to_stratum, disconnect_stratum, leave_fallback,
  restore_primary, is_zmq, switch_mode, check_health, start, stop, signal_job_received,
  try_restore_primary, set_mode, lose_connection, Operation, check, fall_back, try_restore, job,
  begin, end, force, drop_connection, perform_live, perform, run, finish_switch, attempted,
}

-- The changes lead from the one mode to the other, each to a mode that differs.
abbrev pub Leads : FallbackMode → List (FallbackMode × FallbackMode) → FallbackMode → Type 0
Leads a [] b = a ≡ b
Leads a (x ∷ changes) b = (a ≡ x.0) × (same_mode x.0 x.1 ≡ false) × Leads x.1 changes b

Leads-append :
    (a b c : FallbackMode) (changes : List (FallbackMode × FallbackMode))
    → Leads a changes b
    → same_mode b c ≡ false
    → Leads a (changes ++ ((b, c) ∷ [])) c
Leads-append a b c [] l d = (l, d, refl)
Leads-append a b c (x ∷ changes) l d = (l.0, l.1, Leads-append x.1 b c changes l.2 d)

if_true {ℓ κ} :
    {A : Type ℓ} (P : A → Type κ) (b : Bool) (x y : A) → b ≡ true → P x → P (if b then x else y)
if_true P true x y h p = p
if_true P false x y h p = cc

-- The callback has been told of every change since `first`.
pub record IsTold (first : FallbackMode) (m : FallbackManager) : Type 0 where
  pub callback : m.mode_change_callback ≡ true
  pub changes : Leads first m.mode_changes m.mode

-- Between a manager and the same with another mode there is at most the one call.
call_back-IsTold :
    (first : FallbackMode) (m n : FallbackManager)
    → IsTold first m
    → n.mode_change_callback ≡ m.mode_change_callback
    → n.mode_changes ≡ m.mode_changes
    → same_mode m.mode n.mode ≡ false
    → IsTold first (call_back n m.mode n.mode)
unfolding call_back
call_back-IsTold first m n t c l d =
    if_true (IsTold first) n.mode_change_callback _ n (c ∙ t.callback)
      record { callback = c ∙ t.callback; changes = told }
  where
    told : Leads first (n.mode_changes ++ ((m.mode, n.mode) ∷ [])) n.mode
    told = rw l (Leads-append first m.mode n.mode m.mode_changes t.changes d)

-- A manager with the same mode and calls.
kept :
    (first : FallbackMode) (m n : FallbackManager)
    → IsTold first m
    → n.mode_change_callback ≡ m.mode_change_callback
    → n.mode_changes ≡ m.mode_changes
    → n.mode ≡ m.mode
    → IsTold first n
kept first m n t c l d = record { callback = c ∙ t.callback; changes = rw (l, d) t.changes }

same_mode-eq : (a b : FallbackMode) → same_mode a b ≡ true → a ≡ b
same_mode-eq primary_shm primary_shm h = refl
same_mode-eq fallback_zmq fallback_zmq h = refl
same_mode-eq fallback_stratum fallback_stratum h = refl
same_mode-eq primary_shm fallback_zmq h = cc
same_mode-eq primary_shm fallback_stratum h = cc
same_mode-eq fallback_zmq primary_shm h = cc
same_mode-eq fallback_zmq fallback_stratum h = cc
same_mode-eq fallback_stratum primary_shm h = cc
same_mode-eq fallback_stratum fallback_zmq h = cc

differ_sym : (a b : FallbackMode) → same_mode a b ≡ false → same_mode b a ≡ false
differ_sym primary_shm primary_shm h = h
differ_sym primary_shm fallback_zmq h = refl
differ_sym primary_shm fallback_stratum h = refl
differ_sym fallback_zmq primary_shm h = refl
differ_sym fallback_zmq fallback_zmq h = h
differ_sym fallback_zmq fallback_stratum h = refl
differ_sym fallback_stratum primary_shm h = refl
differ_sym fallback_stratum fallback_zmq h = refl
differ_sym fallback_stratum fallback_stratum h = h

-- What the choice of a fallback leaves alone.
record Quiet (m n : FallbackManager) : Type 0 where
  callback : n.mode_change_callback ≡ m.mode_change_callback
  changes : n.mode_changes ≡ m.mode_changes

connect_stratum-Quiet : (m : FallbackManager) (o : Observation) → Quiet m (connect_stratum m o)
unfolding connect_stratum attempted
connect_stratum-Quiet m o = ground arith

choose_fallback-Quiet : (m : FallbackManager) (o : Observation) → Quiet m (choose_fallback m o)
unfolding choose_fallback enter_zmq enter_stratum
choose_fallback-Quiet m o = ground (arith, connect_stratum-Quiet m o)

disconnect_stratum-Quiet : (m : FallbackManager) → Quiet m (disconnect_stratum m)
unfolding disconnect_stratum
disconnect_stratum-Quiet m = ground arith

disconnect_stratum-mode : (m : FallbackManager) → (disconnect_stratum m).mode ≡ m.mode
unfolding disconnect_stratum
disconnect_stratum-mode m = ground arith

module _ (first : FallbackMode) where
  if_changed-IsTold :
      (m n : FallbackManager)
      → IsTold first m
      → Quiet m n
      → IsTold first (if not (same_mode m.mode n.mode) then call_back n m.mode n.mode else n)
  if_changed-IsTold m n t q = elim (Bool-cases (same_mode m.mode n.mode)) [
    | inl s ↦ rw s (kept first m n t q.callback q.changes (sym (same_mode-eq m.mode n.mode s)))
    | inr d ↦ rw d (call_back-IsTold first m n t q.callback q.changes d)
  ]

  switch_to_best_fallback-IsTold :
      (m : FallbackManager) (o : Observation)
      → IsTold first m
      → IsTold first (switch_to_best_fallback m o)
  unfolding switch_to_best_fallback finish_switch
  switch_to_best_fallback-IsTold m o t =
      let n : FallbackManager = choose_fallback m o in
      let q : Quiet m n = choose_fallback-Quiet m o in
      elim (Bool-cases (same_mode n.mode m.mode)) [
        | inl s ↦ rw s (kept first m n t q.callback q.changes (same_mode-eq n.mode m.mode s))
        | inr d ↦ rw d (
            call_back-IsTold first m (record n { fallback_started = o.later }) t q.callback
              q.changes (differ_sym n.mode m.mode d))
      ]

  leave_for_stratum-IsTold :
      (m : FallbackManager) → IsTold first m → IsTold first (leave_for_stratum m)
  unfolding leave_for_stratum enter_stratum
  leave_for_stratum-IsTold m t = if_changed-IsTold m (enter_stratum m) t (ground arith)

  switch_to_stratum-IsTold :
      (m : FallbackManager) (o : Observation)
      → IsTold first m
      → IsTold first (switch_to_stratum m o)
  unfolding switch_to_stratum attempted
  switch_to_stratum-IsTold m o t = option_both (IsTold first) m.stratum_client _ _ t λ c.
      if_both (IsTold first) (is_connected c) _ _ (leave_for_stratum-IsTold m t) (
        option_both (IsTold first) (connect c o.attempt).1 _ _
          (leave_for_stratum-IsTold (attempted m (connect c o.attempt))
            (kept first m _ t refl refl refl))
          (λ _. kept first m _ t refl refl refl))

  restore_primary-IsTold :
      (m : FallbackManager) (o : Observation) → IsTold first m → IsTold first (restore_primary m o)
  unfolding restore_primary leave_fallback
  restore_primary-IsTold m o t =
      let left : FallbackManager = leave_fallback m o.later in
      let n : FallbackManager = disconnect_stratum left in
      let q : Quiet left n = disconnect_stratum-Quiet left in
      let same : n.mode ≡ primary_shm = disconnect_stratum-mode left in
      elim (Bool-cases (same_mode m.mode primary_shm)) [
        | inl s ↦ rw s t
        | inr d ↦ rw d (told n (record { callback = q.callback; changes = q.changes }) same d)
      ]
    where
      told :
          (n : FallbackManager)
          → Quiet m n
          → n.mode ≡ primary_shm
          → same_mode m.mode primary_shm ≡ false
          → IsTold first (call_back n m.mode primary_shm)
      told n q same d =
          let call = call_back-IsTold first m n t q.callback q.changes (rw same d) in
          subst (λ (mode : FallbackMode). IsTold first (call_back n m.mode mode)) same (call)

  switch_mode-IsTold :
      (m : FallbackManager) (o : Observation) → IsTold first m → IsTold first (switch_mode m o)
  unfolding switch_mode
  switch_mode-IsTold m o t =
      if_both (IsTold first) (same_mode m.mode primary_shm) _ _
        (if_both (IsTold first) (not m.shm_health.available) _ _
          (switch_to_best_fallback-IsTold m o t) t)
        (if_both (IsTold first) m.shm_health.available _ _ (restore_primary-IsTold m o t) (
          if_both (IsTold first) (is_zmq m.mode && not m.zmq_health.available) _ _
            (switch_to_stratum-IsTold m o t) t))

  check_health-IsTold :
      (m : FallbackManager) (o : Observation) → IsTold first m → IsTold first (check_health m o)
  unfolding check_health check_sources
  check_health-IsTold m o t =
      switch_mode-IsTold (check_sources m o) o (kept first m _ t refl refl refl)

  stop-IsTold : (m : FallbackManager) → IsTold first m → IsTold first (stop m)
  unfolding stop
  stop-IsTold m t =
      option_both (IsTold first) m.stratum_client _ _ (kept first m _ t refl refl refl)
        λ _. kept first m _ t refl refl refl

  signal_job_received-IsTold :
      (m : FallbackManager) (now : ℕ) → IsTold first m → IsTold first (signal_job_received m now)
  unfolding signal_job_received
  signal_job_received-IsTold m now t = kept first m _ t (ground arith) (ground arith) (ground arith)

  set_mode-IsTold :
      (m : FallbackManager) (mode : FallbackMode) → IsTold first m → IsTold first (set_mode m mode)
  unfolding set_mode
  set_mode-IsTold m mode t =
      if_changed-IsTold m (record m { mode = mode }) t (record { callback = refl; changes = refl })

  perform_live-IsTold :
      (m : FallbackManager) (op : Operation) → IsTold first m → IsTold first (perform_live m op)
  unfolding perform_live start lose_connection try_restore_primary
  perform_live-IsTold m (check o) t = check_health-IsTold m o t
  perform_live-IsTold m (fall_back o) t = switch_to_best_fallback-IsTold m o t
  perform_live-IsTold m (try_restore o) t =
      if_both (IsTold first) m.shm_health.available _ _ (restore_primary-IsTold m o t) t
  perform_live-IsTold m (job now) t = signal_job_received-IsTold m now t
  perform_live-IsTold m (begin now) t =
      if_both (IsTold first) m.running _ _ t (kept first m _ t refl refl refl)
  perform_live-IsTold m end t = stop-IsTold m t
  perform_live-IsTold m (force mode) t = set_mode-IsTold m mode t
  perform_live-IsTold m drop_connection t =
      option_both (IsTold first) m.stratum_client _ _ t λ _. kept first m _ t refl refl refl

  perform-IsTold :
      (m : FallbackManager) (op : Operation) → IsTold first m → IsTold first (perform m op)
  unfolding perform
  perform-IsTold m op t = if_both (IsTold first) m.terminated _ _ t (perform_live-IsTold m op t)

  -- Whatever is done to the manager, in any order, by calls that do not overlap: the callback is
  -- told of every change of mode. The changes it was called with lead from the first mode to the
  -- present one, each to a mode that differs.
  pub run-IsTold :
      (m : FallbackManager) (ops : List Operation) → IsTold first m → IsTold first (run m ops)
  unfolding run
  run-IsTold m [] t = t
  run-IsTold m (op ∷ ops) t = run-IsTold (perform m op) ops (perform-IsTold m op t)

-- Calls that overlap: another thread sets the primary mode between the two readings of the mode in a
-- switch to ZMQ. The callback is then called only with the change from ZMQ to the primary mode, and
-- never with the switch to ZMQ, although this is counted.
pub set_mode-lost_switch :
    (m : FallbackManager) (o : Observation)
    → m.mode_change_callback ≡ true
    → m.mode ≡ primary_shm
    → m.zmq_enabled ≡ true
    → m.zmq_health.available ≡ true
    → ((finish_switch m.mode (set_mode (choose_fallback m o) primary_shm) o).mode_changes
        ≡ m.mode_changes ++ ((fallback_zmq, primary_shm) ∷ []))
      × ((finish_switch m.mode (set_mode (choose_fallback m o) primary_shm) o).stats.zmq_switches
          ≡ (m.stats.zmq_switches + 1) % 2 ^ 64)
unfolding finish_switch set_mode choose_fallback enter_zmq call_back
set_mode-lost_switch m o told primary on up = ground arith
