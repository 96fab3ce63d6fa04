-- ===== src/Fallback/StratumClient/Connection.antt =====
-- What the result of a connection attempt says about the connection.
use avalon_miner.Prelude.{
  ◌≡◌, ◌≢◌, refl, Bool, true, false, ◌&&◌, ◌||◌, not, Option, none, some, arith,
}
use avalon_miner.Fallback.StratumClient.{
  subscribing, StratumClient, Attempt, ConnectError, crashed, ends_program, is_connected,
  disconnect, lose, finish, authorize, subscribe, start_reading, connect,
}

-- The thread is to be waited for while the client is connected, and only then.
abbrev pub IsTidy : StratumClient → Type 0
IsTidy c = c.joinable ≡ is_connected c

-- What an attempt that found these answers says by its result: after a success the client is
-- connected if it has not just lost its connection, after a failure it is not and its socket is
-- closed; and it has a thread to be waited for after a success only.
record IsSettled (a : Attempt) (r : StratumClient × Option ConnectError) : Type 0 where
  tells :
      elim r.1 [ none ↦ is_connected r.0 || a.lost_at_once | some _ ↦ not (is_connected r.0) ]
      ≡ true
  closes : elim r.1 [ none ↦ true | some _ ↦ not r.0.socket_open ] ≡ true
  joins : r.0.joinable ≡ elim r.1 [ none ↦ true | some _ ↦ false ]

authorize-IsSettled :
    (c : StratumClient) (a : Attempt) → c.joinable ≡ true → IsSettled a (authorize c a)
unfolding authorize finish lose disconnect is_connected
authorize-IsSettled c a on = ground arith

subscribe-IsSettled :
    (c : StratumClient) (a : Attempt) → c.joinable ≡ true → IsSettled a (subscribe c a)
unfolding subscribe disconnect is_connected
subscribe-IsSettled c a on =
    ground (arith, authorize-IsSettled (record c { state = a.after_subscribe }) a on)

-- For a client whose thread is to be waited for while it is connected and only then, which one that
-- has lost its connection is not: if an attempt succeeds, the client is connected unless it loses the
-- connection between the last check and the return; if it fails, the client is not connected and its
-- socket is closed; and there is a thread to be waited for exactly if it succeeds.
pub connect-is_connected :
    (c : StratumClient) (a : Attempt)
    → IsTidy c
    → (elim (connect c a).1 [
      | none ↦ is_connected (connect c a).0 || a.lost_at_once
      | some _ ↦ not (is_connected (connect c a).0)
    ]
        ≡ true)
      × (elim (connect c a).1 [ none ↦ true | some _ ↦ not (connect c a).0.socket_open ] ≡ true)
      × ((connect c a).0.joinable ≡ elim (connect c a).1 [ none ↦ true | some _ ↦ false ])
unfolding connect is_connected start_reading
connect-is_connected c a tidy =
    let settled =
      subscribe-IsSettled
        (record { state = subscribing; running = true; socket_open = true; joinable = true }) a
        refl in
    let tells = settled.tells in
    let closes = settled.closes in let joins = settled.joins in ground (arith, tells, closes, joins)

-- When a running, connected client has lost its connection, the next attempt that reaches the pool
-- ends the program; after a call of disconnect in between it does not.
pub connect-lose :
    (c : StratumClient) (a : Attempt)
    → is_connected c ≡ true
    → c.running ≡ true
    → IsTidy c
    → a.socket_created ≡ true
    → a.pool_reached ≡ true
    → ((connect (lose c) a).1 ≡ some crashed) × ((connect (disconnect (lose c)) a).1 ≢ some crashed)
unfolding connect is_connected start_reading lose disconnect subscribe authorize finish
connect-lose c a on runs tidy socket pool = ground arith

authorize-ends_program : (c : StratumClient) (a : Attempt) → ends_program (authorize c a).1 ≡ false
unfolding authorize
authorize-ends_program c a = ground arith

subscribe-ends_program : (c : StratumClient) (a : Attempt) → ends_program (subscribe c a).1 ≡ false
unfolding subscribe
subscribe-ends_program c a =
    ground (arith, authorize-ends_program (record c { state = a.after_subscribe }) a)

-- The client has lost a connection, and its thread has not been waited for.
abbrev pub left_over : StratumClient → Bool
left_over c = c.joinable && not (is_connected c)

-- An attempt ends the program exactly if a thread is left over and the pool is reached.
pub connect-ends_program :
    (c : StratumClient) (a : Attempt)
    → ends_program (connect c a).1 ≡ (left_over c && (a.socket_created && a.pool_reached))
unfolding connect start_reading
connect-ends_program c a = ground (
  arith,
  subscribe-ends_program
      (record { state = subscribing; running = true; socket_open = true; joinable = true }) a,
)

-- After a failure the client is not connected.
pub connect-failed :
    (c : StratumClient) (a : Attempt)
    → elim (connect c a).1 [ none ↦ true | some _ ↦ not (is_connected (connect c a).0) ] ≡ true
unfolding connect start_reading is_connected
connect-failed c a =
    let settled =
      subscribe-IsSettled
        (record { state = subscribing; running = true; socket_open = true; joinable = true }) a
        refl in
    let tells = settled.tells in ground (arith, tells)
