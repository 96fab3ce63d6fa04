-- ===== src/Fallback/StratumClient.antt =====
-- src/fallback/stratum_client.cpp and .hpp: the states of the connection to a pool, and the reading
-- of `mining.notify`. What the socket and the reading thread do is an input of `connect`. A text is
-- its character codes; a position in a line is the part of the line from there on, behind whose end
-- operator[] gives 0. The loop over the parameters runs on fuel; `none` means that it has not ended.
pub mod Connection
pub mod Notify
use avalon_miner.Prelude.{
  ℕ, zero, suc, ◌+◌, ◌≤◌, Bool, true, false, ◌&&◌, ◌||◌, not, Option, none, some, List, [], ◌∷◌,
  ◌++◌, leb, ltb, ◌==◌, if◌then◌else◌, length, take, drop, get_or,
}

pub data StratumState : Type 0 where
  disconnected : StratumState
  connecting : StratumState
  subscribing : StratumState
  authorizing : StratumState
  connected : StratumState
  error : StratumState

pub record StratumClient : Type 0 where
  pub state : StratumState
  pub running : Bool
  pub socket_open : Bool
  pub joinable : Bool

-- What the calls of `connect` find: the states are those after each of the two waits, to which the
-- reading thread has moved, and `lost_at_once` that it loses the connection between the last check
-- of the state and the return.
pub record Attempt : Type 0 where
  pub socket_created : Bool
  pub pool_reached : Bool
  pub subscribe_sent : Bool
  pub after_subscribe : StratumState
  pub authorize_sent : Bool
  pub after_authorize : StratumState
  pub lost_at_once : Bool

pub data ConnectError : Type 0 where
  no_socket : ConnectError
  no_pool : ConnectError
  subscribe_not_sent : ConnectError
  subscribe_timeout : ConnectError
  authorize_not_sent : ConnectError
  not_authorized : ConnectError
  crashed : ConnectError

abbrev pub is_state_connected : StratumState → Bool
is_state_connected connected = true
is_state_connected disconnected = false
is_state_connected connecting = false
is_state_connected subscribing = false
is_state_connected authorizing = false
is_state_connected error = false

abbrev pub is_state_authorizing : StratumState → Bool
is_state_authorizing authorizing = true
is_state_authorizing disconnected = false
is_state_authorizing connecting = false
is_state_authorizing subscribing = false
is_state_authorizing connected = false
is_state_authorizing error = false

unfoldable pub is_connected : StratumClient → Bool
is_connected c = is_state_connected c.state

-- The reading thread is taken to end when it is waited for.
unfoldable pub disconnect : StratumClient → StratumClient
disconnect c = record {
  state = disconnected;
  running = false;
  socket_open = false;
  joinable = false;
}

-- The reading thread finds that the connection has ended, and leaves its loop.
unfoldable pub lose : StratumClient → StratumClient
lose c = if c.running then record c { state = disconnected } else c

-- The last check of the state is passed.
unfoldable pub finish : StratumClient → Attempt → StratumClient
finish c a =
    let done = record c { state = a.after_authorize } in if a.lost_at_once then lose done else done

-- From the second wait on.
unfoldable pub authorize : StratumClient → Attempt → StratumClient × Option ConnectError
authorize c a =
    if not a.authorize_sent
    then (disconnect c, some authorize_not_sent)
    else (if is_state_connected a.after_authorize
        then (finish c a, none)
        else (disconnect c, some not_authorized))

unfoldable pub subscribe : StratumClient → Attempt → StratumClient × Option ConnectError
subscribe c a =
    if not a.subscribe_sent
    then (disconnect c, some subscribe_not_sent)
    else (if is_state_authorizing a.after_subscribe
        then authorize (record c { state = a.after_subscribe }) a
        else (disconnect c, some subscribe_timeout))

-- The error that no caller sees.
abbrev pub ends_program : Option ConnectError → Bool
ends_program none = false
ends_program (some no_socket) = false
ends_program (some no_pool) = false
ends_program (some subscribe_not_sent) = false
ends_program (some subscribe_timeout) = false
ends_program (some authorize_not_sent) = false
ends_program (some not_authorized) = false
ends_program (some crashed) = true

-- A client before its first connection.
unfoldable pub initial : StratumClient
initial = record { state = disconnected; running = false; socket_open = false; joinable = false }

-- The thread is made. An assignment to a thread that has not been waited for ends the program.
unfoldable pub start_reading : StratumClient → Attempt → StratumClient × Option ConnectError
start_reading c a =
    if c.joinable
    then (record c { state = subscribing; running = true; socket_open = true }, some crashed)
    else subscribe
        (record { state = subscribing; running = true; socket_open = true; joinable = true }) a

-- `none` for success.
unfoldable pub connect : StratumClient → Attempt → StratumClient × Option ConnectError
connect c a =
    if is_connected c
    then (c, none)
    else (if not a.socket_created
        then (record c { state = error; socket_open = false }, some no_socket)
        else (if not a.pool_reached
            then (record c { state = error; socket_open = false }, some no_pool)
            else start_reading c a))

-- `find(c)`: the text before the character, and the text behind it.
unfoldable pub find_char : ℕ → List ℕ → Option (List ℕ × List ℕ)
find_char c [] = none
find_char c (x ∷ xs) =
    if x == c
    then some ([], xs)
    else elim (find_char c xs) [ none ↦ none | some (before, behind) ↦ some (x ∷ before, behind) ]

unfoldable pub starts_with : List ℕ → List ℕ → Bool
starts_with [] line = true
starts_with (p ∷ ps) [] = false
starts_with (p ∷ ps) (x ∷ xs) = p == x && starts_with ps xs

-- `find(text)`: the line from the text on.
unfoldable pub find_text : List ℕ → List ℕ → Option (List ℕ)
find_text text [] = if starts_with text [] then some [] else none
find_text text (x ∷ xs) =
    let rest = find_text text xs in if starts_with text (x ∷ xs) then some (x ∷ xs) else rest

unfoldable pub skip_blanks : List ℕ → List ℕ
skip_blanks [] = []
skip_blanks (x ∷ xs) = let rest = skip_blanks xs in if x == b' ' || x == b'\t' then rest else x ∷ xs

abbrev pub true_text : List ℕ
true_text = b't' ∷ b'r' ∷ b'u' ∷ b'e' ∷ []

abbrev pub false_text : List ℕ
false_text = b'f' ∷ b'a' ∷ b'l' ∷ b's' ∷ b'e' ∷ []

-- What one pass of the loop does: it ends the loop, or it goes on from a place with what is pushed.
pub data Pass : Type 0 where
  stop : Pass
  go_on : List (List ℕ) → List ℕ → Pass

unfoldable pub string_parameter : List ℕ → Pass
string_parameter rest = elim (find_char b'"' rest) [
  | none ↦ stop
  | some (text, behind) ↦ go_on (text ∷ []) behind
]

unfoldable pub array_parameter : List ℕ → Pass
array_parameter rest = elim (find_char b']' rest) [
  | none ↦ stop
  | some (inner, behind) ↦ go_on [] behind
]

-- A word that is neither leaves the position as it is.
unfoldable pub boolean_parameter : List ℕ → Pass
boolean_parameter line =
    if starts_with true_text line
    then go_on (true_text ∷ []) (drop 4 line)
    else (if starts_with false_text line
        then go_on (false_text ∷ []) (drop 5 line)
        else go_on [] line)

unfoldable pub one_parameter : List ℕ → Pass
one_parameter [] = go_on [] []
one_parameter (c ∷ rest) =
    if c == b']'
    then stop
    else (if c == b','
        then go_on [] rest
        else (if c == b'"'
            then string_parameter rest
            else (if c == b'['
                then array_parameter rest
                else (if c == b't' || c == b'f'
                    then boolean_parameter (c ∷ rest)
                    else go_on [] rest))))

unfoldable pub parse_params : ℕ → List ℕ → List (List ℕ) → Option (List (List ℕ))
parse_params zero line params = none
parse_params (suc fuel) [] params = some params
parse_params (suc fuel) (c ∷ rest) params = elim (one_parameter (skip_blanks (c ∷ rest))) [
  | stop ↦ some params
  | go_on pushed behind ↦ parse_params fuel behind (params ++ pushed)
]

pub record StratumJob : Type 0 where
  pub job_id : List ℕ
  pub prevhash : List ℕ
  pub coinbase1 : List ℕ
  pub coinbase2 : List ℕ
  pub merkle_branch : List (List ℕ)
  pub version : List ℕ
  pub nbits : List ℕ
  pub ntime : List ℕ
  pub clean_jobs : Bool
  pub received_at : ℕ

unfoldable pub empty_job : ℕ → StratumJob
empty_job now = record {
  job_id = [];
  prevhash = [];
  coinbase1 = [];
  coinbase2 = [];
  merkle_branch = [];
  version = [];
  nbits = [];
  ntime = [];
  clean_jobs = false;
  received_at = now;
}

-- `params[8] == "true"`
unfoldable pub is_true_text : List ℕ → Bool
is_true_text text = starts_with true_text text && length text == 4

unfoldable pub fill_job : ℕ → List (List ℕ) → StratumJob
fill_job now params =
    if leb 8 (length params)
    then record {
      job_id = get_or params 0 [];
      prevhash = get_or params 1 [];
      coinbase1 = get_or params 2 [];
      coinbase2 = get_or params 3 [];
      merkle_branch = [];
      version = get_or params 5 [];
      nbits = get_or params 6 [];
      ntime = get_or params 7 [];
      clean_jobs = ltb 8 (length params) && is_true_text (get_or params 8 []);
      received_at = now;
    }
    else empty_job now

abbrev pub params_text : List ℕ
params_text = b'"' ∷ b'p' ∷ b'a' ∷ b'r' ∷ b'a' ∷ b'm' ∷ b's' ∷ b'"' ∷ b':' ∷ []

-- The job that becomes the current one and is passed to the callback; the inner `none` where the
-- line has no parameters, the outer one where the loop has not ended.
unfoldable pub process_notify : ℕ → ℕ → List ℕ → Option (Option StratumJob)
process_notify fuel now line = elim (find_text params_text line) [
  | none ↦ some none
  | some from_params ↦ elim (find_char b'[' from_params) [
    | none ↦ some none
    | some (_, from_array) ↦ elim (parse_params fuel from_array []) [
      | none ↦ none
      | some params ↦ some (some (fill_job now params))
    ]
  ]
]
