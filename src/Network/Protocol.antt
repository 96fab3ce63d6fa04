-- ===== src/Network/Protocol.antt =====
-- src/network/protocol.hpp and protocol.cpp: the messages between server and devices, and the parser of
-- what devices send. Bytes and the fields of messages are numbers; a message text is its bytes.
pub mod Parsing
pub mod Draining
use avalon_miner.Prelude.{
  ℕ, zero, suc, ◌+◌, ◌-◌, min, Bool, true, false, Option, none, some, List, [], ◌∷◌, ◌++◌, ltb, leb,
  ◌==◌, if◌then◌else◌, length, take, drop, get_or,
}
use avalon_miner.Prelude.Bytes.{le_bytes32, le_bytes16, read32, read16}
use avalon_miner.Core.Uint256.{Hash256}
use avalon_miner.Mining.Job.{
  Job, Share, serialize_job, deserialize_job, serialize_share, deserialize_share,
}

pub record StatusMessage : Type 0 where
  pub hashrate : ℕ
  pub temperature : ℕ
  pub fan_speed : ℕ
  pub errors : ℕ

pub record ErrorMessage : Type 0 where
  pub error_code : ℕ
  pub message : List ℕ

pub data ParsedMessage : Type 0 where
  share_message : Share → ParsedMessage
  status_message : StatusMessage → ParsedMessage
  error_message : ErrorMessage → ParsedMessage

-- `NewJobMessage::serialize` and `serialize_new_job`
unfoldable pub serialize_new_job : Job → List ℕ
serialize_new_job job = 0x01 ∷ serialize_job job

unfoldable pub serialize_share_message : Share → List ℕ
serialize_share_message s = 0x81 ∷ serialize_share s

-- `SetTargetMessage::serialize` and `serialize_set_target`
unfoldable pub serialize_set_target : Hash256 → List ℕ
serialize_set_target target = 0x04 ∷ target

unfoldable pub deserialize_set_target : List ℕ → Option Hash256
deserialize_set_target src = if ltb (length src) 32 then none else some (take 32 src)

unfoldable pub serialize_status : StatusMessage → List ℕ
serialize_status m =
    0x84 ∷ (le_bytes32 m.hashrate ++ (m.temperature ∷ m.fan_speed ∷ le_bytes16 m.errors))

unfoldable pub read_status : List ℕ → StatusMessage
read_status src = record {
  hashrate = read32 src;
  temperature = get_or src 4 0;
  fan_speed = get_or src 5 0;
  errors = read16 (drop 6 src);
}

unfoldable pub deserialize_status : List ℕ → Option StatusMessage
deserialize_status src = if ltb (length src) 8 then none else some (read_status src)

unfoldable pub serialize_error : ErrorMessage → List ℕ
serialize_error m = 0x8f ∷ m.error_code ∷ m.message

unfoldable pub deserialize_error : List ℕ → Option ErrorMessage
deserialize_error [] = none
deserialize_error (code ∷ text) = some (record { error_code = code; message = text })

unfoldable pub add_data : List ℕ → List ℕ → List ℕ
add_data buffer src = buffer ++ src

-- `if (result) { erase; return *result; } break;`
unfoldable pub consume : List ℕ → ℕ → Option ParsedMessage → List ℕ × Option ParsedMessage
consume buffer n none = (buffer, none)
consume buffer n (some m) = (drop n buffer, some m)

unfoldable pub as_share : Option Share → Option ParsedMessage
as_share none = none
as_share (some s) = some (ParsedMessage.share_message s)

unfoldable pub as_status : Option StatusMessage → Option ParsedMessage
as_status none = none
as_status (some s) = some (ParsedMessage.status_message s)

unfoldable pub as_error : Option ErrorMessage → Option ParsedMessage
as_error none = none
as_error (some e) = some (ParsedMessage.error_message e)

unfoldable pub parse_share : List ℕ → List ℕ × Option ParsedMessage
parse_share buffer =
    if ltb (length buffer) 9
    then (buffer, none)
    else consume buffer 9 (as_share (deserialize_share (take 8 (drop 1 buffer))))

unfoldable pub parse_status : List ℕ → List ℕ × Option ParsedMessage
parse_status buffer =
    if ltb (length buffer) 9
    then (buffer, none)
    else consume buffer 9 (as_status (deserialize_status (take 8 (drop 1 buffer))))

unfoldable pub parse_error : List ℕ → List ℕ × Option ParsedMessage
parse_error buffer =
    let msg_len = min (length buffer) 32 in
    if ltb (length buffer) 2
    then (buffer, none)
    else consume buffer msg_len (as_error (deserialize_error (take (msg_len - 1) (drop 1 buffer))))

-- A heartbeat is answered by a status of zeros.
abbrev pub heartbeat_status : StatusMessage
heartbeat_status = record { hashrate = 0; temperature = 0; fan_speed = 0; errors = 0 }

-- The buffer behind the call, and the message. The switch is on the first byte; an unknown one is
-- skipped.
unfoldable pub try_parse : List ℕ → List ℕ × Option ParsedMessage
try_parse [] = ([], none)
try_parse (b ∷ buffer) =
    if b == 0x81
    then parse_share (b ∷ buffer)
    else if b == 0x84
    then parse_status (b ∷ buffer)
    else if b == 0x83
    then (buffer, some (ParsedMessage.status_message heartbeat_status))
    else if b == 0x8f
    then parse_error (b ∷ buffer)
    else (buffer, none)

-- The body of the loop below, with what the later rounds give.
unfoldable pub collect :
    List ℕ × Option ParsedMessage → List ℕ × List ParsedMessage → List ℕ × List ParsedMessage
collect (buffer, none) rest = (buffer, [])
collect (buffer, some m) rest = (rest.0, m ∷ rest.1)

-- The loop of src/network/asic_connection.cpp on received data: messages are taken until there is
-- none. One unit of fuel is one message.
unfoldable pub drain : ℕ → List ℕ → List ℕ × List ParsedMessage
unfolding collect
drain zero buffer = (buffer, [])
drain (suc fuel) buffer = collect (try_parse buffer) (drain fuel ((try_parse buffer).0))
