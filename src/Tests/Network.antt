-- ===== src/Tests/Network.antt =====
-- The protocol between server and devices.
use avalon_miner.Prelude.{◌≡◌, some, List, [], ◌∷◌, ◌++◌, arith}
use avalon_miner.Network.Protocol.{ParsedMessage, serialize_error, try_parse, drain}
use avalon_miner.Network.Protocol.Parsing.{try_parse_error_swallows}
use avalon_miner.Network.Protocol.Draining.{
  Report, stream, all_received, drain-stream, drain_enough,
}

abbrev reports : List Report
reports =
    Report.share (record { job_id = 7; nonce = 99 })
    ∷ Report.status (record { hashrate = 1000; temperature = 60; fan_speed = 50; errors = 3 })
    ∷ []

drain-stream_example : drain 3 (stream reports) ≡ ([], all_received reports)
drain-stream_example =
    drain-stream reports 3 ((omega arith, omega arith), ((omega arith, omega arith), tt))
      (omega arith)

drain_enough_example : drain 5 (0x83 ∷ 0x83 ∷ []) ≡ drain 2 (0x83 ∷ 0x83 ∷ [])
drain_enough_example = drain_enough 5 2 (0x83 ∷ 0x83 ∷ []) (omega arith) (omega arith)

try_parse_error_swallows_example :
    try_parse (serialize_error (record { error_code = 4; message = [] }) ++ (0x83 ∷ []))
    ≡ ([], some (ParsedMessage.error_message (record { error_code = 4; message = 0x83 ∷ [] })))
try_parse_error_swallows_example = try_parse_error_swallows 4 (0x83 ∷ []) (omega arith)
