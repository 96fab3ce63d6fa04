-- ===== src/Network/Protocol/Parsing.antt =====
-- What the parser makes of a buffer.
use avalon_miner.Prelude.{
  ℕ, suc, ◌-◌, ◌≤◌, ◌<◌, ◌≡◌, refl, ap, ◌∙◌, min, false, Option, none, some, List, [], ◌∷◌, ◌++◌,
  arith, ltb, if_both, ap₂, ◌==◌, length, length-drop, take, drop,
}
use avalon_miner.Prelude.Bytes.{IsU32, IsU16, join32-bytes, join16-bytes}
use avalon_miner.Mining.Job.{Share, serialize_share, deserialize_share, read_share}
use avalon_miner.Network.Protocol.{
  ParsedMessage, StatusMessage, serialize_share_message, serialize_status, serialize_error,
  try_parse, parse_share, parse_status, parse_error, consume, as_share, as_status, as_error,
  read_status, deserialize_status, deserialize_error,
}

-- The fields of a share message are `uint32_t`; a status has also a `uint16_t`.
abbrev pub IsShare : Share → Type 0
IsShare s = IsU32 s.job_id × IsU32 s.nonce

abbrev pub IsStatus : StatusMessage → Type 0
IsStatus m = IsU32 m.hashrate × IsU16 m.errors

share_of-bytes :
    (s : Share) (rest : List ℕ)
    → IsShare s
    → deserialize_share (take 8 (serialize_share s ++ rest)) ≡ some s
unfolding serialize_share deserialize_share read_share
share_of-bytes s rest h =
    λ i. some (record { job_id = join32-bytes s.job_id h.0 i; nonce = join32-bytes s.nonce h.1 i })

status_of-bytes :
    (m : StatusMessage) (rest : List ℕ)
    → IsStatus m
    → deserialize_status (take 8 (drop 1 (serialize_status m ++ rest))) ≡ some m
unfolding serialize_status deserialize_status read_status
status_of-bytes m rest h = λ i. some (record {
  hashrate = join32-bytes m.hashrate h.0 i;
  temperature = m.temperature;
  fan_speed = m.fan_speed;
  errors = join16-bytes m.errors h.1 i;
})

parse_share-long :
    (buffer : List ℕ) (s : Share)
    → 9 ≤ length buffer
    → deserialize_share (take 8 (drop 1 buffer)) ≡ some s
    → parse_share buffer ≡ (drop 9 buffer, some (ParsedMessage.share_message s))
unfolding parse_share consume as_share
parse_share-long buffer s long e =
    let full : ltb (length buffer) 9 ≡ false = ground arith in rw (full, e) refl

parse_status-long :
    (buffer : List ℕ) (m : StatusMessage)
    → 9 ≤ length buffer
    → deserialize_status (take 8 (drop 1 buffer)) ≡ some m
    → parse_status buffer ≡ (drop 9 buffer, some (ParsedMessage.status_message m))
unfolding parse_status consume as_status
parse_status-long buffer m long e =
    let full : ltb (length buffer) 9 ≡ false = ground arith in rw (full, e) refl

behind_share :
    (s : Share) (rest : List ℕ)
    → (9 ≤ length (serialize_share_message s ++ rest))
      × (drop 9 (serialize_share_message s ++ rest) ≡ rest)
unfolding serialize_share_message serialize_share
behind_share s rest = (omega arith, refl)

behind_status :
    (m : StatusMessage) (rest : List ℕ)
    → (9 ≤ length (serialize_status m ++ rest)) × (drop 9 (serialize_status m ++ rest) ≡ rest)
unfolding serialize_status
behind_status m rest = (omega arith, refl)

-- A share message at the front of the buffer is parsed as the share, and what follows is kept.
pub try_parse-share :
    (s : Share) (rest : List ℕ)
    → IsShare s
    → try_parse (serialize_share_message s ++ rest) ≡ (rest, some (ParsedMessage.share_message s))
unfolding try_parse serialize_share_message
try_parse-share s rest h =
    parse_share-long (serialize_share_message s ++ rest) s (behind_share s rest).0
      (share_of-bytes s rest h)
    ∙ ap (λ (l : List ℕ). (l, some (ParsedMessage.share_message s))) (behind_share s rest).1

-- A status message at the front of the buffer is parsed as the status, and what follows is kept.
pub try_parse-status :
    (m : StatusMessage) (rest : List ℕ)
    → IsStatus m
    → try_parse (serialize_status m ++ rest) ≡ (rest, some (ParsedMessage.status_message m))
unfolding try_parse serialize_status
try_parse-status m rest h =
    parse_status-long (serialize_status m ++ rest) m (behind_status m rest).0
      (status_of-bytes m rest h)
    ∙ ap (λ (l : List ℕ). (l, some (ParsedMessage.status_message m))) (behind_status m rest).1

take_all : (xs : List ℕ) → take (length xs) xs ≡ xs
take_all [] = refl
take_all (x ∷ xs) = ap (◌∷◌ x) (take_all xs)

drop_all : (xs : List ℕ) → drop (length xs) xs ≡ []
drop_all [] = refl
drop_all (x ∷ xs) = drop_all xs

-- An error message without text takes what follows it in the buffer, up to 30 bytes, as its
-- text: a message of the device that stands there is lost.
pub try_parse_error_swallows :
    (code : ℕ) (rest : List ℕ)
    → length rest ≤ 30
    → try_parse (serialize_error (record { error_code = code; message = [] }) ++ rest)
      ≡ ([], some (ParsedMessage.error_message (record { error_code = code; message = rest })))
unfolding try_parse serialize_error parse_error deserialize_error as_error consume
try_parse_error_swallows code rest h =
    let n : min (suc (suc (length rest))) 32 ≡ suc (suc (length rest)) = omega arith in
    let full : ltb (suc (suc (length rest))) 2 ≡ false = ground arith in
    let less : suc (suc (length rest)) - 1 ≡ suc (length rest) = omega arith in
    rw (full, n, less) (whole code rest)
  where
    whole :
        (code : ℕ) (rest : List ℕ)
        → consume
            (0x8f ∷ code ∷ rest)
            (suc (suc (length rest)))
            (as_error (deserialize_error (take (suc (length rest)) (code ∷ rest))))
          ≡ ([], some (ParsedMessage.error_message (record { error_code = code; message = rest })))
    whole code rest =
        ap₂
          (λ (l t : List ℕ).
            (l, some (ParsedMessage.error_message (record { error_code = code; message = t }))))
          (drop_all rest) (take_all rest)

-- A share or a status of which fewer than its 8 bytes have arrived leaves the buffer as it is
-- and gives no message.
pub try_parse-incomplete :
    (buffer : List ℕ)
    → length buffer < 8
    → (try_parse (0x81 ∷ buffer) ≡ (0x81 ∷ buffer, none))
      × (try_parse (0x84 ∷ buffer) ≡ (0x84 ∷ buffer, none))
unfolding try_parse parse_share parse_status
try_parse-incomplete buffer h = (ground arith, ground arith)

nothing : (m : ParsedMessage) → (try_parse []).1 ≡ some m → ⊥
unfolding try_parse
nothing m h = cc

-- What a call leaves of the buffer is shorter when it returns a message.
abbrev Shortens : List ℕ → List ℕ × Option ParsedMessage → Type 0
Shortens buffer r = (m : ParsedMessage) → r.1 ≡ some m → length (r.0) < length buffer

consume-Shortens :
    (buffer : List ℕ) (n : ℕ) (o : Option ParsedMessage)
    → 1 ≤ n
    → 1 ≤ length buffer
    → Shortens buffer (consume buffer n o)
unfolding consume
consume-Shortens buffer n none h k = λ m e. cc
consume-Shortens buffer n (some m') h k = λ m e. omega (arith, length-drop n buffer)

parse-Shortens : (b : ℕ) (buffer : List ℕ) → Shortens (b ∷ buffer) (try_parse (b ∷ buffer))
unfolding try_parse parse_share parse_status parse_error
parse-Shortens b buffer =
    let P = Shortens (b ∷ buffer) in
    let some_left : 1 ≤ length (b ∷ buffer) = omega arith in
    if_both P (b == 0x81) _ _
      (if_both P (ltb (length (b ∷ buffer)) 9) _ _ (λ m e. cc)
        (consume-Shortens (b ∷ buffer) 9 _ (omega arith) some_left))
      (if_both P (b == 0x84) _ _
        (if_both P (ltb (length (b ∷ buffer)) 9) _ _ (λ m e. cc)
          (consume-Shortens (b ∷ buffer) 9 _ (omega arith) some_left))
        (if_both P (b == 0x83) _ _ (λ m e. omega arith)
          (if_both P (b == 0x8f) _ _
            (if_both P (ltb (length (b ∷ buffer)) 2) _ _ (λ m e. cc)
              (consume-Shortens (b ∷ buffer) (min (length (b ∷ buffer)) 32) _ (omega arith)
                some_left))
            (λ m e. cc))))

-- A call that returns a message makes the buffer shorter, so that the loop that calls it until it
-- returns none ends.
pub try_parse_shortens :
    (buffer : List ℕ) (m : ParsedMessage)
    → (try_parse buffer).1 ≡ some m
    → length ((try_parse buffer).0) < length buffer
try_parse_shortens [] m h = absurd (nothing m h)
try_parse_shortens (b ∷ buffer) m h = parse-Shortens b buffer m h
