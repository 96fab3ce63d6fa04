-- ===== src/Network/Protocol/Draining.antt =====
-- The loop that takes all messages from a buffer.
use avalon_miner.Prelude.{
  ℕ, zero, suc, ◌≤◌, ◌≡◌, refl, ap, sym, ◌∙◌, inl, inr, Option, none, some, List, [], ◌∷◌, ◌++◌,
  arith, length, All, Option-cases,
}
use avalon_miner.Mining.Job.{Share}
use avalon_miner.Network.Protocol.{
  ParsedMessage, StatusMessage, serialize_share_message, serialize_status, try_parse, collect,
  drain,
}
use avalon_miner.Network.Protocol.Parsing.{
  IsShare, IsStatus, try_parse-share, try_parse-status, try_parse_shortens,
}

-- What a device sends of its own accord: shares and statuses.
pub data Report : Type 0 where
  share : Share → Report
  status : StatusMessage → Report

abbrev pub sent : Report → List ℕ
sent (share s) = serialize_share_message s
sent (status m) = serialize_status m

abbrev pub received : Report → ParsedMessage
received (share s) = ParsedMessage.share_message s
received (status m) = ParsedMessage.status_message m

abbrev pub IsReport : Report → Type 0
IsReport (share s) = IsShare s
IsReport (status m) = IsStatus m

abbrev pub stream : List Report → List ℕ
stream [] = []
stream (r ∷ rs) = sent r ++ stream rs

abbrev pub all_received : List Report → List ParsedMessage
all_received [] = []
all_received (r ∷ rs) = received r ∷ all_received rs

try_parse-sent :
    (r : Report) (rest : List ℕ)
    → IsReport r
    → try_parse (sent r ++ rest) ≡ (rest, some (received r))
try_parse-sent (share s) rest h = try_parse-share s rest h
try_parse-sent (status m) rest h = try_parse-status m rest h

collect-some :
    (buffer : List ℕ) (m : ParsedMessage) (r : List ℕ × List ParsedMessage)
    → collect (buffer, some m) r ≡ (r.0, m ∷ r.1)
unfolding collect
collect-some buffer m r = refl

collect-none :
    (p : List ℕ × Option ParsedMessage) (r : List ℕ × List ParsedMessage)
    → p.1 ≡ none
    → collect p r ≡ (p.0, [])
unfolding collect
collect-none (buffer, none) r e = refl
collect-none (buffer, some m) r e = cc

drain-step :
    (fuel : ℕ) (buffer rest : List ℕ) (m : ParsedMessage)
    → try_parse buffer ≡ (rest, some m)
    → drain (suc fuel) buffer ≡ ((drain fuel rest).0, m ∷ (drain fuel rest).1)
unfolding drain
drain-step fuel buffer rest m e =
    ap (λ (p : List ℕ × Option ParsedMessage). collect p (drain fuel (p.0))) e
    ∙ collect-some rest m _

drain-end : (fuel : ℕ) → drain fuel [] ≡ ([], [])
unfolding drain try_parse
drain-end zero = refl
drain-end (suc fuel) = refl

-- Shares and statuses with fields in range that arrive one behind the other are all parsed, in
-- their order, and nothing is left in the buffer, given a round for each.
pub drain-stream :
    (reports : List Report) (fuel : ℕ)
    → All IsReport reports
    → length reports ≤ fuel
    → drain fuel (stream reports) ≡ ([], all_received reports)
drain-stream [] fuel h l = drain-end fuel
drain-stream (r ∷ rs) zero h l = absurd (omega arith)
drain-stream (r ∷ rs) (suc fuel) h l =
    drain-step fuel (sent r ++ stream rs) (stream rs) (received r)
      (try_parse-sent r (stream rs) h.0)
    ∙ ap (λ (d : List ℕ × List ParsedMessage). (d.0, received r ∷ d.1))
        (drain-stream rs fuel h.1 (omega arith))

drain-both :
    (f g : ℕ) (buffer : List ℕ)
    → drain f ((try_parse buffer).0) ≡ drain g ((try_parse buffer).0)
    → drain (suc f) buffer ≡ drain (suc g) buffer
unfolding drain
drain-both f g buffer ih = ap (collect (try_parse buffer)) ih

drain-none :
    (f : ℕ) (buffer : List ℕ)
    → (try_parse buffer).1 ≡ none
    → drain (suc f) buffer ≡ ((try_parse buffer).0, [])
unfolding drain
drain-none f buffer e = collect-none (try_parse buffer) _ e

drain-short : (f : ℕ) (buffer : List ℕ) → length buffer ≤ 0 → drain f buffer ≡ ([], [])
drain-short f [] h = drain-end f
drain-short f (b ∷ buffer) h = absurd (omega arith)

-- The loop ends after at most as many messages as the buffer has bytes: all numbers of rounds
-- from there on give the same messages and the same rest.
pub drain_enough :
    (f g : ℕ) (buffer : List ℕ)
    → length buffer ≤ f
    → length buffer ≤ g
    → drain f buffer ≡ drain g buffer
drain_enough zero g buffer hf hg = drain-short zero buffer hf ∙ sym (drain-short g buffer hf)
drain_enough (suc f) zero buffer hf hg =
    drain-short (suc f) buffer hg ∙ sym (drain-short zero buffer hg)
drain_enough (suc f) (suc g) buffer hf hg = elim (Option-cases (try_parse buffer).1) [
  | inl n ↦ drain-none f buffer n ∙ sym (drain-none g buffer n)
  | inr (m, e) ↦
      let less = try_parse_shortens buffer m e in
      drain-both f g buffer
        (drain_enough f g (try_parse buffer).0 (omega (arith, less)) (omega (arith, less)))
]
