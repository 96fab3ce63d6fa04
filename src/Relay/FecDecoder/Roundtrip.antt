-- ===== src/Relay/FecDecoder/Roundtrip.antt =====
-- From a new decoder to the block.
use avalon_miner.Prelude.{
  ℕ, zero, suc, ◌-◌, ◌≤◌, ◌≡◌, refl, sym, subst, inl, inr, true, none, some, List, [], ◌∷◌, arith,
  leb, length, replicate, All, Bool-cases, length-replicate,
}
use avalon_miner.Relay.FecDecoder.{
  xor_chunks, FecParams, FecDecoder, initial, decode, can_decode, max_data_chunks, max_fec_chunks,
}
use avalon_miner.Relay.FecDecoder.Recovery.{IsChunk}
use avalon_miner.Relay.FecDecoder.Delivery.{
  concat, Agrees, AreAll, count_present, Carries, Sent, IsTrue, deliver, deliver-Carries,
}
use avalon_miner.Relay.FecDecoder.Decoding.{Decodes}
use avalon_miner.Relay.FecDecoder.Single.{whole, partly}

fresh-Agrees : (cs : List (List ℕ)) → Agrees (replicate (length cs) none) cs
fresh-Agrees [] = tt
fresh-Agrees (c ∷ cs) = fresh-Agrees cs

fresh-AreAll : (fec : List ℕ) (n : ℕ) → AreAll fec (replicate n none)
fresh-AreAll fec zero = tt
fresh-AreAll fec (suc n) = fresh-AreAll fec n

fresh-count : (n : ℕ) → 0 ≡ count_present (replicate n none)
fresh-count zero = refl
fresh-count (suc n) = fresh-count n

pub initial-Carries :
    (p : FecParams) (cs : List (List ℕ)) (fec : List ℕ)
    → p.data_chunk_count ≡ length cs
    → p.fec_chunk_count ≤ max_fec_chunks
    → Carries cs fec (initial p)
unfolding initial
initial-Carries p cs fec number masked = record {
  chunks = number;
  masked = masked;
  agree = subst (λ (n : ℕ). Agrees (replicate n none) cs) (sym number) (fresh-Agrees cs);
  fec_agree = fresh-AreAll fec p.fec_chunk_count;
  fec_size = length-replicate p.fec_chunk_count none;
  data_counted = fresh-count p.data_chunk_count;
  fec_counted = fresh-count p.fec_chunk_count;
}

-- At most one chunk is lost.
pub decode-Carries :
    (size : ℕ) (cs : List (List ℕ))
    → All (IsChunk size) cs
    → length cs ≤ max_data_chunks
    → (d : FecDecoder) → Carries cs (xor_chunks cs size) d
    → length cs ≤ suc d.data_count
    → can_decode d ≡ true
    → Decodes (concat cs) (length cs - d.data_count) (decode d).1
decode-Carries size cs chunks few d held one enough =
    elim (Bool-cases (leb (length cs) d.data_count)) [
      | inl t ↦
          let none_lost : length cs - d.data_count ≡ 0 = ground arith in
          rw none_lost (whole size cs chunks few d held (ground arith))
      | inr f ↦
          let one_lost : length cs - d.data_count ≡ 1 = ground arith in
          rw one_lost (partly size cs chunks few d held (ground arith) enough)
    ]

-- A block of equally long chunks is sent with FEC chunks that are the XOR of all of them. Whatever
-- arrives, in any order and some of it twice, the new decoder takes without an exception; if then
-- at most one data chunk is lost and there are enough chunks, it decodes the block, with one
-- recovered chunk if one is lost and none otherwise.
pub decode-deliver :
    (size : ℕ) (cs : List (List ℕ)) (p : FecParams) (sent : List Sent)
    → All (IsChunk size) cs
    → p.data_chunk_count ≡ length cs
    → length cs ≤ max_data_chunks
    → p.fec_chunk_count ≤ max_fec_chunks
    → All (IsTrue cs (xor_chunks cs size)) sent
    → (d : FecDecoder) × (deliver (initial p) sent ≡ some d)
      × (length cs ≤ suc d.data_count
          → can_decode d ≡ true
          → Decodes (concat cs) (length cs - d.data_count) (decode d).1)
decode-deliver size cs p sent chunks number few masked true_all =
    let fec : List ℕ = xor_chunks cs size in
    let (d, delivered, held) =
      deliver-Carries cs fec few (initial p) sent (initial-Carries p cs fec number masked)
        true_all in
    (
      d,
      delivered,
      λ at_most_one enough. decode-Carries size cs chunks few d held at_most_one enough,
    )
