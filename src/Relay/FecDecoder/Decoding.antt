-- ===== src/Relay/FecDecoder/Decoding.antt =====
-- What is decoded when at most one chunk is lost.
use avalon_miner.Prelude.{
  ℕ, suc, ◌+◌, ◌≤◌, ◌<◌, ◌≡◌, refl, ap, ap₂, true, false, none, some, List, [], ◌∷◌, ◌++◌, map,
  arith, leb, ◌==◌, length, set,
}
use avalon_miner.Relay.FecDecoder.{
  xor_bytes, xor_all, Slots, FecDecoder, gather, missing_from, first_fec, xor_others, DecodeOutcome,
  decoded, FecDecodeResult, collect, has_all_data_chunks,
}
use avalon_miner.Relay.FecDecoder.Delivery.{concat, Agrees, AreAll, count_present, Agrees-length}

abbrev pub present : List (List ℕ) → Slots
present cs = map some cs

pub all_present :
    (slots : Slots) (cs : List (List ℕ))
    → Agrees slots cs
    → length cs ≤ count_present slots
    → slots ≡ present cs
all_present [] [] h n = refl
all_present [] (c ∷ cs) h n = absurd h
all_present (s ∷ slots) [] h n = absurd h
all_present (none ∷ slots) (c ∷ cs) h n =
    absurd (omega (arith, count-le slots, Agrees-length slots cs h))
  where
    count-le : (slots : Slots) → count_present slots ≤ length slots
    count-le [] = omega arith
    count-le (none ∷ slots) = omega (arith, count-le slots)
    count-le (some x ∷ slots) = omega (arith, count-le slots)
all_present (some x ∷ slots) (c ∷ cs) h n =
    ap₂ (λ (y : List ℕ) (rest : Slots). some y ∷ rest) h.0 (all_present slots cs h.1 (omega arith))

-- The slots with one chunk lost.
abbrev pub lacking : List (List ℕ) → List (List ℕ) → Slots
lacking before after = present before ++ (none ∷ present after)

pub one_lost :
    (slots : Slots) (cs : List (List ℕ))
    → Agrees slots cs
    → suc (count_present slots) ≡ length cs
    → (before : List (List ℕ)) × (c : List ℕ) × (after : List (List ℕ)) × (slots
        ≡ lacking before after)
      × (cs ≡ before ++ (c ∷ after))
one_lost [] [] h n = absurd (omega arith)
one_lost [] (c ∷ cs) h n = absurd h
one_lost (s ∷ slots) [] h n = absurd h
one_lost (none ∷ slots) (c ∷ cs) h n =
    ([], c, cs, ap (◌∷◌ none) (all_present slots cs h (omega arith)), refl)
one_lost (some x ∷ slots) (c ∷ cs) h n =
    let (before, lost, after, s, e) = one_lost slots cs h.1 (omega arith) in
    (
      c ∷ before,
      lost,
      after,
      ap₂ (λ (y : List ℕ) (rest : Slots). some y ∷ rest) h.0 s,
      ap (◌∷◌ c) e,
    )

pub gather-present : (cs : List (List ℕ)) → gather (present cs) ≡ concat cs
unfolding gather
gather-present [] = refl
gather-present (c ∷ cs) = ap (◌++◌ c) (gather-present cs)

pub gather-set :
    (before after : List (List ℕ)) (c : List ℕ)
    → gather (set (lacking before after) (length before) (some c)) ≡ concat (before ++ (c ∷ after))
unfolding gather
gather-set [] after c = ap (◌++◌ c) (gather-present after)
gather-set (b ∷ before) after c = ap (◌++◌ b) (gather-set before after c)

missing_from-present : (i : ℕ) (cs : List (List ℕ)) → missing_from i (present cs) ≡ []
unfolding missing_from
missing_from-present i [] = refl
missing_from-present i (c ∷ cs) = missing_from-present (i + 1) cs

pub missing_from-lacking :
    (i : ℕ) (before after : List (List ℕ))
    → missing_from i (lacking before after) ≡ (i + length before) ∷ []
unfolding missing_from
missing_from-lacking i [] after =
    let e : i + 0 ≡ i = omega arith in rw (e, missing_from-present (i + 1) after) refl
missing_from-lacking i (b ∷ before) after =
    let e : i + suc (length before) ≡ i + 1 + length before = omega arith in
    rw e (missing_from-lacking (i + 1) before after)

xor_others_past :
    (k i : ℕ) (r : List ℕ) (cs : List (List ℕ))
    → k < i
    → xor_others k i r (present cs) ≡ xor_all r cs
unfolding xor_others xor_all
xor_others_past k i r [] h = refl
xor_others_past k i r (c ∷ cs) h =
    let other : (i == k) ≡ false = ground arith in
    rw (xor_others, other) (xor_others_past k (i + 1) (xor_bytes r c) cs (omega arith))

pub xor_others-lacking :
    (k i : ℕ) (r : List ℕ) (before after : List (List ℕ))
    → k ≡ i + length before
    → xor_others k i r (lacking before after) ≡ xor_all r (before ++ after)
unfolding xor_others xor_all
xor_others-lacking k i r [] after e = xor_others_past k (i + 1) r after (omega arith)
xor_others-lacking k i r (b ∷ before) after e =
    let other : (i == k) ≡ false = ground arith in
    rw (xor_others, other) (xor_others-lacking k (i + 1) (xor_bytes r b) before after (omega arith))

pub first_fec-AreAll :
    (fec : List ℕ) (i : ℕ) (slots : Slots)
    → AreAll fec slots
    → 0 < count_present slots
    → (j : ℕ) × (first_fec i slots ≡ some (j, fec))
unfolding first_fec
first_fec-AreAll fec i [] h n = absurd (omega arith)
first_fec-AreAll fec i (none ∷ slots) h n = first_fec-AreAll fec (i + 1) slots h n
first_fec-AreAll fec i (some x ∷ slots) h n = (i, ap (λ (y : List ℕ). some (i, y)) h.0)

-- The outcome is the block, with so many chunks recovered.
abbrev pub Decodes : List ℕ → ℕ → DecodeOutcome → Type 0
Decodes block recovered o =
    (r : FecDecodeResult) × (o ≡ decoded r) × (r.bytes ≡ block) × (r.chunks_recovered ≡ recovered)

pub collected :
    (d : FecDecoder) (n : ℕ) (block : List ℕ)
    → d.params.data_chunk_count ≤ d.data_count
    → gather d.data_chunks ≡ block
    → Decodes block n (collect d n)
unfolding collect has_all_data_chunks
collected d n block full e =
    let all : leb d.params.data_chunk_count d.data_count ≡ true = ground arith in
    rw all (
      record {
        bytes = gather d.data_chunks;
        data_chunks_used = d.data_count;
        fec_chunks_used = n;
        chunks_recovered = n;
      },
      refl,
      e,
      refl,
    )
