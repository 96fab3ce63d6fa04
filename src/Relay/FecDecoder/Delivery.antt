-- ===== src/Relay/FecDecoder/Delivery.antt =====
-- Chunks that are delivered in any order, some lost and some twice, and the block decoded from them.
use avalon_miner.Prelude.{
  ℕ, zero, suc, ◌≤◌, ◌<◌, ◌≡◌, refl, ap, ◌∙◌, inl, inr, Bool, true, false, ◌||◌, Option, none, some,
  List, [], ◌∷◌, ◌++◌, arith, ltb, leb, ◌==◌, if◌then◌else◌, length, get_or, set, All, if_both,
  Bool-cases, length-set,
}
use avalon_miner.Relay.FecDecoder.{
  Slots, FecDecoder, is_received, put_fec, put_data, add_fec, add_data, add_chunk, max_data_chunks,
  max_fec_chunks, max_chunk_size,
}

abbrev pub concat : List (List ℕ) → List ℕ
concat [] = []
concat (c ∷ cs) = c ++ concat cs

-- Each chunk that is there is the original at its place.
abbrev pub Agrees : Slots → List (List ℕ) → Type 0
Agrees [] [] = Unit {0}
Agrees [] (c ∷ cs) = ⊥
Agrees (s ∷ slots) [] = ⊥
Agrees (none ∷ slots) (c ∷ cs) = Agrees slots cs
Agrees (some x ∷ slots) (c ∷ cs) = (x ≡ c) × Agrees slots cs

-- Each chunk that is there is `fec`.
abbrev pub AreAll : List ℕ → Slots → Type 0
AreAll fec [] = Unit {0}
AreAll fec (none ∷ slots) = AreAll fec slots
AreAll fec (some x ∷ slots) = (x ≡ fec) × AreAll fec slots

abbrev pub count_present : Slots → ℕ
count_present [] = 0
count_present (none ∷ slots) = count_present slots
count_present (some x ∷ slots) = suc (count_present slots)

pub Agrees-length :
    (slots : Slots) (cs : List (List ℕ)) → Agrees slots cs → length slots ≡ length cs
Agrees-length [] [] h = refl
Agrees-length [] (c ∷ cs) h = absurd h
Agrees-length (s ∷ slots) [] h = absurd h
Agrees-length (none ∷ slots) (c ∷ cs) h = ap suc (Agrees-length slots cs h)
Agrees-length (some x ∷ slots) (c ∷ cs) h = ap suc (Agrees-length slots cs h.1)

Agrees-set :
    (slots : Slots) (cs : List (List ℕ)) (i : ℕ) (x : List ℕ)
    → Agrees slots cs
    → x ≡ get_or cs i []
    → Agrees (set slots i (some x)) cs
Agrees-set [] cs i x h e = h
Agrees-set (s ∷ slots) [] i x h e = absurd h
Agrees-set (none ∷ slots) (c ∷ cs) zero x h e = (e, h)
Agrees-set (some y ∷ slots) (c ∷ cs) zero x h e = (e, h.1)
Agrees-set (none ∷ slots) (c ∷ cs) (suc i) x h e = Agrees-set slots cs i x h e
Agrees-set (some y ∷ slots) (c ∷ cs) (suc i) x h e = (h.0, Agrees-set slots cs i x h.1 e)

AreAll-set :
    (fec : List ℕ) (slots : Slots) (i : ℕ) (x : List ℕ)
    → AreAll fec slots
    → x ≡ fec
    → AreAll fec (set slots i (some x))
AreAll-set fec [] i x h e = h
AreAll-set fec (none ∷ slots) zero x h e = (e, h)
AreAll-set fec (some y ∷ slots) zero x h e = (e, h.1)
AreAll-set fec (none ∷ slots) (suc i) x h e = AreAll-set fec slots i x h e
AreAll-set fec (some y ∷ slots) (suc i) x h e = (h.0, AreAll-set fec slots i x h.1 e)

count_present-set :
    (slots : Slots) (i : ℕ) (x : List ℕ)
    → i < length slots
    → is_received slots i ≡ false
    → count_present (set slots i (some x)) ≡ suc (count_present slots)
unfolding is_received
count_present-set [] i x h e = absurd (omega arith)
count_present-set (none ∷ slots) zero x h e = refl
count_present-set (some y ∷ slots) zero x h e = cc
count_present-set (none ∷ slots) (suc i) x h e = count_present-set slots i x (omega arith) e
count_present-set (some y ∷ slots) (suc i) x h e =
    ap suc (count_present-set slots i x (omega arith) e)

-- What a decoder of the chunks `cs` knows, if nothing false was given to it.
pub record Carries (cs : List (List ℕ)) (fec : List ℕ) (d : FecDecoder) : Type 0 where
  pub chunks : d.params.data_chunk_count ≡ length cs
  pub masked : d.params.fec_chunk_count ≤ max_fec_chunks
  pub agree : Agrees d.data_chunks cs
  pub fec_agree : AreAll fec d.fec_chunks
  pub fec_size : length d.fec_chunks ≡ d.params.fec_chunk_count
  pub data_counted : d.data_count ≡ count_present d.data_chunks
  pub fec_counted : d.fec_count ≡ count_present d.fec_chunks

-- A chunk as it is sent.
pub record Sent : Type 0 where
  pub chunk_id : ℕ
  pub is_fec : Bool
  pub bytes : List ℕ

-- It is the XOR of all chunks, or the one of its place.
abbrev pub IsTrue : List (List ℕ) → List ℕ → Sent → Type 0
IsTrue cs fec s = s.bytes ≡ (if s.is_fec then fec else get_or cs s.chunk_id [])

-- The chunks are added in turn; `none` is the exception.
unfoldable pub deliver : FecDecoder → List Sent → Option FecDecoder
deliver d [] = some d
deliver d (s ∷ sent) = elim (add_chunk d s.chunk_id s.is_fec s.bytes) [
  | none ↦ none
  | some (d', _) ↦ deliver d' sent
]

module _ (cs : List (List ℕ)) (fec : List ℕ) (few : length cs ≤ max_data_chunks) where
  put_fec-Carries :
      (d : FecDecoder) (i : ℕ) (x : List ℕ)
      → Carries cs fec d
      → i < d.params.fec_chunk_count
      → is_received d.fec_chunks i ≡ false
      → x ≡ fec
      → Carries cs fec (put_fec d i x)
  unfolding put_fec
  put_fec-Carries d i x h lt new e = record {
    chunks = h.chunks;
    masked = h.masked;
    agree = h.agree;
    fec_agree = AreAll-set fec d.fec_chunks i x h.fec_agree e;
    fec_size = length-set d.fec_chunks i (some x) ∙ h.fec_size;
    data_counted = h.data_counted;
    fec_counted =
        let size = h.fec_size in
        let counted = h.fec_counted in
        omega (arith, count_present-set d.fec_chunks i x (omega arith) new);
  }

  put_data-Carries :
      (d : FecDecoder) (i : ℕ) (x : List ℕ)
      → Carries cs fec d
      → i < d.params.data_chunk_count
      → is_received d.data_chunks i ≡ false
      → x ≡ get_or cs i []
      → Carries cs fec (put_data d i x)
  unfolding put_data
  put_data-Carries d i x h lt new e = record {
    chunks = h.chunks;
    masked = h.masked;
    agree = Agrees-set d.data_chunks cs i x h.agree e;
    fec_agree = h.fec_agree;
    fec_size = h.fec_size;
    data_counted =
        let size = Agrees-length d.data_chunks cs h.agree in
        let number = h.chunks in
        let counted = h.data_counted in
        omega (arith, count_present-set d.data_chunks i x (omega arith) new);
    fec_counted = h.fec_counted;
  }

  -- The addition throws nothing, and what the decoder knows stays true.
  abbrev pub Kept : Option (FecDecoder × Bool) → Type 0
  Kept o = (d : FecDecoder) × (b : Bool) × (o ≡ some (d, b)) × Carries cs fec d

  add_fec-Carries :
      (d : FecDecoder) (i : ℕ) (x : List ℕ) → Carries cs fec d → x ≡ fec → Kept (add_fec d i x)
  unfolding add_fec
  add_fec-Carries d i x h e = elim (Bool-cases (leb d.params.fec_chunk_count i)) [
    | inl t ↦ rw t (d, false, refl, h)
    | inr f ↦
        let masked = h.masked in
        let inside : leb max_fec_chunks i ≡ false = ground arith in
        elim (Bool-cases (is_received d.fec_chunks i)) [
          | inl t ↦ rw (f, inside, t) (d, false, refl, h)
          | inr new ↦
              rw (f, inside, new)
                (put_fec d i x, true, refl, put_fec-Carries d i x h (ground arith) new e)
        ]
  ]

  add_data-Carries :
      (d : FecDecoder) (i : ℕ) (x : List ℕ)
      → Carries cs fec d
      → x ≡ get_or cs i []
      → Kept (add_data d i x)
  unfolding add_data
  add_data-Carries d i x h e = elim (Bool-cases (leb d.params.data_chunk_count i)) [
    | inl t ↦ rw t (d, false, refl, h)
    | inr f ↦
        let number = h.chunks in
        let inside : leb max_data_chunks i ≡ false = ground arith in
        elim (Bool-cases (is_received d.data_chunks i)) [
          | inl t ↦ rw (f, inside, t) (d, false, refl, h)
          | inr new ↦
              rw (f, inside, new)
                (put_data d i x, true, refl, put_data-Carries d i x h (ground arith) new e)
        ]
  ]

  pub add_chunk-Carries :
      (d : FecDecoder) (i : ℕ) (is_fec : Bool) (x : List ℕ)
      → Carries cs fec d
      → x ≡ (if is_fec then fec else get_or cs i [])
      → Kept (add_chunk d i is_fec x)
  unfolding add_chunk
  add_chunk-Carries d i is_fec x h e =
      if_both Kept ((length x == 0) || ltb max_chunk_size (length x)) _ _ (d, false, refl, h)
        (by_kind is_fec e)
    where
      by_kind :
          (is_fec : Bool)
          → x ≡ (if is_fec then fec else get_or cs i [])
          → Kept (if is_fec then add_fec d i x else add_data d i x)
      by_kind true e = add_fec-Carries d i x h e
      by_kind false e = add_data-Carries d i x h e

  pub deliver-Carries :
      (d : FecDecoder) (sent : List Sent)
      → Carries cs fec d
      → All (IsTrue cs fec) sent
      → (d' : FecDecoder) × (deliver d sent ≡ some d') × Carries cs fec d'
  unfolding deliver
  deliver-Carries d [] h true_all = (d, refl, h)
  deliver-Carries d (s ∷ sent) h true_all =
      let (d', b, step, h') = add_chunk-Carries d s.chunk_id s.is_fec s.bytes h true_all.0 in
      let (last, rest, held) = deliver-Carries d' sent h' true_all.1 in
      (last, rw (step, deliver) rest, held)
