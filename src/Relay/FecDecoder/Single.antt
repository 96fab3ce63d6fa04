-- ===== src/Relay/FecDecoder/Single.antt =====
-- One lost chunk: the passes of the decoder, and the block.
use avalon_miner.Prelude.{
  ℕ, suc, ◌≤◌, ◌<◌, ◌≡◌, refl, ap, sym, subst, ◌∙◌, true, false, some, List, [], ◌∷◌, ◌++◌, arith,
  ltb, ◌==◌, length, set, All,
}
use avalon_miner.Relay.FecDecoder.{
  xor_chunks, Slots, FecDecoder, gather, missing_from, first_fec, xor_others, recover_one, recover,
  collect, decode_with_fec, decode, has_all_data_chunks, can_decode, max_data_chunks,
}
use avalon_miner.Relay.FecDecoder.Recovery.{IsChunk, xor_chunks-others}
use avalon_miner.Relay.FecDecoder.Delivery.{concat, Carries}
use avalon_miner.Relay.FecDecoder.Decoding.{
  lacking, all_present, one_lost, gather-present, gather-set, missing_from-lacking,
  xor_others-lacking, first_fec-AreAll, Decodes, collected,
}

recovered :
    (d : FecDecoder) (size j : ℕ) (before after : List (List ℕ)) (c : List ℕ)
    → All (IsChunk size) before
    → All (IsChunk size) after
    → IsChunk size c
    → d.data_chunks ≡ lacking before after
    → gather (recover_one d (length before) j (xor_chunks (before ++ (c ∷ after)) size)).data_chunks
      ≡ concat (before ++ (c ∷ after))
unfolding recover_one
recovered d size j before after c hb ha hc e =
    let fec : List ℕ = xor_chunks (before ++ (c ∷ after)) size in
    let found : xor_others (length before) 0 fec (lacking before after) ≡ c =
      xor_others-lacking (length before) 0 fec before after (omega arith)
      ∙ xor_chunks-others size before after c hb ha hc in
    ap
      (λ (slots : Slots).
        gather (set slots (length before) (some (xor_others (length before) 0 fec slots))))
      e
    ∙ ap (λ (x : List ℕ). gather (set (lacking before after) (length before) (some x))) found
    ∙ gather-set before after c

All-left : (P : List ℕ → Type 0) (xs ys : List (List ℕ)) → All P (xs ++ ys) → All P xs × All P ys
All-left P [] ys h = (tt, h)
All-left P (x ∷ xs) ys h = let both = All-left P xs ys h.1 in ((h.0, both.0), both.1)

recover_single :
    (d : FecDecoder) (k j : ℕ) (fec : List ℕ)
    → 0 < d.fec_count
    → first_fec 0 d.fec_chunks ≡ some (j, fec)
    → recover (k ∷ []) d 0 ≡ (recover_one d k j fec, 1)
unfolding recover
recover_single d k j fec some_left found =
    let more : (d.fec_count == 0) ≡ false = ground arith in rw (recover, more, found) refl

decode_with_fec-single :
    (d : FecDecoder) (k j : ℕ) (fec : List ℕ)
    → missing_from 0 d.data_chunks ≡ k ∷ []
    → 0 < d.fec_count
    → first_fec 0 d.fec_chunks ≡ some (j, fec)
    → (decode_with_fec d).1 ≡ collect (recover_one d k j fec) 1
unfolding decode_with_fec
decode_with_fec-single d k j fec lost some_left found =
    rw (lost, recover_single d k j fec some_left found) refl

-- How far `decode` comes, by what it finds.
decode_whole : (d : FecDecoder) → has_all_data_chunks d ≡ true → (decode d).1 ≡ collect d 0
unfolding decode
decode_whole d all = rw all refl

decode_partly :
    (d : FecDecoder)
    → has_all_data_chunks d ≡ false
    → can_decode d ≡ true
    → d.params.data_chunk_count ≤ max_data_chunks
    → (decode d).1 ≡ (decode_with_fec d).1
unfolding decode
decode_partly d part enough fits =
    let inside : ltb max_data_chunks d.params.data_chunk_count ≡ false = ground arith in
    rw (part, enough, inside) refl

module _ (size : ℕ) (cs : List (List ℕ)) (chunks : All (IsChunk size) cs)
    (few : length cs ≤ max_data_chunks) (d : FecDecoder)
    (h : Carries cs (xor_chunks cs size) d) where
  pub whole : length cs ≤ d.data_count → Decodes (concat cs) 0 (decode d).1
  unfolding has_all_data_chunks
  whole full =
      let number = h.chunks in
      let counted = h.data_counted in
      let all : has_all_data_chunks d ≡ true = ground arith in
      let slots = all_present d.data_chunks cs h.agree (omega arith) in
      rw (decode_whole d all)
        (collected d 0 (concat cs) (omega arith) (ap gather slots ∙ gather-present cs))

  pub partly :
      suc d.data_count ≡ length cs → can_decode d ≡ true → Decodes (concat cs) 1 (decode d).1
  unfolding has_all_data_chunks can_decode recover_one
  partly lost enough =
      let number = h.chunks in
      let counted = h.data_counted in
      let fec_counted = h.fec_counted in
      let part : has_all_data_chunks d ≡ false = ground arith in
      let (before, c, after, slots, whole_is) = one_lost d.data_chunks cs h.agree (omega arith) in
      let fec : List ℕ = xor_chunks cs size in
      let some_left : 0 < d.fec_count = ground arith in
      let (j, found) = first_fec-AreAll fec 0 d.fec_chunks h.fec_agree (omega arith) in
      let missing : missing_from 0 d.data_chunks ≡ length before ∷ [] =
        ap (missing_from 0) slots
        ∙ missing_from-lacking 0 before after
        ∙ ap (λ (n : ℕ). n ∷ []) (omega arith) in
      let pieces =
        All-left (IsChunk size) before (c ∷ after) (subst (All (IsChunk size)) whole_is chunks) in
      let block = recovered d size j before after c pieces.0 pieces.1.1 pieces.1.0 slots in
      let path =
        decode_partly d part enough (omega arith)
        ∙ decode_with_fec-single d (length before) j fec missing some_left found in
      rw path (
        collected (recover_one d (length before) j fec) 1 (concat cs) (omega arith) (
          subst
            (λ (all : List (List ℕ)).
              gather (recover_one d (length before) j (xor_chunks all size)).data_chunks
              ≡ concat all)
            (sym whole_is) (block)))
