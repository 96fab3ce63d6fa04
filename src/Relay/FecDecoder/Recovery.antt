-- ===== src/Relay/FecDecoder/Recovery.antt =====
-- One lost chunk is recovered from the others and the XOR of all.
use avalon_miner.Prelude.{
  ℕ, zero, suc, ◌≡◌, refl, ap, ap₂, sym, ◌∙◌, List, [], ◌∷◌, ◌++◌, arith, length, replicate, All,
  All-append,
}
use avalon_miner.Prelude.Bytes.{IsByte}
use avalon_miner.Prelude.Xor.{zero-bit_xor, bit_xor_cancel, bit_xor_swap, bit_xor-lt}
use avalon_miner.Relay.FecDecoder.{xor_bytes, xor_all, xor_chunks}

-- A chunk of `size` bytes.
pub record IsChunk (size : ℕ) (chunk : List ℕ) : Type 0 where
  pub full : length chunk ≡ size
  pub bytes : All IsByte chunk

length-xor_bytes : (x y : List ℕ) → length (xor_bytes x y) ≡ length x
unfolding xor_bytes
length-xor_bytes [] y = refl
length-xor_bytes (a ∷ x) [] = refl
length-xor_bytes (a ∷ x) (b ∷ y) = ap suc (length-xor_bytes x y)

xor_bytes-bytes : (x y : List ℕ) → All IsByte x → All IsByte y → All IsByte (xor_bytes x y)
unfolding xor_bytes
xor_bytes-bytes [] y h k = tt
xor_bytes-bytes (a ∷ x) [] h k = h
xor_bytes-bytes (a ∷ x) (b ∷ y) h k = (bit_xor-lt a b h.0 k.0, xor_bytes-bytes x y h.1 k.1)

xor_bytes-IsChunk :
    (size : ℕ) (x y : List ℕ) → IsChunk size x → IsChunk size y → IsChunk size (xor_bytes x y)
xor_bytes-IsChunk size x y h k = record {
  full = length-xor_bytes x y ∙ h.full;
  bytes = xor_bytes-bytes x y h.bytes k.bytes;
}

cancels :
    (x y : List ℕ)
    → length x ≡ length y
    → All IsByte x
    → All IsByte y
    → xor_bytes (xor_bytes x y) y ≡ x
unfolding xor_bytes
cancels [] y e h k = refl
cancels (a ∷ x) [] e h k = absurd (omega arith)
cancels (a ∷ x) (b ∷ y) e h k =
    ap₂ ◌∷◌ (bit_xor_cancel a b h.0 k.0) (cancels x y (omega arith) h.1 k.1)

swaps :
    (x y z : List ℕ)
    → All IsByte x
    → All IsByte y
    → All IsByte z
    → length x ≡ length y
    → length x ≡ length z
    → xor_bytes (xor_bytes x y) z ≡ xor_bytes (xor_bytes x z) y
unfolding xor_bytes
swaps [] y z h k l e f = refl
swaps (a ∷ x) [] z h k l e f = absurd (omega arith)
swaps (a ∷ x) (b ∷ y) [] h k l e f = absurd (omega arith)
swaps (a ∷ x) (b ∷ y) (c ∷ z) h k l e f =
    ap₂ ◌∷◌ (bit_xor_swap a b c h.0 k.0 l.0) (swaps x y z h.1 k.1 l.1 (omega arith) (omega arith))

zeros : (size : ℕ) (y : List ℕ) → length y ≡ size → xor_bytes (replicate size 0) y ≡ y
unfolding xor_bytes
zeros zero [] e = refl
zeros zero (b ∷ y) e = absurd (omega arith)
zeros (suc size) [] e = absurd (omega arith)
zeros (suc size) (b ∷ y) e = ap₂ ◌∷◌ (zero-bit_xor b) (zeros size y (omega arith))

zeros-IsChunk : (size : ℕ) → IsChunk size (replicate size 0)
zeros-IsChunk zero = record { full = refl; bytes = tt }
zeros-IsChunk (suc size) = record {
  full = ap suc (zeros-IsChunk size).full;
  bytes = (omega arith, (zeros-IsChunk size).bytes);
}

xor_all-append :
    (r : List ℕ) (xs ys : List (List ℕ)) → xor_all r (xs ++ ys) ≡ xor_all (xor_all r xs) ys
unfolding xor_all
xor_all-append r [] ys = refl
xor_all-append r (x ∷ xs) ys = xor_all-append (xor_bytes r x) xs ys

module _ (size : ℕ) where
  xor_all-IsChunk :
      (r : List ℕ) (xs : List (List ℕ))
      → IsChunk size r
      → All (IsChunk size) xs
      → IsChunk size (xor_all r xs)
  unfolding xor_all
  xor_all-IsChunk r [] h k = h
  xor_all-IsChunk r (x ∷ xs) h k =
      xor_all-IsChunk (xor_bytes r x) xs (xor_bytes-IsChunk size r x h k.0) k.1

  -- One chunk more at the start is one more at the end.
  xor_all-xor_bytes :
      (r c : List ℕ) (xs : List (List ℕ))
      → IsChunk size r
      → IsChunk size c
      → All (IsChunk size) xs
      → xor_all (xor_bytes r c) xs ≡ xor_bytes (xor_all r xs) c
  unfolding xor_all
  xor_all-xor_bytes r c [] h k l = refl
  xor_all-xor_bytes r c (x ∷ xs) h k l =
      ap (λ (s : List ℕ). xor_all s xs)
        (swaps r c x h.bytes k.bytes l.0.bytes (h.full ∙ sym k.full) (h.full ∙ sym l.0.full))
      ∙ xor_all-xor_bytes (xor_bytes r x) c xs (xor_bytes-IsChunk size r x h l.0) k l.1

  xor_all-cancel :
      (r : List ℕ) (xs : List (List ℕ))
      → IsChunk size r
      → All (IsChunk size) xs
      → xor_all (xor_all r xs) xs ≡ r
  unfolding xor_all
  xor_all-cancel r [] h k = refl
  xor_all-cancel r (x ∷ xs) h k =
      let s : List ℕ = xor_all (xor_bytes r x) xs in
      let t : List ℕ = xor_bytes r x in
      let chunk : IsChunk size t = xor_bytes-IsChunk size r x h k.0 in
      xor_all-xor_bytes s x xs (xor_all-IsChunk t xs chunk k.1) k.0 k.1
      ∙ ap (λ (u : List ℕ). xor_bytes u x) (xor_all-cancel t xs chunk k.1)
      ∙ cancels r x (h.full ∙ sym k.0.full) h.bytes k.0.bytes

  -- The XOR of all chunks, joined with all but one of them, is that one.
  pub xor_chunks-others :
      (before after : List (List ℕ)) (c : List ℕ)
      → All (IsChunk size) before
      → All (IsChunk size) after
      → IsChunk size c
      → xor_all (xor_chunks (before ++ (c ∷ after)) size) (before ++ after) ≡ c
  unfolding xor_chunks xor_all
  xor_chunks-others before after c hb ha hc =
      let z : List ℕ = replicate size 0 in
      let s : List ℕ = xor_all z before in
      let first : IsChunk size s = xor_all-IsChunk z before (zeros-IsChunk size) hb in
      let both : All (IsChunk size) (before ++ after) =
        All-append (IsChunk size) before after hb ha in
      let u : List ℕ = xor_all z (before ++ after) in
      let last : IsChunk size u = xor_all-IsChunk z (before ++ after) (zeros-IsChunk size) both in
      ap (λ (v : List ℕ). xor_all v (before ++ after))
        (xor_all-append z before (c ∷ after)
          ∙ xor_all-xor_bytes s c after first hc ha
          ∙ ap (λ (v : List ℕ). xor_bytes v c) (sym (xor_all-append z before after)))
      ∙ xor_all-xor_bytes u c (before ++ after) last hc both
      ∙ ap (λ (v : List ℕ). xor_bytes v c)
          (xor_all-cancel z (before ++ after) (zeros-IsChunk size) both)
      ∙ zeros size c hc.full
