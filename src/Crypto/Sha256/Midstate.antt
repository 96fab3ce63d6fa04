-- ===== src/Crypto/Sha256/Midstate.antt =====
-- Mining with a midstate: the first 64 bytes of a header are absorbed once, and hashing the last 16
-- bytes from there gives the double hash of the whole header.
use avalon_miner.Prelude.{
  ℕ, zero, suc, ◌*◌, ◌≡◌, refl, ap, sym, List, [], ◌∷◌, ◌++◌, arith, length, take, drop, replicate,
}
use avalon_miner.Crypto.Sha256.{
  Sha256State, compress, read_be32, initial_state, be_words, sha256_transform, state_to_hash,
  compute_midstate, sha256, sha256d, hash_header_with_midstate,
}

four_more : (n : ℕ) → suc n * 4 ≡ suc (suc (suc (suc (n * 4))))
four_more n = omega arith

-- The transform reads 64 bytes and no more.
be_words-take : (n : ℕ) (block : List ℕ) → be_words n (take (n * 4) block) ≡ be_words n block
unfolding be_words
be_words-take zero block = refl
be_words-take (suc n) [] = rw (four_more n)
be_words-take (suc n) (a ∷ []) = rw (four_more n)
be_words-take (suc n) (a ∷ b ∷ []) = rw (four_more n)
be_words-take (suc n) (a ∷ b ∷ c ∷ []) = rw (four_more n)
be_words-take (suc n) (a ∷ b ∷ c ∷ d ∷ rest) =
    rw (four_more n) (ap (◌∷◌ (read_be32 (a ∷ b ∷ c ∷ d ∷ []))) (be_words-take n rest))

pub sha256_transform-take :
    (s : Sha256State) (block : List ℕ)
    → sha256_transform s (take 64 block) ≡ sha256_transform s block
unfolding sha256_transform
sha256_transform-take s block = ap (compress s) (be_words-take 16 block)

abbrev padding : List ℕ
padding = 0x80 ∷ replicate 45 0 ++ (0x02 ∷ 0x80 ∷ [])

-- The block that both paths feed to the second transform.
abbrev last_block : List ℕ → List ℕ
last_block tail = take 16 tail ++ padding

sha256_eighty :
    (header : List ℕ)
    → length header ≡ 80
    → sha256 header
      ≡ state_to_hash
          (sha256_transform (sha256_transform initial_state header) (last_block (drop 64 header)))
unfolding sha256
sha256_eighty header e = rw e

-- For every 80-byte header the two-step hash is the double SHA-256 of the header.
pub hash_header_with_midstate-sha256d :
    (header : List ℕ)
    → length header ≡ 80
    → hash_header_with_midstate (compute_midstate header) (drop 64 header) ≡ sha256d header
unfolding hash_header_with_midstate compute_midstate sha256d
hash_header_with_midstate-sha256d header e = ap sha256 (sym (sha256_eighty header e))

pub compute_midstate-take :
    (header : List ℕ) → compute_midstate (take 64 header) ≡ compute_midstate header
unfolding compute_midstate
compute_midstate-take header = sha256_transform-take initial_state header

take-take : (n : ℕ) (xs : List ℕ) → take n (take n xs) ≡ take n xs
take-take zero xs = refl
take-take (suc n) [] = refl
take-take (suc n) (x ∷ xs) = ap (◌∷◌ x) (take-take n xs)

pub hash_header_with_midstate-take :
    (s : Sha256State) (tail : List ℕ)
    → hash_header_with_midstate s (take 16 tail) ≡ hash_header_with_midstate s tail
unfolding hash_header_with_midstate
hash_header_with_midstate-take s tail =
    ap (λ (t : List ℕ). sha256 (state_to_hash (sha256_transform s (t ++ padding))))
      (take-take 16 tail)
