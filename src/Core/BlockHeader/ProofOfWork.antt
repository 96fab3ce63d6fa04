-- ===== src/Core/BlockHeader/ProofOfWork.antt =====
-- Proof of work of a header: the midstate path, the comparison, and the merged-mining version bits.
use avalon_miner.Prelude.{
  ℕ, ◌*◌, ◌/◌, ◌%◌, ◌^◌, ◌≤◌, ◌<◌, ltb, ◌≡◌, ap, ◌∙◌, ◌↔◌, ◌⊎◌, inl, inr, true, arith, ◌==◌,
  bit_and, take, drop, Bool-cases,
}
use avalon_miner.Prelude.Bits.{bit_and_mask, bit_and_shifted, bit_and-one}
use avalon_miner.Core.Uint256.Value.{value}
use avalon_miner.Core.Uint256.Order.{le256_iff}
use avalon_miner.Core.Target.{bits_to_target}
use avalon_miner.Core.Target.Expand.{
  bits_to_target-expanded, bits_to_target-IsHash256, expanded, compact_value,
  expanded-compact_value, expanded-dropped,
}
use avalon_miner.Core.BlockHeader.{
  BlockHeader, IsBlockHeader, serialize, hash, get_target, check_pow, get_chain_id, get_first_chunk,
  get_tail,
}
use avalon_miner.Core.BlockHeader.Layout.{length-serialize}
use avalon_miner.Crypto.Sha256.{sha256d, compute_midstate, hash_header_with_midstate}
use avalon_miner.Crypto.Sha256.Digest.{sha256d-IsHash256}
use avalon_miner.Crypto.Sha256.Midstate.{
  compute_midstate-take, hash_header_with_midstate-take, hash_header_with_midstate-sha256d,
}

-- The midstate of the first chunk of a well-formed header and its tail give its hash.
pub hash_from_parts :
    (h : BlockHeader)
    → IsBlockHeader h
    → hash_header_with_midstate (compute_midstate (get_first_chunk h)) (get_tail h) ≡ hash h
unfolding get_first_chunk get_tail hash
hash_from_parts h w =
    ap (λ s. hash_header_with_midstate s (take 16 (drop 64 (serialize h))))
      (compute_midstate-take (serialize h))
    ∙ hash_header_with_midstate-take (compute_midstate (serialize h)) (drop 64 (serialize h))
    ∙ hash_header_with_midstate-sha256d (serialize h) (length-serialize h w)

-- The proof of work of a header against what the decoder makes of its bits.
pub check_pow_iff : (h : BlockHeader) → (check_pow h ≡ true) ↔ (value (hash h) ≤ expanded h.bits)
unfolding check_pow get_target hash
check_pow_iff h = rw (← bits_to_target-expanded h.bits) (
    le256_iff (sha256d (serialize h)) (bits_to_target h.bits) (sha256d-IsHash256 (serialize h))
      (bits_to_target-IsHash256 h.bits))

-- A header has proof of work exactly when its bits have an exponent below 32 and its hash, as a number,
-- is at most the number that they stand for, or they have a larger exponent, which the decoder drops,
-- and its hash is 0.
pub check_pow-compact_value :
    (h : BlockHeader)
    → (check_pow h ≡ true) ↔ (
        ((h.bits / 2 ^ 24 < 32) × (value (hash h) ≤ compact_value h.bits))
        ⊎ ((32 ≤ h.bits / 2 ^ 24) × (value (hash h) ≡ 0)))
check_pow-compact_value h = (found, passes)
  where
    found :
        check_pow h ≡ true
        → ((h.bits / 2 ^ 24 < 32) × (value (hash h) ≤ compact_value h.bits))
          ⊎ ((32 ≤ h.bits / 2 ^ 24) × (value (hash h) ≡ 0))
    found e =
        let below = (check_pow_iff h).0 e in
        elim (Bool-cases (ltb (h.bits / 2 ^ 24) 32)) [
          | inl lo ↦
              let small : h.bits / 2 ^ 24 < 32 = ground arith in
              inl (small, rw (← expanded-compact_value h.bits small) below)
          | inr hi ↦
              let large : 32 ≤ h.bits / 2 ^ 24 = ground arith in
              let dropped = expanded-dropped h.bits large in inr (large, omega arith)
        ]

    passes :
        ((h.bits / 2 ^ 24 < 32) × (value (hash h) ≤ compact_value h.bits))
          ⊎ ((32 ≤ h.bits / 2 ^ 24) × (value (hash h) ≡ 0))
        → check_pow h ≡ true
    passes (inl (small, le)) = (check_pow_iff h).1 (rw (expanded-compact_value h.bits small) le)
    passes (inr (large, zero_hash)) = (check_pow_iff h).1 (omega (arith, zero_hash))

auxpow_bit : (v : ℕ) → bit_and v 0x100 ≡ v / 2 ^ 8 % 2 * 2 ^ 8
auxpow_bit v = bit_and_shifted 8 v 1 ∙ ap (λ (t : ℕ). t * 2 ^ 8) (bit_and-one (v / 2 ^ 8))

-- The chain id is bits 16 to 22 of a version whose bit 8 is set, and 0 otherwise.
pub get_chain_id-bits :
    (h : BlockHeader)
    → ((h.version / 2 ^ 8 % 2 ≡ 1) × (get_chain_id h ≡ h.version / 2 ^ 16 % 128))
      ⊎ ((h.version / 2 ^ 8 % 2 ≡ 0) × (get_chain_id h ≡ 0))
unfolding get_chain_id
get_chain_id-bits h = elim (Bool-cases (h.version / 2 ^ 8 % 2 == 0)) [
  | inl clear ↦ inr (ground arith, ground (arith, auxpow_bit h.version))
  | inr marked ↦
      inl (ground arith, ground (arith, auxpow_bit h.version, bit_and_mask 7 (h.version / 2 ^ 16)))
]
