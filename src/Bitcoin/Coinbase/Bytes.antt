-- ===== src/Bitcoin/Coinbase/Bytes.antt =====
-- The size of the transaction, its first block, and the place of the extranonce.
use avalon_miner.Prelude.{
  ℕ, ◌≡◌, refl, ap, sym, ◌∙◌, true, [], ◌∷◌, arith, leb, le→leb, length, length-append, take,
}
use avalon_miner.Crypto.Sha256.{compute_midstate}
use avalon_miner.Crypto.Sha256.Midstate.{compute_midstate-take}
use avalon_miner.Bitcoin.Block.{coinbase_with, write_extranonce}
use avalon_miner.Bitcoin.Coinbase.{
  CoinbaseBuilder, first_part, last_part, height_bytes, tag_bytes, extranonce_bytes,
  create_p2wpkh_script, build, build_with_midstate,
}

-- With a key hash of 20 bytes the transaction has 110 bytes.
pub length-build :
    (b : CoinbaseBuilder) (height value x : ℕ)
    → length b.pubkey_hash ≡ 20
    → length (build b height value x) ≡ 110
unfolding build first_part last_part height_bytes tag_bytes extranonce_bytes create_p2wpkh_script
length-build b height value x h =
    omega (arith, length-append b.pubkey_hash (0x00 ∷ 0x00 ∷ 0x00 ∷ 0x00 ∷ []))

first_block :
    (b : CoinbaseBuilder) (height value x v y : ℕ)
    → take 64 (build b height value x) ≡ take 64 (build b height v y)
unfolding build first_part height_bytes tag_bytes
first_block b height value x v y = refl

-- The midstate of the first 64 bytes depends neither on the value nor on the extranonce.
pub build_with_midstate-constant :
    (b : CoinbaseBuilder) (height value x v y : ℕ)
    → (build_with_midstate b height value x).1 ≡ (build_with_midstate b height v y).1
unfolding build_with_midstate
build_with_midstate-constant b height value x v y =
    sym (compute_midstate-take (build b height value x))
    ∙ ap compute_midstate (first_block b height value x v y)
    ∙ compute_midstate-take (build b height v y)

rewritten :
    (b : CoinbaseBuilder) (height value x y : ℕ)
    → write_extranonce 6 x (build b height value y) ≡ build b height value x
unfolding write_extranonce build first_part height_bytes tag_bytes extranonce_bytes
rewritten b height value x y = refl

-- The bytes that a block template overwrites are those that the builder filled: updating the
-- extranonce of a built transaction gives the transaction built with the new one.
pub coinbase_with-build :
    (b : CoinbaseBuilder) (height value x y : ℕ)
    → length b.pubkey_hash ≡ 20
    → coinbase_with x (build b height value y) ≡ build b height value x
unfolding coinbase_with
coinbase_with-build b height value x y h =
    let long : leb 70 (length (build b height value y)) ≡ true =
      le→leb 70 (length (build b height value y))
        (omega (arith, length-build b height value y h)) in
    rw long (rewritten b height value x y)
