-- ===== src/Bitcoin/Coinbase/Script.antt =====
-- The script of the input, as the length byte in front of it delimits it.
use avalon_miner.Prelude.{
  ℕ, ◌^◌, ◌<◌, ◌≡◌, refl, ap, ◌↔◌, List, [], ◌∷◌, ◌++◌, arith, get_or, take, drop, replicate,
}
use avalon_miner.Prelude.Bytes.{byte}
use avalon_miner.Bitcoin.Coinbase.{
  CoinbaseBuilder, first_part, height_bytes, tag_bytes, extranonce_bytes, build,
  create_coinbase_scriptsig,
}

-- The bytes behind byte 41, as many as it says.
abbrev pub declared_script : List ℕ → List ℕ
declared_script tx = take (get_or tx 41 0) (drop 42 tx)

declared_script-build :
    (b : CoinbaseBuilder) (height value x : ℕ)
    → declared_script (build b height value x)
      ≡ 0x03
        ∷ (height_bytes height
            ++ (tag_bytes b.coinbase_tag
                ++ (replicate 12 0x00 ++ (byte 0 x ∷ byte 8 x ∷ byte 16 x ∷ byte 24 x ∷ []))))
unfolding build first_part height_bytes tag_bytes extranonce_bytes
declared_script-build b height value x = refl

module _ (h : List ℕ) where
  abbrev at : ℕ → ℕ
  at i = get_or h i 0

all_zero :
    (x : ℕ)
    → x < 2 ^ 48
    → byte 0 x ≡ 0
    → byte 8 x ≡ 0
    → byte 16 x ≡ 0
    → byte 24 x ≡ 0
    → byte 32 x ≡ 0
    → byte 40 x ≡ 0
    → x ≡ 0
all_zero x h a b c d e f = omega arith

-- The length byte says 26, but 28 bytes of script are written: what it delimits is the script that
-- create_coinbase_scriptsig makes only for the extranonce 0.
pub declared_script_iff :
    (b : CoinbaseBuilder) (height value x : ℕ)
    → x < 2 ^ 48
    → (declared_script (build b height value x) ≡ create_coinbase_scriptsig height b.coinbase_tag x)
      ↔ (x ≡ 0)
unfolding create_coinbase_scriptsig build first_part height_bytes tag_bytes extranonce_bytes
declared_script_iff b height value x h = (only_zero, zero_fits)
  where
    only_zero :
        declared_script (build b height value x) ≡ create_coinbase_scriptsig height b.coinbase_tag x
        → x ≡ 0
    only_zero e =
        let c₀ : 0 ≡ byte 0 x = ap (λ (s : List ℕ). get_or s 20 0) e in
        let c₁ : 0 ≡ byte 8 x = ap (λ (s : List ℕ). get_or s 21 0) e in
        let c₂ : byte 0 x ≡ byte 16 x = ap (λ (s : List ℕ). get_or s 22 0) e in
        let c₃ : byte 8 x ≡ byte 24 x = ap (λ (s : List ℕ). get_or s 23 0) e in
        let c₄ : byte 16 x ≡ byte 32 x = ap (λ (s : List ℕ). get_or s 24 0) e in
        let c₅ : byte 24 x ≡ byte 40 x = ap (λ (s : List ℕ). get_or s 25 0) e in
        all_zero x h (omega arith) (omega arith) (omega arith) (omega arith) (omega arith)
          (omega arith)

    zero_fits :
        x ≡ 0
        → declared_script (build b height value x)
          ≡ create_coinbase_scriptsig height b.coinbase_tag x
    zero_fits e = rw e refl
