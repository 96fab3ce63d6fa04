-- ===== src/Bitcoin/Coinbase.antt =====
-- src/bitcoin/coinbase.cpp: the coinbase transaction of 110 bytes.
-- Characters are bytes; the value is the bit pattern of the `int64_t`.
pub mod Bytes
pub mod Script
use avalon_miner.Prelude.{ℕ, ◌≡◌, List, [], ◌∷◌, ◌++◌, get_or, take, replicate, length}
use avalon_miner.Prelude.Bytes.{byte, le_bytes64}
use avalon_miner.Core.Uint256.{Hash256}
use avalon_miner.Crypto.Sha256.{Sha256State, compute_midstate, sha256d}

pub record CoinbaseBuilder : Type 0 where
  pub pubkey_hash : List ℕ
  pub coinbase_tag : List ℕ

-- The constructor: a longer tag is cut to six characters.
unfoldable pub coinbase_builder : List ℕ → List ℕ → CoinbaseBuilder
coinbase_builder pubkey_hash tag = record { pubkey_hash = pubkey_hash; coinbase_tag = take 6 tag }

-- Six characters, with zeros for those that the tag does not have.
unfoldable pub tag_bytes : List ℕ → List ℕ
tag_bytes tag =
    get_or tag 0 0
    ∷ get_or tag 1 0
    ∷ get_or tag 2 0
    ∷ get_or tag 3 0
    ∷ get_or tag 4 0
    ∷ get_or tag 5 0
    ∷ []

unfoldable pub height_bytes : ℕ → List ℕ
height_bytes height = byte 0 height ∷ byte 8 height ∷ byte 16 height ∷ []

unfoldable pub extranonce_bytes : ℕ → List ℕ
extranonce_bytes x = byte 0 x ∷ byte 8 x ∷ byte 16 x ∷ byte 24 x ∷ byte 32 x ∷ byte 40 x ∷ []

unfoldable pub create_p2wpkh_script : List ℕ → List ℕ
create_p2wpkh_script pubkey_hash = 0x00 ∷ 0x14 ∷ pubkey_hash

-- The first 64 bytes: version, input count, previous output, length of the script, height, tag and
-- twelve zeros.
unfoldable pub first_part : CoinbaseBuilder → ℕ → List ℕ
first_part b height =
    (0x01 ∷ 0x00 ∷ 0x00 ∷ 0x00 ∷ 0x01 ∷ [])
    ++ (replicate 32 0x00
        ++ ((0xff ∷ 0xff ∷ 0xff ∷ 0xff ∷ 0x1a ∷ 0x03 ∷ [])
            ++ (height_bytes height ++ (tag_bytes b.coinbase_tag ++ replicate 12 0x00))))

-- What follows the extranonce: sequence, output count, value, script and lock time.
unfoldable pub last_part : CoinbaseBuilder → ℕ → List ℕ
last_part b value =
    (0xff ∷ 0xff ∷ 0xff ∷ 0xff ∷ 0x01 ∷ [])
    ++ (le_bytes64 value
        ++ (0x16 ∷ (create_p2wpkh_script b.pubkey_hash ++ (0x00 ∷ 0x00 ∷ 0x00 ∷ 0x00 ∷ []))))

unfoldable pub build : CoinbaseBuilder → ℕ → ℕ → ℕ → List ℕ
build b height value extranonce =
    first_part b height ++ (extranonce_bytes extranonce ++ last_part b value)

unfoldable pub build_with_midstate : CoinbaseBuilder → ℕ → ℕ → ℕ → List ℕ × Sha256State
build_with_midstate b height value extranonce =
    let tx = build b height value extranonce in (tx, compute_midstate tx)

unfoldable pub compute_txid : List ℕ → Hash256
compute_txid coinbase_raw = sha256d coinbase_raw

unfoldable pub create_coinbase_scriptsig : ℕ → List ℕ → ℕ → List ℕ
create_coinbase_scriptsig height tag extranonce =
    0x03
    ∷ (height_bytes height ++ (tag_bytes tag ++ (replicate 10 0x00 ++ extranonce_bytes extranonce)))
