-- ===== src/Crypto/Sha256/Vectors.antt =====
-- Known answers: the empty message and "abc".
use avalon_miner.Prelude.{ℕ, ◌≡◌, refl, List, [], ◌∷◌}
use avalon_miner.Prelude.Bytes.{join32}
use avalon_miner.Core.Uint256.{to_hex_le}
use avalon_miner.Crypto.Sha256.{sha256, sha256_transform, initial_state, state_to_hash}
use Prim.Native.String.{String}
use Prim.Native.Char.{code}

abbrev codes : String → List ℕ
codes String.[] = []
codes (String.◌∷◌ c s) = code c ∷ codes s

abc_digest :
    to_hex_le (sha256 (0x61 ∷ 0x62 ∷ 0x63 ∷ []))
    ≡ codes "ba7816bf8f01cfea414140de5dae2223b00361a396177a9cb410ff61f20015ad"
unfolding to_hex_le sha256 sha256_transform initial_state state_to_hash join32
abc_digest = refl
