-- ===== src/Mining/VersionRolling/Versioned.antt =====
-- The midstate of a rolled version, and the header that it belongs to.
use avalon_miner.Prelude.{ℕ, ◌≡◌, refl, false, ◌++◌, arith, ltb, length, take, drop}
use avalon_miner.Prelude.Bytes.{le_bytes32}
use avalon_miner.Crypto.Sha256.{hash_header_with_midstate, sha256d}
use avalon_miner.Crypto.Sha256.Midstate.{compute_midstate-take, hash_header_with_midstate-sha256d}
use avalon_miner.Core.BlockHeader.{BlockHeader, IsBlockHeader, serialize}
use avalon_miner.Core.BlockHeader.Layout.{length-serialize}
use avalon_miner.Mining.VersionRolling.{compute_versioned_midstate}

abbrev pub with_version : BlockHeader → ℕ → BlockHeader
with_version h version = record h { version = version }

rolled :
    (h : BlockHeader) (version : ℕ)
    → take 64 (serialize (with_version h version))
      ≡ le_bytes32 version ++ drop 4 (take 64 (serialize h))
unfolding serialize
rolled h version = refl

tail_kept :
    (h : BlockHeader) (version : ℕ)
    → drop 64 (serialize (with_version h version)) ≡ drop 64 (serialize h)
unfolding serialize
tail_kept h version = refl

-- The midstate computed for another version, with the unchanged last 16 bytes of the header, gives
-- the double SHA-256 of the header that has this version.
pub compute_versioned_midstate-sha256d :
    (h : BlockHeader) (version : ℕ)
    → IsBlockHeader (with_version h version)
    → IsBlockHeader h
    → hash_header_with_midstate
        (compute_versioned_midstate (serialize h) version)
        (drop 64 (serialize h))
      ≡ sha256d (serialize (with_version h version))
unfolding compute_versioned_midstate
compute_versioned_midstate-sha256d h version w v =
    let size : length (serialize h) ≡ 80 = length-serialize h v in
    let long : ltb (length (serialize h)) 64 ≡ false = ground arith in
    let rolled_whole : BlockHeader = with_version h version in
    rw
      (
        long,
        ← tail_kept h version,
        ← rolled h version,
        compute_midstate-take (serialize rolled_whole),
      )
      (hash_header_with_midstate-sha256d (serialize rolled_whole) (length-serialize rolled_whole w))
