-- ===== src/Bitcoin/Block.antt =====
-- src/bitcoin/block.cpp: the header and the block template of the Bitcoin side.
-- `compute_merkle_root` is the loop of the core's, so its level is that of Core.Merkle.
pub mod Coinbase
use avalon_miner.Prelude.{
  ℕ, zero, suc, ◌+◌, ◌*◌, Bool, true, false, Option, none, some, List, [], ◌∷◌, ◌++◌, leb, ltb,
  if◌then◌else◌, set, take, drop, length,
}
use avalon_miner.Prelude.Bytes.{byte, le_bytes32, read32}
use avalon_miner.Core.Uint256.{Hash256}
use avalon_miner.Crypto.Sha256.{Sha256State, sha256d, compute_midstate, state_to_bytes}

pub record BlockHeader : Type 0 where
  pub version : ℕ
  pub prev_block : Hash256
  pub merkle_root : Hash256
  pub timestamp : ℕ
  pub bits : ℕ
  pub nonce : ℕ

unfoldable pub serialize : BlockHeader → List ℕ
serialize h =
    le_bytes32 h.version
    ++ (h.prev_block
        ++ (h.merkle_root ++ (le_bytes32 h.timestamp ++ (le_bytes32 h.bits ++ le_bytes32 h.nonce))))

unfoldable pub hash : BlockHeader → Hash256
hash h = sha256d (serialize h)

unfoldable pub header_midstate_of : BlockHeader → Sha256State
header_midstate_of h = compute_midstate (serialize h)

unfoldable pub get_tail : BlockHeader → List ℕ
get_tail h = take 16 (drop 64 (serialize h))

-- `none` for the error of too few bytes.
unfoldable pub deserialize : List ℕ → Option BlockHeader
deserialize src =
    if ltb (length src) 80
    then none
    else some (record {
      version = read32 src;
      prev_block = take 32 (drop 4 src);
      merkle_root = take 32 (drop 36 src);
      timestamp = read32 (drop 68 src);
      bits = read32 (drop 72 src);
      nonce = read32 (drop 76 src);
    })

pub record BlockTemplate : Type 0 where
  pub height : ℕ
  pub header : BlockHeader
  pub header_midstate : Sha256State
  pub coinbase_tx : List ℕ
  pub coinbase_midstate : Sha256State
  pub target : Hash256
  pub coinbase_value : ℕ
  pub is_speculative : Bool

-- The first `n` passes of the loop over the six extranonce bytes.
unfoldable pub write_extranonce : ℕ → ℕ → List ℕ → List ℕ
write_extranonce zero x tx = tx
write_extranonce (suc n) x tx = set (write_extranonce n x tx) (64 + n) (byte (8 * n) x)

unfoldable pub coinbase_with : ℕ → List ℕ → List ℕ
coinbase_with x tx = if leb 70 (length tx) then write_extranonce 6 x tx else tx

unfoldable pub with_merkle_root : BlockHeader → Hash256 → BlockHeader
with_merkle_root h root = record {
  version = h.version;
  prev_block = h.prev_block;
  merkle_root = root;
  timestamp = h.timestamp;
  bits = h.bits;
  nonce = h.nonce;
}

unfoldable pub update_extranonce : BlockTemplate → ℕ → BlockTemplate
update_extranonce t x =
    let tx = coinbase_with x t.coinbase_tx in
    let header = with_merkle_root t.header (sha256d tx) in
    record {
      height = t.height;
      header = header;
      header_midstate = header_midstate_of header;
      coinbase_tx = tx;
      coinbase_midstate = t.coinbase_midstate;
      target = t.target;
      coinbase_value = t.coinbase_value;
      is_speculative = t.is_speculative;
    }

-- `BlockTemplate::create_job`: midstate, then 12 bytes from offset 68 of the header, then the id.
unfoldable pub create_job : BlockTemplate → ℕ → List ℕ
create_job t job_id =
    state_to_bytes t.header_midstate
    ++ (take 12 (drop 68 (serialize t.header)) ++ le_bytes32 job_id)
