-- ===== src/Tests/Data.antt =====
-- Hashes, headers, branches and templates for the examples.
use avalon_miner.Prelude.{refl, false, List, [], ◌∷◌, arith, replicate, All-replicate}
use avalon_miner.Prelude.Bytes.{IsByte}
use avalon_miner.Core.Uint256.{Hash256, IsHash256, zero_hash}
use avalon_miner.Core.BlockHeader.{BlockHeader, IsBlockHeader}
use avalon_miner.Core.Merkle.{MerkleBranch}
use avalon_miner.Core.AuxPow.{AuxPow, AuxPowCommitment}
use avalon_miner.Crypto.Sha256.Digest.{IsState}
use avalon_miner.Core.Validation.{ChainParams}
use avalon_miner.Crypto.Sha256.{initial_state}
use avalon_miner.Bitcoin.Block.{BlockTemplate}

abbrev pub all_sevens : Hash256
all_sevens = replicate 32 7

pub all_sevens-IsHash256 : IsHash256 all_sevens
all_sevens-IsHash256 = record { full = refl; bytes = All-replicate IsByte 32 7 (omega arith) }

abbrev pub all_nines : Hash256
all_nines = replicate 32 9

pub all_nines-IsHash256 : IsHash256 all_nines
all_nines-IsHash256 = record { full = refl; bytes = All-replicate IsByte 32 9 (omega arith) }

abbrev pub header : BlockHeader
header = record {
  version = 0x00620102;
  prev_hash = all_sevens;
  merkle_root = all_nines;
  timestamp = 1700000000;
  bits = 0x1d00ffff;
  nonce = 42;
}

pub header-IsBlockHeader : IsBlockHeader header
header-IsBlockHeader = record {
  version_fits = omega arith;
  prev_hash_is = all_sevens-IsHash256;
  merkle_root_is = all_nines-IsHash256;
  timestamp_fits = omega arith;
  bits_fits = omega arith;
  nonce_fits = omega arith;
}

abbrev pub branch : MerkleBranch
branch = record { hashes = all_sevens ∷ all_nines ∷ []; index = 2 }

abbrev pub leaves : List Hash256
leaves = all_sevens ∷ all_nines ∷ zero_hash ∷ []

abbrev pub work : AuxPow
work = record {
  coinbase_tx = 1 ∷ 2 ∷ [];
  coinbase_hash = all_sevens;
  coinbase_branch = branch;
  aux_branch = branch;
  parent_header = header;
}

abbrev pub params : ChainParams
params = record { pow_limit_bits = 0x1d00ffff; chain_id = 98; start_height = 100 }

abbrev pub template : BlockTemplate
template = record {
  height = 800000;
  header = record {
    version = 0x20000000;
    prev_block = all_sevens;
    merkle_root = all_nines;
    timestamp = 1700000000;
    bits = 0x1d00ffff;
    nonce = 0;
  };
  header_midstate = initial_state;
  coinbase_tx = replicate 110 1;
  coinbase_midstate = initial_state;
  target = all_sevens;
  coinbase_value = 312500000;
  is_speculative = false;
}

pub initial_state-IsState : IsState initial_state
unfolding initial_state
initial_state-IsState = record {
  w0 = omega arith;
  w1 = omega arith;
  w2 = omega arith;
  w3 = omega arith;
  w4 = omega arith;
  w5 = omega arith;
  w6 = omega arith;
  w7 = omega arith;
}

abbrev pub commitment : AuxPowCommitment
commitment = record { aux_merkle_root = all_sevens; tree_size = 4; merkle_nonce = 3 }
