-- ===== src/Mining/VersionRolling.antt =====
-- src/mining/version_rolling.cpp and .hpp: bits of the version that a miner may vary, with the job
-- (56 bytes) and the share (12 bytes) that carry a version. The counter is atomic, so each call of
-- `next_rolling_value` is one step.
pub mod Rolling
pub mod Wire
pub mod Versioned
use avalon_miner.Prelude.{
  ℕ, ◌+◌, ◌-◌, ◌*◌, ◌/◌, ◌%◌, ◌^◌, Bool, true, Option, none, some, List, ◌++◌, bit_and, bit_or, ltb,
  ◌==◌, if◌then◌else◌, length, take, drop,
}
use avalon_miner.Prelude.Bytes.{le_bytes16, le_bytes32, read16, read32}
use avalon_miner.Crypto.Sha256.{Sha256State, state_to_bytes, compute_midstate}

abbrev pub version_rolling_mask_default : ℕ
version_rolling_mask_default = 0x1fffe000

abbrev pub version_base_default : ℕ
version_base_default = 0x20000000

abbrev pub version_rolling_max : ℕ
version_rolling_max = 2 ^ 16 - 1

pub record VersionRollingConfig : Type 0 where
  pub enabled : Bool
  pub version_mask : ℕ
  pub version_base : ℕ

unfoldable pub default_config : VersionRollingConfig
default_config = record {
  enabled = true;
  version_mask = version_rolling_mask_default;
  version_base = version_base_default;
}

pub record MiningJobV2 : Type 0 where
  pub midstate : List ℕ
  pub header_tail : List ℕ
  pub job_id : ℕ
  pub version_base : ℕ
  pub version_mask : ℕ
  pub reserved : ℕ

pub record MiningShareV2 : Type 0 where
  pub job_id : ℕ
  pub nonce : ℕ
  pub version : ℕ

pub record VersionRollingManager : Type 0 where
  pub config : VersionRollingConfig
  pub rolling_counter : ℕ
  pub versions_generated : ℕ

unfoldable pub initial : VersionRollingConfig → VersionRollingManager
initial config = record { config = config; rolling_counter = 0; versions_generated = 0 }

unfoldable pub serialize_job : MiningJobV2 → List ℕ
serialize_job j =
    j.midstate
    ++ (j.header_tail
        ++ (le_bytes32 j.job_id
            ++ (le_bytes32 j.version_base ++ (le_bytes16 j.version_mask ++ le_bytes16 j.reserved))))

-- What is read from at least 56 bytes.
unfoldable pub read_job : List ℕ → MiningJobV2
read_job src = record {
  midstate = take 32 src;
  header_tail = take 12 (drop 32 src);
  job_id = read32 (drop 44 src);
  version_base = read32 (drop 48 src);
  version_mask = read16 (drop 52 src);
  reserved = read16 (drop 54 src);
}

-- `none` for the error of too few bytes.
unfoldable pub deserialize_job : List ℕ → Option MiningJobV2
deserialize_job src = if ltb (length src) 56 then none else some (read_job src)

unfoldable pub serialize_share : MiningShareV2 → List ℕ
serialize_share s = le_bytes32 s.job_id ++ (le_bytes32 s.nonce ++ le_bytes32 s.version)

unfoldable pub read_share : List ℕ → MiningShareV2
read_share src = record {
  job_id = read32 src;
  nonce = read32 (drop 4 src);
  version = read32 (drop 8 src);
}

unfoldable pub deserialize_share : List ℕ → Option MiningShareV2
deserialize_share src = if ltb (length src) 12 then none else some (read_share src)

-- `~x` of a `uint32_t`.
abbrev pub not32 : ℕ → ℕ
not32 x = 2 ^ 32 - 1 - x

unfoldable pub apply_rolling : VersionRollingConfig → ℕ → ℕ
apply_rolling c rolling_value =
    bit_or (bit_and c.version_base (not32 c.version_mask))
      (bit_and (rolling_value * 2 ^ 13 % 2 ^ 32) c.version_mask)

unfoldable pub extract_rolling : VersionRollingConfig → ℕ → ℕ
extract_rolling c version = bit_and version c.version_mask / 2 ^ 13 % 2 ^ 16

unfoldable pub validate_version : VersionRollingConfig → ℕ → Bool
validate_version c version =
    bit_and version (not32 c.version_mask) == bit_and c.version_base (not32 c.version_mask)

unfoldable pub next_rolling_value : VersionRollingManager → VersionRollingManager × ℕ
next_rolling_value m = (
  record m {
    rolling_counter = (m.rolling_counter + 1) % 2 ^ 16;
    versions_generated = (m.versions_generated + 1) % 2 ^ 64;
  },
  bit_and m.rolling_counter version_rolling_max,
)

unfoldable pub reset_rolling_counter : VersionRollingManager → VersionRollingManager
reset_rolling_counter m = record m { rolling_counter = 0 }

abbrev zero_state : Sha256State
zero_state = record { s0 = 0; s1 = 0; s2 = 0; s3 = 0; s4 = 0; s5 = 0; s6 = 0; s7 = 0 }

-- A state of zeros for too few bytes.
unfoldable pub compute_versioned_midstate : List ℕ → ℕ → Sha256State
compute_versioned_midstate header_data version =
    if ltb (length header_data) 64
    then zero_state
    else compute_midstate (le_bytes32 version ++ drop 4 (take 64 header_data))

unfoldable pub create_job_v2 : Sha256State → List ℕ → ℕ → ℕ → ℕ → MiningJobV2
create_job_v2 midstate header_tail job_id version_base version_mask = record {
  midstate = state_to_bytes midstate;
  header_tail = header_tail;
  job_id = job_id;
  version_base = version_base;
  version_mask = bit_and (version_mask / 2 ^ 13) 0xffff;
  reserved = 0;
}
