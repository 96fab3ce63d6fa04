-- ===== src/Core/MtpCalculator.antt =====
-- src/core/mtp_calculator.cpp and .hpp: the median time past, over a ring of eleven timestamps.
-- Each method is one step under the mutex.
pub mod Sorting
pub mod Ring
use avalon_miner.Prelude.{
  ℕ, ◌+◌, ◌%◌, ◌^◌, Bool, List, [], ◌∷◌, ltb, leb, ◌==◌, if◌then◌else◌, get_or, set, replicate,
}
use avalon_miner.Core.BlockHeader.{BlockHeader}

-- `std::sort`
unfoldable pub insert : ℕ → List ℕ → List ℕ
insert a [] = a ∷ []
insert a (x ∷ xs) = let rest = insert a xs in if leb a x then a ∷ x ∷ xs else x ∷ rest

unfoldable pub sort : List ℕ → List ℕ
sort [] = []
sort (x ∷ xs) = insert x (sort xs)

pub record MtpCalculator : Type 0 where
  pub timestamps : List ℕ
  pub count : ℕ
  pub head : ℕ

abbrev pub mtp_block_count : ℕ
mtp_block_count = 11

unfoldable pub initial : MtpCalculator
initial = record { timestamps = replicate mtp_block_count 0; count = 0; head = 0 }

unfoldable pub push_timestamp : MtpCalculator → ℕ → MtpCalculator
push_timestamp m timestamp = record {
  timestamps = set m.timestamps m.head timestamp;
  head = (m.head + 1) % mtp_block_count;
  count = if ltb m.count mtp_block_count then m.count + 1 else m.count;
}

unfoldable pub push_header : MtpCalculator → BlockHeader → MtpCalculator
push_header m header = push_timestamp m header.timestamp

unfoldable pub reset : MtpCalculator → MtpCalculator
reset m = record { timestamps = replicate mtp_block_count 0; count = 0; head = 0 }

unfoldable pub get_mtp : MtpCalculator → ℕ
get_mtp m = if ltb m.count mtp_block_count then 0 else get_or (sort m.timestamps) 5 0

-- The clock's value stands in for a median that is missing.
unfoldable pub get_min_timestamp : MtpCalculator → ℕ → ℕ
get_min_timestamp m now =
    let mtp = get_mtp m in if mtp == 0 then now % 2 ^ 32 else (mtp + 1) % 2 ^ 32

unfoldable pub has_sufficient_data : MtpCalculator → Bool
has_sufficient_data m = leb mtp_block_count m.count
