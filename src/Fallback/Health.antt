-- ===== src/Fallback/Health.antt =====
-- src/fallback/fallback_manager.hpp: the health of one source of jobs, and what a check does to it.
-- Clock values are nanoseconds; 0 is the value that a time has before it is first set.
use avalon_miner.Prelude.{ℕ, ◌+◌, ◌%◌, ◌^◌, Bool, true, false, Option, none, some}

pub record SourceHealth : Type 0 where
  pub available : Bool
  pub last_check : ℕ
  pub last_success : ℕ
  pub consecutive_failures : ℕ
  pub last_job_received : ℕ
  pub total_checks : ℕ
  pub successful_checks : ℕ

unfoldable pub unknown_health : ℕ → SourceHealth
unknown_health now = record {
  available = false;
  last_check = now;
  last_success = 0;
  consecutive_failures = 0;
  last_job_received = 0;
  total_checks = 0;
  successful_checks = 0;
}

-- A check that is not set answers false.
abbrev pub answer : Option Bool → Bool
answer none = false
answer (some b) = b

unfoldable pub succeeded : SourceHealth → ℕ → SourceHealth
succeeded h now = record h {
  available = true;
  last_check = now;
  last_success = now;
  consecutive_failures = 0;
  total_checks = (h.total_checks + 1) % 2 ^ 64;
  successful_checks = (h.successful_checks + 1) % 2 ^ 64;
}

unfoldable pub failed : SourceHealth → ℕ → Bool → SourceHealth
failed h now available = record h {
  available = available;
  last_check = now;
  consecutive_failures = (h.consecutive_failures + 1) % 2 ^ 32;
  total_checks = (h.total_checks + 1) % 2 ^ 64;
}

unfoldable pub job_received : SourceHealth → ℕ → SourceHealth
job_received h now = record h { last_success = now; last_job_received = now }
