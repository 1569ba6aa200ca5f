-- ===== src/Usage.antt =====
-- app/usage/models.py, and what the quota asks of a usage repository (app/usage/repository.py).
-- `Memory` is the in-memory repository, `Totals` what a record adds to its totals.
pub mod Memory
pub mod Totals
mod Tests
use ai_platform_mini.Prelude.{ℕ, String, Option, List, Text, sum_of}

-- `latency_ms`, a float that is only stored, is left out.
pub record UsageRecord : Type 0 where
  pub request_id : String
  pub model : String
  pub prompt_tokens : ℕ
  pub completion_tokens : ℕ
  pub total_tokens : ℕ
  pub api_key_name : Option String
  pub api_key_hash : Option Text
  pub workspace_id : Option String
  pub usage_date : Option Text

pub record UsageAggregation : Type 0 where
  pub model : String
  pub request_count : ℕ
  pub prompt_tokens : ℕ
  pub completion_tokens : ℕ
  pub total_tokens : ℕ

-- `sum(a.total_tokens for a in aggs)`
abbrev pub total_of : List UsageAggregation → ℕ
total_of = sum_of (λ a. a.total_tokens)

-- The four readings of `UsageRepository` that reservations rest on.
pub record Readings : Type 0 where
  pub total_tokens_for_key : Text → Text → ℕ
  pub total_tokens_for_workspace : String → Text → ℕ
  pub monthly_usage : Text → Text → List UsageAggregation
  pub monthly_usage_for_workspace : String → Text → List UsageAggregation
