-- ===== src/Providers/Metrics.antt =====
-- bmt_ai_os/providers/metrics.py. Latencies and times are ticks of the monotonic clock.
pub mod Balance
use bmt_ai_os.Prelude.{
  ℕ, ◌+◌, String, Bool, true, false, Option, none, some, [], ◌∷◌, str_eq, if◌then◌else◌,
}
use bmt_ai_os.Prelude.Dict
use bmt_ai_os.Prelude.Dict.{Dict}

pub record ProviderStats : Type 0 where
  pub total_requests : ℕ
  pub successes : ℕ
  pub failures : ℕ
  pub total_latency : ℕ
  pub last_used : ℕ

abbrev pub fresh : ProviderStats
fresh = record { total_requests = 0; successes = 0; failures = 0; total_latency = 0; last_used = 0 }

abbrev pub ProviderMetrics : Type 0
ProviderMetrics = Dict ProviderStats

-- The statistics of a provider, new ones if it has none. (`_ensure` also stores the new ones; its
-- callers write them at once.)
unfoldable pub stats_of : ProviderMetrics → String → ProviderStats
stats_of m provider = elim (Dict.get m provider) [ none ↦ fresh | some s ↦ s ]

unfoldable pub record_success : String → ℕ → ℕ → ProviderMetrics → ProviderMetrics
record_success provider latency now m =
    let s = stats_of m provider in
    Dict.put m provider (record s {
      total_requests = s.total_requests + 1;
      successes = s.successes + 1;
      total_latency = s.total_latency + latency;
      last_used = now;
    })

unfoldable pub record_failure : String → ℕ → ProviderMetrics → ProviderMetrics
record_failure provider now m =
    let s = stats_of m provider in
    Dict.put m provider (record s {
      total_requests = s.total_requests + 1;
      failures = s.failures + 1;
      last_used = now;
    })

-- `if provider:` takes the empty name for no name.
unfoldable pub reset : Option String → ProviderMetrics → ProviderMetrics
reset none m = []
reset (some provider) m = if str_eq provider "" then [] else Dict.pop m provider
