-- ===== src/Providers/Metrics/Balance.antt =====
-- The counters of a provider add up, and a call counts for its provider alone.
use bmt_ai_os.Prelude.{ℕ, ◌+◌, ◌≡◌, String, str_eq, if◌then◌else◌, arith}
use bmt_ai_os.Prelude.Dict
use bmt_ai_os.Prelude.Dict.{get-put, get-pop}
use bmt_ai_os.Providers.Metrics.{
  ProviderStats, ProviderMetrics, stats_of, record_success, record_failure,
}

stats_of-put :
    (m : ProviderMetrics) (p q : String) (s : ProviderStats)
    → stats_of (Dict.put m p s) q ≡ (if str_eq p q then s else stats_of m q)
unfolding stats_of
stats_of-put m p q s = rw (get-put m p q s, stats_of) (ground arith)

module _ (p q : String) (now : ℕ) (m : ProviderMetrics) where
  pub stats_of-record_success :
      (latency : ℕ)
      → stats_of (record_success p latency now m) q ≡ (
          if str_eq p q
          then record (stats_of m p) {
            total_requests = (stats_of m p).total_requests + 1;
            successes = (stats_of m p).successes + 1;
            total_latency = (stats_of m p).total_latency + latency;
            last_used = now;
          }
          else stats_of m q)
  unfolding record_success
  stats_of-record_success latency = stats_of-put m p q _

  pub stats_of-record_failure : stats_of (record_failure p now m) q ≡ (
      if str_eq p q
      then record (stats_of m p) {
        total_requests = (stats_of m p).total_requests + 1;
        failures = (stats_of m p).failures + 1;
        last_used = now;
      }
      else stats_of m q)
  unfolding record_failure
  stats_of-record_failure = stats_of-put m p q _

-- Every request counted was a success or a failure.
pub record IsBalanced (m : ProviderMetrics) : Type 0 where
  pub at :
      (p : String)
      → (stats_of m p).total_requests ≡ (stats_of m p).successes + (stats_of m p).failures

module _ (p : String) (m : ProviderMetrics) (h : IsBalanced m) where
  pub record_success-IsBalanced : (latency now : ℕ) → IsBalanced (record_success p latency now m)
  record_success-IsBalanced latency now = record {
    at = λ q. rw (stats_of-record_success p q now m latency) (ground (arith, h.at p, h.at q));
  }

  pub record_failure-IsBalanced : (now : ℕ) → IsBalanced (record_failure p now m)
  record_failure-IsBalanced now = record {
    at = λ q. rw (stats_of-record_failure p q now m) (ground (arith, h.at p, h.at q));
  }
