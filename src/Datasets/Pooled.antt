-- ===== src/Datasets/Pooled.antt =====
-- datasets.py: `execution_elapsed_seconds` and `pooled_byte_values`, the values of the three executions of
-- a pair.
pub mod Counted
use where_to_tls.Base.{
  ℕ, ◌+◌, String, not, ◌||◌, ◌==◌, List, [], ◌∷◌, lookup, same_set, length, map, Result, ok,
  or_raise, raise_if, ◌>>=◌, ◌>>◌, for_each, key_error, non_positive_elapsed, wrong_run_count,
  zero_requests, string_eq, nat_eq,
}
use where_to_tls.Config.{tls_byte_metrics}
use where_to_tls.Common.Numbers.{Floats, finite_number}
use where_to_tls.Runs.Summary.{SummaryExecution}

-- `execution["byte_counters"][name]`
unfoldable pub byte_counter : String → SummaryExecution → Result ℕ
unfolding string_eq
byte_counter name execution = do
  counters ← or_raise execution.byte_counters (key_error "byte_counters")
  or_raise (lookup name counters) (key_error name)

abbrev pub sum : List ℕ → ℕ
sum [] = 0
sum (n ∷ ns) = n + sum ns

module _ (F : Floats) where
  open F use {Float, is_non_positive, of_ℕ, div}

  unfoldable pub execution_elapsed_seconds : SummaryExecution → String → Result Float
  execution_elapsed_seconds execution context = do
    value ← finite_number F execution.elapsed_ms context
    raise_if (is_non_positive value) (non_positive_elapsed context)
    ok (div value (of_ℕ 1000))

  -- The sum of a metric, and the sum divided by the requests.
  pub record ByteValues : Type 0 where
    pub metric : String
    pub bytes : ℕ
    pub bytes_per_request : Float

  -- The dict that is returned.
  pub record PooledBytes : Type 0 where
    pub request_count : ℕ
    pub metrics : List ByteValues

  unfoldable pub byte_values :
      List SummaryExecution → ℕ → String × (String × String) → Result ByteValues
  byte_values executions requests (metric, _) = do
    counts ← for_each (byte_counter metric) executions
    ok (record {
      metric = metric;
      bytes = sum counts;
      bytes_per_request = div (of_ℕ (sum counts)) (of_ℕ requests);
    })

  unfoldable pub pooled_byte_values : List SummaryExecution → String → Result PooledBytes
  unfolding nat_eq
  pooled_byte_values executions context = do
    raise_if
        (not (length executions == 3)
          || not (
              same_set (map (λ (execution : SummaryExecution). execution.repeat) executions)
                (0 ∷ 1 ∷ 2 ∷ [])))
        (wrong_run_count context)
    counts ← for_each (byte_counter "requests") executions
    raise_if (sum counts == 0) (zero_requests context)
    metrics ← for_each (byte_values executions (sum counts)) tls_byte_metrics
    ok (record { request_count = sum counts; metrics = metrics })
