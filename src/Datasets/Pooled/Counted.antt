-- ===== src/Datasets/Pooled/Counted.antt =====
-- datasets.py: `execution_elapsed_seconds` and `pooled_byte_values` on the executions of a TLS comparison.
use where_to_tls.Base.{
  ℕ, ◌<◌, String, ◌≡◌, refl, ap, ◌∙◌, false, not, ◌||◌, ◌==◌, some, List, [], ◌∷◌, lookup, same_set,
  length, map, is_empty, AllItems, AllItems-mono, AllPairs, pair_and, no_pair, for_each-returned,
  ok, or_raise, raise_if, raise_if-eq-ok, ◌>>=◌, ◌>>◌, >>=-eq-ok, for_each, key_error, non_finite,
  not_a_float, non_positive_elapsed, string_eq, nat_eq, arith,
}
use where_to_tls.Config.{tls_byte_metrics}
use where_to_tls.Common.Numbers.{Floats, finite_number}
use where_to_tls.Runs.Summary.{SummaryExecution}
use where_to_tls.Runs.TlsComparison.Agreement.{IsCounted}
use where_to_tls.Exporter.Cells.{repeat_of}
use where_to_tls.Datasets.Pooled.{
  byte_counter, sum, execution_elapsed_seconds, ByteValues, PooledBytes, byte_values,
  pooled_byte_values,
}

length_of :
    (executions : List SummaryExecution) (repeats : List ℕ)
    → map repeat_of executions ≡ repeats
    → length executions ≡ length repeats
length_of executions repeats h = go executions ∙ ap length h
  where
    go : (xs : List SummaryExecution) → length xs ≡ length (map repeat_of xs)
    go [] = refl
    go (x ∷ xs) = ground (arith, go xs)

repeats-some :
    (executions : List SummaryExecution)
    → map repeat_of executions ≡ 0 ∷ 1 ∷ 2 ∷ []
    → is_empty executions ≡ false
repeats-some [] h = cc
repeats-some (x ∷ xs) h = refl

sum-positive :
    (executions : List SummaryExecution) (counts : List ℕ)
    → AllPairs (λ _ (n : ℕ). 0 < n) executions counts
    → is_empty executions ≡ false
    → 0 < sum counts
sum-positive _ _ no_pair h = cc
sum-positive _ _ (pair_and x n xs ns p rest) h = omega arith

module _ (F : Floats) where
  -- The context is only in the message.
  finite_number-context :
      (text before after : String) {value : F.Float}
      → finite_number F text before ≡ ok value
      → finite_number F text after ≡ ok value
  unfolding finite_number
  finite_number-context text before after h =
      let (number, parsed, h₁) = >>=-eq-ok (or_raise (F.parse text) (not_a_float text)) _ h in
      let (finite, h₂) = raise_if-eq-ok (not (F.is_finite number)) (non_finite before) _ h₁ in
      ap (λ r. r >>= λ n. raise_if (not (F.is_finite n)) (non_finite after) >> ok n) parsed
      ∙ ap (λ b. raise_if b (non_finite after) >> ok number) finite
      ∙ h₂

  pub execution_elapsed_seconds-returned :
      (x : SummaryExecution) (context : String) (elapsed : F.Float)
      → finite_number F x.elapsed_ms x.run_id ≡ ok elapsed
      → F.is_non_positive elapsed ≡ false
      → execution_elapsed_seconds F x context ≡ ok (F.div elapsed (F.of_ℕ 1000))
  unfolding execution_elapsed_seconds
  execution_elapsed_seconds-returned x context elapsed read positive =
      ap
        (λ r. r >>= λ v.
          raise_if (F.is_non_positive v) (non_positive_elapsed context)
          >> ok (F.div v (F.of_ℕ 1000)))
        (finite_number-context x.elapsed_ms x.run_id context read)
      ∙ ap (λ b. raise_if b (non_positive_elapsed context) >> ok (F.div elapsed (F.of_ℕ 1000)))
          positive

  byte_counter-returned :
      (name : String) (x : SummaryExecution) (i : IsCounted F x) (count : ℕ)
      → lookup name i.counters ≡ some count
      → byte_counter name x ≡ ok count
  unfolding byte_counter
  byte_counter-returned name x i count found =
      ap
        (λ o.
          or_raise o (key_error "byte_counters") >>= λ c. or_raise (lookup name c) (key_error name))
        i.there
      ∙ ap (λ o. or_raise o (key_error name)) found

  -- The requests of the executions.
  requests_returned :
      (executions : List SummaryExecution)
      → AllItems (IsCounted F) executions
      → (counts : List ℕ) × (for_each (byte_counter "requests") executions ≡ ok counts)
        × AllPairs (λ _ (n : ℕ). 0 < n) executions counts
  requests_returned executions counted =
      for_each-returned (byte_counter "requests") (λ _ (n : ℕ). 0 < n) executions
        (AllItems-mono (IsCounted F) _ executions
          (λ x i.
            (i.requests, byte_counter-returned "requests" x i i.requests i.counted, i.some_request))
          counted)

  byte_values-returned :
      (executions : List SummaryExecution) (requests : ℕ) (metric : String × (String × String))
      → AllItems (λ x. (n : ℕ) × (byte_counter metric.0 x ≡ ok n)) executions
      → (values : ByteValues F) × (byte_values F executions requests metric ≡ ok values)
  unfolding byte_values
  byte_values-returned executions requests metric there =
      let (counts, read, _) =
        for_each-returned (byte_counter metric.0) (λ _ (n : ℕ). n ≡ n) executions
          (AllItems-mono (λ x. (n : ℕ) × (byte_counter metric.0 x ≡ ok n)) _ executions
            (λ x p. (p.0, p.1, refl)) there) in
      (
        _,
        ap
            (λ r. r >>= λ cs. ok (record {
              metric = metric.0;
              bytes = sum cs;
              bytes_per_request = F.div (F.of_ℕ (sum cs)) (F.of_ℕ requests);
            }))
            read,
      )

  metrics_returned :
      (executions : List SummaryExecution) (requests : ℕ)
      → AllItems (IsCounted F) executions
      → (metrics : List (ByteValues F)) × (for_each
            (byte_values F executions requests)
            tls_byte_metrics
          ≡ ok metrics)
  metrics_returned executions requests counted =
      let sent =
        byte_values-returned executions requests ("sent", ("data_sent_bytes", "Client bytes sent"))
          (AllItems-mono (IsCounted F) _ executions
            (λ x i. (i.metrics.0.0, byte_counter-returned "sent" x i i.metrics.0.0 i.metrics.0.1))
            counted) in
      let received =
        byte_values-returned executions requests
          ("received", ("data_received_bytes", "Client bytes received"))
          (AllItems-mono (IsCounted F) _ executions
            (λ x i. (
              i.metrics.1.0.0,
              byte_counter-returned "received" x i i.metrics.1.0.0 i.metrics.1.0.1,
            ))
            counted) in
      let (metrics, read, _) =
        for_each-returned (byte_values F executions requests) (λ _ (v : ByteValues F). v ≡ v)
          tls_byte_metrics ((sent.0, sent.1, refl), ((received.0, received.1, refl), tt)) in
      (metrics, read)

  -- On three counted executions with the repeats 0, 1 and 2, `pooled_byte_values` returns, with some requests.
  pub pooled_byte_values-returned :
      (executions : List SummaryExecution) (context : String)
      → map repeat_of executions ≡ 0 ∷ 1 ∷ 2 ∷ []
      → AllItems (IsCounted F) executions
      → (values : PooledBytes F) × (pooled_byte_values F executions context ≡ ok values)
        × (0 < values.request_count)
  unfolding pooled_byte_values nat_eq
  pooled_byte_values-returned executions context repeats counted =
      let (counts, read, positive) = requests_returned executions counted in
      let some_execution = repeats-some executions repeats in
      let some_request = sum-positive executions counts positive some_execution in
      let (metrics, made) = metrics_returned executions (sum counts) counted in
      let three_runs : (not (length executions == 3)
            || not (
                same_set (map (λ (execution : SummaryExecution). execution.repeat) executions)
                  (0 ∷ 1 ∷ 2 ∷ [])))
          ≡ false =
        ap (λ n. not (n == 3) || not (same_set (map repeat_of executions) (0 ∷ 1 ∷ 2 ∷ [])))
          (length_of executions _ repeats)
        ∙ ap (λ rs. not (same_set rs (0 ∷ 1 ∷ 2 ∷ []))) repeats in
      let nonzero : (sum counts == 0) ≡ false = ground arith in
      (
        record { request_count = sum counts; metrics = metrics },
        rw three_runs (rw read (rw nonzero (rw made refl))),
        some_request,
      )
