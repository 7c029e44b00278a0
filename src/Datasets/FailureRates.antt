-- ===== src/Datasets/FailureRates.antt =====
-- datasets.py: `parse_failure_rates`.
use mathlib.Core.List.{flat_map}
use where_to_tls.Base.{
  ℕ, ◌≤◌, ◌<◌, String, ◌≡◌, true, false, List, [], ◌∷◌, Dict, keys, has_key, map, ltb, arith,
  Result, ok, raise_if, raise_if-eq-ok, Fault, ◌>>=◌, ◌>>◌, >>=-eq-ok, ok-injective,
  duplicate_failure_rate, missing_failure_rates, zero_requests, failed_exceed_requests, pair_eq,
  nat_eq, ◌==◌, AllItems, AllValues, subst, refl,
}
use where_to_tls.Config.{Stack, Family, Profile, profile_rows, profile_label, stack_eq, profile_eq}
use where_to_tls.Common.Numbers.{Floats, exact_count}
use where_to_tls.Runs.Rows.{Row, field}
use where_to_tls.Datasets.Collect.{
  collect, IsCollected, collect-IsCollected, collect-AllValues, require_keys, require_keys-has_key,
}
use where_to_tls.Datasets.Percentiles.{inverted, has_run, row_slot, row_stack}

-- The profile, the stack and the repeat.
abbrev pub RateKey : Type 0
RateKey = Profile × (Stack × ℕ)

unfoldable pub rate_key : Family → Dict String Stack → Row → Result RateKey
rate_key family run_to_stack row = do
  (profile, repeat) ← row_slot family row
  stack ← row_stack run_to_stack row
  ok (profile, (stack, repeat))

unfoldable pub duplicate_rate : RateKey → Fault
duplicate_rate (profile, _) = duplicate_failure_rate (profile_label profile)

-- The set `expected`, in the order of its loops.
unfoldable pub expected_rates : Family → List Stack → List RateKey
unfolding flat_map
expected_rates family stacks =
    flat_map
      (λ profile.
        flat_map (λ stack. map (λ repeat. (profile, (stack, repeat))) (0 ∷ 1 ∷ 2 ∷ [])) stacks)
      (profile_rows family)

checked :
    (requests failed : ℕ)
    → (requests == 0) ≡ false
    → ltb requests failed ≡ false
    → (0 < requests) × (failed ≤ requests)
unfolding nat_eq
checked requests failed some_request within = (ground arith, ground arith)

module _ (F : Floats) where
  open F use {Float, of_ℕ, mul, div}

  pub record FailureRate : Type 0 where
    pub failed : ℕ
    pub requests : ℕ
    pub rate : Float

  -- `failed / requests * 100.0`
  abbrev pub percentage : ℕ → ℕ → Float
  percentage failed requests = mul (div (of_ℕ failed) (of_ℕ requests)) (of_ℕ 100)

  unfoldable pub rate_value : RateKey → Row → Result FailureRate
  unfolding nat_eq
  rate_value (profile, _) row = do
    failed ← exact_count F (field "http_req_failed" row) (profile_label profile)
    requests ← exact_count F (field "http_reqs" row) (profile_label profile)
    raise_if (requests == 0) (zero_requests (profile_label profile))
    raise_if (ltb requests failed) (failed_exceed_requests (profile_label profile))
    ok (record { failed = failed; requests = requests; rate = percentage failed requests })

  unfoldable pub parse_failure_rates :
      List Row → Family → Dict Stack String → Result (Dict RateKey FailureRate)
  unfolding pair_eq profile_eq stack_eq nat_eq
  parse_failure_rates rows family runs = do
    result ←
        collect (has_run (inverted runs)) (rate_key family (inverted runs)) rate_value
          duplicate_rate rows
    require_keys (expected_rates family (keys runs)) (missing_failure_rates "") result

  -- A rate is a part of at least one request.
  pub record IsRate (value : FailureRate) : Type 0 where
    pub some_request : 0 < value.requests
    pub within : value.failed ≤ value.requests
    pub quotient : value.rate ≡ percentage value.failed value.requests

  rate_value-IsRate :
      (key : RateKey) (row : Row) (value : FailureRate)
      → rate_value key row ≡ ok value
      → IsRate value
  unfolding rate_value nat_eq
  rate_value-IsRate (profile, _) row value h =
      let (failed, read, h₁) =
        >>=-eq-ok (exact_count F (field "http_req_failed" row) (profile_label profile)) _ h in
      let (requests, read', h₂) =
        >>=-eq-ok (exact_count F (field "http_reqs" row) (profile_label profile)) _ h₁ in
      let (positive, h₃) = raise_if-eq-ok _ (zero_requests (profile_label profile)) _ h₂ in
      let (within, h₄) = raise_if-eq-ok _ (failed_exceed_requests (profile_label profile)) _ h₃ in
      let found : FailureRate = record {
        failed = failed;
        requests = requests;
        rate = percentage failed requests;
      } in
      let (some_request, at_most) = checked requests failed positive within in
      let is : IsRate found = record {
        some_request = some_request;
        within = at_most;
        quotient = refl;
      } in
      subst IsRate (ok-injective h₄) is

  -- If `parse_failure_rates` returns, its result has a rate of each profile, stack of the runs and
  -- repeat, has the rate of every row of the runs at the profile, stack and repeat of that row and
  -- as many rates as there are such rows, and every rate is of at least one request and of no more
  -- failed requests than requests.
  pub parse_failure_rates-IsRate :
      (rows : List Row) (family : Family) (runs : Dict Stack String)
      (result : Dict RateKey FailureRate)
      → parse_failure_rates rows family runs ≡ ok result
      → IsCollected
          (has_run (inverted runs))
          (rate_key family (inverted runs))
          rate_value
          duplicate_rate
          rows
          result
        × AllItems (λ key. has_key key result ≡ true) (expected_rates family (keys runs))
        × AllValues (λ key value. IsRate value) result
  unfolding parse_failure_rates
  parse_failure_rates-IsRate rows family runs result h =
      let (found, collected, h₁) =
        >>=-eq-ok
          (collect (has_run (inverted runs)) (rate_key family (inverted runs)) rate_value
            duplicate_rate rows)
          _ h in
      let (same, complete) =
        require_keys-has_key (expected_rates family (keys runs)) _ found result h₁ in
      (
        subst (IsCollected _ _ _ _ rows) same (collect-IsCollected _ _ _ _ rows found collected),
        complete,
        subst (AllValues (λ key value. IsRate value)) same
            (collect-AllValues _ _ _ _ IsRate rate_value-IsRate rows found collected),
      )
