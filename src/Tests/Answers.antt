-- ===== src/Tests/Answers.antt =====
-- The answers of the queries at concrete inputs, with whole numbers for floats.
use where_to_tls.Base.{
  NodupKeys, String, ◌≡◌, refl, true, false, List, [], ◌∷◌, Dict, keys, has_key, map, ℤ, pos,
  negsuc, pos_part, ◌+◌, ◌*◌, ◌/◌, leb, for_loop, pair_eq, string_eq, nat_eq, int_eq, ok, AllItems,
  AllValues, length, select, contains,
}
use mathlib.Core.List.{flat_map}
use native.Mathlib.Decide.{ℕ_discrete}
use where_to_tls.Base.Text.{parse_int, strip, lstrip, rstrip}
use where_to_tls.Config.{Stack, Family, stack_eq, profile_eq}
use where_to_tls.Common.Numbers.{Floats, finite_number, exact_count}
use where_to_tls.Common.Slots.{profile_slot, slot_mapping}
use where_to_tls.Runs.Rows.{Row, field}
use where_to_tls.Datasets.Collect.{IsCollected, collect, require_keys}
use where_to_tls.Datasets.Percentiles.{
  PercentileKey, inverted, has_run, row_slot, row_stack, percentile_key, row_value, duplicate_key,
  expected_percentiles, parse_percentiles, parse_percentiles-IsCollected, pooled_statistics,
  parse_pooled_percentiles, IsPooled, parse_pooled_percentiles_complete,
}
use where_to_tls.Datasets.FailureRates.{
  RateKey, FailureRate, IsRate, rate_key, rate_value, duplicate_rate, expected_rates,
  parse_failure_rates, parse_failure_rates-IsRate,
}

-- Whole numbers, of which a quotient drops its remainder.
abbrev pub whole : Floats
whole = record {
  Float = ℤ;
  parse = parse_int;
  is_finite = λ x. true;
  is_negative = λ x. elim x [ pos n ↦ false | negsuc n ↦ true ];
  is_non_positive = λ x. elim x [ pos n ↦ leb n 0 | negsuc n ↦ true ];
  is_integer = λ x. true;
  to_ℕ = pos_part;
  of_ℕ = pos;
  add = λ x y. pos (pos_part x + pos_part y);
  mul = λ x y. pos (pos_part x * pos_part y);
  div = λ x y. pos (pos_part x / pos_part y);
}

abbrev answer : String → String → Row
answer index statistic =
    ("wtt_run_id", "r")
    ∷ ("wtt_profile", "linear")
    ∷ ("wtt_execution_index", index)
    ∷ ("statistic", statistic)
    ∷ ("_value", "7")
    ∷ ("http_reqs", "50")
    ∷ ("http_req_failed", "5")
    ∷ []

abbrev indices : List String
indices = "1" ∷ "2" ∷ "3" ∷ "4" ∷ "5" ∷ "6" ∷ []

abbrev answers : List Row
answers =
    flat_map (λ statistic. map (λ index. answer index statistic) indices)
      ("P01" ∷ "P50" ∷ "P90" ∷ "P99" ∷ [])

abbrev runs : Dict Stack String
runs = (Stack.go, "r") ∷ []

percentiles :
    (result : Dict PercentileKey ℤ) × (parse_percentiles whole answers Family.linear runs
      ≡ ok result)
unfolding parse_percentiles for_loop collect require_keys has_run inverted percentile_key row_slot
    row_stack row_value profile_slot slot_mapping expected_percentiles flat_map finite_number
    parse_int strip lstrip rstrip pair_eq string_eq profile_eq stack_eq nat_eq int_eq ℕ_discrete
percentiles = (_, refl)

parse_percentiles-IsCollected_example :
    IsCollected
      (has_run (inverted runs))
      (percentile_key Family.linear (inverted runs))
      (row_value whole)
      duplicate_key
      answers
      percentiles.0
    × AllItems
        (λ key. has_key key percentiles.0 ≡ true)
        (expected_percentiles Family.linear (keys runs))
parse_percentiles-IsCollected_example =
    parse_percentiles-IsCollected whole answers Family.linear runs percentiles.0 percentiles.1

rates :
    (result : Dict RateKey (FailureRate whole)) × (parse_failure_rates whole
        (map (λ index. answer index "P50") indices)
        Family.linear
        runs
      ≡ ok result)
unfolding parse_failure_rates rate_key rate_value expected_rates exact_count for_loop collect
    require_keys has_run inverted percentile_key row_slot row_stack row_value profile_slot
    slot_mapping expected_percentiles flat_map finite_number parse_int strip lstrip rstrip pair_eq
    string_eq profile_eq stack_eq nat_eq int_eq ℕ_discrete
rates = (_, refl)

parse_failure_rates-IsRate_example :
    IsCollected
      (has_run (inverted runs))
      (rate_key Family.linear (inverted runs))
      (rate_value whole)
      duplicate_rate
      (map (λ index. answer index "P50") indices)
      rates.0
    × AllItems (λ key. has_key key rates.0 ≡ true) (expected_rates Family.linear (keys runs))
    × AllValues (λ key value. IsRate whole value) rates.0
parse_failure_rates-IsRate_example =
    parse_failure_rates-IsRate whole (map (λ index. answer index "P50") indices) Family.linear runs
      rates.0 rates.1

abbrev pooled : List Row
pooled = map (answer "1") ("P01" ∷ "P50" ∷ "P90" ∷ "P99" ∷ [])

pooled_read : (values : Dict String ℤ) × (parse_pooled_percentiles whole pooled "c" ≡ ok values)
unfolding parse_pooled_percentiles for_loop collect require_keys has_run inverted percentile_key
    row_slot row_stack row_value profile_slot slot_mapping expected_percentiles flat_map
    finite_number parse_int strip lstrip rstrip pair_eq string_eq profile_eq stack_eq nat_eq int_eq
    ℕ_discrete
pooled_read = (_, refl)

parse_pooled_percentiles_complete_example :
    AllItems (λ statistic. has_key statistic pooled_read.0 ≡ true) pooled_statistics
    × AllItems
        (λ row.
          contains pooled_statistics (field "statistic" row) ≡ true
          → IsPooled whole pooled_read.0 row)
        pooled
    × AllValues (λ k v. whole.is_negative v ≡ false) pooled_read.0
    × NodupKeys pooled_read.0
    × (length pooled_read.0
        ≡ length (select (λ row. contains pooled_statistics (field "statistic" row)) pooled))
parse_pooled_percentiles_complete_example =
    parse_pooled_percentiles_complete whole pooled "c" pooled_read.0 pooled_read.1
