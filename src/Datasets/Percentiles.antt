-- ===== src/Datasets/Percentiles.antt =====
-- datasets.py: `parse_percentiles` and `parse_pooled_percentiles`.
use mathlib.Core.List.{flat_map}
use where_to_tls.Base.{
  ℕ, String, ◌<>◌, ◌≡◌, Bool, true, false, some, none, List, [], ◌∷◌, Dict, keys, lookup, insert,
  has_key, map, contains, Result, ok, or_raise, raise_if, raise_if-eq-ok, Fault, ◌>>=◌, ◌>>◌,
  >>=-eq-ok, ok-injective, key_error, not_an_integer, duplicate_percentile, missing_percentiles,
  negative_percentile, string_eq, pair_eq, nat_eq, AllItems, AllItems-mono, NodupKeys, ap, ◌∙◌,
  subst, AllValues, length, select,
}
use where_to_tls.Base.Text.{parse_int}
use where_to_tls.Config.{
  Stack, Family, Profile, profile_rows, statistics, statistic_name, stack_eq, profile_eq,
}
use where_to_tls.Common.Numbers.{Floats, finite_number}
use where_to_tls.Common.Slots.{Slot, profile_slot}
use where_to_tls.Runs.Rows.{Row, item, field}
use where_to_tls.Datasets.Collect.{
  collect, IsAt, IsCollected, collect-NodupKeys, collect-IsCollected, collect-AllValues,
  require_keys, require_keys-has_key,
}

inverted_onto : Dict String Stack → Dict Stack String → Dict String Stack
inverted_onto found [] = found
inverted_onto found ((stack, run_id) ∷ runs) = inverted_onto (insert run_id stack found) runs

-- `{run_id: stack for stack, run_id in runs.items()}`
unfoldable pub inverted : Dict Stack String → Dict String Stack
unfolding inverted_onto string_eq
inverted = inverted_onto []

-- `row.get("wtt_run_id") in run_to_stack`
unfoldable pub has_run : Dict String Stack → Row → Bool
has_run run_to_stack row = elim (lookup "wtt_run_id" row) [
  | some run_id ↦ has_key run_id run_to_stack
  | none ↦ false
]

-- The stack and the slot of a row.
unfoldable pub row_slot : Family → Row → Result Slot
row_slot family row = do
  index ← item "wtt_execution_index" row
  execution ← or_raise (parse_int index) (not_an_integer index)
  profile ← item "wtt_profile" row
  profile_slot family profile execution

unfoldable pub row_stack : Dict String Stack → Row → Result Stack
row_stack run_to_stack row = do
  run_id ← item "wtt_run_id" row
  or_raise (lookup run_id run_to_stack) (key_error run_id)

-- The profile, the statistic, the stack and the repeat.
abbrev pub PercentileKey : Type 0
PercentileKey = Profile × (String × (Stack × ℕ))

unfoldable pub percentile_key : Family → Dict String Stack → Row → Result PercentileKey
percentile_key family run_to_stack row = do
  (profile, repeat) ← row_slot family row
  statistic ← item "statistic" row
  stack ← row_stack run_to_stack row
  ok (profile, (statistic, (stack, repeat)))

unfoldable pub duplicate_key : PercentileKey → Fault
duplicate_key (profile, (statistic, _)) = duplicate_percentile statistic

-- The set `expected`, in the order of its loops.
unfoldable pub expected_percentiles : Family → List Stack → List PercentileKey
unfolding flat_map
expected_percentiles family stacks =
    flat_map
      (λ profile.
        flat_map
          (λ statistic.
            flat_map
              (λ stack.
                map (λ repeat. (profile, (statistic_name statistic, (stack, repeat))))
                  (0 ∷ 1 ∷ 2 ∷ []))
              stacks)
          statistics)
      (profile_rows family)

-- The statistics of a pooled query.
abbrev pub pooled_statistics : List String
pooled_statistics = "P50" ∷ "P90" ∷ "P99" ∷ []

module _ (F : Floats) where
  open F use {Float, is_negative}

  unfoldable pub row_value : PercentileKey → Row → Result Float
  row_value (profile, (statistic, _)) row = do
    value ← item "_value" row
    finite_number F value statistic

  unfoldable pub parse_percentiles :
      List Row → Family → Dict Stack String → Result (Dict PercentileKey Float)
  unfolding pair_eq profile_eq string_eq stack_eq nat_eq
  parse_percentiles rows family runs = do
    result ←
        collect (has_run (inverted runs)) (percentile_key family (inverted runs)) row_value
          duplicate_key rows
    require_keys (expected_percentiles family (keys runs)) (missing_percentiles "") result

  -- A percentile of each profile, statistic, stack of the runs and repeat is in the result of
  -- `parse_percentiles`, if there is one; the result has the finite value of every row of the runs
  -- at the profile, statistic, stack and repeat of that row, and as many values as there are such
  -- rows.
  pub parse_percentiles-IsCollected :
      (rows : List Row) (family : Family) (runs : Dict Stack String)
      (result : Dict PercentileKey Float)
      → parse_percentiles rows family runs ≡ ok result
      → IsCollected
          (has_run (inverted runs))
          (percentile_key family (inverted runs))
          row_value
          duplicate_key
          rows
          result
        × AllItems (λ key. has_key key result ≡ true) (expected_percentiles family (keys runs))
  unfolding parse_percentiles
  parse_percentiles-IsCollected rows family runs result h =
      let (found, collected, h₁) =
        >>=-eq-ok
          (collect (has_run (inverted runs)) (percentile_key family (inverted runs)) row_value
            duplicate_key rows)
          _ h in
      let (same, complete) =
        require_keys-has_key (expected_percentiles family (keys runs)) _ found result h₁ in
      (
        subst (IsCollected _ _ _ _ rows) same (collect-IsCollected _ _ _ _ rows found collected),
        complete,
      )

  pooled_value : String → String → Row → Result Float
  pooled_value context statistic row = do
    value ← finite_number F (field "_value" row) (context <> "/" <> statistic)
    raise_if (is_negative value) (negative_percentile (context <> "/" <> statistic))
    ok value

  unfoldable pub parse_pooled_percentiles : List Row → String → Result (Dict String Float)
  unfolding pooled_value
  parse_pooled_percentiles rows context = do
    values ←
        collect (λ row. contains pooled_statistics (field "statistic" row))
          (λ row. ok (field "statistic" row)) (pooled_value context) duplicate_percentile rows
    require_keys pooled_statistics (missing_percentiles context) values

  pooled_value-not_negative :
      (context statistic : String) (row : Row) (v : Float)
      → pooled_value context statistic row ≡ ok v
      → is_negative v ≡ false
  unfolding pooled_value
  pooled_value-not_negative context statistic row v h =
      let (x, read, h₁) =
        >>=-eq-ok (finite_number F (field "_value" row) (context <> "/" <> statistic)) _ h in
      let (fine, h₂) = raise_if-eq-ok _ (negative_percentile (context <> "/" <> statistic)) _ h₁ in
      subst (λ y. is_negative y ≡ false) (ok-injective h₂) fine

  -- The value of a row with a pooled statistic.
  pub record IsPooled (values : Dict String Float) (row : Row) : Type 0 where
    pub value : Float
    pub context : String
    pub read : finite_number F (field "_value" row) context ≡ ok value
    pub not_negative : is_negative value ≡ false
    pub found : lookup (field "statistic" row) values ≡ some value

  IsAt-IsPooled :
      (context : String) (values : Dict String Float) (row : Row)
      → IsAt
          (λ row. contains pooled_statistics (field "statistic" row))
          (λ row. ok (field "statistic" row))
          (pooled_value context)
          duplicate_percentile
          values
          row
      → IsPooled values row
  unfolding pooled_value
  IsAt-IsPooled context values row at_row =
      let subject = context <> "/" <> at_row.key in
      let (x, read, h₁) =
        >>=-eq-ok (finite_number F (field "_value" row) subject) _ at_row.value_read in
      let (fine, h₂) = raise_if-eq-ok _ (negative_percentile subject) _ h₁ in
      let same = ok-injective h₂ in
      record {
        value = at_row.value;
        context = subject;
        read = read ∙ ap ok same;
        not_negative = subst (λ y. is_negative y ≡ false) same fine;
        found = ap (λ k. lookup k values) (ok-injective at_row.key_read) ∙ at_row.found;
      }

  -- If `parse_pooled_percentiles` returns, its result has the statistics P50, P90 and P99, each row with
  -- one of them has a finite value that is not negative and stands under the statistic in the
  -- result, no value of the result is negative, no statistic is there twice, and the result has as many
  -- values as there are such rows.
  pub parse_pooled_percentiles_complete :
      (rows : List Row) (context : String) (values : Dict String Float)
      → parse_pooled_percentiles rows context ≡ ok values
      → AllItems (λ statistic. has_key statistic values ≡ true) pooled_statistics
        × AllItems
            (λ row. contains pooled_statistics (field "statistic" row) ≡ true → IsPooled values row)
            rows
        × AllValues (λ k v. is_negative v ≡ false) values
        × NodupKeys values
        × (length values
            ≡ length (select (λ row. contains pooled_statistics (field "statistic" row)) rows))
  unfolding parse_pooled_percentiles
  parse_pooled_percentiles_complete rows context values h =
      let (found, collected, h₁) =
        >>=-eq-ok
          (collect (λ row. contains pooled_statistics (field "statistic" row))
            (λ row. ok (field "statistic" row)) (pooled_value context) duplicate_percentile rows)
          _ h in
      let (same, complete) =
        require_keys-has_key pooled_statistics (missing_percentiles context) found values h₁ in
      let none_negative =
        collect-AllValues _ _ (pooled_value context) duplicate_percentile
          (λ v. is_negative v ≡ false) (pooled_value-not_negative context) rows found collected in
      let c =
        collect-IsCollected _ _ (pooled_value context) duplicate_percentile rows found collected in
      (
        complete,
        subst
            (λ d.
              AllItems
                (λ row. contains pooled_statistics (field "statistic" row) ≡ true → IsPooled d row)
                rows)
            same
            (AllItems-mono _ _ rows (λ row f is. IsAt-IsPooled context found row (f is))
              c.each_row),
        subst (AllValues (λ k v. is_negative v ≡ false)) same none_negative,
        subst NodupKeys same (
            collect-NodupKeys _ _ (pooled_value context) duplicate_percentile rows found collected),
        subst
            (λ (d : Dict String Float).
              length d
              ≡ length (select (λ row. contains pooled_statistics (field "statistic" row)) rows))
            same c.each_once,
      )
