-- ===== src/Runs/TlsComparison.antt =====
-- runs.py: `build_tls_comparison`. The cells of a profile are put together over the TLS
-- configurations, once they are found to be complete and to differ in nothing else.
pub mod Agreement
pub mod Taken
pub mod Collected
pub mod Ordered
pub mod Finished
pub mod Complete
use where_to_tls.Base.{
  ℕ, String, ◌<>◌, Bool, true, false, not, ◌&&◌, ◌||◌, ◌==◌, Option, none, some, List, [], ◌∷◌,
  ◌++◌, Dict, ℤ, keys, values, insert, get_or, has_key, lookup, contains, same_set, select, any,
  all, map, ltb, leb, Fault, Result, ok, err, or_raise, raise_if, ◌>>=◌, ◌>>◌, for_loop, for_each,
  key_error, not_an_integer, incompatible_settings, duplicate_configuration,
  incomplete_profile_runs, inconsistent_metadata, incompatible_stack_tags, non_positive_elapsed,
  missing_counter, zero_requests, if◌then◌else◌, string_eq, nat_eq, int_eq, pair_eq, list_eq, Eq,
}
use mathlib.Core.List.{flat_map}
use where_to_tls.Base.Growth.{agree}
use where_to_tls.Base.Sorting.{index, sort_by, leb_text}
use where_to_tls.Base.Text.{parse_int}
use where_to_tls.Config.{
  Stack, Family, Profile, stack_order, profile_label, families, profile_order, tls_configurations,
  tls_byte_metrics, stack_eq, family_eq, profile_eq,
}
use where_to_tls.Common.Numbers.{Floats, finite_number, exact_count}
use where_to_tls.Runs.Rows.{Row, item, field}
use where_to_tls.Runs.Summary.{Cell, Cells, ExecutionKey, SummaryExecution, build_summary_cells}
use where_to_tls.Runs.Summary.Groups.{TlsKey, tls_key, repeats_of, cell_name}

-- Scenario and stack.
abbrev pub Pair : Type 0
Pair = String × Stack

-- Family and profile.
abbrev pub ProfileKey : Type 0
ProfileKey = Family × Profile

-- The dict of one cell of the comparison; `pairs` is [] until `finish_cell` sets it.
pub record TlsCell : Type 0 where
  pub family : Family
  pub profile : Profile
  pub slug : String
  pub compatibility : Dict String String
  pub configurations : Dict TlsKey Cell
  pub pairs : List Pair

-- `run_identities` and `pair_stacks`
pub record Identities : Type 0 where
  pub run_identities : Dict String (String × (String × TlsKey))
  pub pair_stacks : Dict (ProfileKey × Pair) String

-- The dict that `profiles.setdefault` puts in.
abbrev pub new_tls_cell : Cell → TlsCell
new_tls_cell source = record {
  family = source.family;
  profile = source.profile;
  slug = source.slug;
  compatibility = source.compatibility;
  configurations = [];
  pairs = [];
}

-- The key of `records`, and the dict.
abbrev pub RecordKey : Type 0
RecordKey = String × ℤ

unfoldable pub add_record : Dict RecordKey Row → Row → Result (Dict RecordKey Row)
unfolding string_eq int_eq pair_eq
add_record records row = do
  run_id ← item "wtt_run_id" row
  index ← item "wtt_execution_index" row
  number ← or_raise (parse_int index) (not_an_integer index)
  ok (insert (run_id, number) row records)

abbrev pub pair_of : ExecutionKey → Pair
pair_of k = (k.0, k.1.0)

-- The repeats of a pair are 0, 1 and 2.
unfoldable pub check_pair : List ExecutionKey → Pair → Result (Unit {0})
check_pair ks (scenario, stack) = do
  raise_if (not (same_set (repeats_of ks scenario stack) (0 ∷ 1 ∷ 2 ∷ [])))
      (incomplete_profile_runs scenario)

-- `fields`: the name of a counter with the field that it is read from
abbrev pub counter_fields : List (String × String)
counter_fields =
    ("requests", "configured_iterations") ∷ map (λ metric. (metric.0, metric.1.0)) tls_byte_metrics

abbrev pub is_flat : ProfileKey → Bool
is_flat (family, profile) = family == Family.baseline && profile == Profile.flat

-- `profiles`, with `run_identities` and `pair_stacks`
pub record Profiles : Type 0 where
  pub profiles : Dict ProfileKey TlsCell
  pub identities : Identities

-- The key of the sort: the places of the family and of the profile.
abbrev pub tls_place : TlsCell → ℕ × ℕ
tls_place cell = (index families cell.family, index profile_order cell.profile)

abbrev pub tls_leq : TlsCell → TlsCell → Bool
tls_leq a b =
    ltb (tls_place a).0 (tls_place b).0
    || ((tls_place a).0 == (tls_place b).0 && leb (tls_place a).1 (tls_place b).1)

-- `pairs` of the last loop: those of all configurations
abbrev pub pairs_in : TlsCell → List Pair
pairs_in cell =
    flat_map (λ (source : Cell). map pair_of (keys source.executions)) (values cell.configurations)

-- The comprehension over a table of configurations, of which it takes those that are there.
abbrev pub taken : Dict TlsKey Cell → List TlsKey → Dict TlsKey Cell
taken configurations [] = []
taken configurations (configuration ∷ table) = elim (lookup configuration configurations) [
  | some source ↦ (configuration, source) ∷ taken configurations table
  | none ↦ taken configurations table
]

abbrev pub in_order : Dict TlsKey Cell → Dict TlsKey Cell
in_order configurations = taken configurations tls_configurations

unfoldable pub finish_cell : List String → TlsCell → TlsCell
unfolding string_eq pair_eq stack_eq flat_map
finish_cell scenario_order cell = record cell {
  pairs =
      flat_map
        (λ scenario.
          select (contains (pairs_in cell)) (map (λ stack. (scenario, stack)) stack_order))
        scenario_order;
  configurations = in_order cell.configurations;
}

-- The dict that is returned.
pub record TlsComparison : Type 0 where
  pub id : String
  pub run_ids : List String
  pub source_start : String
  pub source_stop : String
  pub cells : List TlsCell

module _ (F : Floats) where
  open F use {is_non_positive}

  unfoldable pub read_counter : Row → Dict String ℕ → String × String → Result (Dict String ℕ)
  unfolding string_eq
  read_counter row counters (name, source) = do
    raise_if (field source row == "") (missing_counter source)
    count ← exact_count F (field source row) source
    ok (insert name count counters)

  -- `execution["byte_counters"]`
  unfoldable pub read_counters : Dict RecordKey Row → SummaryExecution → Result (Dict String ℕ)
  unfolding string_eq pair_eq int_eq nat_eq
  read_counters records execution = do
    row ←
        or_raise (lookup (execution.run_id, execution.execution_index) records)
          (key_error execution.run_id)
    counters ← for_loop (read_counter row) [] counter_fields
    requests ← or_raise (lookup "requests" counters) (key_error "requests")
    raise_if (requests == 0) (zero_requests execution.run_id)
    ok counters

  unfoldable pub with_counters :
      Dict RecordKey Row → ProfileKey → SummaryExecution → Result SummaryExecution
  with_counters records key execution =
      if is_flat key
      then (do
        counters ← read_counters records execution
        ok (record execution { byte_counters = some counters }))
      else ok execution

  -- The checks of an execution, up to `elapsed <= 0`.
  unfoldable pub check_execution :
      ProfileKey → TlsKey → Identities → SummaryExecution → Result Identities
  unfolding string_eq pair_eq family_eq profile_eq stack_eq
  check_execution key configuration identities execution = do
    runs ←
        agree execution.run_id (execution.scenario_tag, (execution.stack_tag, configuration))
          (inconsistent_metadata execution.run_id) identities.run_identities
    stacks ←
        agree (key, (execution.scenario, execution.stack)) execution.stack_tag
          (incompatible_stack_tags execution.scenario) identities.pair_stacks
    elapsed ← finite_number F execution.elapsed_ms execution.run_id
    raise_if (is_non_positive elapsed) (non_positive_elapsed execution.run_id)
    ok (record { run_identities = runs; pair_stacks = stacks })

  -- The loop over the executions of a source cell. It changes the executions, which the cell of the
  -- comparison shares with the source cell, so they are collected for it.
  unfoldable pub add_execution :
      Dict RecordKey Row
      → ProfileKey
      → TlsKey
      → Identities × Dict ExecutionKey SummaryExecution
      → ExecutionKey × SummaryExecution
      → Result (Identities × Dict ExecutionKey SummaryExecution)
  add_execution records key configuration (identities, done) (place, execution) = do
    known ← check_execution key configuration identities execution
    counted ← with_counters records key execution
    ok (known, done ++ ((place, counted) ∷ []))

  -- The body of the loop over the source cells.
  unfoldable pub add_source : Dict RecordKey Row → Profiles → Cell → Result Profiles
  unfolding string_eq pair_eq list_eq family_eq profile_eq
  add_source records s source = do
    let key = cell_name source
    let cell = get_or key (new_tls_cell source) s.profiles
    raise_if (not (cell.compatibility == source.compatibility))
        (incompatible_settings (profile_label source.profile))
    raise_if (has_key (tls_key source) cell.configurations)
        (duplicate_configuration (profile_label source.profile))
    for_loop (λ _ pair. check_pair (keys source.executions) pair) tt
        (map pair_of (keys source.executions))
    (identities, executions) ←
        for_loop (add_execution records key (tls_key source)) (s.identities, []) source.executions
    ok (record {
      profiles =
          insert key
            (record cell {
              configurations =
                  insert (tls_key source) (record source { executions = executions })
                    cell.configurations;
            })
            s.profiles;
      identities = identities;
    })

  unfoldable pub build_tls_comparison :
      List String → List Row → String → String → Result TlsComparison
  build_tls_comparison run_ids rows source_start source_stop = do
    read ← build_summary_cells run_ids rows
    records ← for_loop add_record [] rows
    built ←
        for_loop (add_source records)
          (record { profiles = []; identities = record { run_identities = []; pair_stacks = [] } })
          (values read.cells)
    ok (record {
      id = "tls-comparison";
      run_ids = sort_by leb_text run_ids;
      source_start = source_start;
      source_stop = source_stop;
      cells = map (finish_cell read.scenario_order) (sort_by tls_leq (values built.profiles));
    })
