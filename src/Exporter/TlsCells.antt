-- ===== src/Exporter/TlsCells.antt =====
-- exporter.py: the executions, file names and run IDs of a cell of the TLS comparison, and
-- `validate_tls_comparison`.
pub mod Coverage
pub mod Pooled
use where_to_tls.Base.{
  String, ◌<>◌, Bool, true, false, not, ◌&&◌, ◌||◌, ◌==◌, Option, none, some, List, [], ◌∷◌, ◌++◌,
  Dict, values, lookup, has_key, is_empty, all, select, dedupe, map, Result, ok, raise_if, ◌>>=◌,
  ◌>>◌, for_loop, for_each, bad_scenario_name, string_eq, nat_eq, pair_eq, if◌then◌else◌,
}
use mathlib.Core.List.{flat_map}
use where_to_tls.Base.Sorting.{sort_by, leb_text}
use where_to_tls.Base.Text.{split, all_chars, is_lower_alnum}
use where_to_tls.Config.{Stack, tls_configurations, family_name, stack_eq}
use where_to_tls.Runs.Summary.{Cell, SummaryExecution}
use where_to_tls.Runs.Summary.Groups.{TlsKey}
use where_to_tls.Runs.TlsComparison.{Pair, TlsCell, TlsComparison}
use where_to_tls.Exporter.Cells.{cell_executions}

-- The executions of a source cell, where it is there and has the pair.
unfoldable pub source_executions : Option Cell → String → Stack → Result (List SummaryExecution)
unfolding string_eq stack_eq nat_eq pair_eq
source_executions none scenario stack = ok []
source_executions (some source_cell) scenario stack =
    if has_key (scenario, (stack, 0)) source_cell.executions
    then cell_executions source_cell scenario stack
    else ok []

unfoldable pub tls_configuration_executions :
    TlsCell → String → Stack → TlsKey → Result (List SummaryExecution)
unfolding string_eq pair_eq
tls_configuration_executions cell scenario stack configuration =
    source_executions (lookup configuration cell.configurations) scenario stack

-- `[a-z0-9]+(?:-[a-z0-9]+)*`: parts of such characters, none of them empty, with a `-` between them
abbrev pub is_scenario_name : String → Bool
is_scenario_name scenario =
    all (λ part. not (part == "") && all_chars is_lower_alnum part) (split b'-' scenario)

unfoldable pub tls_scenario_slug : String → Result String
unfolding string_eq nat_eq
tls_scenario_slug scenario = do
  raise_if (not (is_scenario_name scenario)) (bad_scenario_name scenario)
  ok scenario

unfoldable pub tls_percentile_filename : TlsCell → String → String → Result String
tls_percentile_filename cell metric scenario = do
  slug ← tls_scenario_slug scenario
  ok (
      "tls-percentiles-"
      <> metric
      <> "-"
      <> family_name cell.family
      <> "-"
      <> cell.slug
      <> "-"
      <> slug
      <> ".svg")

unfoldable pub tls_byte_filename : TlsCell → String → String → Result String
tls_byte_filename cell metric scenario = do
  slug ← tls_scenario_slug scenario
  ok (
      "tls-bytes-"
      <> metric
      <> "-"
      <> family_name cell.family
      <> "-"
      <> cell.slug
      <> "-"
      <> slug
      <> ".svg")

unfoldable pub tls_scenario_run_ids : TlsCell → String → List String
unfolding string_eq flat_map
tls_scenario_run_ids cell scenario = sort_by leb_text (
    dedupe (
      flat_map
        (λ (source_cell : Cell).
          map (λ (execution : SummaryExecution). execution.run_id)
            (select (λ (execution : SummaryExecution). execution.scenario == scenario)
              (values source_cell.executions)))
        (values cell.configurations)))

-- What is printed of a pair: the configurations that are there, and those that are missing.
pub record PairCoverage : Type 0 where
  pub scenario : String
  pub stack : Stack
  pub present : List TlsKey
  pub missing : List TlsKey

-- The body of the loop over the configurations.
unfoldable pub add_configuration :
    TlsCell → Pair → List TlsKey × List TlsKey → TlsKey → Result (List TlsKey × List TlsKey)
add_configuration cell (scenario, stack) (present, missing) configuration = do
  executions ← tls_configuration_executions cell scenario stack configuration
  ok (
      if is_empty executions
      then (present, missing ++ (configuration ∷ []))
      else (present ++ (configuration ∷ []), missing))

unfoldable pub pair_coverage : TlsCell → Pair → Result PairCoverage
pair_coverage cell (scenario, stack) = do
  (present, missing) ←
      for_loop (add_configuration cell (scenario, stack)) ([], []) tls_configurations
  ok (record { scenario = scenario; stack = stack; present = present; missing = missing })

-- The lines that are printed, by cells.
unfoldable pub validate_tls_comparison : TlsComparison → Result (List (List PairCoverage))
validate_tls_comparison comparison =
    for_each (λ (cell : TlsCell). for_each (pair_coverage cell) cell.pairs) comparison.cells
