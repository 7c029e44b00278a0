-- ===== src/Tests/Pooled.antt =====
-- The executions of a cell of the flat baseline at concrete inputs.
use native.Mathlib.Decide.{ℕ_discrete}
use mathlib.Core.List.{flat_map}
use where_to_tls.Base.{
  ℤ, true, String, ◌<◌, List, ◌≡◌, refl, [], ◌∷◌, ok, AllItems, for_loop, for_each, string_eq,
  pair_eq, option_eq, list_eq, int_eq, nat_eq,
}
use where_to_tls.Base.Text.{
  skip, skip_digits, parse_int, strip, lstrip, rstrip, removesuffix, ends_with, without_char, lower,
}
use where_to_tls.Base.Sorting.{sort_by}
use where_to_tls.Config.{Stack, stack_eq, family_eq, profile_eq}
use where_to_tls.Common.RunIds.{run_family, search_family, family_here, take_family}
use where_to_tls.Common.Slots.{expected_executions, profile_slot, slot_mapping}
use where_to_tls.Runs.Rows.{group_by_run, execution_of}
use where_to_tls.Runs.Build.{matching_stacks, sole_stack}
use where_to_tls.Runs.Summary.{
  stack_identity, scenario_base, check_summary_row, cell_key, new_cell, row_place, add_row,
  add_summary_run, build_summary_cells,
}
use where_to_tls.Runs.Summary.Groups.{
  check_stacks, check_repeats, check_scenario, check_product, check_scenarios, check_cell,
  append_all, put_cell, add_cell, check_same_scenarios, finish_group,
}
use where_to_tls.Base.{AllItems}
use where_to_tls.Common.Numbers.{finite_number}
use where_to_tls.Base.Growth.{agree}
use where_to_tls.Runs.TlsComparison.{
  TlsComparison, add_record, check_pair, check_execution, with_counters, add_execution, add_source,
  finish_cell, build_tls_comparison,
}
use where_to_tls.Runs.Rows.{Row}
use where_to_tls.Base.Occurs.{Occurs, here, there}
use where_to_tls.Runs.Summary.{SummaryExecution}
use where_to_tls.Runs.TlsComparison.{TlsCell, is_flat, read_counter, read_counters}
use where_to_tls.Runs.TlsComparison.Finished.{tls_name}
use where_to_tls.Common.Numbers.{exact_count}
use where_to_tls.Exporter.TlsCells.{source_executions, tls_configuration_executions}
use where_to_tls.Exporter.Cells.{cell_executions}
use where_to_tls.Exporter.TlsCells.Pooled.{build_tls_comparison-pooled_byte_values}
use where_to_tls.Datasets.Pooled.{PooledBytes, execution_elapsed_seconds, pooled_byte_values}
use where_to_tls.Tests.Answers.{whole}

abbrev run : String
run = "20260101T000000Z-blog_tls_baseline-vm-go"

abbrev row : String → String → Row
row profile index =
    ("wtt_run_id", run)
    ∷ ("wtt_scenario", "vm-go")
    ∷ ("wtt_stack", "go1.25")
    ∷ ("tls_version", "1.3")
    ∷ ("key_exchange_group", "X25519")
    ∷ ("key_exchange_group_source", "openssl-preflight")
    ∷ ("wtt_profile", profile)
    ∷ ("wtt_execution_index", index)
    ∷ ("elapsed_ms", "1000")
    ∷ ("configured_iterations", "50")
    ∷ ("data_sent_bytes", "700")
    ∷ ("data_received_bytes", "900")
    ∷ ("http_version", "1.1")
    ∷ ("endpoint", "/")
    ∷ ("payload_bytes", "1024")
    ∷ ("connection_reuse", "false")
    ∷ ("tls_resumption_configured", "false")
    ∷ []

abbrev baseline_rows : List Row
baseline_rows =
    row "linear" "1"
    ∷ row "flat" "2"
    ∷ row "sine" "3"
    ∷ row "linear" "4"
    ∷ row "flat" "5"
    ∷ row "sine" "6"
    ∷ row "linear" "7"
    ∷ row "flat" "8"
    ∷ row "sine" "9"
    ∷ []

compared :
    (result : TlsComparison) × (build_tls_comparison whole (run ∷ []) baseline_rows "a" "b"
      ≡ ok result)
unfolding build_tls_comparison add_record check_pair check_execution with_counters add_execution
    add_source finish_cell agree finite_number flat_map build_summary_cells stack_identity
    scenario_base check_summary_row cell_key new_cell row_place add_row add_summary_run check_stacks
    check_repeats check_scenario check_product check_scenarios check_cell append_all put_cell
    add_cell check_same_scenarios finish_group sort_by without_char lower group_by_run for_loop
    for_each matching_stacks sole_stack run_family search_family family_here skip skip_digits
    take_family expected_executions execution_of profile_slot slot_mapping parse_int strip lstrip
    rstrip removesuffix ends_with string_eq pair_eq option_eq list_eq int_eq nat_eq family_eq
    stack_eq profile_eq ℕ_discrete read_counter read_counters exact_count
compared = (_, refl)

-- The cell of the flat baseline stands between those of the other profiles.
cell :
    (flat : TlsCell) × Occurs flat compared.0.cells
    × (is_flat (tls_name flat) ≡ true)
    × (first : SummaryExecution) × (others : List SummaryExecution) × (tls_configuration_executions
          flat "vm" Stack.go
          ("1.3", "X25519")
        ≡ ok (first ∷ others))
unfolding compared tls_configuration_executions source_executions cell_executions
    build_tls_comparison add_record check_pair check_execution with_counters add_execution
    add_source finish_cell agree finite_number flat_map build_summary_cells stack_identity
    scenario_base check_summary_row cell_key new_cell row_place add_row add_summary_run check_stacks
    check_repeats check_scenario check_product check_scenarios check_cell append_all put_cell
    add_cell check_same_scenarios finish_group sort_by without_char lower group_by_run for_loop
    for_each matching_stacks sole_stack run_family search_family family_here skip skip_digits
    take_family expected_executions execution_of profile_slot slot_mapping parse_int strip lstrip
    rstrip removesuffix ends_with string_eq pair_eq option_eq list_eq int_eq nat_eq family_eq
    stack_eq profile_eq ℕ_discrete read_counter read_counters exact_count
cell = (_, there _ _ (here _ _ refl), refl, _, _, refl)

build_tls_comparison-pooled_byte_values_example :
    AllItems
      (λ x. (seconds : ℤ) × (execution_elapsed_seconds whole x "c" ≡ ok seconds))
      (cell.3 ∷ cell.4)
    × (values : PooledBytes whole) × (pooled_byte_values whole (cell.3 ∷ cell.4) "c" ≡ ok values)
    × (0 < values.request_count)
build_tls_comparison-pooled_byte_values_example =
    build_tls_comparison-pooled_byte_values whole (run ∷ []) baseline_rows "a" "b" compared.0
      compared.1 cell.0 cell.1 cell.2 "vm" Stack.go ("1.3", "X25519") cell.3 cell.4 cell.5 "c"
