-- ===== src/Tests/TlsCells.antt =====
-- The cells of the summaries and the TLS comparison at concrete inputs.
use native.Mathlib.Decide.{ℕ_discrete}
use mathlib.Core.List.{flat_map}
use where_to_tls.Base.{
  List, AllPairs, ◌≡◌, refl, [], ◌∷◌, ok, AllItems, for_loop, for_each, string_eq, pair_eq,
  option_eq, list_eq, int_eq, nat_eq,
}
use where_to_tls.Base.Text.{
  skip, skip_digits, parse_int, strip, lstrip, rstrip, removesuffix, ends_with, without_char, lower,
}
use where_to_tls.Base.Sorting.{sort_by}
use where_to_tls.Config.{stack_eq, family_eq, profile_eq}
use where_to_tls.Common.RunIds.{run_family, search_family, family_here, take_family}
use where_to_tls.Common.Slots.{expected_executions, profile_slot, slot_mapping}
use where_to_tls.Runs.Rows.{group_by_run, execution_of}
use where_to_tls.Runs.Build.{matching_stacks, sole_stack}
use where_to_tls.Runs.Summary.{
  Cells, stack_identity, scenario_base, check_summary_row, cell_key, new_cell, row_place, add_row,
  add_summary_run, build_summary_cells,
}
use where_to_tls.Runs.Summary.Groups.{
  Group, check_stacks, check_repeats, check_scenario, check_product, check_scenarios, check_cell,
  append_all, put_cell, add_cell, check_same_scenarios, finish_group,
}
use where_to_tls.Base.{AllItems}
use where_to_tls.Common.Numbers.{finite_number}
use where_to_tls.Base.Growth.{agree}
use where_to_tls.Runs.Summary.Placed.{IsBuilt}
use where_to_tls.Runs.Summary.Kept.{HasRun, build_summary_cells-IsBuilt}
use where_to_tls.Runs.TlsComparison.{
  TlsComparison, add_record, check_pair, check_execution, with_counters, add_execution, add_source,
  finish_cell, build_tls_comparison,
}
use where_to_tls.Runs.TlsComparison.Complete.{IsComplete, build_tls_comparison-IsComplete}
use where_to_tls.Exporter.Cells.Drawable.{IsDrawable, build_scenario_summary_groups-IsDrawable}
use where_to_tls.Exporter.TlsCells.{PairCoverage, validate_tls_comparison}
use where_to_tls.Exporter.TlsCells.Coverage.{IsCovered, build_tls_comparison-IsCovered}
use where_to_tls.Tests.Summaries.{direct, proxied, rows, groups}
use where_to_tls.Tests.Answers.{whole}

read : (result : Cells) × (build_summary_cells (direct ∷ proxied ∷ []) rows ≡ ok result)
unfolding build_summary_cells stack_identity scenario_base check_summary_row cell_key new_cell
    row_place add_row add_summary_run check_stacks check_repeats check_scenario check_product
    check_scenarios check_cell append_all put_cell add_cell check_same_scenarios finish_group
    sort_by without_char lower group_by_run for_loop for_each matching_stacks sole_stack run_family
    search_family family_here skip skip_digits take_family expected_executions execution_of
    profile_slot slot_mapping parse_int strip lstrip rstrip removesuffix ends_with string_eq pair_eq
    option_eq list_eq int_eq nat_eq family_eq stack_eq profile_eq ℕ_discrete
read = (_, refl)

build_summary_cells-IsBuilt_example :
    IsBuilt read.0 × AllItems (HasRun rows read.0) (direct ∷ proxied ∷ [])
build_summary_cells-IsBuilt_example =
    build_summary_cells-IsBuilt (direct ∷ proxied ∷ []) rows read.0 read.1

build_scenario_summary_groups-IsDrawable_example :
    AllItems (λ (group : Group). AllItems IsDrawable group.cells) groups.0
build_scenario_summary_groups-IsDrawable_example =
    build_scenario_summary_groups-IsDrawable (direct ∷ proxied ∷ []) rows "a" "b" groups.0 groups.1

compared :
    (result : TlsComparison) × (build_tls_comparison whole (direct ∷ proxied ∷ []) rows "a" "b"
      ≡ ok result)
unfolding build_tls_comparison add_record check_pair check_execution with_counters add_execution
    add_source finish_cell agree finite_number flat_map build_summary_cells stack_identity
    scenario_base check_summary_row cell_key new_cell row_place add_row add_summary_run check_stacks
    check_repeats check_scenario check_product check_scenarios check_cell append_all put_cell
    add_cell check_same_scenarios finish_group sort_by without_char lower group_by_run for_loop
    for_each matching_stacks sole_stack run_family search_family family_here skip skip_digits
    take_family expected_executions execution_of profile_slot slot_mapping parse_int strip lstrip
    rstrip removesuffix ends_with string_eq pair_eq option_eq list_eq int_eq nat_eq family_eq
    stack_eq profile_eq ℕ_discrete
compared = (_, refl)

build_tls_comparison-IsComplete_example :
    (read : Cells) × (build_summary_cells (direct ∷ proxied ∷ []) rows ≡ ok read)
    × IsComplete whole rows read compared.0
build_tls_comparison-IsComplete_example =
    build_tls_comparison-IsComplete whole (direct ∷ proxied ∷ []) rows "a" "b" compared.0 compared.1

build_tls_comparison-IsCovered_example :
    (printed : List (List PairCoverage)) × (validate_tls_comparison compared.0 ≡ ok printed)
    × AllPairs (λ cell lines. AllPairs (IsCovered cell) cell.pairs lines) compared.0.cells printed
build_tls_comparison-IsCovered_example =
    build_tls_comparison-IsCovered whole (direct ∷ proxied ∷ []) rows "a" "b" compared.0 compared.1
