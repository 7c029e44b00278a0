-- ===== src/Tests/Summaries.antt =====
-- Summary groups, origins and the selection of charts at concrete inputs.
use native.Mathlib.Decide.{ℕ_discrete}
use mathlib.Core.List.{flat_map}
use where_to_tls.Base.{
  String, ◌<>◌, ◌≡◌, refl, true, List, [], ◌∷◌, ◌++◌, Dict, map, ok, has_key, AllItems, AllValues,
  for_loop, for_each, string_eq, pair_eq, option_eq, list_eq, int_eq, nat_eq, ◌+ℤ◌, ◌-ℤ◌,
}
use where_to_tls.Base.Text.{
  skip, skip_digits, all_chars, parse_int, strip, lstrip, rstrip, removesuffix, ends_with,
  rsplit_last, without_char, lower,
}
use where_to_tls.Base.Padding.{ljust, text_length, take_chars, repeat_char}
use where_to_tls.Base.Sorting.{sort_by}
use where_to_tls.Config.{Stack, Family, stack_eq, family_eq, profile_eq}
use where_to_tls.Common.RunIds.{
  artifact_run_id, match_run_id, accept_slug, is_slug, run_family, search_family, family_here,
  take_family,
}
use where_to_tls.Common.Slots.{expected_executions, profile_slot, slot_mapping}
use where_to_tls.Common.Timestamps.{
  timestamp_ns, timestamp_groups, skip_datetime, match_fraction, fraction_of, fraction_at,
  span_digits, datetime_seconds, read_digits, accept_datetime, total_ns, scale,
}
use where_to_tls.Common.Timestamps.Days.{is_date, epoch_seconds, is_leap, ordinal}
use where_to_tls.Runs.Rows.{Row, group_by_run, execution_of}
use where_to_tls.Runs.Comparison.{Comparison}
use where_to_tls.Runs.Build.{matching_stacks, sole_stack}
use where_to_tls.Runs.Origins.{
  Origin, expected_runs, origin_execution, add_expected, add_origin, check_origin, parse_origins,
}
use where_to_tls.Runs.Origins.Earliest.{
  AllRows, IsOriginOf, HasExecutions, parse_origins-IsOriginOf,
}
use where_to_tls.Runs.Metadata.{zipped, add_field, parse_scenario_metadata_rows}
use where_to_tls.Runs.Metadata.Records.{IsRecorded, parse_scenario_metadata_rows-IsRecorded}
use where_to_tls.Runs.Summary.{
  Cells, stack_identity, scenario_base, check_summary_row, cell_key, new_cell, row_place, add_row,
  add_summary_run, build_summary_cells,
}
use where_to_tls.Runs.Summary.Groups.{
  Group, check_stacks, check_repeats, check_scenario, check_product, check_scenarios, check_cell,
  append_all, put_cell, add_cell, check_same_scenarios, finish_group, build_scenario_summary_groups,
}
use where_to_tls.Runs.Summary.Comparable.{IsComparable, build_scenario_summary_groups-IsComparable}
use where_to_tls.Exporter.{
  Specs, chart_specs, add_timeline, add_bars, add_failure_bars, known_choices, select_from,
  select_charts,
}
use where_to_tls.Exporter.Selection.{IsSelection, select_charts-IsSelection}

abbrev pub row : String → String → String → Row
row run_id scenario index =
    ("wtt_run_id", run_id)
    ∷ ("wtt_scenario", scenario)
    ∷ ("wtt_stack", "go1.25")
    ∷ ("tls_version", "1.3")
    ∷ ("key_exchange_group", "X25519")
    ∷ ("key_exchange_group_source", "openssl-preflight")
    ∷ ("wtt_profile", "linear")
    ∷ ("wtt_execution_index", index)
    ∷ ("_time", "2026-01-01T10:00:0" <> index <> "Z")
    ∷ ("elapsed_ms", "1000")
    ∷ ("http_version", "1.1")
    ∷ ("endpoint", "/")
    ∷ ("payload_bytes", "1024")
    ∷ ("connection_reuse", "false")
    ∷ ("tls_resumption_configured", "false")
    ∷ []

abbrev pub direct : String
direct = "20260101T000000Z-blog_tls_linear_peak-vm-go"

abbrev pub proxied : String
proxied = "20260102T000000Z-blog_tls_linear_peak-pod-go"

abbrev pub rows_of_run : String → String → List Row
rows_of_run run_id scenario = map (row run_id scenario) ("1" ∷ "2" ∷ "3" ∷ "4" ∷ "5" ∷ "6" ∷ [])

abbrev pub rows : List Row
rows = rows_of_run direct "vm-go" ++ rows_of_run proxied "pod-go"

pub groups :
    (result : List Group) × (build_scenario_summary_groups (direct ∷ proxied ∷ []) rows "a" "b"
      ≡ ok result)
unfolding build_scenario_summary_groups build_summary_cells stack_identity scenario_base
    check_summary_row cell_key new_cell row_place add_row add_summary_run check_stacks check_repeats
    check_scenario check_product check_scenarios check_cell append_all put_cell add_cell
    check_same_scenarios finish_group sort_by without_char lower group_by_run for_loop for_each
    matching_stacks sole_stack run_family search_family family_here skip skip_digits take_family
    expected_executions execution_of profile_slot slot_mapping parse_int strip lstrip rstrip
    removesuffix ends_with string_eq pair_eq option_eq list_eq int_eq nat_eq family_eq stack_eq
    profile_eq ℕ_discrete
groups = (_, refl)

build_scenario_summary_groups-IsComparable_example :
    (read : Cells) × (build_summary_cells (direct ∷ proxied ∷ []) rows ≡ ok read)
    × AllItems (IsComparable read) groups.0
build_scenario_summary_groups-IsComparable_example =
    build_scenario_summary_groups-IsComparable (direct ∷ proxied ∷ []) rows "a" "b" groups.0
      groups.1

abbrev pub comparison : Comparison
comparison = record {
  id = "vm-tls13-x25519";
  scenario = "vm";
  tls_version = "1.3";
  tls_group = "X25519";
  source_start = "a";
  source_stop = "b";
  stacks = (Stack.go, (Family.linear, direct) ∷ []) ∷ [];
  identities = (direct, record { scenario = "vm-go"; stack = "go1.25" }) ∷ [];
}

origins : (result : Dict String Origin) × (parse_origins comparison rows ≡ ok result)
unfolding parse_origins expected_runs origin_execution add_expected add_origin check_origin flat_map
    artifact_run_id match_run_id accept_slug is_slug all_chars rsplit_last timestamp_ns
    timestamp_groups skip_datetime match_fraction fraction_of fraction_at span_digits
    datetime_seconds read_digits accept_datetime total_ns scale is_date epoch_seconds is_leap
    ordinal ljust text_length take_chars repeat_char ◌+ℤ◌ ◌-ℤ◌ group_by_run for_loop for_each
    matching_stacks sole_stack run_family search_family family_here skip skip_digits take_family
    expected_executions execution_of profile_slot slot_mapping parse_int strip lstrip rstrip
    removesuffix ends_with string_eq pair_eq option_eq list_eq int_eq nat_eq family_eq stack_eq
    profile_eq ℕ_discrete
origins = (_, refl)

parse_origins-IsOriginOf_example :
    ((expected : List String) × (expected_runs comparison ≡ ok expected)
      × AllItems (λ run_id. has_key run_id origins.0 ≡ true) expected
      × AllRows expected rows origins.0)
    × AllValues (IsOriginOf comparison rows) origins.0
    × AllItems (λ (run_id, entry). HasExecutions run_id entry) origins.0
parse_origins-IsOriginOf_example = parse_origins-IsOriginOf comparison rows origins.0 origins.1

charts :
    (names : List String) × (select_charts ("tls" ∷ []) ("timeline" ∷ []) (Family.baseline ∷ [])
      ≡ ok names)
unfolding select_charts select_from known_choices chart_specs for_loop add_timeline add_bars
    add_failure_bars removesuffix string_eq family_eq
charts = (_, refl)

select_charts-IsSelection_example :
    (specs : Specs) × (chart_specs ≡ ok specs)
    × IsSelection specs ("tls" ∷ []) ("timeline" ∷ []) (Family.baseline ∷ []) charts.0
select_charts-IsSelection_example =
    select_charts-IsSelection ("tls" ∷ []) ("timeline" ∷ []) (Family.baseline ∷ []) charts.0
      charts.1

abbrev field_rows : List Row
field_rows =
    (("cell", "c") ∷ ("_field", "elapsed") ∷ ("_value", "7") ∷ row direct "vm-go" "1")
    ∷ (("cell", "c") ∷ ("_field", "vus") ∷ ("_value", "100") ∷ row direct "vm-go" "1")
    ∷ []

recorded : (records : List Row) × (parse_scenario_metadata_rows field_rows ≡ ok records)
unfolding parse_scenario_metadata_rows for_loop add_field zipped string_eq list_eq
recorded = (_, refl)

parse_scenario_metadata_rows-IsRecorded_example : AllItems (IsRecorded recorded.0) field_rows
parse_scenario_metadata_rows-IsRecorded_example =
    parse_scenario_metadata_rows-IsRecorded field_rows recorded.0 recorded.1
