-- ===== src/Tests/Exports.antt =====
-- The driver at concrete inputs.
use native.Mathlib.Decide.{ℕ_discrete}
use mathlib.Core.List.{flat_map}
use where_to_tls.Base.{
  String, ◌<>◌, ◌≡◌, refl, true, List, [], ◌∷◌, Dict, map, ok, AllItems, for_loop, for_each,
  string_eq, pair_eq, option_eq, list_eq, int_eq, nat_eq, ◌+ℤ◌, ◌-ℤ◌,
}
use where_to_tls.Base.Text.{
  skip, skip_digits, all_chars, parse_int, strip, lstrip, rstrip, removesuffix, ends_with,
  rsplit_last,
}
use where_to_tls.Base.Padding.{ljust, text_length, take_chars, repeat_char}
use where_to_tls.Config.{Family, stack_eq, family_eq, profile_eq}
use where_to_tls.Common.RunIds.{
  artifact_run_id, match_run_id, accept_slug, is_slug, run_family, search_family, family_here,
  take_family,
}
use where_to_tls.Common.Slots.{expected_executions, profile_slot, slot_mapping}
use where_to_tls.Common.Timestamps.{
  timestamp_ns, timestamp_groups, skip_datetime, match_fraction, fraction_of, fraction_at,
  span_digits, datetime_seconds, read_digits, accept_datetime, total_ns, scale,
}
use where_to_tls.Common.Timestamps.Days.{is_date, epoch_seconds, is_leap, ordinal}
use where_to_tls.Runs.Rows.{Row, group_by_run, execution_of}
use where_to_tls.Runs.Build.{matching_stacks, sole_stack}
use where_to_tls.Runs.Origins.{
  Origin, expected_runs, origin_execution, add_expected, add_origin, check_origin, parse_origins,
}
use where_to_tls.Exporter.{
  chart_specs, add_timeline, add_bars, add_failure_bars, known_choices, select_from, select_charts,
}
use where_to_tls.Exporter.Selection.{select_charts-IsSelection}
use where_to_tls.Base.{true, contains, AllItems}
use where_to_tls.Common.Numbers.{finite_number, exact_count}
use where_to_tls.Config.Charts.{time_series, bar_charts, failure_charts}
use where_to_tls.Importer.Json.{
  text, array, object, no_item, item_and, no_field, field_and, get, get_or_json, is_text,
}
use where_to_tls.Importer.RawFile.{dict_of, dict_onto}
use where_to_tls.Runs.Comparison.{family_runs, ordered_stacks}
use where_to_tls.Datasets.Collect.{collect, require_keys}
use where_to_tls.Datasets.Percentiles.{inverted, has_run, row_slot, row_stack}
use where_to_tls.Datasets.FailureRates.{rate_key, rate_value, expected_rates, parse_failure_rates}
use where_to_tls.Exporter.{chart_names}
use where_to_tls.Exporter.Reuse.{reusable_svg, recorded_of, text_of}
use where_to_tls.Exporter.Export.{
  Files, Surroundings, Exported, validate_sources, is_reusable, rows_of_stacks, draw_failure_bars,
  cached_failure_rates, export_chart, export_charts, export,
}
use where_to_tls.Exporter.Export.Generated.{selected_targets}
use where_to_tls.Exporter.Export.Complete.{export-generated}
use where_to_tls.Exporter.Export.Shown.{IsShown, export-IsShown}
use where_to_tls.Tests.Summaries.{direct, rows_of_run, comparison}
use where_to_tls.Tests.Answers.{whole}

abbrev answers : List Row
answers = map (λ r. ("http_reqs", "50") ∷ ("http_req_failed", "5") ∷ r) (rows_of_run direct "vm-go")

abbrev surroundings : Surroundings whole
surroundings = record {
  ask = λ query. ok answers;
  provenance = λ content.
      ok (object (field_and "run_ids" (array (item_and (text direct) no_item)) no_field));
  render = λ drawing. ok "<svg/>";
}

chosen :
    (names : List String) × (select_charts ("failure-rate" ∷ []) ("bars" ∷ []) (Family.linear ∷ [])
      ≡ ok names)
unfolding select_charts select_from known_choices chart_specs for_loop add_timeline add_bars
    add_failure_bars removesuffix string_eq family_eq
chosen = (_, refl)

known : (name : String) → contains chosen.0 name ≡ true → contains chart_names name ≡ true
known =
    (select_charts-IsSelection ("failure-rate" ∷ []) ("bars" ∷ []) (Family.linear ∷ []) chosen.0
      chosen.1).2.known

-- One of the charts is there.
abbrev files : Files
files = (("out/vm-tls13-x25519", "linear-failure-rate-fixed-100-vus.svg"), "<svg>old</svg>") ∷ []

valid :
    (origins : Dict String Origin) × (validate_sources whole surroundings comparison ≡ ok origins)
unfolding validate_sources parse_origins expected_runs origin_execution add_expected add_origin
    check_origin flat_map artifact_run_id match_run_id accept_slug is_slug all_chars rsplit_last
    timestamp_ns timestamp_groups skip_datetime match_fraction fraction_of fraction_at span_digits
    datetime_seconds read_digits accept_datetime total_ns scale is_date epoch_seconds is_leap
    ordinal ljust text_length take_chars repeat_char ◌+ℤ◌ ◌-ℤ◌ group_by_run for_loop for_each
    matching_stacks sole_stack run_family search_family family_here skip skip_digits take_family
    expected_executions execution_of profile_slot slot_mapping parse_int strip lstrip rstrip
    removesuffix ends_with string_eq pair_eq option_eq list_eq int_eq nat_eq family_eq stack_eq
    profile_eq ℕ_discrete
valid = (_, refl)

looped :
    (s : Exported whole) × (export_charts whole surroundings comparison valid.0
        "out/vm-tls13-x25519" chosen.0 true "linear"
        (record {
          files = files;
          generated = [];
          caches = record { percentiles = []; failures = [] };
        })
      ≡ ok s)
unfolding export_charts export_chart is_reusable reusable_svg recorded_of text_of dict_of dict_onto
    get get_or_json is_text draw_failure_bars cached_failure_rates rows_of_stacks
    parse_failure_rates rate_key rate_value expected_rates exact_count finite_number collect
    require_keys has_run inverted row_slot row_stack flat_map family_runs ordered_stacks for_loop
    for_each profile_slot slot_mapping parse_int strip lstrip rstrip time_series bar_charts
    failure_charts select_charts string_eq pair_eq option_eq nat_eq int_eq family_eq stack_eq
    profile_eq ℕ_discrete chosen artifact_run_id match_run_id skip_digits rsplit_last skip
    take_family accept_slug is_slug all_chars valid
looped = (_, refl)

exported : export whole surroundings comparison "out" chosen.0 true "linear" files ≡ ok looped.0
exported =
    (export-generated whole surroundings comparison "out" chosen.0 true "linear" files valid.0
      looped.0 known valid.1 looped.1).0

export-generated_example :
    (export whole surroundings comparison "out" chosen.0 true "linear" files ≡ ok looped.0)
    × (looped.0.generated ≡ selected_targets ("out" <> "/" <> comparison.id) chosen.0 chart_names)
export-generated_example =
    export-generated whole surroundings comparison "out" chosen.0 true "linear" files valid.0
      looped.0 known valid.1 looped.1

export-IsShown_example :
    AllItems (IsShown whole surroundings comparison files looped.0.files) looped.0.generated
export-IsShown_example =
    export-IsShown whole surroundings comparison "out" chosen.0 true "linear" files looped.0
      exported
