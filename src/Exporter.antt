-- ===== src/Exporter.antt =====
-- analyze/exporting/tls_result_svg/exporter.py: `chart_names`, `chart_specs` and `select_charts`.
pub mod Selection
pub mod Cells
pub mod Reuse
pub mod Export
pub mod TlsCells
use where_to_tls.Base.{
  String, Bool, not, ◌&&◌, ◌||◌, List, [], ◌∷◌, ◌++◌, Dict, keys, values, lookup, insert, contains,
  difference, is_empty, select, any, map, Result, ok, or_raise, raise_if, ◌>>=◌, ◌>>◌, for_loop,
  key_error, unknown_charts, unmatched_charts, no_charts, string_eq, ◌==◌,
}
use where_to_tls.Base.Text.{removesuffix}
use where_to_tls.Config.{Family, family_eq}
use where_to_tls.Config.Charts.{
  TimeSeries, time_series, BarChart, bar_charts, FailureChart, failure_charts,
}

unfoldable pub chart_names : List String
unfolding time_series bar_charts failure_charts
chart_names =
    map (λ (chart : TimeSeries). chart.filename) time_series
    ++ map (λ (chart : BarChart). chart.filename) bar_charts
    ++ map (λ (chart : FailureChart). chart.filename) failure_charts

-- The tuple of family, form and metric.
pub record ChartSpec : Type 0 where
  pub family : Family
  pub form : String
  pub metric : String

abbrev pub chart_metrics : Dict String String
chart_metrics =
    ("http_reqs", "rps")
    ∷ ("vus", "active-vus")
    ∷ ("http_req_connecting", "tcp")
    ∷ ("http_req_tls_handshaking", "tls")
    ∷ ("http_req_duration", "http")
    ∷ []

abbrev pub Specs : Type 0
Specs = Dict String ChartSpec

unfoldable pub add_timeline : Specs → TimeSeries → Result Specs
unfolding string_eq
add_timeline specs chart = do
  metric ← or_raise (lookup chart.metric chart_metrics) (key_error chart.metric)
  ok (
      insert chart.filename (record { family = chart.family; form = "timeline"; metric = metric })
        specs)

unfoldable pub add_bars : Specs → BarChart → Result Specs
unfolding string_eq
add_bars specs chart = do
  metric ← or_raise (lookup chart.metric chart_metrics) (key_error chart.metric)
  ok (
      insert chart.filename (record { family = chart.family; form = "bars"; metric = metric })
        specs)

unfoldable pub add_failure_bars : Specs → FailureChart → Result Specs
unfolding string_eq
add_failure_bars specs chart = ok (
    insert chart.filename (record { family = chart.family; form = "bars"; metric = "failure-rate" })
      specs)

unfoldable pub chart_specs : Result Specs
unfolding time_series bar_charts failure_charts
chart_specs = do
  timelines ← for_loop add_timeline [] time_series
  bars ← for_loop add_bars timelines bar_charts
  for_loop add_failure_bars bars failure_charts

-- The names that a choice may have: of the chart with and without its suffix, and of its metric.
abbrev pub matches : String → String × ChartSpec → Bool
matches choice (name, spec) = contains (name ∷ removesuffix ".svg" name ∷ spec.metric ∷ []) choice

unfoldable pub known_choices : Specs → List String
known_choices specs =
    keys specs
    ++ map (removesuffix ".svg") (keys specs)
    ++ map (λ (spec : ChartSpec). spec.metric) (values specs)

-- The condition of the comprehension.
abbrev pub is_wanted : List String → List String → List Family → String × ChartSpec → Bool
is_wanted selections export_types families chart =
    contains families chart.1.family
    && contains export_types chart.1.form
    && (is_empty selections || any (λ choice. matches choice chart) selections)

-- `select_charts` behind `chart_specs`.
unfoldable pub select_from : Specs → List String → List String → List Family → Result (List String)
unfolding string_eq family_eq
select_from specs selections export_types families = do
  raise_if (not (is_empty (difference selections (known_choices specs)))) (unknown_charts "")
  let selected = select (is_wanted selections export_types families) specs
  raise_if (not (is_empty (select (λ choice. not (any (matches choice) selected)) selections)))
      (unmatched_charts "")
  raise_if (is_empty selected) (no_charts "")
  ok (keys selected)

unfoldable pub select_charts : List String → List String → List Family → Result (List String)
select_charts selections export_types families = do
  specs ← chart_specs
  select_from specs selections export_types families
