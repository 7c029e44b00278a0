-- ===== src/Exporter/Export.antt =====
-- exporter.py: `validate_sources` and `export`, which draws the selected charts of a comparison. The
-- database, the reading of an SVG's metadata and the drawing are parameters.
pub mod Generated
pub mod Complete
pub mod Shown
use where_to_tls.Base.{
  ℕ, String, ◌<>◌, Bool, true, false, not, ◌&&◌, ◌||◌, ◌==◌, Option, none, some, List, [], ◌∷◌,
  ◌++◌, Dict, keys, values, lookup, insert, has_key, contains, select, is_empty, same_set, length,
  dedupe, map, any, Result, ok, err, or_raise, raise_if, ◌>>=◌, ◌>>◌, for_loop, key_error,
  duplicate_segments, wrong_svgs, string_eq, nat_eq, pair_eq, option_eq, if◌then◌else◌,
}
use where_to_tls.Config.{Stack, Family, Profile, stack_eq, family_eq}
use where_to_tls.Config.Charts.{
  TimeSeries, time_series, BarChart, bar_charts, FailureChart, failure_charts,
}
use where_to_tls.Common.Numbers.{Floats}
use where_to_tls.Runs.Rows.{Row}
use where_to_tls.Runs.Comparison.{Comparison, family_runs}
use where_to_tls.Runs.Origins.{Origin, parse_origins}
use where_to_tls.Datasets.Segments.{SegmentKey, parse_aggregate_rows}
use where_to_tls.Datasets.Percentiles.{PercentileKey, parse_percentiles}
use where_to_tls.Datasets.FailureRates.{RateKey, FailureRate, parse_failure_rates}
use where_to_tls.Importer.Json.{Json}
use where_to_tls.Exporter.Reuse.{reusable_svg}

-- The queries of a comparison, by the arguments that they are made of.
pub data Query : Type 0 where
  origin_query : Comparison → Query
  aggregate_time_series_query :
      Comparison
      → String
      → Origin
      → (metric aggregate : String) (tls_positive separate_executions : Bool) → Query
  percentile_query :
      Comparison → String → Origin → (metric : String) (rate tls_positive : Bool) → Query
  failure_rate_query : Comparison → String → Origin → Query

-- Folder and file name.
abbrev pub Target : Type 0
Target = String × String

abbrev pub Files : Type 0
Files = Dict Target String

-- The test of `generated` at the end.
unfoldable pub check_generated : List String → List Target → Result (Unit {0})
unfolding string_eq nat_eq
check_generated selected_charts generated = do
  raise_if
      (not (same_set (map (λ (target : Target). target.1) generated) selected_charts)
        || not (length generated == length (dedupe selected_charts)))
      (wrong_svgs "")

module _ (F : Floats) where
  open F use {Float}

  abbrev pub TimelineData : Type 0
  TimelineData = Dict SegmentKey (List (Float × Float))

  -- What a chart is drawn of.
  pub data Drawing : Type 0 where
    race_rps_small_multiples : TimeSeries → Comparison → List Stack → TimelineData → Drawing
    time_series_drawing :
        TimeSeries → Comparison → List Stack → TimelineData → (scale_mode : String) → Drawing
    bars_drawing :
        BarChart
        → Comparison
        → List Stack
        → Dict PercentileKey Float
        → (scale_mode : String) → Drawing
    failure_drawing :
        FailureChart → Comparison → List Stack → Dict RateKey (FailureRate F) → Drawing

  -- What `export` calls and this library does not define.
  pub record Surroundings : Type 0 where
    pub ask : Query → Result (List Row)
    pub provenance : String → Result Json
    pub render : Drawing → Result String

  -- `percentile_cache` and `failure_cache`
  pub record Caches : Type 0 where
    pub percentiles : Dict (Family × String) (Dict PercentileKey Float)
    pub failures : Dict Family (Dict RateKey (FailureRate F))

  pub record Exported : Type 0 where
    pub files : Files
    pub generated : List Target
    pub caches : Caches

  -- `generated.append(target)`
  abbrev pub add_generated : Target → Exported → Exported
  add_generated target s = record s { generated = s.generated ++ (target ∷ []) }

  -- `write_svg(target, content)` and `generated.append(target)`
  abbrev pub put_svg : Target → String → Caches → Exported → Exported
  put_svg target content caches s = record {
    files = insert target content s.files;
    generated = s.generated ++ (target ∷ []);
    caches = caches;
  }

  module _ (E : Surroundings) where
    open E use {ask, provenance, render}

    unfoldable pub validate_sources : Comparison → Result (Dict String Origin)
    validate_sources comparison = do
      rows ← ask (origin_query comparison)
      parse_origins comparison rows

    -- `skip_existing and target.is_file() and reusable_svg(target, runs.values())`
    unfoldable pub is_reusable : Bool → Target → List String → Files → Result Bool
    unfolding string_eq pair_eq
    is_reusable false target run_ids files = ok false
    is_reusable true target run_ids files = elim (lookup target files) [
      | none ↦ ok false
      | some content ↦ (do recorded ← provenance content; reusable_svg recorded run_ids [])
    ]

    -- The body of the loop over the stacks of a timeline.
    unfoldable pub add_segments :
        Comparison
        → Dict String Origin
        → TimeSeries
        → TimelineData
        → Stack × String
        → Result TimelineData
    unfolding string_eq option_eq nat_eq pair_eq stack_eq
    add_segments comparison origins config segments (stack, run_id) = do
      origin ← or_raise (lookup run_id origins) (key_error run_id)
      rows ← ask (
          aggregate_time_series_query comparison run_id origin config.metric config.aggregate
            config.tls_positive (elim config.profile_row [ none ↦ false | some _ ↦ true ]))
      stack_segments ← parse_aggregate_rows F rows stack origin config.family config.profile_row
      raise_if (any (λ key. has_key key segments) (keys stack_segments))
          (duplicate_segments config.filename)
      ok (segments ++ stack_segments)

    unfoldable pub draw_timeline :
        Comparison
        → Dict String Origin
        → String
        → TimeSeries
        → Caches
        → Dict Stack String
        → Result (String × Caches)
    unfolding string_eq family_eq
    draw_timeline comparison origins scale_mode config caches runs = do
      segments ← for_loop (add_segments comparison origins config) [] runs
      content ← render (
          if config.family == Family.race && config.metric == "http_reqs"
          then race_rps_small_multiples config comparison (keys runs) segments
          else time_series_drawing config comparison (keys runs) segments scale_mode)
      ok (content, caches)

    -- The rows of the stacks, one answer behind the other.
    unfoldable pub rows_of_stacks :
        (String → Origin → Query) → Dict String Origin → Dict Stack String → Result (List Row)
    unfolding string_eq
    rows_of_stacks query origins runs =
        for_loop
          (λ rows (item : Stack × String). do
            origin ← or_raise (lookup item.1 origins) (key_error item.1)
            answer ← ask (query item.1 origin)
            ok (rows ++ answer))
          [] runs

    unfoldable pub cached_percentiles :
        Comparison
        → Dict String Origin
        → BarChart
        → Caches
        → Dict Stack String
        → Result (Dict PercentileKey Float × Caches)
    unfolding string_eq family_eq pair_eq
    cached_percentiles comparison origins chart caches runs =
        elim (lookup (chart.family, chart.metric) caches.percentiles) [
          | some found ↦ ok (found, caches)
          | none ↦ (do
            rows ←
                rows_of_stacks
                  (λ run_id origin.
                    percentile_query comparison run_id origin chart.metric chart.rate
                      chart.tls_positive)
                  origins runs
            read ← parse_percentiles F rows chart.family runs
            ok (
              read,
              record caches {
                percentiles = insert (chart.family, chart.metric) read caches.percentiles;
              },
            ))
        ]

    unfoldable pub draw_bars :
        Comparison
        → Dict String Origin
        → String
        → BarChart
        → Caches
        → Dict Stack String
        → Result (String × Caches)
    draw_bars comparison origins scale_mode chart caches runs = do
      (read, kept) ← cached_percentiles comparison origins chart caches runs
      content ← render (bars_drawing chart comparison (keys runs) read scale_mode)
      ok (content, kept)

    unfoldable pub cached_failure_rates :
        Comparison
        → Dict String Origin
        → Family
        → Caches
        → Dict Stack String
        → Result (Dict RateKey (FailureRate F) × Caches)
    unfolding family_eq
    cached_failure_rates comparison origins family caches runs =
        elim (lookup family caches.failures) [
          | some found ↦ ok (found, caches)
          | none ↦ (do
            rows ← rows_of_stacks (failure_rate_query comparison) origins runs
            read ← parse_failure_rates F rows family runs
            ok (read, record caches { failures = insert family read caches.failures }))
        ]

    unfoldable pub draw_failure_bars :
        Comparison
        → Dict String Origin
        → FailureChart
        → Caches
        → Dict Stack String
        → Result (String × Caches)
    draw_failure_bars comparison origins chart caches runs = do
      (read, kept) ← cached_failure_rates comparison origins chart.family caches runs
      content ← render (failure_drawing chart comparison (keys runs) read)
      ok (content, kept)

    -- What the bodies of the three loops share: the tests of the name and of the file that is there,
    -- around the drawing.
    unfoldable pub export_chart :
        Comparison
        → (output : String) (selected_charts : List String) (skip_existing : Bool)
        → (filename : String) (family : Family)
        → (Caches → Dict Stack String → Result (String × Caches))
        → Exported
        → Result Exported
    unfolding string_eq pair_eq
    export_chart comparison output selected_charts skip_existing filename family draw s =
        if not (contains selected_charts filename) then ok s else (do
          runs ← family_runs comparison family
          reusable ← is_reusable skip_existing (output, filename) (values runs) s.files
          if reusable then ok (add_generated (output, filename) s) else (do
            (content, caches) ← draw s.caches runs
            ok (put_svg (output, filename) content caches s)))

    -- The three loops.
    unfoldable pub export_charts :
        Comparison
        → Dict String Origin
        → String
        → List String
        → Bool
        → String
        → Exported
        → Result Exported
    unfolding time_series bar_charts failure_charts
    export_charts comparison origins output selected_charts skip_existing scale_mode s = do
      timelines ←
          for_loop
            (λ s (config : TimeSeries).
              export_chart comparison output selected_charts skip_existing config.filename
                config.family (draw_timeline comparison origins scale_mode config) s)
            s time_series
      bars ←
          for_loop
            (λ s (chart : BarChart).
              export_chart comparison output selected_charts skip_existing chart.filename
                chart.family (draw_bars comparison origins scale_mode chart) s)
            timelines bar_charts
      for_loop
          (λ s (chart : FailureChart).
            export_chart comparison output selected_charts skip_existing chart.filename chart.family
              (draw_failure_bars comparison origins chart) s)
          bars failure_charts

    unfoldable pub export :
        Comparison → String → List String → Bool → String → Files → Result Exported
    export comparison output_root selected_charts skip_existing scale_mode files = do
      origins ← validate_sources comparison
      s ←
          export_charts comparison origins (output_root <> "/" <> comparison.id) selected_charts
            skip_existing scale_mode
            (record {
              files = files;
              generated = [];
              caches = record { percentiles = []; failures = [] };
            })
      check_generated selected_charts s.generated
      ok s
