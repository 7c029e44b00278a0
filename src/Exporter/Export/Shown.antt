-- ===== src/Exporter/Export/Shown.antt =====
-- exporter.py: what is in the files that `export` generates.
use where_to_tls.Base.{
  ◌++◌, map, ◌⊎◌, String, ◌<>◌, ◌≡◌, refl, sym, ap, ◌∙◌, subst, Bool, true, false, ◌&&◌, ◌==◌, some,
  List, [], ◌∷◌, Dict, keys, values, lookup, insert, contains, lookup-insert_self, lookup-insert_ne,
  Bool-cases, Option-cases, inl, inr, eq_of_test, Result, ok, >>=-eq-ok, ok-injective, for_loop,
  AllItems, AllItems-append, AllItems-mono, string_eq, pair_eq,
}
use mathlib.Core.Bool.{false≢true}
use mathlib.Core.Option.{some-injective}
use where_to_tls.Base.Occurs.{Occurs, Occurs-append, append-Occurs, map-Occurs, for_loop-Occurs}
use where_to_tls.Config.{Stack, Family, family_eq}
use where_to_tls.Config.Charts.{
  TimeSeries, time_series, BarChart, bar_charts, FailureChart, failure_charts,
}
use where_to_tls.Common.Numbers.{Floats}
use where_to_tls.Runs.Comparison.{Comparison, family_runs}
use where_to_tls.Runs.Origins.{Origin}
use where_to_tls.Importer.Json.{Json}
use where_to_tls.Exporter.Reuse.{reusable_svg}
use where_to_tls.Exporter.Export.{
  Target, Files, Drawing, race_rps_small_multiples, time_series_drawing, bars_drawing,
  failure_drawing, Surroundings, Caches, Exported, is_reusable, draw_timeline, draw_bars,
  draw_failure_bars, add_segments, cached_percentiles, cached_failure_rates, export_chart,
  export_charts, validate_sources, check_generated, export,
}

-- The charts of the tables with their families.
abbrev pub chart_families : List (String × Family)
chart_families =
    map (λ (chart : TimeSeries). (chart.filename, chart.family)) time_series
    ++ map (λ (chart : BarChart). (chart.filename, chart.family)) bar_charts
    ++ map (λ (chart : FailureChart). (chart.filename, chart.family)) failure_charts

listed_timeline :
    (c : TimeSeries) → Occurs c time_series → Occurs (c.filename, c.family) chart_families
unfolding time_series
listed_timeline c o =
    Occurs-append _ (map (λ (chart : TimeSeries). (chart.filename, chart.family)) time_series) _
      (map-Occurs (λ (chart : TimeSeries). (chart.filename, chart.family)) c time_series o)

listed_bars : (c : BarChart) → Occurs c bar_charts → Occurs (c.filename, c.family) chart_families
unfolding time_series bar_charts
listed_bars c o =
    append-Occurs _ (map (λ (chart : TimeSeries). (chart.filename, chart.family)) time_series) _ (
      Occurs-append _ (map (λ (chart : BarChart). (chart.filename, chart.family)) bar_charts) _
        (map-Occurs (λ (chart : BarChart). (chart.filename, chart.family)) c bar_charts o))

listed_failures :
    (c : FailureChart) → Occurs c failure_charts → Occurs (c.filename, c.family) chart_families
unfolding time_series bar_charts failure_charts
listed_failures c o =
    append-Occurs _ (map (λ (chart : TimeSeries). (chart.filename, chart.family)) time_series) _ (
      append-Occurs _ (map (λ (chart : BarChart). (chart.filename, chart.family)) bar_charts) _
        (map-Occurs (λ (chart : FailureChart). (chart.filename, chart.family)) c failure_charts o))

module _ (F : Floats) where
  -- The chart, the comparison and the stacks of a drawing.
  abbrev pub drawn_name : Drawing F → String
  drawn_name (race_rps_small_multiples chart _ _ _) = chart.filename
  drawn_name (time_series_drawing chart _ _ _ _) = chart.filename
  drawn_name (bars_drawing chart _ _ _ _) = chart.filename
  drawn_name (failure_drawing chart _ _ _) = chart.filename

  abbrev pub drawn_family : Drawing F → Family
  drawn_family (race_rps_small_multiples chart _ _ _) = chart.family
  drawn_family (time_series_drawing chart _ _ _ _) = chart.family
  drawn_family (bars_drawing chart _ _ _ _) = chart.family
  drawn_family (failure_drawing chart _ _ _) = chart.family

  abbrev pub drawn_comparison : Drawing F → Comparison
  drawn_comparison (race_rps_small_multiples _ comparison _ _) = comparison
  drawn_comparison (time_series_drawing _ comparison _ _ _) = comparison
  drawn_comparison (bars_drawing _ comparison _ _ _) = comparison
  drawn_comparison (failure_drawing _ comparison _ _) = comparison

  abbrev pub drawn_stacks : Drawing F → List Stack
  drawn_stacks (race_rps_small_multiples _ _ stacks _) = stacks
  drawn_stacks (time_series_drawing _ _ stacks _ _) = stacks
  drawn_stacks (bars_drawing _ _ stacks _ _) = stacks
  drawn_stacks (failure_drawing _ _ stacks _) = stacks

  module _ (E : Surroundings F) (comparison : Comparison) where
    open E use {provenance, render}

    -- A text that was drawn for a chart of the comparison, of the stacks that have a run of its family.
    pub record IsDrawnFor (filename : String) (family : Family) (runs : Dict Stack String)
        (content : String) : Type 0 where
      pub drawing : Drawing F
      pub named : drawn_name drawing ≡ filename
      pub of_family : drawn_family drawing ≡ family
      pub of_comparison : drawn_comparison drawing ≡ comparison
      pub of_stacks : drawn_stacks drawing ≡ keys runs
      pub rendered : render drawing ≡ ok content

    -- A text whose recorded runs are those of the chart.
    pub record IsReused (runs : Dict Stack String) (content : String) : Type 0 where
      pub recorded : Json
      pub read : provenance content ≡ ok recorded
      pub same_runs : reusable_svg recorded (values runs) [] ≡ ok true

    -- The runs of the family that the tables give a chart.
    pub record HasRuns (filename : String) (family : Family) (runs : Dict Stack String)
        : Type 0 where
      pub listed : Occurs (filename, family) chart_families
      pub of_family : family_runs comparison family ≡ ok runs

    -- A text that was drawn for a chart, of the runs of its family.
    pub record IsDrawn (target : Target) (content : String) : Type 0 where
      pub family : Family
      pub runs : Dict Stack String
      pub has_runs : HasRuns target.1 family runs
      pub drawn : IsDrawnFor target.1 family runs content

    -- A text that was there before and records the runs of the chart's family.
    pub record IsKept (before : Files) (target : Target) (content : String) : Type 0 where
      pub family : Family
      pub runs : Dict Stack String
      pub has_runs : HasRuns target.1 family runs
      pub there_before : lookup target before ≡ some content
      pub reused : IsReused runs content

    -- A generated chart: its file has a text that was drawn for it or was there and may be reused.
    pub record IsShown (before files : Files) (target : Target) : Type 0 where
      pub content : String
      pub found : lookup target files ≡ some content
      pub shown : IsDrawn target content ⊎ IsKept before target content

    -- A file is as it was before, or was drawn.
    abbrev AllFiles : Files → Files → Type 0
    AllFiles before files =
        (target : Target) (content : String)
        → lookup target files ≡ some content
        → (lookup target before ≡ some content) ⊎ IsDrawn target content

    insert-AllFiles :
        (before files : Files) (target : Target) (content : String)
        → IsDrawn target content
        → AllFiles before files
        → AllFiles before (insert target content files)
    insert-AllFiles before files target content d all other text h =
        elim (Bool-cases (other == target)) [
          | inr differs ↦
              all other text (sym (lookup-insert_ne other target content files differs) ∙ h)
          | inl same ↦
              let e = eq_of_test other target same in
              let f = some-injective content text (
                sym (lookup-insert_self target content files)
                ∙ ap (λ k. lookup k (insert target content files)) (sym e)
                ∙ h) in
              inr (subst (λ t. IsDrawn t text) (sym e) (subst (IsDrawn target) f d))
        ]

    insert-IsShown :
        (before files : Files) (target other : Target) (content : String)
        → IsDrawn target content
        → IsShown before files other
        → IsShown before (insert target content files) other
    insert-IsShown before files target other content d s = elim (Bool-cases (other == target)) [
      | inl same ↦
          let e = eq_of_test other target same in
          record {
            content = content;
            found =
                ap (λ k. lookup k (insert target content files)) e
                ∙ lookup-insert_self target content files;
            shown = inl (subst (λ (t : Target). IsDrawn t content) (sym e) d);
          }
      | inr differs ↦ record {
        content = s.content;
        found = lookup-insert_ne other target content files differs ∙ s.found;
        shown = s.shown;
      }
    ]

    is_reusable-IsReused :
        (skip_existing : Bool) (target : Target) (runs : Dict Stack String) (files : Files)
        → is_reusable F E skip_existing target (values runs) files ≡ ok true
        → (content : String) × (lookup target files ≡ some content) × IsReused runs content
    unfolding is_reusable
    is_reusable-IsReused false target runs files h = absurd (false≢true (ok-injective h))
    is_reusable-IsReused true target runs files h = elim (Option-cases (lookup target files)) [
      | inl missing ↦ absurd (false≢true (ok-injective (rw (missing, is_reusable) at h)))
      | inr (content, found) ↦
          let (recorded, read, same) =
            >>=-eq-ok (provenance content) _ (rw (found, is_reusable) at h) in
          (content, found, record { recorded = recorded; read = read; same_runs = same })
    ]

    abbrev AllShown : Files → Exported F → Type 0
    AllShown before s = AllItems (IsShown before s.files) s.generated × AllFiles before s.files

    -- A reused text, which may have been drawn in this run.
    reused-IsShown :
        (before files : Files) (target : Target) (family : Family) (runs : Dict Stack String)
        (content : String)
        → HasRuns target.1 family runs
        → lookup target files ≡ some content
        → IsReused runs content
        → AllFiles before files
        → IsShown before files target
    reused-IsShown before files target family runs content has_runs found i all = record {
      content = content;
      found = found;
      shown = elim (all target content found) [
        | inr drawn ↦ inl drawn
        | inl old ↦ inr (record {
          family = family;
          runs = runs;
          has_runs = has_runs;
          there_before = old;
          reused = i;
        })
      ];
    }

    module _ (before : Files) (output : String) (selected_charts : List String)
        (skip_existing : Bool) where
      export_chart-AllShown :
          (filename : String) (family : Family)
          (draw : Caches F → Dict Stack String → Result (String × Caches F))
          → Occurs (filename, family) chart_families
          → ((caches : Caches F) (runs : Dict Stack String) (content : String) (kept : Caches F)
              → draw caches runs ≡ ok (content, kept)
              → IsDrawnFor filename family runs content)
          → (s t : Exported F)
          → export_chart F E comparison output selected_charts skip_existing filename family draw s
            ≡ ok t
          → AllShown before s
          → AllShown before t
      unfolding export_chart
      export_chart-AllShown filename family draw listed draws s t h all =
          elim (Bool-cases (contains selected_charts filename)) [
            | inr other ↦ subst (AllShown before) (ok-injective (rw other at h)) all
            | inl wanted ↦
                let target : Target = (output, filename) in
                let (runs, of_family, h₁) =
                  >>=-eq-ok (family_runs comparison family) _ (rw wanted at h) in
                let has_runs : HasRuns filename family runs = record {
                  listed = listed;
                  of_family = of_family;
                } in
                let (reusable, tested, h₂) =
                  >>=-eq-ok (is_reusable F E skip_existing target (values runs) s.files) _ h₁ in
                elim (Bool-cases reusable) [
                  | inl reused ↦
                      let (content, found, i) =
                        is_reusable-IsReused skip_existing target runs s.files
                          (tested ∙ ap ok reused) in
                      subst (AllShown before) (ok-injective (rw reused at h₂)) (
                        AllItems-append (IsShown before s.files) s.generated (target ∷ []) all.0 (
                          reused-IsShown before s.files target family runs content has_runs found i
                              all.1,
                          tt,
                        ),
                        all.1,
                      )
                  | inr fresh ↦
                      let ((content, kept), drawn, h₃) =
                        >>=-eq-ok (draw s.caches runs) _ (rw fresh at h₂) in
                      let d : IsDrawn target content = record {
                        family = family;
                        runs = runs;
                        has_runs = has_runs;
                        drawn = draws s.caches runs content kept drawn;
                      } in
                      let files = insert target content s.files in
                      subst (AllShown before) (ok-injective h₃) (
                        AllItems-append (IsShown before files) s.generated (target ∷ [])
                            (AllItems-mono (IsShown before s.files) (IsShown before files)
                              s.generated
                              (λ other. insert-IsShown before s.files target other content d) all.0)
                            (
                              record {
                                content = content;
                                found = lookup-insert_self target content s.files;
                                shown = inl d;
                              },
                              tt,
                            ),
                        insert-AllFiles before s.files target content d all.1,
                      )
                ]
          ]

    draw_timeline-IsDrawnFor :
        (origins : Dict String Origin) (scale_mode : String) (config : TimeSeries)
        (caches : Caches F) (runs : Dict Stack String) (content : String) (kept : Caches F)
        → draw_timeline F E comparison origins scale_mode config caches runs ≡ ok (content, kept)
        → IsDrawnFor config.filename config.family runs content
    unfolding draw_timeline
    draw_timeline-IsDrawnFor origins scale_mode config caches runs content kept h =
        let (segments, _, h₁) =
          >>=-eq-ok (for_loop (add_segments F E comparison origins config) [] runs) _ h in
        let (text, rendered, h₂) = >>=-eq-ok (render _) _ h₁ in
        let is_race = config.family == Family.race && config.metric == "http_reqs" in
        let same = ap (λ (r : String × Caches F). r.0) (ok-injective h₂) in
        subst (IsDrawnFor config.filename config.family runs) same (elim (Bool-cases is_race) [
          | inl race ↦ record {
            drawing = race_rps_small_multiples config comparison (keys runs) segments;
            named = refl;
            of_family = refl;
            of_comparison = refl;
            of_stacks = refl;
            rendered = rw race at rendered;
          }
          | inr other ↦ record {
            drawing = time_series_drawing config comparison (keys runs) segments scale_mode;
            named = refl;
            of_family = refl;
            of_comparison = refl;
            of_stacks = refl;
            rendered = rw other at rendered;
          }
        ])

    draw_bars-IsDrawnFor :
        (origins : Dict String Origin) (scale_mode : String) (chart : BarChart) (caches : Caches F)
        (runs : Dict Stack String) (content : String) (kept : Caches F)
        → draw_bars F E comparison origins scale_mode chart caches runs ≡ ok (content, kept)
        → IsDrawnFor chart.filename chart.family runs content
    unfolding draw_bars
    draw_bars-IsDrawnFor origins scale_mode chart caches runs content kept h =
        let ((read, cached), _, h₁) =
          >>=-eq-ok (cached_percentiles F E comparison origins chart caches runs) _ h in
        let (text, rendered, h₂) =
          >>=-eq-ok (render (bars_drawing chart comparison (keys runs) read scale_mode)) _ h₁ in
        record {
          drawing = bars_drawing chart comparison (keys runs) read scale_mode;
          named = refl;
          of_family = refl;
          of_comparison = refl;
          of_stacks = refl;
          rendered = rendered ∙ ap (λ (r : String × Caches F). ok r.0) (ok-injective h₂);
        }

    draw_failure_bars-IsDrawnFor :
        (origins : Dict String Origin) (chart : FailureChart) (caches : Caches F)
        (runs : Dict Stack String) (content : String) (kept : Caches F)
        → draw_failure_bars F E comparison origins chart caches runs ≡ ok (content, kept)
        → IsDrawnFor chart.filename chart.family runs content
    unfolding draw_failure_bars
    draw_failure_bars-IsDrawnFor origins chart caches runs content kept h =
        let ((read, cached), _, h₁) =
          >>=-eq-ok (cached_failure_rates F E comparison origins chart.family caches runs) _ h in
        let (text, rendered, h₂) =
          >>=-eq-ok (render (failure_drawing chart comparison (keys runs) read)) _ h₁ in
        record {
          drawing = failure_drawing chart comparison (keys runs) read;
          named = refl;
          of_family = refl;
          of_comparison = refl;
          of_stacks = refl;
          rendered = rendered ∙ ap (λ (r : String × Caches F). ok r.0) (ok-injective h₂);
        }

    module _ (before : Files) (output : String) (selected_charts : List String)
        (skip_existing : Bool) where
      export_charts-AllShown :
          (origins : Dict String Origin) (scale_mode : String) (s t : Exported F)
          → export_charts F E comparison origins output selected_charts skip_existing scale_mode s
            ≡ ok t
          → AllShown before s
          → AllShown before t
      unfolding export_charts
      export_charts-AllShown origins scale_mode s t h all =
          let (timelines, first, h₁) = >>=-eq-ok (for_loop _ s time_series) _ h in
          let (bars, second, third) = >>=-eq-ok (for_loop _ timelines bar_charts) _ h₁ in
          let chart = export_chart-AllShown before output selected_charts skip_existing in
          let a =
            for_loop-Occurs _ (AllShown before) time_series
              (λ u c v o.
                chart c.filename c.family _ (listed_timeline c o)
                  (draw_timeline-IsDrawnFor origins scale_mode c) u v)
              s timelines first all in
          let b =
            for_loop-Occurs _ (AllShown before) bar_charts
              (λ u c v o.
                chart c.filename c.family _ (listed_bars c o)
                  (draw_bars-IsDrawnFor origins scale_mode c) u v)
              timelines bars second a in
          for_loop-Occurs _ (AllShown before) failure_charts
            (λ u c v o.
              chart c.filename c.family _ (listed_failures c o)
                (draw_failure_bars-IsDrawnFor origins c) u v)
            bars t third b

    -- If `export` returns, then the file of each chart that it generated is there, with a text that was
    -- drawn for this chart of the comparison, over the stacks that have a run of the family that the
    -- tables give the chart, or with one that was there before and whose recorded runs are the runs
    -- of these stacks.
    pub export-IsShown :
        (output_root : String) (selected_charts : List String) (skip_existing : Bool)
        (scale_mode : String) (files : Files) (s : Exported F)
        → export F E comparison output_root selected_charts skip_existing scale_mode files ≡ ok s
        → AllItems (IsShown files s.files) s.generated
    unfolding export
    export-IsShown output_root selected_charts skip_existing scale_mode files s h =
        let (origins, _, h₁) = >>=-eq-ok (validate_sources F E comparison) _ h in
        let (t, looped, h₂) =
          >>=-eq-ok
            (export_charts F E comparison origins (output_root <> "/" <> comparison.id)
              selected_charts skip_existing scale_mode
              (record {
                files = files;
                generated = [];
                caches = record { percentiles = []; failures = [] };
              }))
            _ h₁ in
        let (_, checked, h₃) = >>=-eq-ok (check_generated selected_charts t.generated) _ h₂ in
        let all =
          export_charts-AllShown files (output_root <> "/" <> comparison.id) selected_charts
            skip_existing origins scale_mode _ t looped (tt, λ target content h. inl h) in
        subst (λ (u : Exported F). AllItems (IsShown files u.files) u.generated) (ok-injective h₃)
          all.0
