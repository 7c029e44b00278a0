-- ===== src/Exporter/Export/Generated.antt =====
-- exporter.py: which charts the loops of `export` generate.
use where_to_tls.Base.{
  String, ◌≡◌, refl, sym, ap, ◌∙◌, Bool, List, [], ◌∷◌, ◌++◌, Dict, values, contains, select, map,
  Bool-cases, inl, inr, Result, ok, >>=-eq-ok, ok-injective, for_loop, string_eq, nat_eq, pair_eq,
}
use mathlib.Core.List.{append_assoc, append-nil}
use where_to_tls.Config.{Stack, Family}
use where_to_tls.Config.Charts.{
  TimeSeries, time_series, BarChart, bar_charts, FailureChart, failure_charts,
}
use where_to_tls.Common.Numbers.{Floats}
use where_to_tls.Runs.Comparison.{Comparison, family_runs}
use where_to_tls.Runs.Origins.{Origin}
use where_to_tls.Exporter.{chart_names}
use where_to_tls.Exporter.Export.{
  Target, Surroundings, Caches, Exported, is_reusable, draw_timeline, draw_bars, draw_failure_bars,
  export_chart, export_charts,
}

-- The charts of a list of names that are selected, in a folder.
abbrev pub selected_targets : String → List String → List String → List Target
selected_targets output selected_charts names =
    map (λ name. (output, name)) (select (contains selected_charts) names)

selected_targets-append :
    (output : String) (selected_charts xs ys : List String)
    → selected_targets output selected_charts (xs ++ ys)
      ≡ selected_targets output selected_charts xs ++ selected_targets output selected_charts ys
selected_targets-append output selected_charts [] ys = refl
selected_targets-append output selected_charts (x ∷ xs) ys =
    elim (Bool-cases (contains selected_charts x)) [
      | inl wanted ↦
          rw wanted
            (ap (λ ts. (output, x) ∷ ts) (selected_targets-append output selected_charts xs ys))
      | inr other ↦ rw other (selected_targets-append output selected_charts xs ys)
    ]

three_parts :
    (output : String) (selected_charts : List String) (s t u v : List Target)
    (xs ys zs : List String)
    → t ≡ s ++ selected_targets output selected_charts xs
    → u ≡ t ++ selected_targets output selected_charts ys
    → v ≡ u ++ selected_targets output selected_charts zs
    → v ≡ s ++ selected_targets output selected_charts (xs ++ ys ++ zs)
three_parts output selected_charts s t u v xs ys zs a b c =
    let of_names = selected_targets output selected_charts in
    c
    ∙ ap (λ ts. ts ++ of_names zs)
        (b
          ∙ ap (λ ts. ts ++ of_names ys) a
          ∙ append_assoc s (of_names xs) (of_names ys)
          ∙ ap (λ ts. s ++ ts) (sym (selected_targets-append output selected_charts xs ys)))
    ∙ append_assoc s (of_names (xs ++ ys)) (of_names zs)
    ∙ ap (λ ts. s ++ ts) (sym (selected_targets-append output selected_charts (xs ++ ys) zs))

module _ (F : Floats) (E : Surroundings F) (comparison : Comparison) (output : String)
    (selected_charts : List String) (skip_existing : Bool) where
  -- A chart is generated exactly if it is selected.
  pub export_chart-generated :
      (filename : String) (family : Family)
      (draw : Caches F → Dict Stack String → Result (String × Caches F)) (s t : Exported F)
      → export_chart F E comparison output selected_charts skip_existing filename family draw s
        ≡ ok t
      → t.generated ≡ s.generated ++ selected_targets output selected_charts (filename ∷ [])
  unfolding export_chart
  export_chart-generated filename family draw s t h =
      elim (Bool-cases (contains selected_charts filename)) [
        | inr other ↦ rw other (
            sym (ap (λ (e : Exported F). e.generated) (ok-injective (rw other at h)))
            ∙ sym (append-nil s.generated))
        | inl wanted ↦
            let (runs, _, h₁) = >>=-eq-ok (family_runs comparison family) _ (rw wanted at h) in
            let (reusable, _, h₂) =
              >>=-eq-ok (is_reusable F E skip_existing (output, filename) (values runs) s.files) _
                h₁ in
            elim (Bool-cases reusable) [
              | inl reused ↦
                  rw wanted
                    (sym (ap (λ (e : Exported F). e.generated) (ok-injective (rw reused at h₂))))
              | inr fresh ↦
                  let ((content, caches), _, h₃) =
                    >>=-eq-ok (draw s.caches runs) _ (rw fresh at h₂) in
                  rw wanted (sym (ap (λ (e : Exported F). e.generated) (ok-injective h₃)))
            ]
      ]

  module _ {ℓ} {A : Type ℓ} (name : A → String) (family : A → Family)
      (draw : A → Caches F → Dict Stack String → Result (String × Caches F)) where
    loop-generated :
        (xs : List A) (s t : Exported F)
        → for_loop
            (λ s x.
              export_chart F E comparison output selected_charts skip_existing
                (name x)
                (family x)
                (draw x)
                s)
            s
            xs
          ≡ ok t
        → t.generated ≡ s.generated ++ selected_targets output selected_charts (map name xs)
    unfolding for_loop
    loop-generated [] s t h =
        sym (ap (λ (e : Exported F). e.generated) (ok-injective h)) ∙ sym (append-nil s.generated)
    loop-generated (x ∷ xs) s t h =
        let (u, first, rest) =
          >>=-eq-ok
            (export_chart F E comparison output selected_charts skip_existing (name x) (family x)
              (draw x) s)
            _ h in
        loop-generated xs u t rest
        ∙ ap (λ ts. ts ++ selected_targets output selected_charts (map name xs))
            (export_chart-generated (name x) (family x) (draw x) s u first)
        ∙ append_assoc s.generated (selected_targets output selected_charts (name x ∷ []))
            (selected_targets output selected_charts (map name xs))
        ∙ ap (λ ts. s.generated ++ ts)
            (sym (selected_targets-append output selected_charts (name x ∷ []) (map name xs)))

  -- The three loops generate the selected charts, each once and in the order of the tables.
  pub export_charts-generated :
      (origins : Dict String Origin) (scale_mode : String) (s t : Exported F)
      → export_charts F E comparison origins output selected_charts skip_existing scale_mode s
        ≡ ok t
      → t.generated ≡ s.generated ++ selected_targets output selected_charts chart_names
  unfolding export_charts chart_names
  export_charts-generated origins scale_mode s t h =
      let (timelines, first, h₁) = >>=-eq-ok (for_loop _ s time_series) _ h in
      let (bars, second, third) = >>=-eq-ok (for_loop _ timelines bar_charts) _ h₁ in
      let a =
        loop-generated (λ (c : TimeSeries). c.filename) (λ (c : TimeSeries). c.family)
          (draw_timeline F E comparison origins scale_mode) time_series s timelines first in
      let b =
        loop-generated (λ (c : BarChart). c.filename) (λ (c : BarChart). c.family)
          (draw_bars F E comparison origins scale_mode) bar_charts timelines bars second in
      let c =
        loop-generated (λ (c : FailureChart). c.filename) (λ (c : FailureChart). c.family)
          (draw_failure_bars F E comparison origins) failure_charts bars t third in
      three_parts output selected_charts s.generated timelines.generated bars.generated t.generated
        (map (λ (chart : TimeSeries). chart.filename) time_series)
        (map (λ (chart : BarChart). chart.filename) bar_charts)
        (map (λ (chart : FailureChart). chart.filename) failure_charts) a b c
