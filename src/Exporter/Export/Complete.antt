-- ===== src/Exporter/Export/Complete.antt =====
-- exporter.py: the test at the end of `export`.
use where_to_tls.Base.{
  String, ◌<>◌, ◌≡◌, refl, sym, ap, ◌∙◌, Bool, true, not, ◌||◌, ◌==◌, List, [], ◌∷◌, Dict, contains,
  contains-select, contains-dedupe, select, map, length, dedupe, same_set, subset, dedupe-NodupList,
  NodupList, NodupList-length, is_nodup-NodupList, test_of_eq, ok, raise_if, wrong_svgs, string_eq,
  nat_eq, arith,
}
use where_to_tls.Common.Numbers.{Floats}
use where_to_tls.Runs.Comparison.{Comparison}
use where_to_tls.Runs.Origins.{Origin}
use where_to_tls.Exporter.{chart_names}
use where_to_tls.Exporter.Selection.{distinct_names}
use where_to_tls.Exporter.Export.{
  Target, Files, Surroundings, Exported, validate_sources, export_charts, check_generated, export,
}
use where_to_tls.Exporter.Export.Generated.{selected_targets, export_charts-generated}

subset_of :
    (xs ys : List String)
    → ((name : String) → contains xs name ≡ true → contains ys name ≡ true)
    → subset xs ys ≡ true
subset_of [] ys h = refl
subset_of (x ∷ xs) ys h = ground (
  arith,
  h x (ground (arith, test_of_eq x x refl)),
  subset_of xs ys (λ name there. h name (ground (arith, there))),
)

select-NodupList : (p : String → Bool) (xs : List String) → NodupList xs → NodupList (select p xs)
select-NodupList p [] u = tt
select-NodupList p (x ∷ xs) u = ground (arith, select-NodupList p xs, contains-select p xs x)

names_of_targets :
    (output : String) (names : List String)
    → map (λ (target : Target). target.1) (map (λ name. (output, name)) names) ≡ names
names_of_targets output [] = refl
names_of_targets output (x ∷ names) = ap (λ xs. x ∷ xs) (names_of_targets output names)

length-map :
    (output : String) (names : List String)
    → length (map {B = Target} (λ name. (output, name)) names) ≡ length names
length-map output [] = refl
length-map output (x ∷ names) = omega (arith, length-map output names)

module _ (output : String) (selected_charts : List String)
    (known : (name : String)
      → contains selected_charts name ≡ true
      → contains chart_names name ≡ true) where
  chosen : List String
  chosen = select (contains selected_charts) chart_names

  chosen-contains : (name : String) → contains chosen name ≡ contains selected_charts name
  unfolding chosen
  chosen-contains name =
      ground (arith, contains-select (contains selected_charts) chart_names name, known name)

  chosen-length : length chosen ≡ length (dedupe selected_charts)
  unfolding chosen
  chosen-length =
      let a =
        NodupList-length chosen (dedupe selected_charts)
          (select-NodupList (contains selected_charts) chart_names
            (is_nodup-NodupList chart_names distinct_names))
          (subset_of chosen (dedupe selected_charts)
            (λ name h. contains-dedupe selected_charts name ∙ sym (chosen-contains name) ∙ h)) in
      let b = NodupList-length (dedupe selected_charts) chosen (dedupe-NodupList selected_charts) (
        subset_of (dedupe selected_charts) chosen
          (λ name h. chosen-contains name ∙ sym (contains-dedupe selected_charts name) ∙ h)) in
      omega (arith, a, b)

  same_names : same_set chosen selected_charts ≡ true
  same_names = ground (
    arith,
    subset_of chosen selected_charts (λ name h. sym (chosen-contains name) ∙ h),
    subset_of selected_charts chosen (λ name h. chosen-contains name ∙ h),
  )

  check_generated-ok :
      check_generated selected_charts (selected_targets output selected_charts chart_names) ≡ ok tt
  unfolding check_generated chosen
  check_generated-ok =
      let same =
        ap (λ xs. same_set xs selected_charts) (names_of_targets output chosen) ∙ same_names in
      let count = length-map output chosen ∙ chosen-length in
      let counted = test_of_eq _ _ count in
      ap
        (λ b.
          raise_if
            (not b
              || not (
                  length (map {B = Target} (λ name. (output, name)) chosen)
                  == length (dedupe selected_charts)))
            (wrong_svgs ""))
        same
      ∙ ap (λ b. raise_if (not true || not b) (wrong_svgs "")) counted

-- Where the selected charts are charts of the tables, as `select_charts` selects them, the test at the
-- end of `export` never raises: once the sources are valid and the loops are through, `export`
-- returns, and it has generated each selected chart once, in the order of the tables.
pub export-generated :
    (F : Floats) (E : Surroundings F) (comparison : Comparison) (output_root : String)
    (selected_charts : List String) (skip_existing : Bool) (scale_mode : String) (files : Files)
    (origins : Dict String Origin) (s : Exported F)
    → ((name : String) → contains selected_charts name ≡ true → contains chart_names name ≡ true)
    → validate_sources F E comparison ≡ ok origins
    → export_charts F E comparison origins
        (output_root <> "/" <> comparison.id)
        selected_charts
        skip_existing
        scale_mode
        (record {
          files = files;
          generated = [];
          caches = record { percentiles = []; failures = [] };
        })
      ≡ ok s
    → (export F E comparison output_root selected_charts skip_existing scale_mode files ≡ ok s)
      × (s.generated
          ≡ selected_targets (output_root <> "/" <> comparison.id) selected_charts chart_names)
unfolding export
export-generated F E comparison output_root selected_charts skip_existing scale_mode files origins s
      known valid looped =
    let output = output_root <> "/" <> comparison.id in
    let all =
      export_charts-generated F E comparison output selected_charts skip_existing origins scale_mode
        (record {
          files = files;
          generated = [];
          caches = record { percentiles = []; failures = [] };
        })
        s looped in
    let passes =
      ap (check_generated selected_charts) all ∙ check_generated-ok output selected_charts known in
    (rw (valid, looped, passes) refl, all)
