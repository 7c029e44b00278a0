-- ===== src/Exporter/TlsCells/Coverage.antt =====
-- exporter.py: `tls_configuration_executions` and `validate_tls_comparison` on the comparison that
-- `build_tls_comparison` returns.
use where_to_tls.Base.{
  String, ◌≡◌, refl, sym, ap, ◌∙◌, Bool, true, false, not, ◌&&◌, some, List, [], ◌∷◌, ◌++◌, keys,
  lookup, has_key, contains, is_empty, map, select, contains-select, AllValues-lookup,
  AllItems-mono, AllPairs, for_each-returned, each_contains, contains-some, ok-injective,
  Bool-cases, Option-cases, inl, inr, ok, ◌>>=◌, for_loop, for_each, string_eq, nat_eq, pair_eq,
  if◌then◌else◌, arith,
}
use mathlib.Core.List.{append-nil, append_assoc}
use where_to_tls.Config.{Stack, tls_configurations, stack_eq}
use where_to_tls.Common.Numbers.{Floats}
use where_to_tls.Runs.Rows.{Row}
use where_to_tls.Runs.Summary.{Cell, SummaryExecution}
use where_to_tls.Runs.Summary.Groups.{TlsKey}
use where_to_tls.Runs.TlsComparison.{Pair, TlsCell, TlsComparison, Identities, build_tls_comparison}
use where_to_tls.Runs.TlsComparison.Agreement.{contains-pair_of}
use where_to_tls.Runs.TlsComparison.Collected.{IsSource}
use where_to_tls.Runs.TlsComparison.Finished.{has_pair, tls_name, IsFinished}
use where_to_tls.Runs.TlsComparison.Complete.{build_tls_comparison-IsComplete}
use where_to_tls.Exporter.Cells.{cell_executions, repeat_of, cell_executions-IsAmong}
use where_to_tls.Exporter.Cells.Drawable.{cell_executions_complete}
use where_to_tls.Exporter.TlsCells.{
  source_executions, tls_configuration_executions, PairCoverage, add_configuration, pair_coverage,
  validate_tls_comparison,
}

source_absent :
    (source : Cell) (scenario : String) (stack : Stack)
    → has_key (scenario, (stack, 0)) source.executions ≡ false
    → source_executions (some source) scenario stack ≡ ok []
unfolding source_executions
source_absent source scenario stack h =
    ap (λ b. if b then cell_executions source scenario stack else ok []) h

source_there :
    (source : Cell) (scenario : String) (stack : Stack)
    → has_key (scenario, (stack, 0)) source.executions ≡ true
    → source_executions (some source) scenario stack ≡ cell_executions source scenario stack
unfolding source_executions
source_there source scenario stack h =
    ap (λ b. if b then cell_executions source scenario stack else ok []) h

some_execution :
    (executions : List SummaryExecution)
    → map repeat_of executions ≡ 0 ∷ 1 ∷ 2 ∷ []
    → (first : SummaryExecution) × (others : List SummaryExecution) × (executions ≡ first ∷ others)
some_execution [] h = cc
some_execution (first ∷ others) h = (first, others, refl)

-- Where `add_configuration` puts a configuration.
abbrev place : Bool → TlsKey → List TlsKey → List TlsKey → List TlsKey × List TlsKey
place is_missing configuration present missing =
    if is_missing
    then (present, missing ++ (configuration ∷ []))
    else (present ++ (configuration ∷ []), missing)

place-append :
    (is_missing : Bool) (configuration : TlsKey) (present missing here gone : List TlsKey)
    → ◌≡◌ {A = List TlsKey × List TlsKey}
        (
          (place is_missing configuration present missing).0 ++ here,
          (place is_missing configuration present missing).1 ++ gone,
        )
        (
          present ++ (if not is_missing then configuration ∷ here else here),
          missing ++ (if not (not is_missing) then configuration ∷ gone else gone),
        )
place-append true configuration present missing here gone =
    ap (λ m. (present ++ here, m)) (append_assoc missing (configuration ∷ []) gone)
place-append false configuration present missing here gone =
    ap (λ p. (p, missing ++ gone)) (append_assoc present (configuration ∷ []) here)

-- A line of a pair says of each configuration whether it has executions of the pair; one has.
pub record IsCovered (cell : TlsCell) (pair : Pair) (line : PairCoverage) : Type 0 where
  pub of_pair : (line.scenario, line.stack) ≡ pair
  pub test : TlsKey → Bool
  pub tested :
      (configuration : TlsKey)
      → (executions : List SummaryExecution) × (tls_configuration_executions cell line.scenario
            line.stack configuration
          ≡ ok executions)
        × (test configuration ≡ not (is_empty executions))
  pub present : line.present ≡ select test tls_configurations
  pub missing : line.missing ≡ select (λ configuration. not (test configuration)) tls_configurations
  pub some_present : is_empty line.present ≡ false

module _ (F : Floats) (identities : Identities) (cell : TlsCell)
    (finished : IsFinished F identities cell) where
  source_complete :
      (configuration : TlsKey) (source : Cell) (scenario : String) (stack : Stack)
      → lookup configuration cell.configurations ≡ some source
      → has_pair source (scenario, stack) ≡ true
      → (executions : List SummaryExecution) × (cell_executions source scenario stack
          ≡ ok executions)
  source_complete configuration source scenario stack found there =
      let i =
        AllValues-lookup (IsSource F identities (tls_name cell) cell.compatibility)
          cell.configurations configuration source finished.each_source found in
      cell_executions_complete source scenario stack i.same_repeats i.distinct
        (λ repeat. i.repeats scenario stack repeat ∙ ground (arith, there))

  executions_return :
      (scenario : String) (stack : Stack) (configuration : TlsKey)
      → (executions : List SummaryExecution) × (tls_configuration_executions cell scenario stack
            configuration
          ≡ ok executions)
  unfolding tls_configuration_executions source_executions
  executions_return scenario stack configuration =
      elim (Option-cases (lookup configuration cell.configurations)) [
        | inl missing ↦ ([], ap (λ o. source_executions o scenario stack) missing)
        | inr (source, found) ↦
            let opened = ap (λ o. source_executions o scenario stack) found in
            elim (Bool-cases (has_key (scenario, (stack, 0)) source.executions)) [
              | inr absent ↦ ([], opened ∙ source_absent source scenario stack absent)
              | inl there ↦
                  let (executions, read) =
                    source_complete configuration source scenario stack found
                      (contains-pair_of (keys source.executions) scenario stack 0 there) in
                  (executions, opened ∙ source_there source scenario stack there ∙ read)
            ]
      ]

  -- A pair of the cell has executions in some configuration.
  pair_measured :
      (scenario : String) (stack : Stack)
      → contains cell.pairs (scenario, stack) ≡ true
      → (configuration : TlsKey) × (first : SummaryExecution) × (others : List SummaryExecution)
        × (contains tls_configurations configuration ≡ true)
        × (tls_configuration_executions cell scenario stack configuration ≡ ok (first ∷ others))
  unfolding tls_configuration_executions source_executions
  pair_measured scenario stack listed =
      let m = finished.measured (scenario, stack) listed in
      let i =
        AllValues-lookup (IsSource F identities (tls_name cell) cell.compatibility)
          cell.configurations m.configuration m.source finished.each_source m.found in
      let (executions, read) =
        source_complete m.configuration m.source scenario stack m.found m.there in
      let there : has_key (scenario, (stack, 0)) m.source.executions ≡ true =
        i.repeats scenario stack 0 ∙ ground (arith, m.there) in
      let (first, others, split) =
        some_execution executions
          (cell_executions-IsAmong m.source scenario stack executions read).0 in
      (
        m.configuration,
        first,
        others,
        i.supported,
        ap (λ o. source_executions o scenario stack) m.found
            ∙ source_there m.source scenario stack there
            ∙ read
            ∙ ap ok split,
      )

  -- Whether there are executions of a configuration.
  abbrev is_there : String → Stack → TlsKey → Bool
  is_there scenario stack configuration =
      not (is_empty (executions_return scenario stack configuration).0)

  coverage_loop :
      (scenario : String) (stack : Stack) (table present missing : List TlsKey)
      → for_loop (add_configuration cell (scenario, stack)) (present, missing) table
        ≡ ok (
          present ++ select (is_there scenario stack) table,
          missing ++ select (λ k. not (is_there scenario stack k)) table,
        )
  unfolding for_loop add_configuration
  coverage_loop scenario stack [] present missing =
      ap (λ p. ok (p, missing)) (sym (append-nil present))
      ∙ ap (λ m. ok (present ++ [], m)) (sym (append-nil missing))
  coverage_loop scenario stack (k ∷ table) present missing =
      let (executions, read) = executions_return scenario stack k in
      let placed = place (is_empty executions) k present missing in
      ap
        (λ r. (r >>= λ found. ok (place (is_empty found) k present missing)) >>= λ state.
          for_loop (add_configuration cell (scenario, stack)) state table)
        read
      ∙ coverage_loop scenario stack table placed.0 placed.1
      ∙ ap ok (
          place-append (is_empty executions) k present missing
            (select (is_there scenario stack) table)
            (select (λ t. not (is_there scenario stack t)) table))

  measured_somewhere :
      (scenario : String) (stack : Stack)
      → contains cell.pairs (scenario, stack) ≡ true
      → is_empty (select (is_there scenario stack) tls_configurations) ≡ false
  measured_somewhere scenario stack listed =
      let (configuration, first, others, supported, read) = pair_measured scenario stack listed in
      let (executions, read') = executions_return scenario stack configuration in
      let same : executions ≡ first ∷ others = ok-injective (sym read' ∙ read) in
      contains-some (select (is_there scenario stack) tls_configurations) configuration (
        contains-select (is_there scenario stack) tls_configurations configuration
        ∙ ap (λ xs. not (is_empty xs) && contains tls_configurations configuration) same
        ∙ supported)

  pair_coverage-IsCovered :
      (pair : Pair)
      → contains cell.pairs pair ≡ true
      → (line : PairCoverage) × (pair_coverage cell pair ≡ ok line) × IsCovered cell pair line
  unfolding pair_coverage
  pair_coverage-IsCovered (scenario, stack) listed = (
    record {
      scenario = scenario;
      stack = stack;
      present = select (is_there scenario stack) tls_configurations;
      missing = select (λ k. not (is_there scenario stack k)) tls_configurations;
    },
    ap
        (λ r. r >>= λ t.
          ok (record { scenario = scenario; stack = stack; present = t.0; missing = t.1 }))
        (coverage_loop scenario stack tls_configurations [] []),
    record {
      of_pair = refl;
      test = is_there scenario stack;
      tested = λ configuration. (
        (executions_return scenario stack configuration).0,
        (executions_return scenario stack configuration).1,
        refl,
      );
      present = refl;
      missing = refl;
      some_present = measured_somewhere scenario stack listed;
    },
  )

  pub cell-IsCovered :
      (lines : List PairCoverage) × (for_each (pair_coverage cell) cell.pairs ≡ ok lines)
      × AllPairs (IsCovered cell) cell.pairs lines
  cell-IsCovered = for_each-returned (pair_coverage cell) (IsCovered cell) cell.pairs (
      AllItems-mono (λ pair. contains cell.pairs pair ≡ true)
        (λ pair.
          (line : PairCoverage) × (pair_coverage cell pair ≡ ok line) × IsCovered cell pair line)
        cell.pairs pair_coverage-IsCovered (each_contains cell.pairs))

-- If `build_tls_comparison` returns, then `validate_tls_comparison` returns on what it built, with a line
-- for each pair of each cell, in their order; a line has as present the configurations in which
-- the pair has executions, as missing the others, both in the order of the table, and at least one
-- is present.
pub build_tls_comparison-IsCovered :
    (F : Floats) (run_ids : List String) (rows : List Row) (source_start source_stop : String)
    (comparison : TlsComparison)
    → build_tls_comparison F run_ids rows source_start source_stop ≡ ok comparison
    → (printed : List (List PairCoverage)) × (validate_tls_comparison comparison ≡ ok printed)
      × AllPairs (λ cell lines. AllPairs (IsCovered cell) cell.pairs lines) comparison.cells printed
unfolding validate_tls_comparison
build_tls_comparison-IsCovered F run_ids rows source_start source_stop comparison h =
    let (read, _, complete) =
      build_tls_comparison-IsComplete F run_ids rows source_start source_stop comparison h in
    for_each-returned (λ (cell : TlsCell). for_each (pair_coverage cell) cell.pairs)
      (λ cell lines. AllPairs (IsCovered cell) cell.pairs lines) comparison.cells
      (AllItems-mono (IsFinished F complete.identities) _ comparison.cells
        (λ cell finished. cell-IsCovered F complete.identities cell finished) complete.each_cell)
