-- ===== src/Exporter/TlsCells/Pooled.antt =====
-- exporter.py and datasets.py: the byte counters and the elapsed times of the executions that
-- `tls_configuration_executions` gives for a cell of `build_tls_comparison`.
use where_to_tls.Base.{
  ◌<◌, String, ◌≡◌, sym, ap, ◌∙◌, true, false, some, List, [], ◌∷◌, Dict, lookup, has_key, map,
  AllItems, AllItems-mono, AllValues-lookup, Bool-cases, Option-cases, inl, inr, Result, ok,
  string_eq, pair_eq, nat_eq,
}
use where_to_tls.Base.Occurs.{Occurs, AllItems-Occurs}
use where_to_tls.Config.{Stack, stack_eq}
use where_to_tls.Common.Numbers.{Floats}
use where_to_tls.Runs.Rows.{Row}
use where_to_tls.Runs.Summary.{Cell, ExecutionKey, SummaryExecution}
use where_to_tls.Runs.Summary.Groups.{TlsKey}
use where_to_tls.Runs.TlsComparison.{
  ProfileKey, TlsCell, TlsComparison, Identities, is_flat, build_tls_comparison,
}
use where_to_tls.Runs.TlsComparison.Agreement.{IsAgreed, IsChecked, IsCounted}
use where_to_tls.Runs.TlsComparison.Collected.{IsSource}
use where_to_tls.Runs.TlsComparison.Finished.{tls_name, IsFinished}
use where_to_tls.Runs.TlsComparison.Complete.{build_tls_comparison-IsComplete}
use where_to_tls.Datasets.Pooled.{PooledBytes, execution_elapsed_seconds, pooled_byte_values}
use where_to_tls.Datasets.Pooled.Counted.{
  execution_elapsed_seconds-returned, pooled_byte_values-returned,
}
use where_to_tls.Exporter.Cells.{
  repeat_of, cell_executions, IsAmong, here, there, cell_executions-IsAmong,
}
use where_to_tls.Exporter.TlsCells.{source_executions, tls_configuration_executions}

no_execution :
    {A : Type 0} (first : SummaryExecution) (others : List SummaryExecution)
    → ◌≡◌ {A = Result (List SummaryExecution)} (ok []) (ok (first ∷ others))
    → A
no_execution first others h = cc

among :
    (P : ExecutionKey × SummaryExecution → Type 0) (Q : SummaryExecution → Type 0)
    → ((item : ExecutionKey × SummaryExecution) → P item → Q item.1)
    → (scenario : String) (stack : Stack) (x : SummaryExecution)
      (d : Dict ExecutionKey SummaryExecution)
    → AllItems P d
    → IsAmong scenario stack x d
    → Q x
among P Q each scenario stack x _ h (here repeat d) = each ((scenario, (stack, repeat)), x) h.0
among P Q each scenario stack x _ h (there item d a) = among P Q each scenario stack x d h.1 a

-- What is known of executions that are drawn.
record IsDrawn (F : Floats) (key : ProfileKey) (executions : List SummaryExecution) : Type 0 where
  repeats : map repeat_of executions ≡ 0 ∷ 1 ∷ 2 ∷ []
  timed :
      AllItems
        (λ x.
          (elapsed : F.Float) × (F.is_non_positive elapsed ≡ false)
          × ((context : String)
              → execution_elapsed_seconds F x context ≡ ok (F.div elapsed (F.of_ℕ 1000))))
        executions
  counted : is_flat key ≡ true → AllItems (IsCounted F) executions

module _ (F : Floats) (identities : Identities) (cell : TlsCell)
    (finished : IsFinished F identities cell) where
  source-IsDrawn :
      (configuration : TlsKey) (source : Cell) (scenario : String) (stack : Stack)
      (executions : List SummaryExecution)
      → lookup configuration cell.configurations ≡ some source
      → cell_executions source scenario stack ≡ ok executions
      → IsDrawn F (tls_name cell) executions
  source-IsDrawn configuration source scenario stack executions found read =
      let i =
        AllValues-lookup (IsSource F identities (tls_name cell) cell.compatibility)
          cell.configurations configuration source finished.each_source found in
      let (repeats, among_cell) = cell_executions-IsAmong source scenario stack executions read in
      let checked =
        AllItems-mono (λ x. IsAmong scenario stack x source.executions)
          (λ x.
            IsAgreed F identities (tls_name cell) configuration x
            × (is_flat (tls_name cell) ≡ true → IsCounted F x))
          executions
          (λ x.
            among (IsChecked F identities (tls_name cell) configuration)
              (λ y.
                IsAgreed F identities (tls_name cell) configuration y
                × (is_flat (tls_name cell) ≡ true → IsCounted F y))
              (λ item c. c) scenario stack x source.executions i.checked)
          among_cell in
      record {
        repeats = repeats;
        timed =
            AllItems-mono _ _ executions
              (λ x c. (
                c.0.elapsed,
                c.0.positive,
                λ context.
                    execution_elapsed_seconds-returned F x context c.0.elapsed c.0.read
                      c.0.positive,
              ))
              checked;
        counted = λ flat. AllItems-mono _ (IsCounted F) executions (λ x c. c.1 flat) checked;
      }

  executions-IsDrawn :
      (scenario : String) (stack : Stack) (configuration : TlsKey) (first : SummaryExecution)
      (others : List SummaryExecution)
      → tls_configuration_executions cell scenario stack configuration ≡ ok (first ∷ others)
      → IsDrawn F (tls_name cell) (first ∷ others)
  unfolding tls_configuration_executions source_executions
  executions-IsDrawn scenario stack configuration first others h =
      elim (Option-cases (lookup configuration cell.configurations)) [
        | inl missing ↦
            no_execution first others
              (ap (λ o. source_executions o scenario stack) (sym missing) ∙ h)
        | inr (source, found) ↦
            let opened = ap (λ o. source_executions o scenario stack) (sym found) ∙ h in
            elim (Bool-cases (has_key (scenario, (stack, 0)) source.executions)) [
              | inr absent ↦ no_execution first others (rw absent at opened)
              | inl is_there ↦
                  source-IsDrawn configuration source scenario stack (first ∷ others) found
                    (rw is_there at opened)
            ]
      ]

-- If `build_tls_comparison` returns, and `tls_configuration_executions` gives executions of a cell of
-- the flat baseline, then for every context `execution_elapsed_seconds` returns on each of them, and
-- `pooled_byte_values` returns on all of them, with a positive number of requests.
pub build_tls_comparison-pooled_byte_values :
    (F : Floats) (run_ids : List String) (rows : List Row) (source_start source_stop : String)
    (comparison : TlsComparison)
    → build_tls_comparison F run_ids rows source_start source_stop ≡ ok comparison
    → (cell : TlsCell) → Occurs cell comparison.cells
    → is_flat (tls_name cell) ≡ true
    → (scenario : String) (stack : Stack) (configuration : TlsKey) (first : SummaryExecution)
      (others : List SummaryExecution)
    → tls_configuration_executions cell scenario stack configuration ≡ ok (first ∷ others)
    → (context : String)
    → AllItems
        (λ x. (seconds : F.Float) × (execution_elapsed_seconds F x context ≡ ok seconds))
        (first ∷ others)
      × (values : PooledBytes F) × (pooled_byte_values F (first ∷ others) context ≡ ok values)
      × (0 < values.request_count)
build_tls_comparison-pooled_byte_values F run_ids rows source_start source_stop comparison h cell
      occurs flat scenario stack configuration first others read context =
    let (_, _, complete) =
      build_tls_comparison-IsComplete F run_ids rows source_start source_stop comparison h in
    let finished =
      AllItems-Occurs (IsFinished F complete.identities) cell comparison.cells complete.each_cell
        occurs in
    let drawn =
      executions-IsDrawn F complete.identities cell finished scenario stack configuration first
        others read in
    let (values, read_values, some_request) =
      pooled_byte_values-returned F (first ∷ others) context drawn.repeats (drawn.counted flat) in
    (
      AllItems-mono _ _ (first ∷ others) (λ x t. (F.div t.0 (F.of_ℕ 1000), t.2 context))
          drawn.timed,
      values,
      read_values,
      some_request,
    )
