-- ===== src/Runs/Summary/Kept.antt =====
-- runs.py: what is in the cells that `build_summary_cells` returns.
use where_to_tls.Base.{
  String, ◌≡◌, sym, ap, ◌∙◌, subst, true, false, not, List, [], ◌∷◌, ◌++◌, Dict, get_or, same_set,
  is_empty, ok, raise_if-eq-ok, passed, >>=-eq-ok, for_loop_done, for_each, AllItems,
  AllItems-append, AllItems-mono, no_metadata, execution_set_differs, string_eq, pair_eq, int_eq,
  nat_eq,
}
use where_to_tls.Config.{Family}
use where_to_tls.Common.RunIds.{run_family}
use where_to_tls.Common.Slots.{Execution, expected_executions}
use where_to_tls.Runs.Rows.{Row, execution_of, group_by_run, rows_of, group_by_run-rows_of}
use where_to_tls.Runs.Summary.{Cells, add_row, add_summary_run, build_summary_cells}
use where_to_tls.Runs.Summary.Placed.{IsBuilt}
use where_to_tls.Runs.Summary.Built.{
  HasRow, Keeps, add_row-Round, Round-IsBuilt, Round-HasRow, Round-Keeps,
}

-- The state behind some of the rows of a run.
record IsKept (run_id : String) (family : Family) (first : Cells) (done : List Row) (s : Cells)
    : Type 0 where
  built : IsBuilt s
  keeps : Keeps first s
  each_row : AllItems (HasRow s run_id family) done

add_row-IsKept :
    (run_id : String) (family : Family) (first : Cells) (done : List Row) (s : Cells) (row : Row)
    (t : Cells)
    → add_row run_id family s row ≡ ok t
    → IsKept run_id family first done s
    → IsKept run_id family first (done ++ (row ∷ [])) t
add_row-IsKept run_id family first done s row t h k =
    let r = add_row-Round run_id family s row t h in
    record {
      built = Round-IsBuilt run_id family s row t r k.built;
      keeps = λ run f other there.
          Round-Keeps run_id family s row t r run f other (k.keeps run f other there);
      each_row =
          AllItems-append (HasRow t run_id family) done (row ∷ [])
            (AllItems-mono (HasRow s run_id family) (HasRow t run_id family) done
              (λ other there. Round-Keeps run_id family s row t r run_id family other there)
              k.each_row)
            (Round-HasRow run_id family s row t r, tt);
    }

-- A supplied run in the cells: it has its executions, and each of its rows has its place.
pub record HasRun (rows : List Row) (s : Cells) (run_id : String) : Type 0 where
  pub some_row : is_empty (rows_of run_id rows) ≡ false
  pub family : Family
  pub named : run_family run_id ≡ ok family
  pub executions : List Execution
  pub read : for_each execution_of (rows_of run_id rows) ≡ ok executions
  pub complete : same_set executions (expected_executions family) ≡ true
  pub each_row : AllItems (HasRow s run_id family) (rows_of run_id rows)

later_run :
    (rows : List Row) (s t : Cells) (run_id : String)
    → Keeps s t
    → HasRun rows s run_id
    → HasRun rows t run_id
later_run rows s t run_id keeps r = record {
  some_row = r.some_row;
  family = r.family;
  named = r.named;
  executions = r.executions;
  read = r.read;
  complete = r.complete;
  each_row =
      AllItems-mono (HasRow s run_id r.family) (HasRow t run_id r.family) (rows_of run_id rows)
        (keeps run_id r.family) r.each_row;
}

module _ (rows : List Row) (by_run : Dict String (List Row))
    (grouped : group_by_run rows ≡ ok by_run) where
  -- A round leaves the rows that are there, and adds those of its run.
  add_summary_run-HasRun :
      (s : Cells) (run_id : String) (t : Cells)
      → add_summary_run by_run s run_id ≡ ok t
      → IsBuilt s
      → IsBuilt t × Keeps s t × HasRun rows t run_id
  unfolding add_summary_run
  add_summary_run-HasRun s run_id t h b =
      let own = group_by_run-rows_of rows by_run grouped run_id in
      let (some_row, h₁) =
        raise_if-eq-ok (is_empty (get_or run_id [] by_run)) (no_metadata run_id) _ h in
      let (family, named, h₂) = >>=-eq-ok (run_family run_id) _ h₁ in
      let (actual, read, h₃) = >>=-eq-ok (for_each execution_of (get_or run_id [] by_run)) _ h₂ in
      let (complete, h₄) =
        raise_if-eq-ok (not (same_set actual (expected_executions family)))
          (execution_set_differs run_id) _ h₃ in
      let k =
        for_loop_done (add_row run_id family) (IsKept run_id family s)
          (add_row-IsKept run_id family s) (get_or run_id [] by_run) [] s t h₄
          (record { built = b; keeps = λ run f row there. there; each_row = tt }) in
      (
        k.built,
        k.keeps,
        record {
          some_row = ap is_empty (sym own) ∙ some_row;
          family = family;
          named = named;
          executions = actual;
          read = ap (for_each execution_of) (sym own) ∙ read;
          complete = passed _ complete;
          each_row = subst (AllItems (HasRow t run_id family)) own k.each_row;
        },
      )

  add_summary_run-each :
      (done : List String) (s : Cells) (run_id : String) (t : Cells)
      → add_summary_run by_run s run_id ≡ ok t
      → IsBuilt s × AllItems (HasRun rows s) done
      → IsBuilt t × AllItems (HasRun rows t) (done ++ (run_id ∷ []))
  add_summary_run-each done s run_id t h (b, all) =
      let (built, keeps, new) = add_summary_run-HasRun s run_id t h b in
      (
        built,
        AllItems-append (HasRun rows t) done (run_id ∷ [])
            (AllItems-mono (HasRun rows s) (HasRun rows t) done
              (λ run r. later_run rows s t run keeps r) all)
            (new, tt),
      )

-- If `build_summary_cells` returns, then its cells have distinct keys, each cell has the TLS
-- configuration, family, profile and settings of its key and executions under their distinct
-- scenarios, stacks and repeats; and every supplied run has all expected executions of its family,
-- and each of its rows stands in the cell and under the execution that it names.
pub build_summary_cells-IsBuilt :
    (run_ids : List String) (rows : List Row) (read : Cells)
    → build_summary_cells run_ids rows ≡ ok read
    → IsBuilt read × AllItems (HasRun rows read) run_ids
unfolding build_summary_cells
build_summary_cells-IsBuilt run_ids rows read h =
    let (by_run, grouped, h₁) = >>=-eq-ok (group_by_run rows) _ h in
    for_loop_done (add_summary_run by_run) (λ done s. IsBuilt s × AllItems (HasRun rows s) done)
      (add_summary_run-each rows by_run grouped) run_ids []
      (record { scenario_order = []; cells = [] }) read h₁
      (record { distinct = tt; scenarios = tt; each_cell = tt }, tt)
