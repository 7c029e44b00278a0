-- ===== src/Runs/TlsComparison/Complete.antt =====
-- runs.py: the comparison that `build_tls_comparison` returns.
use where_to_tls.Base.{
  AllPairs, String, ◌≡◌, refl, sym, ap, ◌∙◌, subst, true, false, ◌==◌, some, List, [], ◌∷◌, Dict,
  keys, values, lookup, contains, map, NodupList, AllValues, AllValues-lookup, AllItems,
  AllItems-both, AllItems-map, AllItems-mono, Bool-cases, inl, inr, eq_of_test, ok, >>=-eq-ok,
  ok-injective, for_loop, string_eq, pair_eq, nat_eq, list_eq, arith,
}
use where_to_tls.Base.Occurs.{Occurs, map-Occurs, sort_by-Occurs, lookup-Occurs}
use where_to_tls.Base.Sorting.{
  sort_by, sort_by-AllItems, sort_by-IsSorted, sort_by-NodupList, IsSorted,
}
use where_to_tls.Config.{Family, Profile, stack_eq, family_eq, profile_eq}
use where_to_tls.Common.Numbers.{Floats}
use where_to_tls.Runs.Rows.{Row}
use where_to_tls.Runs.Summary.{
  Cell, Cells, CellKey, ExecutionKey, SummaryExecution, build_summary_cells,
}
use where_to_tls.Runs.Summary.Keys.{SameRepeat}
use where_to_tls.Runs.Summary.Groups.{tls_key, cell_name}
use where_to_tls.Runs.Summary.Placed.{IsItem, IsCell}
use where_to_tls.Runs.Summary.Kept.{build_summary_cells-IsBuilt}
use where_to_tls.Runs.TlsComparison.{
  Pair, ProfileKey, TlsCell, TlsComparison, Identities, pair_of, Profiles, tls_leq, finish_cell,
  add_record, add_source, build_tls_comparison,
}
use where_to_tls.Runs.TlsComparison.Taken.{IsTaken, records-AllRecords}
use where_to_tls.Runs.TlsComparison.Collected.{
  IsSupported, IsTlsCell, IsCollected, HasSource, add_source-IsCollected,
}
use where_to_tls.Base.Growth.{AllValues-values}
use where_to_tls.Runs.TlsComparison.Finished.{
  has_pair, tls_name, IsFinished, finish_cell-IsFinished, finish_cell_name, finished-lookup,
  measured_pair,
}
use where_to_tls.Runs.TlsComparison.Ordered.{contains-values}

-- A cell that was read, in the comparison: nothing of it is lost.
pub record IsCompared (F : Floats) (rows : List Row) (comparison : TlsComparison) (source : Cell)
    : Type 0 where
  pub cell : TlsCell
  pub listed : Occurs cell comparison.cells
  pub named : tls_name cell ≡ cell_name source
  pub collected : Cell
  pub there : lookup (tls_key source) cell.configurations ≡ some collected
  -- But for its executions it is the cell that was read; these are taken over in their order.
  pub same_cell : record collected { executions = source.executions } ≡ source
  pub taken : AllPairs (IsTaken F rows (cell_name source)) source.executions collected.executions
  pub drawn : (pair : Pair) → has_pair source pair ≡ true → contains cell.pairs pair ≡ true

item_ordered :
    (scenario_order : List String) (family : Family) (profile : Profile)
    (executions : Dict ExecutionKey SummaryExecution) (pair : Pair)
    → AllItems (IsItem scenario_order family profile) executions
    → contains (map pair_of (keys executions)) pair ≡ true
    → contains scenario_order pair.0 ≡ true
item_ordered scenario_order family profile [] pair all h = cc
item_ordered scenario_order family profile ((k, x) ∷ executions) pair all h =
    elim (Bool-cases (pair == pair_of k)) [
      | inl same ↦
          let e = eq_of_test pair (pair_of k) same in
          ap (λ (p : Pair). contains scenario_order p.0) e
          ∙ ap (λ (i : ExecutionKey). contains scenario_order i.0) all.0.same_key
          ∙ all.0.ordered
      | inr other ↦
          item_ordered scenario_order family profile executions pair all.1
            (ground (arith, other, h))
    ]

tls_leq_total : (a b : TlsCell) → tls_leq a b ≡ false → tls_leq b a ≡ true
tls_leq_total a b h = ground arith

names-values {ℓ} :
    (P : ProfileKey → TlsCell → Type ℓ) (d : Dict ProfileKey TlsCell)
    → ((k : ProfileKey) (cell : TlsCell) → P k cell → tls_name cell ≡ k)
    → AllValues P d
    → map tls_name (values d) ≡ keys d
names-values P [] named h = refl
names-values P ((k, cell) ∷ d) named h =
    ap (λ n. n ∷ map tls_name (values d)) (named k cell h.0)
    ∙ ap (λ ks. k ∷ ks) (names-values P d named h.1)

map-finish_cell :
    (scenario_order : List String) (cells : List TlsCell)
    → map tls_name (map (finish_cell scenario_order) cells) ≡ map tls_name cells
unfolding finish_cell
map-finish_cell scenario_order [] = refl
map-finish_cell scenario_order (cell ∷ cells) =
    ap (λ ns. tls_name cell ∷ ns) (map-finish_cell scenario_order cells)

finish_cell-IsSorted :
    (scenario_order : List String) (cells : List TlsCell)
    → IsSorted tls_leq cells
    → IsSorted tls_leq (map (finish_cell scenario_order) cells)
unfolding finish_cell
finish_cell-IsSorted scenario_order [] h = tt
finish_cell-IsSorted scenario_order (a ∷ []) h = (tt, tt)
finish_cell-IsSorted scenario_order (a ∷ b ∷ cells) h =
    (h.0, finish_cell-IsSorted scenario_order (b ∷ cells) h.1)

-- A comparison that was made from the cells that were read.
pub record IsComplete (F : Floats) (rows : List Row) (read : Cells) (comparison : TlsComparison)
    : Type 0 where
  pub identities : Identities
  pub each_cell : AllItems (IsFinished F identities) comparison.cells
  pub each_source : AllItems (IsCompared F rows comparison) (values read.cells)
  pub distinct : NodupList (map tls_name comparison.cells)
  pub sorted : IsSorted tls_leq comparison.cells

module _ (F : Floats) (rows : List Row) (read : Cells) (built : Profiles)
    (comparison : TlsComparison) (i : IsCollected F built)
    (result : map (finish_cell read.scenario_order) (sort_by tls_leq (values built.profiles))
      ≡ comparison.cells) where
  source-IsCompared :
      (source : Cell)
      → (key : CellKey) × IsCell read.scenario_order key source
      → HasSource F rows built.profiles source
      → IsCompared F rows comparison source
  source-IsCompared source (key, c) s =
      let t =
        AllValues-lookup (IsTlsCell F built.identities) built.profiles (cell_name source) s.cell
          i.each_cell s.found in
      let finished = finish_cell read.scenario_order s.cell in
      record {
        cell = finished;
        listed = subst (Occurs finished) result (
            map-Occurs (finish_cell read.scenario_order) s.cell _ (
              sort_by-Occurs tls_leq s.cell (values built.profiles)
                (lookup-Occurs (cell_name source) built.profiles s.cell s.found)));
        named = finish_cell_name read.scenario_order s.cell ∙ t.named;
        collected = s.collected;
        there = finished-lookup read.scenario_order s.cell (tls_key source) c.supported ∙ s.there;
        same_cell = s.same_cell;
        taken = s.taken;
        drawn = λ pair there.
            measured_pair read.scenario_order s.cell pair
              (item_ordered read.scenario_order source.family source.profile source.executions pair
                c.each_item there)
              (contains-values s.cell.configurations (tls_key source) s.collected pair s.there
                (ap (λ ks. contains (map pair_of ks) pair) s.same_keys ∙ there));
      }

  comparison-IsComplete :
      AllItems
        (λ source. (key : CellKey) × IsCell read.scenario_order key source)
        (values read.cells)
      → AllItems (HasSource F rows built.profiles) (values read.cells)
      → IsComplete F rows read comparison
  comparison-IsComplete cells sources = record {
    identities = built.identities;
    each_cell = subst (AllItems (IsFinished F built.identities)) result (
        AllItems-map (finish_cell read.scenario_order) (IsFinished F built.identities)
          (sort_by tls_leq (values built.profiles))
          (sort_by-AllItems tls_leq
            (λ cell. IsFinished F built.identities (finish_cell read.scenario_order cell))
            (values built.profiles)
            (AllItems-mono (λ cell. (key : ProfileKey) × IsTlsCell F built.identities key cell) _
              (values built.profiles)
              (λ cell p. finish_cell-IsFinished F built.identities read.scenario_order p.0 cell p.1)
              (AllValues-values (IsTlsCell F built.identities) built.profiles i.each_cell))));
    each_source =
        AllItems-mono _ (IsCompared F rows comparison) (values read.cells)
          (λ source p. source-IsCompared source p.0 p.1)
          (AllItems-both _ (HasSource F rows built.profiles) (values read.cells) cells sources);
    distinct =
        subst (λ cells'. NodupList (map tls_name cells')) result
          (subst NodupList
            (sym (map-finish_cell read.scenario_order (sort_by tls_leq (values built.profiles))))
            (sort_by-NodupList tls_leq tls_name (values built.profiles) (
              subst NodupList
                (sym (
                  names-values (IsTlsCell F built.identities) built.profiles (λ k cell p. p.named)
                    i.each_cell))
                i.distinct)));
    sorted = subst (IsSorted tls_leq) result (
        finish_cell-IsSorted read.scenario_order _
          (sort_by-IsSorted tls_leq tls_leq_total (values built.profiles)));
  }

-- If `build_tls_comparison` returns, then every cell of `build_summary_cells` stands in the cell of
-- its family and profile at its TLS configuration, with its scenarios and stacks among the pairs, and
-- with all its executions in their order, unchanged but for the byte counters that those of the flat
-- baseline get: the `configured_iterations`, `data_sent_bytes` and `data_received_bytes` of a row of
-- the execution's run and index;
-- no family and profile has two cells, and the cells are in the order of the families and of the
-- profiles; in each cell the configurations are in the order of the table, have the settings of the
-- cell and three repeats of each scenario and stack, and every pair was measured in one of them; and
-- each run has one scenario, stack and configuration, each pair one stack tag, each execution a
-- positive elapsed time and, in the flat baseline, counters of some requests.
pub build_tls_comparison-IsComplete :
    (F : Floats) (run_ids : List String) (rows : List Row) (source_start source_stop : String)
    (comparison : TlsComparison)
    → build_tls_comparison F run_ids rows source_start source_stop ≡ ok comparison
    → (read : Cells) × (build_summary_cells run_ids rows ≡ ok read)
      × IsComplete F rows read comparison
unfolding build_tls_comparison
build_tls_comparison-IsComplete F run_ids rows source_start source_stop comparison h =
    let (read, was_read, h₁) = >>=-eq-ok (build_summary_cells run_ids rows) _ h in
    let (records, indexed, h₂) = >>=-eq-ok (for_loop add_record [] rows) _ h₁ in
    let (built, looped, h₃) =
      >>=-eq-ok
        (for_loop (add_source F records)
          (record { profiles = []; identities = record { run_identities = []; pair_stacks = [] } })
          (values read.cells))
        _ h₂ in
    let (b, runs) = build_summary_cells-IsBuilt run_ids rows read was_read in
    let cells = AllValues-values (IsCell read.scenario_order) read.cells b.each_cell in
    let supported =
      AllItems-mono (λ source. (key : CellKey) × IsCell read.scenario_order key source) IsSupported
        (values read.cells)
        (λ source p. record {
          supported = p.1.supported;
          distinct = p.1.distinct;
          same_repeats =
              AllItems-mono (IsItem read.scenario_order source.family source.profile) SameRepeat
                source.executions (λ item i. ap (λ (k : ExecutionKey). k.1.1) i.same_key)
                p.1.each_item;
        })
        cells in
    let (collected, sources) =
      add_source-IsCollected F rows records (values read.cells) built
        (records-AllRecords rows records indexed) looped supported in
    (
      read,
      was_read,
      comparison-IsComplete F rows read built comparison collected
          (ap (λ (c : TlsComparison). c.cells) (ok-injective h₃)) cells sources,
    )
