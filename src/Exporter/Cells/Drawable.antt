-- ===== src/Exporter/Cells/Drawable.antt =====
-- exporter.py: `cell_executions` on the cells that are drawn.
use where_to_tls.Base.{
  ℕ, String, ◌≡◌, refl, sym, ap, ◌∙◌, subst, true, false, not, ◌&&◌, ◌==◌, List, [], ◌∷◌, Dict,
  keys, values, select, contains, contains-select, any, map, leb, NodupList, NodupKeys, Bool-cases,
  inl, inr, ok, raise_if, ◌>>◌, AllItems, AllItems-mono, eq_of_test, test_of_eq,
  incomplete_executions, string_eq, nat_eq, list_eq, pair_eq, arith,
}
use where_to_tls.Base.Growth.{AllValues-values}
use where_to_tls.Base.Occurs.{AllItems-Occurs}
use where_to_tls.Base.Sorting.{
  sort_by, sort_by-IsSorted, sort_by-NodupList, contains-sort_by, IsSorted,
}
use where_to_tls.Base.Increasing.{IsSorted-IsIncreasing, IsIncreasing-eq}
use where_to_tls.Config.{Stack, stack_eq, family_eq, profile_eq}
use where_to_tls.Runs.Rows.{Row}
use where_to_tls.Runs.Summary.{Cell, CellKey, ExecutionKey, SummaryExecution}
use where_to_tls.Runs.Summary.Keys.{SameRepeat, three, contains-repeats_of}
use where_to_tls.Runs.Summary.Placed.{IsItem, IsCell}
use where_to_tls.Runs.Summary.Kept.{build_summary_cells-IsBuilt}
use where_to_tls.Runs.Summary.Product.{IsProduct}
use where_to_tls.Runs.Summary.Comparable.{
  IsCellOf, IsComparable, build_scenario_summary_groups-IsComparable,
}
use where_to_tls.Runs.Summary.Groups.{Group, repeats_of, build_scenario_summary_groups}
use where_to_tls.Exporter.Cells.{is_of, repeat_leq, repeat_of, cell_executions}

repeats_of-values :
    (d : Dict ExecutionKey SummaryExecution) (scenario : String) (stack : Stack)
    → AllItems SameRepeat d
    → map repeat_of (values (select (is_of scenario stack) d)) ≡ repeats_of (keys d) scenario stack
repeats_of-values [] scenario stack h = refl
repeats_of-values ((k, x) ∷ d) scenario stack h =
    elim (Bool-cases (k.0 == scenario && k.1.0 == stack)) [
      | inl is ↦ rw is (
          ap (λ r. r ∷ map repeat_of (values (select (is_of scenario stack) d))) (sym h.0)
          ∙ ap (λ rs. k.1.1 ∷ rs) (repeats_of-values d scenario stack h.1))
      | inr is_not ↦ rw is_not (repeats_of-values d scenario stack h.1)
    ]

own_key :
    (k : ExecutionKey) (scenario : String) (stack : Stack)
    → (k.0 == scenario && k.1.0 == stack) ≡ true
    → k ≡ (scenario, (stack, k.1.1))
own_key (s, (t, r)) scenario stack h =
    ap (λ s'. (s', (t, r))) (eq_of_test s scenario (ground (arith, h)))
    ∙ ap (λ t'. (scenario, (t', r))) (eq_of_test t stack (ground (arith, h)))

repeats_of-NodupList :
    (ks : List ExecutionKey) (scenario : String) (stack : Stack)
    → NodupList ks
    → NodupList (repeats_of ks scenario stack)
repeats_of-NodupList [] scenario stack u = tt
repeats_of-NodupList (k ∷ ks) scenario stack u =
    elim (Bool-cases (k.0 == scenario && k.1.0 == stack)) [
      | inl is ↦ rw is (
        contains-repeats_of ks scenario stack k.1.1
            ∙ ap (contains ks) (sym (own_key k scenario stack is))
            ∙ u.0,
        repeats_of-NodupList ks scenario stack u.1,
      )
      | inr is_not ↦ rw is_not (repeats_of-NodupList ks scenario stack u.1)
    ]

repeat_leq_total : (a b : SummaryExecution) → repeat_leq a b ≡ false → repeat_leq b a ≡ true
repeat_leq_total a b h = ground arith

IsSorted-repeats :
    (xs : List SummaryExecution) → IsSorted repeat_leq xs → IsSorted leb (map repeat_of xs)
IsSorted-repeats [] s = tt
IsSorted-repeats (x ∷ []) s = (tt, tt)
IsSorted-repeats (x ∷ y ∷ xs) s = (s.0, IsSorted-repeats (y ∷ xs) s.1)

three_repeats :
    (d : Dict ExecutionKey SummaryExecution) (scenario : String) (stack : Stack)
    → AllItems SameRepeat d
    → NodupKeys d
    → ((repeat : ℕ) → contains (keys d) (scenario, (stack, repeat)) ≡ contains three repeat)
    → map repeat_of (sort_by repeat_leq (values (select (is_of scenario stack) d))) ≡ three
three_repeats d scenario stack same u complete =
    let own = values (select (is_of scenario stack) d) in
    let e = repeats_of-values d scenario stack same in
    IsIncreasing-eq (map repeat_of (sort_by repeat_leq own)) three
      (IsSorted-IsIncreasing (map repeat_of (sort_by repeat_leq own))
        (IsSorted-repeats (sort_by repeat_leq own)
          (sort_by-IsSorted repeat_leq repeat_leq_total own))
        (sort_by-NodupList repeat_leq repeat_of own
          (subst NodupList (sym e) (repeats_of-NodupList (keys d) scenario stack u))))
      (refl, (refl, (refl, tt)))
      (λ r.
        contains-sort_by repeat_leq repeat_of own r
        ∙ ap (λ rs. contains rs r) e
        ∙ contains-repeats_of (keys d) scenario stack r
        ∙ complete r)

-- Where a cell has the three repeats of a scenario and a stack under their keys, `cell_executions`
-- returns.
pub cell_executions_complete :
    (cell : Cell) (scenario : String) (stack : Stack)
    → AllItems SameRepeat cell.executions
    → NodupKeys cell.executions
    → ((repeat : ℕ)
        → contains (keys cell.executions) (scenario, (stack, repeat)) ≡ contains three repeat)
    → (executions : List SummaryExecution) × (cell_executions cell scenario stack ≡ ok executions)
unfolding cell_executions
cell_executions_complete cell scenario stack same u complete =
    let executions = sort_by repeat_leq (values (select (is_of scenario stack) cell.executions)) in
    let passes =
      test_of_eq (map repeat_of executions) three
        (three_repeats cell.executions scenario stack same u complete) in
    (
      executions,
      ap (λ b. raise_if (not b) (incomplete_executions scenario) >> ok executions) passes,
    )

-- The lists that the driver asks for.
abbrev pub IsDrawable : Cell → Type 0
IsDrawable cell =
    (scenario : String) (stack : Stack)
    → contains cell.scenarios scenario ≡ true
    → contains cell.stacks stack ≡ true
    → (executions : List SummaryExecution) × (cell_executions cell scenario stack ≡ ok executions)

listed_scenario :
    (scenario_order : List String) (source cell : Cell) (scenario : String)
    → IsProduct scenario_order source cell
    → contains cell.scenarios scenario ≡ true
    → contains scenario_order scenario ≡ true
listed_scenario scenario_order source cell scenario p h =
    let listed = ap (λ xs. contains xs scenario) (sym p.listed) ∙ h in
    ground (
      arith,
      listed,
      contains-select (λ s. any (λ k. k.0 == s) (keys source.executions)) scenario_order scenario,
    )

IsProduct-IsDrawable :
    (scenario_order : List String) (source cell : Cell) (key : CellKey)
    → IsCell scenario_order key source
    → IsProduct scenario_order source cell
    → IsDrawable cell
IsProduct-IsDrawable scenario_order source cell key c p scenario stack m n =
    let kept = sym p.kept in
    let same =
      AllItems-mono (IsItem scenario_order source.family source.profile) SameRepeat
        source.executions (λ item i. ap (λ (k : ExecutionKey). k.1.1) i.same_key) c.each_item in
    let ordered = listed_scenario scenario_order source cell scenario p m in
    cell_executions_complete cell scenario stack (subst (AllItems SameRepeat) kept same)
      (subst NodupKeys kept c.distinct)
      (λ repeat. p.product scenario stack repeat ordered ∙ ground (arith, m, n))

-- If `build_scenario_summary_groups` returns, then for every scenario and stack of a cell that it
-- returns, `cell_executions` returns.
pub build_scenario_summary_groups-IsDrawable :
    (run_ids : List String) (rows : List Row) (source_start source_stop : String)
    (groups : List Group)
    → build_scenario_summary_groups run_ids rows source_start source_stop ≡ ok groups
    → AllItems (λ (group : Group). AllItems IsDrawable group.cells) groups
build_scenario_summary_groups-IsDrawable run_ids rows source_start source_stop groups h =
    let (read, was_read, all) =
      build_scenario_summary_groups-IsComparable run_ids rows source_start source_stop groups h in
    let (built, _) = build_summary_cells-IsBuilt run_ids rows read was_read in
    let sources = AllValues-values (IsCell read.scenario_order) read.cells built.each_cell in
    AllItems-mono (IsComparable read) _ groups
      (λ group c.
        AllItems-mono (IsCellOf read (group.tls_version, group.tls_group)) IsDrawable group.cells
          (λ cell i.
            let (key, is_cell) = AllItems-Occurs _ i.source (values read.cells) sources i.listed in
            IsProduct-IsDrawable read.scenario_order i.source cell key is_cell i.complete)
          c.each_cell)
      all
