-- ===== src/Runs/Summary/Groups.antt =====
-- runs.py: `build_scenario_summary_groups`. The cells of a TLS configuration are a group.
use where_to_tls.Base.{
  ℕ, String, ◌<>◌, Bool, not, ◌&&◌, ◌||◌, ◌==◌, List, [], ◌∷◌, ◌++◌, Dict, keys, values, insert,
  get_or, contains, same_set, is_nodup, select, any, ltb, leb, map, append_new, Result, ok, err,
  raise_if, ◌>>=◌, ◌>>◌, for_loop, for_each, key_error, single_scenario, key_error,
  stack_sets_differ, incomplete_profile_runs, duplicate_cells, scenario_sets_differ, string_eq,
  nat_eq, pair_eq, list_eq,
}
use where_to_tls.Base.Sorting.{index, sort_by, leb_text}
use where_to_tls.Base.Text.{without_char, lower}
use where_to_tls.Config.{
  Stack, Family, Profile, stack_order, profile_label, families, profile_order, stack_eq, family_eq,
  profile_eq,
}
use where_to_tls.Runs.Rows.{Row}
use where_to_tls.Runs.Summary.{Cell, ExecutionKey, SummaryExecution, build_summary_cells}

-- The stacks of a scenario, and the repeats of a scenario's stack, among the executions.
abbrev pub stacks_of : List ExecutionKey → String → List Stack
stacks_of ks scenario = map (λ k. k.1.0) (select (λ k. k.0 == scenario) ks)

abbrev pub repeats_of : List ExecutionKey → String → Stack → List ℕ
repeats_of ks scenario stack = map (λ k. k.1.1) (select (λ k. k.0 == scenario && k.1.0 == stack) ks)

-- The scenarios of a cell, in the order in which they were first read.
abbrev pub scenarios_of : List String → List ExecutionKey → List String
scenarios_of scenario_order ks = select (λ scenario. any (λ k. k.0 == scenario) ks) scenario_order

unfoldable pub check_stacks : Cell → List Stack → String → Result (Unit {0})
check_stacks cell expected scenario = do
  raise_if (not (same_set (stacks_of (keys cell.executions) scenario) expected))
      (stack_sets_differ (profile_label cell.profile))

-- The repeats of every scenario's expected stacks.
unfoldable pub check_repeats : Cell → String → Stack → Result (Unit {0})
check_repeats cell scenario stack = do
  raise_if (not (same_set (repeats_of (keys cell.executions) scenario stack) (0 ∷ 1 ∷ 2 ∷ [])))
      (incomplete_profile_runs scenario)

unfoldable pub check_scenario : Cell → List Stack → String → Result (Unit {0})
check_scenario cell expected scenario =
    for_loop (λ _ stack. check_repeats cell scenario stack) tt expected

-- The checks of a cell with the scenarios `first ∷ others`.
unfoldable pub check_product : Cell → String → List String → Result Cell
unfolding stack_eq
check_product cell first others = do
  let expected = stacks_of (keys cell.executions) first
  for_loop (λ _ scenario. check_stacks cell expected scenario) tt others
  for_loop (λ _ scenario. check_scenario cell expected scenario) tt (first ∷ others)
  ok (record cell { scenarios = first ∷ others; stacks = select (contains expected) stack_order })

unfoldable pub check_scenarios : Cell → List String → Result Cell
check_scenarios cell [] = err (single_scenario (profile_label cell.profile))
check_scenarios cell (only ∷ []) = err (single_scenario (profile_label cell.profile))
check_scenarios cell (first ∷ second ∷ others) = check_product cell first (second ∷ others)

-- The body of the loop over the cells, up to `cell["stacks"] = …`.
unfoldable pub check_cell : List String → Cell → Result Cell
check_cell scenario_order cell =
    check_scenarios cell (scenarios_of scenario_order (keys cell.executions))

-- The dict of one group; `run_ids` is a set, without order, until `finish_group` sorts it, and `id`
-- is "" until then.
pub record Group : Type 0 where
  pub id : String
  pub tls_version : String
  pub tls_group : String
  pub source_start : String
  pub source_stop : String
  pub scenario_order : List String
  pub cells : List Cell
  pub run_ids : List String

abbrev pub TlsKey : Type 0
TlsKey = String × String

abbrev pub new_group : String → String → TlsKey → Group
new_group source_start source_stop (version, group) = record {
  id = "";
  tls_version = version;
  tls_group = group;
  source_start = source_start;
  source_stop = source_stop;
  scenario_order = [];
  cells = [];
  run_ids = [];
}

unfoldable pub append_all : List String → List String → List String
unfolding string_eq
append_all seen [] = seen
append_all seen (x ∷ xs) = append_all (append_new seen x) xs

unfoldable pub put_cell : Cell → Group → Group
put_cell cell group = record group {
  scenario_order = append_all group.scenario_order cell.scenarios;
  cells = group.cells ++ (cell ∷ []);
  run_ids =
      append_all group.run_ids
        (map (λ (execution : SummaryExecution). execution.run_id) (values cell.executions));
}

-- The key of `grouped`.
abbrev pub tls_key : Cell → TlsKey
tls_key cell = (cell.tls_version, cell.tls_group)

-- The body of the loop over the cells.
unfoldable pub add_cell :
    String → String → List String → Dict TlsKey Group → Cell → Result (Dict TlsKey Group)
unfolding pair_eq string_eq
add_cell source_start source_stop scenario_order grouped cell = do
  checked ← check_cell scenario_order cell
  ok (
      insert (tls_key checked)
        (put_cell checked
          (get_or (tls_key checked) (new_group source_start source_stop (tls_key checked)) grouped))
        grouped)

-- The key of the sort: the places of the family and of the profile.
abbrev pub place : Cell → ℕ × ℕ
place cell = (index families cell.family, index profile_order cell.profile)

-- `<=` on these pairs
abbrev pub cell_leq : Cell → Cell → Bool
cell_leq a b =
    ltb (place a).0 (place b).0 || ((place a).0 == (place b).0 && leb (place a).1 (place b).1)

abbrev pub cell_name : Cell → Family × Profile
cell_name cell = (cell.family, cell.profile)

-- Every later cell has the scenarios of the first one.
unfoldable pub check_same_scenarios : Group → List Cell → Result (Unit {0})
unfolding list_eq string_eq
check_same_scenarios group [] = err (key_error "cells")
check_same_scenarios group (first ∷ others) =
    for_loop
      (λ _ (cell : Cell).
        raise_if (not (cell.scenarios == first.scenarios)) (scenario_sets_differ group.tls_version))
      tt others

-- The body of the loop over the groups. `len(names) != len(set(names))` holds where a name stands
-- twice.
unfoldable pub finish_group : Group → Result Group
unfolding pair_eq family_eq profile_eq
finish_group group = do
  raise_if (not (is_nodup (map cell_name group.cells))) (duplicate_cells group.tls_version)
  check_same_scenarios group group.cells
  ok (record group {
    id =
        "scenario-summary-tls"
        <> without_char b'.' group.tls_version
        <> "-"
        <> lower group.tls_group;
    run_ids = sort_by leb_text group.run_ids;
    cells = sort_by cell_leq group.cells;
  })

unfoldable pub build_scenario_summary_groups :
    List String → List Row → String → String → Result (List Group)
build_scenario_summary_groups run_ids rows source_start source_stop = do
  read ← build_summary_cells run_ids rows
  grouped ← for_loop (add_cell source_start source_stop read.scenario_order) [] (values read.cells)
  for_each finish_group (values grouped)
