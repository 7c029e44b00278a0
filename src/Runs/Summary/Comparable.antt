-- ===== src/Runs/Summary/Comparable.antt =====
-- runs.py: the groups that `build_scenario_summary_groups` returns are comparable.
use where_to_tls.Base.{
  passed, String, ◌≡◌, refl, sym, ap, ◌∙◌, subst, true, false, not, ◌==◌, List, [], ◌∷◌, Dict,
  values, map, is_nodup, is_nodup-NodupList, NodupList, AllItems, AllItems-append, AllValues,
  AllValues-insert, ok, raise_if, raise_if-eq-ok, >>=-eq-ok, ok-injective, for_loop, for_loop_done,
  AllItems-last, for_loop-AllItems, for_each-AllItems, duplicate_cells, scenario_sets_differ,
  string_eq, pair_eq, list_eq, nat_eq, arith,
}
use where_to_tls.Base.Growth.{get_or-AllValues, AllValues-values}
use where_to_tls.Base.Occurs.{Occurs, each-Occurs}
use where_to_tls.Base.Sorting.{IsSorted, sort_by-IsSorted, sort_by-AllItems, sort_by-NodupList}
use where_to_tls.Config.{family_eq, profile_eq}
use where_to_tls.Runs.Rows.{Row}
use where_to_tls.Runs.Summary.{Cell, Cells, build_summary_cells}
use where_to_tls.Runs.Summary.Groups.{
  Group, TlsKey, new_group, put_cell, tls_key, add_cell, cell_leq, cell_name, check_cell,
  check_same_scenarios, finish_group, build_scenario_summary_groups,
}
use where_to_tls.Runs.Summary.Product.{IsProduct, check_cell-IsProduct}

-- A checked cell of a TLS configuration.
pub record IsCellOf (read : Cells) (key : TlsKey) (cell : Cell) : Type 0 where
  pub same_key : tls_key cell ≡ key
  pub source : Cell
  pub listed : Occurs source (values read.cells)
  pub complete : IsProduct read.scenario_order source cell

module _ (read : Cells) where
  record IsGroupOf (key : TlsKey) (group : Group) : Type 0 where
    version : group.tls_version ≡ key.0
    tls_group : group.tls_group ≡ key.1
    each_cell : AllItems (IsCellOf read key) group.cells

  new_group-IsGroupOf : (a b : String) (key : TlsKey) → IsGroupOf key (new_group a b key)
  new_group-IsGroupOf a b (version, group) = record {
    version = refl;
    tls_group = refl;
    each_cell = tt;
  }

  put_cell-IsGroupOf :
      (key : TlsKey) (cell : Cell) (group : Group)
      → IsCellOf read key cell
      → IsGroupOf key group
      → IsGroupOf key (put_cell cell group)
  unfolding put_cell
  put_cell-IsGroupOf key cell group c g = record {
    version = g.version;
    tls_group = g.tls_group;
    each_cell = AllItems-append (IsCellOf read key) group.cells (cell ∷ []) g.each_cell (c, tt);
  }

  add_cell-IsGroupOf :
      (a b : String) (grouped : Dict TlsKey Group) (cell : Cell) (after : Dict TlsKey Group)
      → add_cell a b read.scenario_order grouped cell ≡ ok after
      → Occurs cell (values read.cells)
      → AllValues IsGroupOf grouped
      → AllValues IsGroupOf after
  unfolding add_cell
  add_cell-IsGroupOf a b grouped cell after h listed all =
      let (checked, c, h₁) = >>=-eq-ok (check_cell read.scenario_order cell) _ h in
      let is : IsCellOf read (tls_key checked) checked = record {
        same_key = refl;
        source = cell;
        listed = listed;
        complete = check_cell-IsProduct read.scenario_order cell checked c;
      } in
      subst (AllValues IsGroupOf) (ok-injective h₁) (
        AllValues-insert IsGroupOf grouped (tls_key checked) _
          (put_cell-IsGroupOf (tls_key checked) checked _ is (
            get_or-AllValues IsGroupOf grouped (tls_key checked) (new_group a b (tls_key checked))
              all (new_group-IsGroupOf a b (tls_key checked))))
          all)

cell_leq_total : (a b : Cell) → cell_leq a b ≡ false → cell_leq b a ≡ true
cell_leq_total a b h = ground arith

-- A group of cells that can be compared with one another.
pub record IsComparable (read : Cells) (group : Group) : Type 0 where
  pub each_cell : AllItems (IsCellOf read (group.tls_version, group.tls_group)) group.cells
  pub scenarios : List String
  pub same_scenarios : AllItems (λ (cell : Cell). cell.scenarios ≡ scenarios) group.cells
  pub distinct : NodupList (map cell_name group.cells)
  pub sorted : IsSorted cell_leq group.cells

check_same_scenarios-eq-ok :
    (group : Group) (cells : List Cell) (u : Unit {0})
    → check_same_scenarios group cells ≡ ok u
    → (scenarios : List String) × AllItems (λ (cell : Cell). cell.scenarios ≡ scenarios) cells
unfolding check_same_scenarios
check_same_scenarios-eq-ok group [] u h = cc
check_same_scenarios-eq-ok group (first ∷ others) u h = (
  first.scenarios,
  (
    refl,
    for_loop-AllItems
        (λ _ (cell : Cell).
          raise_if (not (cell.scenarios == first.scenarios))
            (scenario_sets_differ group.tls_version))
        (λ cell. cell.scenarios ≡ first.scenarios) (λ s cell t k. ground arith) others tt u h,
  ),
)

finish_group-IsComparable :
    (read : Cells) (group finished : Group)
    → finish_group group ≡ ok finished
    → (key : TlsKey) × IsGroupOf read key group
    → IsComparable read finished
unfolding finish_group
finish_group-IsComparable read group finished h (key, g) =
    let (distinct, h₁) =
      raise_if-eq-ok (not (is_nodup (map cell_name group.cells)))
        (duplicate_cells group.tls_version) _ h in
    let (u, checked, h₂) = >>=-eq-ok (check_same_scenarios group group.cells) _ h₁ in
    let (scenarios, same) = check_same_scenarios-eq-ok group group.cells u checked in
    let named : key ≡ (group.tls_version, group.tls_group) =
      ap (λ v. (v, key.1)) (sym g.version) ∙ ap (λ v. (group.tls_version, v)) (sym g.tls_group) in
    subst (IsComparable read) (ok-injective h₂) (record {
      each_cell =
          sort_by-AllItems cell_leq _ group.cells
            (subst (λ k. AllItems (IsCellOf read k) group.cells) named g.each_cell);
      scenarios = scenarios;
      same_scenarios =
          sort_by-AllItems cell_leq (λ cell. cell.scenarios ≡ scenarios) group.cells same;
      distinct =
          sort_by-NodupList cell_leq cell_name group.cells
            (is_nodup-NodupList _ (passed _ distinct));
      sorted = sort_by-IsSorted cell_leq cell_leq_total group.cells;
    })

-- If `build_scenario_summary_groups` returns, then in each of its groups every cell is a cell that
-- `build_summary_cells` returned, with the TLS version and group of the group, at least two
-- scenarios, which are the same for all of its cells, and its executions are the product of its scenarios, its stacks and the three repeats; no family
-- and profile has two cells, and the cells are in the order of the families and of the profiles.
pub build_scenario_summary_groups-IsComparable :
    (run_ids : List String) (rows : List Row) (source_start source_stop : String)
    (groups : List Group)
    → build_scenario_summary_groups run_ids rows source_start source_stop ≡ ok groups
    → (read : Cells) × (build_summary_cells run_ids rows ≡ ok read)
      × AllItems (IsComparable read) groups
unfolding build_scenario_summary_groups
build_scenario_summary_groups-IsComparable run_ids rows source_start source_stop groups h =
    let (read, built, h₁) = >>=-eq-ok (build_summary_cells run_ids rows) _ h in
    let (grouped, looped, h₂) =
      >>=-eq-ok
        (for_loop (add_cell source_start source_stop read.scenario_order) [] (values read.cells)) _
        h₁ in
    let all =
      for_loop_done (add_cell source_start source_stop read.scenario_order)
        (λ done d.
          AllItems (λ cell. Occurs cell (values read.cells)) done → AllValues (IsGroupOf read) d)
        (λ done d cell t step p listed.
          let (before, new) = AllItems-last (λ c. Occurs c (values read.cells)) done cell listed in
          add_cell-IsGroupOf read source_start source_stop d cell t step new (p before))
        (values read.cells) [] [] grouped looped (λ _. tt) (each-Occurs (values read.cells)) in
    (
      read,
      built,
      for_each-AllItems finish_group _ (IsComparable read) (finish_group-IsComparable read)
          (values grouped) groups h₂ (AllValues-values (IsGroupOf read) grouped all),
    )
