-- ===== src/Runs/Summary/Built.antt =====
-- runs.py: the loops of `build_summary_cells`.
use where_to_tls.Base.{
  String, ◌≡◌, refl, sym, ap, ◌∙◌, subst, false, ◌||◌, ◌==◌, some, List, [], ◌∷◌, lookup, insert,
  get_or, get_or_of_lookup, has_key, lookup-insert_self, lookup-insert_ne, insert_absent,
  insert-NodupKeys, append_new-NodupList, contains, contains-append_new, append_new, Bool-cases,
  inl, inr, eq_of_test, test_of_eq, ok, raise_if-eq-ok, >>=-eq-ok, ok-injective, AllItems,
  AllItems-append, AllItems-mono, AllValues-insert, duplicate_execution, arith, string_eq,
  option_eq, pair_eq, int_eq, nat_eq, list_eq,
}
use where_to_tls.Base.Growth.{Extends-insert, get_or-AllValues, AllValues-mono}
use where_to_tls.Config.{Family, Profile, stack_eq, family_eq, profile_eq}
use where_to_tls.Runs.Rows.{Row}
use where_to_tls.Runs.Summary.{
  Cell, Cells, CellKey, ExecutionKey, SummaryExecution, RowPlace, new_cell, put_execution,
  row_place, add_row,
}
use where_to_tls.Runs.Summary.Placed.{IsItem, key_of, IsCell, IsBuilt, IsPlace, row_place-IsPlace}

-- A row in the cells, at the place that it names.
pub record HasRow (s : Cells) (run_id : String) (family : Family) (row : Row) : Type 0 where
  pub place : RowPlace
  pub read : row_place run_id family row ≡ ok place
  pub cell : Cell
  pub found : lookup place.key s.cells ≡ some cell
  pub there : lookup place.identity cell.executions ≡ some place.execution

-- The rows that were placed stay where they are.
abbrev pub Keeps : Cells → Cells → Type 0
Keeps before after =
    (run_id : String) (family : Family) (row : Row)
    → HasRow before run_id family row
    → HasRow after run_id family row

-- What a round that does not raise reads and does.
pub record Round (run_id : String) (family : Family) (s : Cells) (row : Row) (after : Cells)
    : Type 0 where
  pub place : RowPlace
  pub read : row_place run_id family row ≡ ok place
  pub free :
      has_key place.identity (get_or place.key (new_cell place.key) s.cells).executions ≡ false
  pub result :
      record {
        scenario_order = append_new s.scenario_order place.execution.scenario;
        cells =
            insert place.key
              (put_execution place.identity place.execution
                (get_or place.key (new_cell place.key) s.cells))
              s.cells;
      }
      ≡ after

pub add_row-Round :
    (run_id : String) (family : Family) (s : Cells) (row : Row) (after : Cells)
    → add_row run_id family s row ≡ ok after
    → Round run_id family s row after
unfolding add_row
add_row-Round run_id family s row after h =
    let (place, read, h₁) = >>=-eq-ok (row_place run_id family row) _ h in
    let (free, h₂) =
      raise_if-eq-ok
        (has_key place.identity (get_or place.key (new_cell place.key) s.cells).executions)
        (duplicate_execution run_id) _ h₁ in
    record { place = place; read = read; free = free; result = ok-injective h₂ }

later-IsItem :
    (scenario_order : List String) (new : String) (family : Family) (profile : Profile)
    (item : ExecutionKey × SummaryExecution)
    → IsItem scenario_order family profile item
    → IsItem (append_new scenario_order new) family profile item
later-IsItem scenario_order new family profile item i = record {
  same_key = i.same_key;
  ordered = ground (arith, contains-append_new scenario_order new item.1.scenario, i.ordered);
  slot = i.slot;
  stack = i.stack;
  scenario = i.scenario;
}

later-IsCell :
    (scenario_order : List String) (new : String) (key : CellKey) (cell : Cell)
    → IsCell scenario_order key cell
    → IsCell (append_new scenario_order new) key cell
later-IsCell scenario_order new key cell c = record {
  same_key = c.same_key;
  supported = c.supported;
  slug = c.slug;
  distinct = c.distinct;
  each_item =
      AllItems-mono (IsItem scenario_order cell.family cell.profile) _ cell.executions
        (later-IsItem scenario_order new cell.family cell.profile) c.each_item;
}

module _ (run_id : String) (family : Family) (s : Cells) (row : Row) (after : Cells)
    (r : Round run_id family s row after) where
  abbrev base : Cell
  base = get_or r.place.key (new_cell r.place.key) s.cells

  abbrev grown : Cell
  grown = put_execution r.place.identity r.place.execution base

  abbrev order : List String
  order = append_new s.scenario_order r.place.execution.scenario

  abbrev next : Cells
  next = record { scenario_order = order; cells = insert r.place.key grown s.cells }

  new_cell-IsCell : (p : IsPlace family r.place) → IsCell order r.place.key (new_cell r.place.key)
  unfolding new_cell
  new_cell-IsCell p =
      subst (λ k. IsCell order k (new_cell k)) (sym p.same_key)
        (record {
          same_key = refl;
          supported = p.supported;
          slug = refl;
          distinct = tt;
          each_item = tt;
        })

  -- The cell has the family and the profile of its key.
  same_place :
      (p : IsPlace family r.place) (cell : Cell)
      → key_of cell ≡ r.place.key
      → (cell.family ≡ family) × (cell.profile ≡ p.profile)
  same_place p cell e =
      let same = e ∙ p.same_key in
      (ap (λ (k : CellKey). k.1.1.0) same, ap (λ (k : CellKey). k.1.1.1.0) same)

  new-IsItem :
      (p : IsPlace family r.place)
      → IsItem order family p.profile (r.place.identity, r.place.execution)
  new-IsItem p = record {
    same_key = p.same_identity;
    ordered =
        contains-append_new s.scenario_order r.place.execution.scenario r.place.execution.scenario
        ∙ ap (λ b. b || contains s.scenario_order r.place.execution.scenario)
            (test_of_eq r.place.execution.scenario r.place.execution.scenario refl);
    slot = p.slot;
    stack = p.stack;
    scenario = p.scenario;
  }

  grown-IsCell :
      IsCell order r.place.key base → IsPlace family r.place → IsCell order r.place.key grown
  grown-IsCell c p =
      let (f, q) = same_place p base c.same_key in
      record {
        same_key = c.same_key;
        supported = c.supported;
        slug = c.slug;
        distinct = insert-NodupKeys r.place.identity r.place.execution base.executions c.distinct;
        each_item =
            subst (AllItems (IsItem order base.family base.profile))
              (sym (insert_absent r.place.identity r.place.execution base.executions r.free))
              (AllItems-append (IsItem order base.family base.profile) base.executions
                ((r.place.identity, r.place.execution) ∷ []) c.each_item
                (
                  subst (λ a. IsItem order a base.profile (r.place.identity, r.place.execution))
                      (sym f)
                      (subst (λ a. IsItem order family a (r.place.identity, r.place.execution))
                        (sym q) (new-IsItem p)),
                  tt,
                ));
      }

  pub Round-IsBuilt : IsBuilt s → IsBuilt after
  Round-IsBuilt b =
      let p = row_place-IsPlace run_id family row r.place r.read in
      let cells =
        AllValues-mono (IsCell s.scenario_order) (IsCell order) s.cells
          (later-IsCell s.scenario_order r.place.execution.scenario) b.each_cell in
      subst IsBuilt r.result (record {
        distinct = insert-NodupKeys r.place.key grown s.cells b.distinct;
        scenarios = append_new-NodupList s.scenario_order r.place.execution.scenario b.scenarios;
        each_cell =
            AllValues-insert (IsCell order) s.cells r.place.key grown
              (grown-IsCell
                (get_or-AllValues (IsCell order) s.cells r.place.key (new_cell r.place.key) cells
                  (new_cell-IsCell p))
                p)
              cells;
      })

  pub Round-HasRow : HasRow after run_id family row
  Round-HasRow =
      subst (λ t. HasRow t run_id family row) r.result
        (record {
          place = r.place;
          read = r.read;
          cell = grown;
          found = lookup-insert_self r.place.key grown s.cells;
          there = lookup-insert_self r.place.identity r.place.execution base.executions;
        })

  pub Round-Keeps : Keeps s after
  Round-Keeps run other_family other p =
      subst (λ t. HasRow t run other_family other) r.result
        (elim (Bool-cases (p.place.key == r.place.key)) [
          | inr differs ↦ record {
            place = p.place;
            read = p.read;
            cell = p.cell;
            found = lookup-insert_ne p.place.key r.place.key grown s.cells differs ∙ p.found;
            there = p.there;
          }
          | inl same ↦
              let e = eq_of_test p.place.key r.place.key same in
              let there : base ≡ p.cell =
                get_or_of_lookup r.place.key p.cell (new_cell r.place.key) s.cells
                  (ap (λ k. lookup k s.cells) (sym e) ∙ p.found) in
              record {
                place = p.place;
                read = p.read;
                cell = grown;
                found =
                    ap (λ k. lookup k (insert r.place.key grown s.cells)) e
                    ∙ lookup-insert_self r.place.key grown s.cells;
                there =
                    Extends-insert base.executions r.place.identity r.place.execution r.free
                      p.place.identity p.place.execution
                      (ap (λ (c : Cell). lookup p.place.identity c.executions) there ∙ p.there);
              }
        ])
