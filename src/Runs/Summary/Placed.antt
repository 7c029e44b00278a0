-- ===== src/Runs/Summary/Placed.antt =====
-- runs.py: the cells that `build_summary_cells` builds, and where the rows are in them.
use where_to_tls.Base.{
  String, ◌≡◌, refl, subst, true, not, ◌==◌, some, List, [], ◌∷◌, lookup, NodupKeys, NodupList,
  contains, ok, or_raise, raise_if-eq-ok, passed, >>=-eq-ok, ok-injective, AllItems, AllValues,
  not_an_integer, unverified_tls_group, unexpected_tls_version, unexpected_tls_group, arith,
  string_eq, option_eq, pair_eq, int_eq, nat_eq, list_eq,
}
use where_to_tls.Base.Text.{parse_int}
use where_to_tls.Config.{
  Family, Profile, tls_configurations, profile_slug, stack_eq, family_eq, profile_eq,
}
use where_to_tls.Common.Slots.{profile_slot}
use where_to_tls.Runs.Rows.{Row, item, field}
use where_to_tls.Runs.Summary.{
  Cell, Cells, CellKey, ExecutionKey, SummaryExecution, RowPlace, stack_identity, scenario_base,
  check_summary_row, cell_key, row_place,
}
use where_to_tls.Runs.Summary.Groups.{tls_key}

-- An execution under its key in a cell of a family and a profile.
pub record IsItem (scenario_order : List String) (family : Family) (profile : Profile)
    (item : ExecutionKey × SummaryExecution) : Type 0 where
  pub same_key : item.0 ≡ (item.1.scenario, (item.1.stack, item.1.repeat))
  pub ordered : contains scenario_order item.1.scenario ≡ true
  pub slot :
      profile_slot family item.1.profile_tag item.1.execution_index ≡ ok (profile, item.1.repeat)
  pub stack : stack_identity item.1.stack_tag ≡ ok item.1.stack
  pub scenario : scenario_base item.1.scenario_tag item.1.stack ≡ ok item.1.scenario

abbrev pub key_of : Cell → CellKey
key_of cell =
    (cell.tls_version, (cell.tls_group, (cell.family, (cell.profile, cell.compatibility))))

-- A cell under its key.
pub record IsCell (scenario_order : List String) (key : CellKey) (cell : Cell) : Type 0 where
  pub same_key : key_of cell ≡ key
  pub supported : contains tls_configurations (tls_key cell) ≡ true
  pub slug : cell.slug ≡ profile_slug cell.profile
  pub distinct : NodupKeys cell.executions
  pub each_item : AllItems (IsItem scenario_order cell.family cell.profile) cell.executions

pub record IsBuilt (s : Cells) : Type 0 where
  pub distinct : NodupKeys s.cells
  pub scenarios : NodupList s.scenario_order
  pub each_cell : AllValues (IsCell s.scenario_order) s.cells

-- What a place says of itself, before it is put into a cell.
pub record IsPlace (family : Family) (place : RowPlace) : Type 0 where
  pub profile : Profile
  pub compatibility : List (String × String)
  pub version : String
  pub group : String
  pub same_key : place.key ≡ (version, (group, (family, (profile, compatibility))))
  pub supported : contains tls_configurations (version, group) ≡ true
  pub same_identity :
      place.identity ≡ (place.execution.scenario, (place.execution.stack, place.execution.repeat))
  pub slot :
      profile_slot family place.execution.profile_tag place.execution.execution_index
      ≡ ok (profile, place.execution.repeat)
  pub stack : stack_identity place.execution.stack_tag ≡ ok place.execution.stack
  pub scenario :
      scenario_base place.execution.scenario_tag place.execution.stack ≡ ok place.execution.scenario

supported_field :
    (name : String) (row : Row) (a b : String)
    → contains (some a ∷ some b ∷ []) (lookup name row) ≡ true
    → contains (a ∷ b ∷ []) (field name row) ≡ true
unfolding option_eq
supported_field name row a b h = ground arith

supported_pair :
    (version group : String)
    → contains ("1.2" ∷ "1.3" ∷ []) version ≡ true
    → contains ("P-256" ∷ "X25519" ∷ []) group ≡ true
    → contains tls_configurations (version, group) ≡ true
unfolding pair_eq
supported_pair version group h k = ground arith

check_summary_row-supported :
    (run_id : String) (family : Family) (row : Row) (u : Unit {0})
    → check_summary_row run_id family row ≡ ok u
    → contains tls_configurations (field "tls_version" row, field "key_exchange_group" row) ≡ true
unfolding check_summary_row
check_summary_row-supported run_id family row u h =
    let (_, h₁) =
      raise_if-eq-ok (not (lookup "key_exchange_group_source" row == some "openssl-preflight"))
        (unverified_tls_group run_id) _ h in
    let (version, h₂) =
      raise_if-eq-ok (not (contains (some "1.2" ∷ some "1.3" ∷ []) (lookup "tls_version" row)))
        (unexpected_tls_version run_id) _ h₁ in
    let (group, h₃) =
      raise_if-eq-ok
        (not (contains (some "P-256" ∷ some "X25519" ∷ []) (lookup "key_exchange_group" row)))
        (unexpected_tls_group run_id) _ h₂ in
    supported_pair (field "tls_version" row) (field "key_exchange_group" row)
      (supported_field "tls_version" row "1.2" "1.3" (passed _ version))
      (supported_field "key_exchange_group" row "P-256" "X25519" (passed _ group))

pub row_place-IsPlace :
    (run_id : String) (family : Family) (row : Row) (place : RowPlace)
    → row_place run_id family row ≡ ok place
    → IsPlace family place
unfolding row_place cell_key
row_place-IsPlace run_id family row place h =
    let (u, checked, h₁) = >>=-eq-ok (check_summary_row run_id family row) _ h in
    let (stack_tag, _, h₂) = >>=-eq-ok (item "wtt_stack" row) _ h₁ in
    let (stack, stack_read, h₃) = >>=-eq-ok (stack_identity stack_tag) _ h₂ in
    let (scenario_tag, _, h₄) = >>=-eq-ok (item "wtt_scenario" row) _ h₃ in
    let (scenario, scenario_read, h₅) = >>=-eq-ok (scenario_base scenario_tag stack) _ h₄ in
    let (profile_tag, _, h₆) = >>=-eq-ok (item "wtt_profile" row) _ h₅ in
    let (index, _, h₇) = >>=-eq-ok (item "wtt_execution_index" row) _ h₆ in
    let (number, _, h₈) = >>=-eq-ok (or_raise (parse_int index) (not_an_integer index)) _ h₇ in
    let ((profile, repeat), slot, h₉) = >>=-eq-ok (profile_slot family profile_tag number) _ h₈ in
    subst (IsPlace family) (ok-injective h₉) (record {
      profile = profile;
      compatibility = _;
      version = field "tls_version" row;
      group = field "key_exchange_group" row;
      same_key = refl;
      supported = check_summary_row-supported run_id family row u checked;
      same_identity = refl;
      slot = slot;
      stack = stack_read;
      scenario = scenario_read;
    })
