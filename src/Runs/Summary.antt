-- ===== src/Runs/Summary.antt =====
-- runs.py: `stack_identity`, `scenario_base` and `build_summary_cells`. The rows of all runs are put
-- into cells, one for each TLS configuration, family, profile and workload settings.
pub mod Groups
pub mod Keys
pub mod Product
pub mod Placed
pub mod Built
pub mod Kept
pub mod Comparable
use where_to_tls.Base.{
  ℕ, String, ◌<>◌, Bool, true, false, not, ◌==◌, Option, none, some, List, [], ◌∷◌, ◌++◌, Dict, ℤ,
  insert, get_or, has_key, lookup, contains, same_set, select, is_empty, append_new, map, Result,
  ok, err, or_raise, raise_if, ◌>>=◌, ◌>>◌, for_loop, for_each, no_metadata, execution_set_differs,
  unverified_tls_group, unexpected_tls_version, unexpected_tls_group, missing_fields,
  unsupported_stack, no_stack_suffix, duplicate_execution, not_an_integer, string_eq, option_eq,
  pair_eq, int_eq, nat_eq, list_eq,
}
use where_to_tls.Base.Text.{ends_with, removesuffix, parse_int}
use where_to_tls.Config.{
  Stack, Family, Profile, stack_prefix, profile_slug, stack_eq, family_eq, profile_eq,
}
use where_to_tls.Common.RunIds.{run_family}
use where_to_tls.Common.Slots.{expected_executions, profile_slot}
use where_to_tls.Runs.Rows.{Row, item, field, execution_of, group_by_run}
use where_to_tls.Runs.Build.{matching_stacks, sole_stack}

unfoldable pub stack_identity : String → Result Stack
stack_identity raw_stack = sole_stack raw_stack (matching_stacks raw_stack)

unfoldable pub scenario_base : String → Stack → Result String
scenario_base raw_scenario stack = do
  raise_if (not (ends_with ("-" <> stack_prefix stack) raw_scenario)) (no_stack_suffix raw_scenario)
  ok (removesuffix ("-" <> stack_prefix stack) raw_scenario)

-- The dict of one execution; `byte_counters` is missing until `build_tls_comparison` sets it.
pub record SummaryExecution : Type 0 where
  pub run_id : String
  pub scenario : String
  pub scenario_tag : String
  pub stack : Stack
  pub stack_tag : String
  pub family : Family
  pub profile : Profile
  pub profile_tag : String
  pub repeat : ℕ
  pub execution_index : ℤ
  pub elapsed_ms : String
  pub byte_counters : Option (Dict String ℕ)

-- Scenario, stack and repeat.
abbrev pub ExecutionKey : Type 0
ExecutionKey = String × (Stack × ℕ)

-- The dict of one cell; `scenarios` and `stacks` are [] until `build_scenario_summary_groups` sets
-- them.
pub record Cell : Type 0 where
  pub tls_version : String
  pub tls_group : String
  pub family : Family
  pub profile : Profile
  pub slug : String
  pub compatibility : Dict String String
  pub executions : Dict ExecutionKey SummaryExecution
  pub scenarios : List String
  pub stacks : List Stack

abbrev pub CellKey : Type 0
CellKey = String × (String × (Family × (Profile × List (String × String))))

-- `scenario_order` and `cells`
pub record Cells : Type 0 where
  pub scenario_order : List String
  pub cells : Dict CellKey Cell

abbrev pub compatibility_fields : Family → List String
compatibility_fields family =
    ("http_version" ∷ "endpoint" ∷ "payload_bytes" ∷ "connection_reuse"
      ∷ "tls_resumption_configured" ∷ "configured_vus" ∷ "max_duration_s" ∷ "configured_rate"
      ∷ "configured_peak_rate" ∷ [])
    ++ elim family [ Family.race ↦ "configured_iterations" ∷ [] | _ ↦ [] ]

abbrev pub required_fields : Family → List String
required_fields family =
    ("elapsed_ms" ∷ "http_version" ∷ "endpoint" ∷ "payload_bytes" ∷ "connection_reuse"
      ∷ "tls_resumption_configured" ∷ [])
    ++ elim family [
      | Family.race ↦ "configured_vus" ∷ "configured_iterations" ∷ "max_duration_s" ∷ []
      | _ ↦ []
    ]

-- The checks of a row before it is placed.
unfoldable pub check_summary_row : String → Family → Row → Result (Unit {0})
unfolding string_eq option_eq
check_summary_row run_id family row = do
  raise_if (not (lookup "key_exchange_group_source" row == some "openssl-preflight"))
      (unverified_tls_group run_id)
  raise_if (not (contains (some "1.2" ∷ some "1.3" ∷ []) (lookup "tls_version" row)))
      (unexpected_tls_version run_id)
  raise_if (not (contains (some "P-256" ∷ some "X25519" ∷ []) (lookup "key_exchange_group" row)))
      (unexpected_tls_group run_id)
  raise_if (not (is_empty (select (λ name. field name row == "") (required_fields family))))
      (missing_fields run_id)

unfoldable pub cell_key : Family → Profile → Row → CellKey
cell_key family profile row = (
  field "tls_version" row,
  (
    field "key_exchange_group" row,
    (family, (profile, map (λ name. (name, field name row)) (compatibility_fields family))),
  ),
)

-- The dict that `cells.setdefault` puts in.
unfoldable pub new_cell : CellKey → Cell
new_cell (version, (group, (family, (profile, compatibility)))) = record {
  tls_version = version;
  tls_group = group;
  family = family;
  profile = profile;
  slug = profile_slug profile;
  compatibility = compatibility;
  executions = [];
  scenarios = [];
  stacks = [];
}

abbrev pub put_execution : ExecutionKey → SummaryExecution → Cell → Cell
put_execution identity execution cell = record cell {
  executions = insert identity execution cell.executions;
}

-- What a row says of its place: its cell, and its execution in the cell.
pub record RowPlace : Type 0 where
  pub key : CellKey
  pub identity : ExecutionKey
  pub execution : SummaryExecution

unfoldable pub row_place : String → Family → Row → Result RowPlace
row_place run_id family row = do
  check_summary_row run_id family row
  stack_tag ← item "wtt_stack" row
  stack ← stack_identity stack_tag
  scenario_tag ← item "wtt_scenario" row
  scenario ← scenario_base scenario_tag stack
  profile_tag ← item "wtt_profile" row
  index ← item "wtt_execution_index" row
  number ← or_raise (parse_int index) (not_an_integer index)
  (profile, repeat) ← profile_slot family profile_tag number
  ok (record {
    key = cell_key family profile row;
    identity = (scenario, (stack, repeat));
    execution = record {
      run_id = run_id;
      scenario = scenario;
      scenario_tag = scenario_tag;
      stack = stack;
      stack_tag = stack_tag;
      family = family;
      profile = profile;
      profile_tag = profile_tag;
      repeat = repeat;
      execution_index = number;
      elapsed_ms = field "elapsed_ms" row;
      byte_counters = none;
    };
  })

-- The body of the loop over the rows of a run.
unfoldable pub add_row : String → Family → Cells → Row → Result Cells
unfolding string_eq pair_eq family_eq profile_eq list_eq stack_eq nat_eq
add_row run_id family s row = do
  place ← row_place run_id family row
  let cell = get_or place.key (new_cell place.key) s.cells
  raise_if (has_key place.identity cell.executions) (duplicate_execution run_id)
  ok (record {
    scenario_order = append_new s.scenario_order place.execution.scenario;
    cells = insert place.key (put_execution place.identity place.execution cell) s.cells;
  })

-- The body of the loop over the supplied runs.
unfoldable pub add_summary_run : Dict String (List Row) → Cells → String → Result Cells
unfolding string_eq pair_eq int_eq
add_summary_run by_run s run_id = do
  raise_if (is_empty (get_or run_id [] by_run)) (no_metadata run_id)
  family ← run_family run_id
  actual ← for_each execution_of (get_or run_id [] by_run)
  raise_if (not (same_set actual (expected_executions family))) (execution_set_differs run_id)
  for_loop (add_row run_id family) s (get_or run_id [] by_run)

unfoldable pub build_summary_cells : List String → List Row → Result Cells
build_summary_cells run_ids rows = do
  by_run ← group_by_run rows
  for_loop (add_summary_run by_run) (record { scenario_order = []; cells = [] }) run_ids
