-- ===== src/Runs/Comparison.antt =====
-- runs.py: a comparison, `ordered_stacks`, `family_runs` and `validate_metadata`.
pub mod Valid
use where_to_tls.Base.{
  ℕ, String, ◌<>◌, Bool, not, Option, none, some, List, [], ◌∷◌, Dict, lookup, insert, get_or,
  has_key, select, length, same_set, Result, ok, or_raise, raise_if, ◌>>=◌, ◌>>◌, for_loop,
  for_each, key_error, starts_with, row_count_differs, execution_set_differs,
  unexpected_tls_version, unexpected_tls_group, unverified_tls_group, stack_mismatch,
  unexpected_scenario, string_eq, option_eq, nat_eq, pair_eq, int_eq, ◌==◌,
}
use where_to_tls.Config.{Stack, Family, stack_order, stack_prefix, stack_eq, family_eq}
use where_to_tls.Common.RunIds.{artifact_run_id}
use where_to_tls.Common.Slots.{expected_executions}
use where_to_tls.Runs.Rows.{Row, field, execution_of, group_by_run}

pub record Identity : Type 0 where
  pub scenario : String
  pub stack : String

-- The dict of one comparison. `id` is "" until `build_comparisons` sets it.
pub record Comparison : Type 0 where
  pub id : String
  pub scenario : String
  pub tls_version : String
  pub tls_group : String
  pub source_start : String
  pub source_stop : String
  pub stacks : Dict Stack (Dict Family String)
  pub identities : Dict String Identity

unfoldable pub ordered_stacks : Comparison → List Stack
unfolding stack_eq
ordered_stacks comparison = select (λ stack. has_key stack comparison.stacks) stack_order

-- One round of the comprehension.
add_family_run : Comparison → Family → Dict Stack String → Stack → Result (Dict Stack String)
add_family_run comparison family runs stack =
    elim (lookup family (get_or stack [] comparison.stacks)) [
      | none ↦ ok runs
      | some reference ↦ do run_id ← artifact_run_id reference; ok (insert stack run_id runs)
    ]

unfoldable pub family_runs : Comparison → Family → Result (Dict Stack String)
unfolding add_family_run
family_runs comparison family =
    for_loop (add_family_run comparison family) [] (ordered_stacks comparison)

-- The checks of one row of a run.
unfoldable pub check_row : Comparison → String → Stack → Row → Result (Unit {0})
check_row comparison run_id stack row = do
  raise_if (not (lookup "tls_version" row == some comparison.tls_version))
      (unexpected_tls_version run_id)
  raise_if (not (lookup "key_exchange_group" row == some comparison.tls_group))
      (unexpected_tls_group run_id)
  raise_if (not (lookup "key_exchange_group_source" row == some "openssl-preflight"))
      (unverified_tls_group run_id)
  raise_if (not (starts_with (field "wtt_stack" row) (stack_prefix stack))) (stack_mismatch run_id)
  identity ← or_raise (lookup run_id comparison.identities) (key_error run_id)
  raise_if (not (lookup "wtt_scenario" row == some identity.scenario)) (unexpected_scenario run_id)
  ok tt

-- The body of the inner loop, over a stack's families.
unfoldable pub check_run :
    Comparison
    → Dict String (List Row)
    → Stack
    → Dict String Stack
    → Family × String
    → Result (Dict String Stack)
check_run comparison by_run stack run_to_stack (family, reference) = do
  run_id ← artifact_run_id reference
  raise_if (not (length (get_or run_id [] by_run) == length (expected_executions family)))
      (row_count_differs run_id)
  actual ← for_each execution_of (get_or run_id [] by_run)
  raise_if (not (same_set actual (expected_executions family))) (execution_set_differs run_id)
  for_loop (λ _ row. check_row comparison run_id stack row) tt (get_or run_id [] by_run)
  ok (insert run_id stack run_to_stack)

unfoldable pub check_stack :
    Comparison → Dict String (List Row) → Dict String Stack → Stack → Result (Dict String Stack)
check_stack comparison by_run run_to_stack stack =
    for_loop (check_run comparison by_run stack) run_to_stack (get_or stack [] comparison.stacks)

unfoldable pub validate_metadata : Comparison → List Row → Result (Dict String Stack)
validate_metadata comparison rows = do
  by_run ← group_by_run rows
  for_loop (check_stack comparison by_run) [] (ordered_stacks comparison)
