-- ===== src/Runs/Origins.antt =====
-- runs.py: `parse_origins`, the first raw timestamp of each execution of the comparison's runs.
pub mod Earliest
use mathlib.Core.List.{flat_map}
use where_to_tls.Base.{
  String, Bool, not, ◌==◌, Option, none, some, List, [], ◌∷◌, Dict, keys, values, lookup, insert,
  get_or, has_key, contains, difference, is_empty, same_set, ℤ, ltb_ℤ, Result, ok, err, or_raise,
  raise_if, ◌>>=◌, ◌>>◌, for_loop, for_each, key_error, not_an_integer, origin_identity_differs,
  duplicate_origin, missing_origins, origin_set_differs, string_eq, pair_eq, int_eq, if◌then◌else◌,
}
use where_to_tls.Base.Text.{parse_int}
use where_to_tls.Config.{Family, Stack}
use where_to_tls.Common.RunIds.{artifact_run_id, run_family}
use where_to_tls.Common.Slots.{Execution, expected_executions}
use where_to_tls.Common.Timestamps.{timestamp_ns}
use where_to_tls.Runs.Rows.{Row, item}
use where_to_tls.Runs.Comparison.{Comparison, Identity}

pub record Origin : Type 0 where
  pub origin_ns : Option ℤ
  pub scenario : String
  pub stack : String
  pub executions : Dict Execution ℤ

-- The set `expected`, in the order of its loops.
unfoldable pub expected_runs : Comparison → Result (List String)
unfolding flat_map
expected_runs comparison =
    for_each artifact_run_id (flat_map (λ runs. values runs) (values comparison.stacks))

abbrev pub new_origin : String → String → Origin
new_origin scenario stack = record {
  origin_ns = none;
  scenario = scenario;
  stack = stack;
  executions = [];
}

-- `if origin is None or t < origin: origin = t`
abbrev pub earlier : Option ℤ → ℤ → ℤ
earlier none t = t
earlier (some m) t = if ltb_ℤ t m then t else m

abbrev pub put_origin : Execution → ℤ → Origin → Origin
put_origin key t entry = record entry {
  executions = insert key t entry.executions;
  origin_ns = some (earlier entry.origin_ns t);
}

-- `(row["wtt_profile"], int(row["wtt_execution_index"]))`, where the index is read first
unfoldable pub origin_execution : Row → Result Execution
origin_execution row = do
  index ← item "wtt_execution_index" row
  number ← or_raise (parse_int index) (not_an_integer index)
  profile ← item "wtt_profile" row
  ok (profile, number)

-- The body of the loop for a row of an expected run.
unfoldable pub add_expected :
    Comparison → Dict String Origin → String → Row → Result (Dict String Origin)
unfolding string_eq pair_eq int_eq
add_expected comparison origins run_id row = do
  identity ← or_raise (lookup run_id comparison.identities) (key_error run_id)
  scenario ← item "wtt_scenario" row
  raise_if (not (scenario == identity.scenario)) (origin_identity_differs run_id)
  stack ← item "wtt_stack" row
  raise_if (not (stack == identity.stack)) (origin_identity_differs run_id)
  key ← origin_execution row
  raise_if (has_key key (get_or run_id (new_origin scenario stack) origins).executions)
      (duplicate_origin run_id)
  time ← item "_time" row
  t ← timestamp_ns time
  ok (insert run_id (put_origin key t (get_or run_id (new_origin scenario stack) origins)) origins)

unfoldable pub add_origin :
    Comparison → List String → Dict String Origin → Row → Result (Dict String Origin)
add_origin comparison expected origins row = elim (lookup "wtt_run_id" row) [
  | none ↦ ok origins
  | some run_id ↦
      if contains expected run_id then add_expected comparison origins run_id row else ok origins
]

-- The check of one entry behind the loop.
unfoldable pub check_origin : String × Origin → Result (Unit {0})
check_origin (run_id, entry) = do
  family ← run_family run_id
  raise_if (not (same_set (keys entry.executions) (expected_executions family)))
      (origin_set_differs run_id)
  ok tt

unfoldable pub parse_origins : Comparison → List Row → Result (Dict String Origin)
parse_origins comparison rows = do
  expected ← expected_runs comparison
  origins ← for_loop (add_origin comparison expected) [] rows
  raise_if (not (is_empty (difference expected (keys origins)))) (missing_origins "")
  for_loop (λ _ entry. check_origin entry) tt origins
  ok origins
