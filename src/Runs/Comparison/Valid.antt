-- ===== src/Runs/Comparison/Valid.antt =====
-- What `validate_metadata` shows of every run of a comparison that it accepts.
use where_to_tls.Base.{
  passed, String, ◌≡◌, refl, ◌∙◌, true, false, not, Option, some, List, [], Dict, lookup, get_or,
  length, count, contains, same_set, ok, or_raise, or_raise-eq-ok, raise_if-eq-ok, eq_of_test,
  NodupList, is_nodup-NodupList, >>=-eq-ok, for_loop, for_loop-AllItems, for_each, length-for_each,
  AllItems, key_error, row_count_differs, execution_set_differs, unexpected_tls_version,
  unexpected_tls_group, unverified_tls_group, stack_mismatch, unexpected_scenario, starts_with,
  arith, string_eq, option_eq, nat_eq, pair_eq, int_eq, ◌==◌, if◌then◌else◌,
}
use where_to_tls.Base.Pigeonhole.{count_of_cover}
use where_to_tls.Config.{Stack, Family, stack_prefix, stack_eq}
use where_to_tls.Common.RunIds.{artifact_run_id}
use where_to_tls.Common.Slots.{Execution, expected_executions}
use where_to_tls.Runs.Rows.{Row, field, execution_of, group_by_run, rows_of, group_by_run-rows_of}
use where_to_tls.Runs.Comparison.{
  Comparison, Identity, ordered_stacks, check_row, check_run, check_stack, validate_metadata,
}

-- A row that belongs to a comparison's run of a stack.
pub record IsRowOf (comparison : Comparison) (run_id : String) (stack : Stack) (row : Row)
    : Type 0 where
  pub version : lookup "tls_version" row ≡ some comparison.tls_version
  pub group : lookup "key_exchange_group" row ≡ some comparison.tls_group
  pub source : lookup "key_exchange_group_source" row ≡ some "openssl-preflight"
  pub stack_tag : starts_with (field "wtt_stack" row) (stack_prefix stack) ≡ true
  pub identity : Identity
  pub known : lookup run_id comparison.identities ≡ some identity
  pub scenario : lookup "wtt_scenario" row ≡ some identity.scenario

same_field : (o : Option String) (s : String) → not (o == some s) ≡ false → o ≡ some s
same_field o s h = eq_of_test o (some s) (passed _ h)

check_row-IsRowOf :
    (comparison : Comparison) (run_id : String) (stack : Stack) (row : Row) (u : Unit {0})
    → check_row comparison run_id stack row ≡ ok u
    → IsRowOf comparison run_id stack row
unfolding check_row
check_row-IsRowOf comparison run_id stack row u h =
    let (version, h₁) = raise_if-eq-ok _ (unexpected_tls_version run_id) _ h in
    let (group, h₂) = raise_if-eq-ok _ (unexpected_tls_group run_id) _ h₁ in
    let (source, h₃) = raise_if-eq-ok _ (unverified_tls_group run_id) _ h₂ in
    let (tag, h₄) = raise_if-eq-ok _ (stack_mismatch run_id) _ h₃ in
    let (identity, found, h₅) =
      >>=-eq-ok (or_raise (lookup run_id comparison.identities) (key_error run_id)) _ h₄ in
    let (scenario, _) = raise_if-eq-ok _ (unexpected_scenario run_id) _ h₅ in
    record {
      version = same_field _ _ version;
      group = same_field _ _ group;
      source = same_field _ _ source;
      stack_tag = passed _ tag;
      identity = identity;
      known = or_raise-eq-ok _ _ found;
      scenario = same_field _ _ scenario;
    }

-- A run whose metadata is complete: its rows name each execution of its family once, and no other.
pub record IsValidRun (comparison : Comparison) (rows : List Row) (stack : Stack) (family : Family)
    (reference : String) : Type 0 where
  pub run_id : String
  pub accepted : artifact_run_id reference ≡ ok run_id
  pub executions : List Execution
  pub parsed : for_each execution_of (rows_of run_id rows) ≡ ok executions
  pub complete :
      (x : Execution)
      → count x executions ≡ (if contains (expected_executions family) x then 1 else 0)
  pub each_row : AllItems (IsRowOf comparison run_id stack) (rows_of run_id rows)

pub expected-nodup : (family : Family) → NodupList (expected_executions family)
unfolding expected_executions pair_eq string_eq int_eq
expected-nodup Family.baseline = is_nodup-NodupList (expected_executions Family.baseline) refl
expected-nodup Family.linear = is_nodup-NodupList (expected_executions Family.linear) refl
expected-nodup Family.race = is_nodup-NodupList (expected_executions Family.race) refl

-- As many rows as expected executions, and the same set: each execution once.
complete_of :
    (family : Family) (executions : List Execution)
    → length executions ≡ length (expected_executions family)
    → same_set executions (expected_executions family) ≡ true
    → (x : Execution)
    → count x executions ≡ (if contains (expected_executions family) x then 1 else 0)
complete_of family executions l s x =
    count_of_cover (expected_executions family) executions x (expected-nodup family) (ground arith)
      l

check_run-IsValidRun :
    (comparison : Comparison) (rows : List Row) (by_run : Dict String (List Row)) (stack : Stack)
    (family : Family) (reference : String) (before after : Dict String Stack)
    → ((run_id : String) → get_or run_id [] by_run ≡ rows_of run_id rows)
    → check_run comparison by_run stack before (family, reference) ≡ ok after
    → IsValidRun comparison rows stack family reference
unfolding check_run
check_run-IsValidRun comparison rows by_run stack family reference before after group h =
    let (run_id, accepted, h₁) = >>=-eq-ok (artifact_run_id reference) _ h in
    let (size, h₂) = raise_if-eq-ok _ (row_count_differs run_id) _ h₁ in
    let (executions, parsed, h₃) =
      >>=-eq-ok (for_each execution_of (get_or run_id [] by_run)) _ h₂ in
    let (same, h₄) = raise_if-eq-ok _ (execution_set_differs run_id) _ h₃ in
    let (done, checked, _) =
      >>=-eq-ok
        (for_loop (λ _ row. check_row comparison run_id stack row) tt (get_or run_id [] by_run)) _
        h₄ in
    record {
      run_id = run_id;
      accepted = accepted;
      executions = executions;
      parsed = rw (group run_id) at parsed;
      complete =
          complete_of family executions
            (length-for_each execution_of _ executions parsed ∙ eq_of_test _ _ (passed _ size))
            (passed _ same);
      each_row = rw (group run_id) at (
          for_loop-AllItems _ (IsRowOf comparison run_id stack)
            (λ s row t e. check_row-IsRowOf comparison run_id stack row t e)
            (get_or run_id [] by_run) tt done checked);
    }

-- If `validate_metadata` returns, then for every stack and family of the comparison the rows of
-- that run name each expected execution exactly once and no other one, and every one of them has
-- the comparison's TLS version, its key exchange group from a preflight, a tag of the stack, and
-- the scenario that the comparison knows of the run.
pub validate_metadata-IsValidRun :
    (comparison : Comparison) (rows : List Row) (run_to_stack : Dict String Stack)
    → validate_metadata comparison rows ≡ ok run_to_stack
    → AllItems
        (λ stack.
          AllItems
            (λ (family, reference). IsValidRun comparison rows stack family reference)
            (get_or stack [] comparison.stacks))
        (ordered_stacks comparison)
unfolding validate_metadata check_stack
validate_metadata-IsValidRun comparison rows run_to_stack h =
    let (by_run, grouped, h₁) = >>=-eq-ok (group_by_run rows) _ h in
    let group = group_by_run-rows_of rows by_run grouped in
    for_loop-AllItems _ _
      (λ s stack t e.
        for_loop-AllItems _ _
          (λ a x b k. check_run-IsValidRun comparison rows by_run stack x.0 x.1 a b group k)
          (get_or stack [] comparison.stacks) s t e)
      (ordered_stacks comparison) [] run_to_stack h₁
