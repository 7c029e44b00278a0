-- ===== src/Exporter/Cells.antt =====
-- exporter.py: the file names of a cell's charts, and `cell_executions`.
pub mod Drawable
use where_to_tls.Base.{
  passed, ℕ, String, ◌<>◌, ◌≡◌, sym, subst, Bool, true, false, not, ◌&&◌, ◌==◌, List, [], ◌∷◌, Dict,
  values, select, map, leb, Bool-cases, inl, inr, Result, ok, raise_if, raise_if-eq-ok, ◌>>◌,
  ok-injective, eq_of_test, AllItems, incomplete_executions, string_eq, nat_eq, list_eq, arith,
}
use where_to_tls.Base.Sorting.{sort_by, sort_by-AllItems}
use where_to_tls.Config.{Stack, family_name, stack_eq}
use where_to_tls.Runs.Summary.{Cell, ExecutionKey, SummaryExecution}

unfoldable pub scenario_summary_filename : Cell → String
scenario_summary_filename cell =
    "scenario-summary-" <> family_name cell.family <> "-" <> cell.slug <> ".svg"

unfoldable pub scenario_percentile_filename : Cell → String → String
scenario_percentile_filename cell metric =
    "scenario-percentiles-"
    <> metric
    <> "-"
    <> family_name cell.family
    <> "-"
    <> cell.slug
    <> ".svg"

unfoldable pub scenario_completion_filename : Cell → String
scenario_completion_filename cell =
    "scenario-completion-" <> family_name cell.family <> "-" <> cell.slug <> ".svg"

-- The condition of the comprehension.
abbrev pub is_of : String → Stack → ExecutionKey × SummaryExecution → Bool
is_of scenario stack item = item.0.0 == scenario && item.0.1.0 == stack

abbrev pub repeat_leq : SummaryExecution → SummaryExecution → Bool
repeat_leq a b = leb a.repeat b.repeat

abbrev pub repeat_of : SummaryExecution → ℕ
repeat_of execution = execution.repeat

unfoldable pub cell_executions : Cell → String → Stack → Result (List SummaryExecution)
unfolding string_eq stack_eq list_eq nat_eq
cell_executions cell scenario stack = do
  let executions = sort_by repeat_leq (values (select (is_of scenario stack) cell.executions))
  raise_if (not (map repeat_of executions == 0 ∷ 1 ∷ 2 ∷ [])) (incomplete_executions scenario)
  ok executions

-- An execution of the cell, of the scenario and the stack.
pub data IsAmong (scenario : String) (stack : Stack) (execution : SummaryExecution)
    : Dict ExecutionKey SummaryExecution → Type 0 where
  here :
      (repeat : ℕ) (d : Dict ExecutionKey SummaryExecution)
      → IsAmong scenario stack execution (((scenario, (stack, repeat)), execution) ∷ d)
  there :
      (item : ExecutionKey × SummaryExecution) (d : Dict ExecutionKey SummaryExecution)
      → IsAmong scenario stack execution d
      → IsAmong scenario stack execution (item ∷ d)

weaken :
    (scenario : String) (stack : Stack) (item : ExecutionKey × SummaryExecution)
    (d : Dict ExecutionKey SummaryExecution) (xs : List SummaryExecution)
    → AllItems (λ x. IsAmong scenario stack x d) xs
    → AllItems (λ x. IsAmong scenario stack x (item ∷ d)) xs
weaken scenario stack item d [] h = tt
weaken scenario stack item d (x ∷ xs) h = (there item d h.0, weaken scenario stack item d xs h.1)

both : (a b : Bool) → (a && b) ≡ true → (a ≡ true) × (b ≡ true)
both a b h = ground arith

selected-IsAmong :
    (scenario : String) (stack : Stack) (d : Dict ExecutionKey SummaryExecution)
    → AllItems (λ x. IsAmong scenario stack x d) (values (select (is_of scenario stack) d))
selected-IsAmong scenario stack [] = tt
selected-IsAmong scenario stack (((s, (t, r)), x) ∷ d) =
    let rest = weaken scenario stack ((s, (t, r)), x) d _ (selected-IsAmong scenario stack d) in
    elim (Bool-cases (s == scenario && t == stack)) [
      | inl is ↦
          let (a, b) = both (s == scenario) (t == stack) is in
          let e = eq_of_test s scenario a in
          let f = eq_of_test t stack b in
          rw is (
            subst (λ s'. IsAmong scenario stack x (((s', (t, r)), x) ∷ d)) (sym e)
                (subst (λ t'. IsAmong scenario stack x (((scenario, (t', r)), x) ∷ d)) (sym f)
                  (here r d)),
            rest,
          )
      | inr is_not ↦ rw is_not rest
    ]

-- If `cell_executions` returns, it returns three executions of the cell, all of them of the scenario
-- and the stack, with the repeats 0, 1 and 2 in this order.
pub cell_executions-IsAmong :
    (cell : Cell) (scenario : String) (stack : Stack) (executions : List SummaryExecution)
    → cell_executions cell scenario stack ≡ ok executions
    → (map repeat_of executions ≡ 0 ∷ 1 ∷ 2 ∷ [])
      × AllItems (λ x. IsAmong scenario stack x cell.executions) executions
unfolding cell_executions
cell_executions-IsAmong cell scenario stack executions h =
    let found = sort_by repeat_leq (values (select (is_of scenario stack) cell.executions)) in
    let (same, h₁) =
      raise_if-eq-ok (not (map repeat_of found == 0 ∷ 1 ∷ 2 ∷ [])) (incomplete_executions scenario)
        (ok found) h in
    subst
      (λ xs.
        (map repeat_of xs ≡ 0 ∷ 1 ∷ 2 ∷ [])
        × AllItems (λ x. IsAmong scenario stack x cell.executions) xs)
      (ok-injective h₁)
      (
        eq_of_test (map repeat_of found) (0 ∷ 1 ∷ 2 ∷ []) (passed _ same),
        sort_by-AllItems repeat_leq _ _ (selected-IsAmong scenario stack cell.executions),
      )
