-- ===== src/Runs/Summary/Product.antt =====
-- runs.py: the executions of a cell are the product of its scenarios, stacks and repeats.
use where_to_tls.Base.{
  ℕ, ◌≤◌, String, ◌≡◌, refl, sym, ap, ◌∙◌, subst, true, ◌&&◌, ◌==◌, List, [], ◌∷◌, keys, has_key,
  contains, same_set, same_set-contains, contains-select, select, any, length, eq_of_test,
  Bool-cases, inl, inr, ok, >>=-eq-ok, ok-injective, for_loop, for_loop-AllItems, AllItems,
  AllItems-contains, string_eq, nat_eq, pair_eq, arith,
}
use where_to_tls.Config.{Stack, stack_order, stack_eq}
use where_to_tls.Runs.Summary.{Cell, ExecutionKey}
use where_to_tls.Runs.Summary.Keys.{three, contains-repeats_of, contains-stacks_of, any-scenario}
use where_to_tls.Runs.Summary.Groups.{
  stacks_of, repeats_of, scenarios_of, check_stacks, check_repeats, check_scenario, check_product,
  check_scenarios, check_cell,
}

pub every_stack : (stack : Stack) → contains stack_order stack ≡ true
unfolding stack_eq
every_stack Stack.dotnet = refl
every_stack Stack.java = refl
every_stack Stack.go = refl
every_stack Stack.rust = refl

contains-expected :
    (expected : List Stack) (stack : Stack)
    → contains (select (contains expected) stack_order) stack ≡ contains expected stack
contains-expected expected stack =
    ground (arith, contains-select (contains expected) stack_order stack, every_stack stack)

module _ (ks : List ExecutionKey) (scenario_order : List String) (expected : List Stack) where
  -- Each scenario has the expected stacks, and each of these the three repeats.
  record Checked (scenarios : List String) : Type 0 where
    listed : scenarios_of scenario_order ks ≡ scenarios
    same_stacks :
        (scenario : String)
        → contains scenarios scenario ≡ true
        → (stack : Stack) → contains (stacks_of ks scenario) stack ≡ contains expected stack
    same_repeats :
        (scenario : String) (stack : Stack)
        → contains scenarios scenario ≡ true
        → contains expected stack ≡ true
        → same_set (repeats_of ks scenario stack) three ≡ true

  product :
      (scenarios : List String)
      → Checked scenarios
      → (scenario : String) (stack : Stack) (repeat : ℕ) → contains scenario_order scenario ≡ true
      → contains ks (scenario, (stack, repeat)) ≡ (
          contains scenarios scenario
          && (contains (select (contains expected) stack_order) stack && contains three repeat))
  product scenarios c scenario stack repeat ordered =
      let listed : contains scenarios scenario
          ≡ (any (λ k. k.0 == scenario) ks && contains scenario_order scenario) =
        ap (λ xs. contains xs scenario) (sym c.listed)
        ∙ contains-select (λ s. any (λ k. k.0 == s) ks) scenario_order scenario in
      let some_key = any-scenario ks scenario stack repeat in
      let some_stack = contains-stacks_of ks scenario stack repeat in
      let stacks = contains-expected expected stack in
      let there = contains-repeats_of ks scenario stack repeat in
      elim (Bool-cases (contains scenarios scenario)) [
        | inr absent ↦ ground (arith, listed, some_key, absent, ordered)
        | inl present ↦
            let same = c.same_stacks scenario present stack in
            elim (Bool-cases (contains expected stack)) [
              | inr absent ↦ ground (arith, some_stack, same, absent, stacks, present)
              | inl wanted ↦
                  let repeats =
                    same_set-contains (repeats_of ks scenario stack) three repeat
                      (c.same_repeats scenario stack present wanted) in
                  ground (arith, repeats, there, present, wanted, stacks)
            ]
      ]

-- A cell as `build_scenario_summary_groups` leaves it.
pub record IsProduct (scenario_order : List String) (cell checked : Cell) : Type 0 where
  pub kept : checked.executions ≡ cell.executions
  pub compared : 2 ≤ length checked.scenarios
  pub listed : checked.scenarios ≡ scenarios_of scenario_order (keys cell.executions)
  pub product :
      (scenario : String) (stack : Stack) (repeat : ℕ)
      → contains scenario_order scenario ≡ true
      → has_key (scenario, (stack, repeat)) checked.executions ≡ (
          contains checked.scenarios scenario
          && (contains checked.stacks stack && contains three repeat))

check_repeats-eq-ok :
    (cell : Cell) (scenario : String) (stack : Stack) (u : Unit {0})
    → check_repeats cell scenario stack ≡ ok u
    → same_set (repeats_of (keys cell.executions) scenario stack) three ≡ true
unfolding check_repeats
check_repeats-eq-ok cell scenario stack u h = ground arith

check_stacks-eq-ok :
    (cell : Cell) (expected : List Stack) (scenario : String) (u : Unit {0})
    → check_stacks cell expected scenario ≡ ok u
    → same_set (stacks_of (keys cell.executions) scenario) expected ≡ true
unfolding check_stacks
check_stacks-eq-ok cell expected scenario u h = ground arith

check_product-IsProduct :
    (scenario_order : List String) (cell : Cell) (first second : String) (others : List String)
    (checked : Cell)
    → scenarios_of scenario_order (keys cell.executions) ≡ first ∷ second ∷ others
    → check_product cell first (second ∷ others) ≡ ok checked
    → IsProduct scenario_order cell checked
unfolding check_product check_scenario
check_product-IsProduct scenario_order cell first second others checked listed h =
    let ks = keys cell.executions in
    let expected = stacks_of ks first in
    let (u, stacks, h₁) =
      >>=-eq-ok (for_loop (λ _ scenario. check_stacks cell expected scenario) tt (second ∷ others))
        _ h in
    let (v, repeats, h₂) =
      >>=-eq-ok
        (for_loop (λ _ scenario. check_scenario cell expected scenario) tt
          (first ∷ second ∷ others))
        _ h₁ in
    let each_stack =
      for_loop-AllItems (λ _ scenario. check_stacks cell expected scenario)
        (λ scenario. same_set (stacks_of ks scenario) expected ≡ true)
        (λ s x t k. check_stacks-eq-ok cell expected x t k) (second ∷ others) tt u stacks in
    let each_repeat =
      for_loop-AllItems (λ _ scenario. check_scenario cell expected scenario)
        (λ scenario.
          AllItems (λ stack. same_set (repeats_of ks scenario stack) three ≡ true) expected)
        (λ s x t k.
          for_loop-AllItems (λ _ stack. check_repeats cell x stack)
            (λ stack. same_set (repeats_of ks x stack) three ≡ true)
            (λ a y b j. check_repeats-eq-ok cell x y b j) expected tt t k)
        (first ∷ second ∷ others) tt v repeats in
    let checks : Checked ks scenario_order expected (first ∷ second ∷ others) = record {
      listed = listed;
      same_stacks = λ scenario m stack. elim (Bool-cases (scenario == first)) [
        | inl same ↦ ap (λ s. contains (stacks_of ks s) stack) (eq_of_test scenario first same)
        | inr other ↦ same_set-contains (stacks_of ks scenario) expected stack (
            AllItems-contains (λ s. same_set (stacks_of ks s) expected ≡ true) (second ∷ others)
              scenario each_stack (ground (arith, m, other)))
      ];
      same_repeats = λ scenario stack m n.
          AllItems-contains (λ st. same_set (repeats_of ks scenario st) three ≡ true) expected stack
            (AllItems-contains
              (λ s. AllItems (λ st. same_set (repeats_of ks s st) three ≡ true) expected)
              (first ∷ second ∷ others) scenario each_repeat m)
            n;
    } in
    subst (IsProduct scenario_order cell) (ok-injective h₂) (record {
      kept = refl;
      compared = omega arith;
      listed = sym listed;
      product = product ks scenario_order expected (first ∷ second ∷ others) checks;
    })

scenarios-IsProduct :
    (scenario_order : List String) (cell checked : Cell) (scenarios : List String)
    → scenarios_of scenario_order (keys cell.executions) ≡ scenarios
    → check_scenarios cell scenarios ≡ ok checked
    → IsProduct scenario_order cell checked
unfolding check_scenarios
scenarios-IsProduct scenario_order cell checked [] e h = cc
scenarios-IsProduct scenario_order cell checked (only ∷ []) e h = cc
scenarios-IsProduct scenario_order cell checked (first ∷ second ∷ others) e h =
    check_product-IsProduct scenario_order cell first second others checked e h

-- If the checks of a cell pass, then the cell has at least two scenarios, those of the order that
-- its executions name, its executions are left as they are, and for a scenario of the order they
-- have an execution of a stack and a repeat exactly if the scenario is one of the cell's, the stack
-- is one of the cell's and the repeat is 0, 1 or 2.
pub check_cell-IsProduct :
    (scenario_order : List String) (cell checked : Cell)
    → check_cell scenario_order cell ≡ ok checked
    → IsProduct scenario_order cell checked
unfolding check_cell
check_cell-IsProduct scenario_order cell checked h =
    scenarios-IsProduct scenario_order cell checked
      (scenarios_of scenario_order (keys cell.executions)) refl h
