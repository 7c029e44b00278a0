-- ===== src/Tests/Drawn.antt =====
-- The executions of a cell at a concrete input.
use where_to_tls.Base.{
  ℕ, ◌≡◌, refl, none, [], ◌∷◌, map, pos, ◌+◌, ◌*◌, ok, AllItems, string_eq, nat_eq, list_eq,
}
use native.Mathlib.Decide.{ℕ_discrete}
use where_to_tls.Base.Sorting.{sort_by}
use where_to_tls.Config.{Stack, Family, Profile, stack_eq}
use where_to_tls.Runs.Summary.{Cell, SummaryExecution}
use where_to_tls.Exporter.Cells.{IsAmong, repeat_of, cell_executions, cell_executions-IsAmong}

abbrev execution : ℕ → SummaryExecution
execution repeat = record {
  run_id = "20260101T000000Z-blog_tls_race-go";
  scenario = "vm";
  scenario_tag = "vm-go";
  stack = Stack.go;
  stack_tag = "go1.25";
  family = Family.race;
  profile = Profile.vus_10;
  profile_tag = "race";
  repeat = repeat;
  execution_index = pos (1 + 3 * repeat);
  elapsed_ms = "1000";
  byte_counters = none;
}

abbrev cell : Cell
cell = record {
  tls_version = "1.3";
  tls_group = "X25519";
  family = Family.race;
  profile = Profile.vus_10;
  slug = "10-vus";
  compatibility = [];
  executions =
      (("vm", (Stack.go, 2)), execution 2)
      ∷ (("vm", (Stack.go, 0)), execution 0)
      ∷ (("vm", (Stack.go, 1)), execution 1)
      ∷ [];
  scenarios = [];
  stacks = [];
}

found : cell_executions cell "vm" Stack.go ≡ ok (execution 0 ∷ execution 1 ∷ execution 2 ∷ [])
unfolding cell_executions sort_by string_eq stack_eq list_eq nat_eq ℕ_discrete
found = refl

cell_executions-IsAmong_example :
    (map repeat_of (execution 0 ∷ execution 1 ∷ execution 2 ∷ []) ≡ 0 ∷ 1 ∷ 2 ∷ [])
    × AllItems
        (λ x. IsAmong "vm" Stack.go x cell.executions)
        (execution 0 ∷ execution 1 ∷ execution 2 ∷ [])
cell_executions-IsAmong_example =
    cell_executions-IsAmong cell "vm" Stack.go (execution 0 ∷ execution 1 ∷ execution 2 ∷ []) found
