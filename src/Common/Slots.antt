-- ===== src/Common/Slots.antt =====
-- common.py: `profile_slot`; runs.py: `expected_executions`. A family's executions are numbered
-- over its profiles and repeats, and the two tables are written down apart from one another.
pub mod Tables
use where_to_tls.Base.{
  ℕ, zero, suc, ◌+◌, ◌-◌, ◌/◌, ◌%◌, String, Option, none, some, List, [], ◌∷◌, Dict, ℤ, pos, map,
  lookup, range, Result, or_raise, unexpected_execution, pair_eq, string_eq, int_eq,
}
use where_to_tls.Config.{Family, Profile}

-- A profile tag with an execution index.
abbrev pub Execution : Type 0
Execution = String × ℤ

-- A profile with the number of a repeat.
abbrev pub Slot : Type 0
Slot = Profile × ℕ

-- The entries of the tuple of pools at `(execution - 1) % 3`.
race_pool : ℕ → Profile
race_pool zero = Profile.vus_10
race_pool (suc zero) = Profile.vus_100
race_pool (suc (suc i)) = Profile.vus_1000

race_entry : ℕ → Execution × Slot
race_entry execution =
    (("race", pos execution), (race_pool ((execution - 1) % 3), (execution - 1) / 3))

unfoldable pub slot_mapping : Family → Dict Execution Slot
unfolding race_pool race_entry
slot_mapping Family.baseline =
    (("linear", pos 1), (Profile.linear, 0))
    ∷ (("linear", pos 4), (Profile.linear, 1))
    ∷ (("linear", pos 7), (Profile.linear, 2))
    ∷ (("flat", pos 2), (Profile.flat, 0))
    ∷ (("flat", pos 5), (Profile.flat, 1))
    ∷ (("flat", pos 8), (Profile.flat, 2))
    ∷ (("sine", pos 3), (Profile.sine, 0))
    ∷ (("sine", pos 6), (Profile.sine, 1))
    ∷ (("sine", pos 9), (Profile.sine, 2))
    ∷ []
slot_mapping Family.linear =
    (("linear", pos 1), (Profile.fixed_100_vus, 0))
    ∷ (("linear", pos 3), (Profile.fixed_100_vus, 1))
    ∷ (("linear", pos 5), (Profile.fixed_100_vus, 2))
    ∷ (("linear", pos 2), (Profile.expandable_1000_vus, 0))
    ∷ (("linear", pos 4), (Profile.expandable_1000_vus, 1))
    ∷ (("linear", pos 6), (Profile.expandable_1000_vus, 2))
    ∷ []
slot_mapping Family.race = map race_entry (range 1 9)

unfoldable pub profile_slot : Family → String → ℤ → Result Slot
unfolding slot_mapping pair_eq string_eq int_eq
profile_slot family profile execution =
    or_raise (lookup (profile, execution) (slot_mapping family)) (unexpected_execution profile)

numbered : String → ℕ → Execution
numbered profile execution = (profile, pos execution)

-- The set, in the order of its display.
unfoldable pub expected_executions : Family → List Execution
unfolding numbered
expected_executions Family.baseline =
    ("linear", pos 1)
    ∷ ("flat", pos 2)
    ∷ ("sine", pos 3)
    ∷ ("linear", pos 4)
    ∷ ("flat", pos 5)
    ∷ ("sine", pos 6)
    ∷ ("linear", pos 7)
    ∷ ("flat", pos 8)
    ∷ ("sine", pos 9)
    ∷ []
expected_executions Family.linear = map (numbered "linear") (range 1 6)
expected_executions Family.race = map (numbered "race") (range 1 9)
