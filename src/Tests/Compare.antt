-- ===== src/Tests/Compare.antt =====
-- Run IDs, slots and comparisons at concrete inputs.
use where_to_tls.Base.{
  Dict, String, ◌≡◌, refl, ◌↔◌, true, List, [], ◌∷◌, map, ok, pos, contains, AllItems, NodupList,
  string_eq, pair_eq, int_eq, nat_eq, option_eq, get_or,
}
use where_to_tls.Config.{Stack, Family, Profile, stack_eq, family_eq, profile_eq}
use native.Mathlib.Decide.{ℕ_discrete}
use where_to_tls.Base.{for_loop, for_each, dedupe}
use where_to_tls.Base.Text.{
  all_chars, skip, skip_digits, rsplit_last, lower, lstrip, rstrip, strip, parse_int, removesuffix,
  without_char,
}
use where_to_tls.Common.RunIds.{
  artifact_run_id, run_family, search_family, family_here, accept_slug, take_family, is_slug,
  match_run_id,
}
use where_to_tls.Common.Slots.{expected_executions}
use where_to_tls.Common.Slots.{Slot, Execution, profile_slot}
use where_to_tls.Common.Slots.Tables.{
  slots, profile_slot-expected, profile_slot-slots, slots-profile_slot,
}
use where_to_tls.Common.RunIds.Shape.{IsRunId}
use where_to_tls.Common.RunIds.Accepted.{artifact_run_id_iff, run_family-artifact_run_id}
use mathlib.Core.List.{flat_map}
use where_to_tls.Runs.Build.Placed.{HasSlot, build_comparisons-HasSlot}
use where_to_tls.Runs.Comparison.Valid.{IsValidRun, validate_metadata-IsValidRun}
use where_to_tls.Runs.Rows.{Row, rows_of, group_by_run-rows_of, group_by_run, execution_of}
use where_to_tls.Runs.Comparison.{
  Comparison, validate_metadata, check_row, check_run, check_stack, ordered_stacks,
}
use where_to_tls.Runs.Build.{
  build_comparisons, add_run, place_of, sole_tags, tags_of, is_scenario, sole_stack,
  matching_stacks, finish, new_comparison, put_run, set_id,
}

abbrev run_id : String
run_id = "20260101T000000Z-blog_tls_linear_peak-go"

abbrev row : String → Row
row index =
    ("wtt_run_id", run_id)
    ∷ ("wtt_scenario", "kestrel-go")
    ∷ ("wtt_stack", "go1.25")
    ∷ ("tls_version", "1.3")
    ∷ ("key_exchange_group", "X25519")
    ∷ ("key_exchange_group_source", "openssl-preflight")
    ∷ ("wtt_profile", "linear")
    ∷ ("wtt_execution_index", index)
    ∷ []

abbrev rows : List Row
rows = map row ("1" ∷ "2" ∷ "3" ∷ "4" ∷ "5" ∷ "6" ∷ [])

abbrev comparison : Comparison
comparison = record {
  id = "kestrel-tls13-x25519";
  scenario = "kestrel";
  tls_version = "1.3";
  tls_group = "X25519";
  source_start = "a";
  source_stop = "b";
  stacks = (Stack.go, (Family.linear, run_id) ∷ []) ∷ [];
  identities = (run_id, record { scenario = "kestrel-go"; stack = "go1.25" }) ∷ [];
}

built : build_comparisons (run_id ∷ []) rows "a" "b" ≡ ok (comparison ∷ [])
unfolding build_comparisons group_by_run for_loop for_each dedupe add_run place_of sole_tags tags_of
    is_scenario all_chars sole_stack matching_stacks run_family search_family family_here skip
    skip_digits accept_slug take_family is_slug match_run_id artifact_run_id rsplit_last lower
    lstrip rstrip strip parse_int removesuffix without_char expected_executions finish
    new_comparison put_run set_id check_row check_run check_stack ordered_stacks validate_metadata
    execution_of string_eq pair_eq option_eq int_eq nat_eq family_eq stack_eq ℕ_discrete
built = refl

build_comparisons-HasSlot_example :
    NodupList (run_id ∷ [])
    × AllItems (HasSlot rows (comparison ∷ [])) (run_id ∷ [])
    × AllItems (λ c. (m : Dict String Stack) × (validate_metadata c rows ≡ ok m)) (comparison ∷ [])
build_comparisons-HasSlot_example =
    build_comparisons-HasSlot (run_id ∷ []) rows "a" "b" (comparison ∷ []) built

valid : validate_metadata comparison rows ≡ ok ((run_id, Stack.go) ∷ [])
unfolding group_by_run for_loop for_each all_chars skip skip_digits accept_slug take_family is_slug
    match_run_id artifact_run_id rsplit_last lstrip rstrip strip parse_int expected_executions
    check_row check_run check_stack ordered_stacks validate_metadata execution_of string_eq pair_eq
    option_eq int_eq nat_eq family_eq stack_eq ℕ_discrete
valid = refl

validate_metadata-IsValidRun_example :
    AllItems
      (λ stack.
        AllItems
          (λ (family, reference). IsValidRun comparison rows stack family reference)
          (get_or stack [] comparison.stacks))
      (ordered_stacks comparison)
validate_metadata-IsValidRun_example =
    validate_metadata-IsValidRun comparison rows ((run_id, Stack.go) ∷ []) valid

grouped : group_by_run rows ≡ ok ((run_id, rows) ∷ [])
unfolding group_by_run for_loop string_eq
grouped = refl

group_by_run-rows_of_example : get_or run_id [] ((run_id, rows) ∷ []) ≡ rows_of run_id rows
group_by_run-rows_of_example = group_by_run-rows_of rows ((run_id, rows) ∷ []) grouped run_id

accepted : artifact_run_id run_id ≡ ok run_id
unfolding artifact_run_id rsplit_last match_run_id skip skip_digits accept_slug take_family is_slug
    all_chars string_eq nat_eq
accepted = refl

artifact_run_id_iff_example :
    (artifact_run_id run_id ≡ ok run_id)
    ↔ (rsplit_last b':' run_id ≡ run_id) × ((family : Family) × IsRunId run_id family)
artifact_run_id_iff_example = artifact_run_id_iff run_id run_id

run_family-artifact_run_id_example :
    ((family : Family) × IsRunId run_id family × (run_family run_id ≡ ok family))
    × (artifact_run_id run_id ≡ ok run_id)
run_family-artifact_run_id_example = run_family-artifact_run_id run_id run_id accepted

profile_slot-expected_example :
    (contains (expected_executions Family.race) ("race", pos 4) ≡ true)
    ↔ ((slot : Slot) × (profile_slot Family.race "race" (pos 4) ≡ ok slot))
profile_slot-expected_example = profile_slot-expected Family.race ("race", pos 4)

is_slot : contains (slots Family.race) (Profile.vus_10, 1) ≡ true
unfolding pair_eq nat_eq profile_eq flat_map
is_slot = refl

profile_slot-slots_example :
    (x : Execution) × (profile_slot Family.race x.0 x.1 ≡ ok (Profile.vus_10, 1))
    × ((y : Execution) → profile_slot Family.race y.0 y.1 ≡ ok (Profile.vus_10, 1) → y ≡ x)
profile_slot-slots_example = profile_slot-slots Family.race (Profile.vus_10, 1) is_slot

fourth : profile_slot Family.race "race" (pos 4) ≡ ok (Profile.vus_10, 1)
unfolding profile_slot
fourth = refl

slots-profile_slot_example : contains (slots Family.race) (Profile.vus_10, 1) ≡ true
slots-profile_slot_example =
    slots-profile_slot Family.race ("race", pos 4) (Profile.vus_10, 1) fourth
