-- ===== src/Runs/Build.antt =====
-- runs.py: `build_comparisons`. Each supplied run gets the place that its metadata name: a scenario
-- with a TLS version and group, a stack and a family.
pub mod Placed
use where_to_tls.Base.{
  String, ◌<>◌, Bool, true, false, not, ◌&&◌, ◌||◌, Option, none, some, List, [], ◌∷◌, Dict, lookup,
  insert, get_or, has_key, values, select, contains, dedupe, map, Result, ok, err, raise_if, ◌>>=◌,
  ◌>>◌, for_loop, is_empty, for_each, starts_with, no_metadata, inconsistent_metadata,
  invalid_scenario, unsupported_tls, unsupported_stack, slot_taken, string_eq, pair_eq,
}
use where_to_tls.Base.Text.{
  all_chars, is_lower_alnum, is_slug_char, removesuffix, without_char, lower,
}
use where_to_tls.Config.{Stack, Family, stack_order, stack_prefix, stack_eq, family_eq}
use where_to_tls.Common.RunIds.{run_family}
use where_to_tls.Runs.Rows.{Row, field, group_by_run}
use where_to_tls.Runs.Comparison.{Comparison, Identity, validate_metadata}

-- The tuple of `wtt_scenario`, `wtt_stack`, `tls_version` and `key_exchange_group`.
abbrev pub Tags : Type 0
Tags = String × (String × (String × String))

unfoldable pub tags_of : Row → Tags
tags_of row = (
  field "wtt_scenario" row,
  (field "wtt_stack" row, (field "tls_version" row, field "key_exchange_group" row)),
)

-- `if len(identities) != 1: raise …`, and `identities.pop()`
unfoldable pub sole_tags : String → List Tags → Result Tags
sole_tags run_id (tags ∷ []) = ok tags
sole_tags run_id _ = err (inconsistent_metadata run_id)

-- `[a-z0-9][a-z0-9-]*`
unfoldable pub is_scenario : String → Bool
is_scenario String.[] = false
is_scenario (String.◌∷◌ c s) = is_lower_alnum c && all_chars is_slug_char s

-- The stacks whose prefix a tag has.
unfoldable pub matching_stacks : String → List Stack
matching_stacks raw_stack = select (λ stack. starts_with raw_stack (stack_prefix stack)) stack_order

unfoldable pub sole_stack : String → List Stack → Result Stack
sole_stack subject (stack ∷ []) = ok stack
sole_stack subject _ = err (unsupported_stack subject)

-- The key of `groups`: scenario, TLS version, TLS group.
abbrev pub GroupKey : Type 0
GroupKey = String × (String × String)

-- What the metadata of a run say of its place.
pub record Place : Type 0 where
  pub key : GroupKey
  pub stack : Stack
  pub family : Family
  pub identity : Identity

-- The checks of a run's rows, and what they say of it.
unfoldable pub place_of : String → List Row → Result Place
place_of run_id selected = do
  raise_if (is_empty selected) (no_metadata run_id)
  (raw_scenario, (raw_stack, (version, group))) ← sole_tags run_id (dedupe (map tags_of selected))
  raise_if (not (is_scenario raw_scenario)) (invalid_scenario run_id)
  raise_if
      (not (contains ("1.2" ∷ "1.3" ∷ []) version)
        || not (contains ("P-256" ∷ "X25519" ∷ []) group))
      (unsupported_tls run_id)
  stack ← sole_stack run_id (matching_stacks raw_stack)
  family ← run_family run_id
  ok (record {
    key = (removesuffix ("-" <> stack_prefix stack) raw_scenario, (version, group));
    stack = stack;
    family = family;
    identity = record { scenario = raw_scenario; stack = raw_stack };
  })

-- The dict that `groups.setdefault` puts in.
unfoldable pub new_comparison : String → String → GroupKey → Comparison
new_comparison source_start source_stop (scenario, (version, group)) = record {
  id = "";
  scenario = scenario;
  tls_version = version;
  tls_group = group;
  source_start = source_start;
  source_stop = source_stop;
  stacks = [];
  identities = [];
}

-- `runs[family] = run_id` and `comparison["identities"][run_id] = …`
unfoldable pub put_run : String → Place → Comparison → Comparison
unfolding stack_eq family_eq string_eq
put_run run_id place comparison = record comparison {
  stacks =
      insert place.stack (insert place.family run_id (get_or place.stack [] comparison.stacks))
        comparison.stacks;
  identities = insert run_id place.identity comparison.identities;
}

-- Is a run of the stack and family there already?
abbrev pub is_taken : Place → Comparison → Bool
is_taken place comparison = has_key place.family (get_or place.stack [] comparison.stacks)

abbrev pub Groups : Type 0
Groups = Dict GroupKey Comparison

-- The body of the loop over the supplied runs.
unfoldable pub add_run : String → String → Dict String (List Row) → Groups → String → Result Groups
add_run source_start source_stop by_run groups run_id = do
  place ← place_of run_id (get_or run_id [] by_run)
  let comparison = get_or place.key (new_comparison source_start source_stop place.key) groups
  raise_if (is_taken place comparison) (slot_taken run_id)
  ok (insert place.key (put_run run_id place comparison) groups)

-- `comparison["id"] = …`
unfoldable pub set_id : Comparison → Comparison
set_id comparison = record comparison {
  id =
      comparison.scenario
      <> "-tls"
      <> without_char b'.' comparison.tls_version
      <> ("-" <> lower comparison.tls_group);
}

-- The body of the loop over the comparisons.
unfoldable pub finish : List Row → Comparison → Result Comparison
unfolding set_id
finish rows comparison = do _ ← validate_metadata (set_id comparison) rows; ok (set_id comparison)

unfoldable pub build_comparisons :
    List String → List Row → String → String → Result (List Comparison)
build_comparisons run_ids rows source_start source_stop = do
  by_run ← group_by_run rows
  groups ← for_loop (add_run source_start source_stop by_run) [] run_ids
  for_each (finish rows) (values groups)
