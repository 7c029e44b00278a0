-- ===== src/Runs/Metadata.antt =====
-- runs.py: `parse_scenario_metadata_rows`. The rows of the single fields are put together to one
-- record for each execution.
pub mod Records
use where_to_tls.Base.{
  String, ◌==◌, List, [], ◌∷◌, Dict, values, insert, get_or, has_key, map, any, Result, ok,
  raise_if, ◌>>=◌, ◌>>◌, for_loop, incomplete_identity, no_field, duplicate_field, string_eq,
  list_eq,
}
use where_to_tls.Runs.Rows.{Row, field}

abbrev pub identity_fields : List String
identity_fields =
    "wtt_run_id" ∷ "wtt_scenario" ∷ "wtt_stack" ∷ "wtt_profile" ∷ "wtt_execution_index" ∷ "cell"
    ∷ []

-- `dict(zip(identity_fields, key))`
unfoldable pub zipped : List String → List String → Row
unfolding string_eq
zipped (name ∷ names) (value ∷ values) = (name, value) ∷ zipped names values
zipped _ _ = []

abbrev pub row_key : Row → List String
row_key row = map (λ name. field name row) identity_fields

-- The body of the loop over the rows.
unfoldable pub add_field : Dict (List String) Row → Row → Result (Dict (List String) Row)
unfolding string_eq list_eq
add_field records row = do
  raise_if (any (λ value. value == "") (row_key row)) (incomplete_identity "")
  let record_of = get_or (row_key row) (zipped identity_fields (row_key row)) records
  raise_if (field "_field" row == "") (no_field "")
  raise_if (has_key (field "_field" row) record_of) (duplicate_field (field "_field" row))
  ok (insert (row_key row) (insert (field "_field" row) (field "_value" row) record_of) records)

unfoldable pub parse_scenario_metadata_rows : List Row → Result (List Row)
parse_scenario_metadata_rows rows = do records ← for_loop add_field [] rows; ok (values records)
