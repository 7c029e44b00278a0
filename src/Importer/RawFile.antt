-- ===== src/Importer/RawFile.antt =====
-- analyze/files/import-results.py: `write_raw_file`. The points of a raw file get the identity of the
-- record beside it, and go to the database in batches.
pub mod Identified
pub mod Keys
pub mod Owned
pub mod Written
use where_to_tls.Base.{
  ℕ, String, ◌≡◌, Bool, true, false, not, ◌&&◌, ◌||◌, ◌==◌, Option, none, some, List, [], ◌∷◌, ◌++◌,
  Dict, ℤ, lookup, insert, has_key, contains, select, is_empty, map, Result, ok, err, or_raise,
  raise_if, ◌>>=◌, ◌>>◌, for_loop, for_each, starts_with, key_error, not_a_float, not_a_datetime,
  metadata_disagree, no_observations, attribute_error, string_eq, if◌then◌else◌,
}
use where_to_tls.Base.Text.{lower}
use where_to_tls.Importer.Json.{
  Json, Fields, no_field, field_and, null, text, object, get, get_or_json, truthy, is_text,
}
use where_to_tls.Importer.Evidence.{Metadata, tls_group_metadata}
use where_to_tls.Importer.Tags.{execution_tags}
use where_to_tls.Importer.Timestamps.{timestamp_ns}
use where_to_tls.Importer.Batches.{write_points}

-- `float(x)` and `str(x)` of a value that `json.loads` returned. `str` of a text is the text.
pub record Conversions : Type 1 where
  pub Float : Type 0
  pub float : Json → Option Float
  pub str : Json → String
  pub str_text : (s : String) → str (text s) ≡ s

-- `x[key]`
unfoldable pub item_of : String → Fields → Result Json
item_of key fields = or_raise (get key fields) (key_error key)

-- The dict of an object: a later one of equal keys replaces the value of the first.
unfoldable pub dict_onto : Dict String Json → Fields → Dict String Json
unfolding string_eq
dict_onto d no_field = d
dict_onto d (field_and key value fields) = dict_onto (insert key value d) fields

unfoldable pub dict_of : Fields → Dict String Json
unfolding dict_onto
dict_of fields = dict_onto [] fields

unfoldable pub as_texts : Dict String String → Dict String Json
as_texts [] = []
as_texts ((key, value) ∷ tags) = (key, text value) ∷ as_texts tags

-- The tags of a TLS group that is not one of a legacy record.
unfoldable pub group_tags : Metadata → Dict String Json
unfolding string_eq
group_tags metadata =
    if metadata.source == "unverified-legacy"
    then []
    else ("wtt_tls_group_configured", metadata.configured)
      ∷ ("wtt_tls_group_verified", metadata.group)
      ∷ ("wtt_tls_group_evidence", text metadata.source)
      ∷ []

-- `record_tags`
unfoldable pub record_tags : Fields → Metadata → Result (Dict String Json)
record_tags summary metadata = do
  tags ← execution_tags summary
  run_id ← item_of "run_id" summary
  scenario ← item_of "scenario" summary
  stack ← item_of "stack" summary
  profile ← item_of "profile" summary
  ok (
      as_texts tags
      ++ (("wtt_run_id", run_id)
          ∷ ("wtt_scenario", scenario)
          ∷ ("wtt_stack", stack)
          ∷ ("wtt_profile", profile)
          ∷ [])
      ++ group_tags metadata)

-- The tags that a point takes over from the record.
abbrev pub is_owned : String → Bool
is_owned key =
    starts_with key "wtt_tls_group_" || contains ("wtt_run_name" ∷ "wtt_execution_index" ∷ []) key

abbrev pub is_point : Fields → Bool
is_point line = is_text "Point" (get_or_json "type" null line)

-- `data.get("tags") or {}`: what is neither false nor an object raises where it is asked for a key.
unfoldable pub point_tags : Json → Result (Dict String Json)
point_tags (object fields) = ok (dict_of fields)
point_tags other = if truthy other then err (attribute_error "items") else ok []

unfoldable pub as_object : Json → Result Fields
as_object (object fields) = ok fields
as_object other = err (attribute_error "get")

-- `timestamp_ns(x)`, of which `removesuffix` is called
unfoldable pub time_of : Json → Result ℤ
time_of (text time) = timestamp_ns time
time_of other = err (attribute_error "removesuffix")

module _ (C : Conversions) where
  open C use {Float, float, str}

  -- `key in tags and str(tags[key]) != record_tags[key]`
  abbrev pub disagrees : Option Json → Json → Bool
  disagrees none value = false
  disagrees (some found) value = not (is_text (str found) value)

  -- The body of the loop over `record_tags`.
  unfoldable pub merge_tag : Dict String Json → String × Json → Result (Dict String Json)
  unfolding string_eq
  merge_tag tags (key, value) = do
    raise_if (disagrees (lookup key tags) value) (metadata_disagree key)
    ok (if is_owned key then insert key value tags else tags)

  -- A point as it is given to the client.
  pub record RawPoint : Type 0 where
    pub tags : Dict String Json
    pub value : Float
    pub timestamp : ℤ

  -- `point.tag(key, value)` in turn
  unfoldable pub set_tags : Dict String Json → Dict String Json → Dict String Json
  unfolding string_eq
  set_tags set [] = set
  set_tags set ((key, value) ∷ tags) = set_tags (insert key (text (str value)) set) tags

  unfoldable pub raw_point : Dict String Json → Fields → Result RawPoint
  raw_point own line = do
    read ← item_of "data" line
    data_fields ← as_object read
    tags ← point_tags (get_or_json "tags" null data_fields)
    merged ← for_loop merge_tag tags own
    time ← item_of "time" data_fields
    timestamp ← time_of time
    metric ← item_of "metric" line
    given ← item_of "value" data_fields
    value ← or_raise (float given) (not_a_float "value")
    ok (record {
      tags = set_tags (("metric", metric) ∷ []) merged;
      value = value;
      timestamp = timestamp;
    })

  -- What a file puts into the database: none where it is skipped, else the batches. A batch is
  -- written before the later lines are read; where one of them raises, the batches before stay.
  unfoldable pub write_raw_file :
      Bool → Fields → List Fields → Result (Option (List (List RawPoint)))
  unfolding string_eq
  write_raw_file skip_warmup summary lines = do
    metadata ← tls_group_metadata summary
    let warmup = lower (str (get_or_json "warmup" (text "unavailable") summary))
    if skip_warmup && warmup == "true" then ok none else (do
      own ← record_tags summary metadata
      raise_if (is_empty (select is_point lines)) (no_observations "")
      points ← for_each (raw_point own) (select is_point lines)
      ok (some (write_points points)))
