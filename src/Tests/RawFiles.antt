-- ===== src/Tests/RawFiles.antt =====
-- The tags of the importer at concrete inputs.
use native.Mathlib.Decide.{ℕ_discrete}
use where_to_tls.Base.{
  ℕ, String, ◌≡◌, refl, true, some, none, List, [], ◌∷◌, Dict, pos, select, AllPairs, ok, for_loop,
  for_each, string_eq, nat_eq,
}
use where_to_tls.Base.Text.{skip, strip, lstrip, rstrip, all_chars, parse_int, removesuffix, lower}
use where_to_tls.Base.Decimal.{show_nat, digits_onto, digit_char}
use where_to_tls.Importer.Json.{
  Json, Fields, text, int, object, no_field, field_and, get, get_or_json, truthy, is_text,
}
use where_to_tls.Importer.Evidence.{tls_group_metadata, legacy_metadata}
use where_to_tls.Importer.Tags.{
  name_of, index_of, name_tags, execution_tags, IsIndexed, execution_tags-parse_int,
}
use where_to_tls.Importer.Timestamps.{timestamp_ns, parts_ns, partition, nine_digits}
use where_to_tls.Common.Timestamps.{datetime_seconds, read_digits, accept_datetime}
use where_to_tls.Common.Timestamps.Days.{is_date}
use where_to_tls.Base.Padding.{take_chars, repeat_char}
use where_to_tls.Importer.Batches.{IsBatched, write_points, add_points, add_point, flush}
use where_to_tls.Importer.RawFile.{
  Conversions, item_of, dict_onto, dict_of, as_texts, group_tags, record_tags, is_point, point_tags,
  as_object, time_of, merge_tag, RawPoint, set_tags, raw_point, write_raw_file,
}
use where_to_tls.Importer.RawFile.Owned.{IsOwned}
use where_to_tls.Importer.RawFile.Written.{IsIdentified, write_raw_file-IsIdentified}

abbrev summary : Fields
summary = field_and "run_name" (text "nightly") (
    field_and "execution_index" (int (pos 12)) (
      field_and "run_id" (text "r") (
        field_and "scenario" (text "vm-go")
          (field_and "stack" (text "go1.25") (field_and "profile" (text "linear") no_field)))))

tagged : (tags : Dict String String) × (execution_tags summary ≡ ok tags)
unfolding execution_tags name_tags name_of index_of get strip lstrip rstrip all_chars show_nat
    digits_onto digit_char string_eq nat_eq ℕ_discrete
tagged = (_, refl)

there : get "execution_index" summary ≡ some (int (pos 12))
unfolding get string_eq
there = refl

execution_tags-parse_int_example :
    (index : ℕ) × (int (pos 12) ≡ int (pos index)) × IsIndexed index tagged.0
execution_tags-parse_int_example =
    execution_tags-parse_int summary (int (pos 12)) tagged.0 there tagged.1

-- A number of the value, and the text of a text.
abbrev plain : Conversions
plain = record {
  Float = ℕ;
  float = λ x. elim x [ int n ↦ some 1 | _ ↦ none ];
  str = λ x. elim x [ text s ↦ s | _ ↦ "?" ];
  str_text = λ s. refl;
}

abbrev tags : Fields
tags = field_and "wtt_stack" (text "go1.25") (field_and "url" (text "/") no_field)

abbrev point_data : Fields
point_data =
    field_and "time" (text "2026-01-01T10:00:00Z")
      (field_and "value" (int (pos 1)) (field_and "tags" (object tags) no_field))

abbrev line : Fields
line =
    field_and "type" (text "Point")
      (field_and "metric" (text "http_reqs") (field_and "data" (object point_data) no_field))

written :
    (batches : List (List (RawPoint plain))) × (write_raw_file plain true summary
        (line ∷ no_field ∷ line ∷ [])
      ≡ ok (some batches))
unfolding write_raw_file raw_point record_tags item_of dict_of dict_onto as_texts group_tags
    point_tags as_object time_of merge_tag set_tags tls_group_metadata legacy_metadata get_or_json
    get truthy is_text execution_tags name_tags name_of index_of strip lstrip rstrip all_chars
    show_nat digits_onto digit_char string_eq nat_eq ℕ_discrete for_loop for_each write_points
    add_points add_point flush lower timestamp_ns parts_ns datetime_seconds read_digits partition
    removesuffix skip accept_datetime is_date parse_int nine_digits take_chars repeat_char
written = (_, refl)

write_raw_file-IsIdentified_example :
    (own : Dict String Json) × (points : List (RawPoint plain)) × IsOwned summary own
    × AllPairs (IsIdentified plain own) (select is_point (line ∷ no_field ∷ line ∷ [])) points
    × IsBatched points written.0
write_raw_file-IsIdentified_example =
    write_raw_file-IsIdentified plain true summary (line ∷ no_field ∷ line ∷ []) written.0 written.1
