-- ===== src/Exporter/Reuse.antt =====
-- exporter.py: `reusable_svg`, which compares the runs of a chart that is there with those it is to show.
use where_to_tls.Base.{
  String, Bool, ◌&&◌, List, [], ◌∷◌, Dict, values, all, same_set, Result, ok, err, ◌>>=◌, for_each,
  bad_provenance, bad_recorded_runs, string_eq,
}
use where_to_tls.Importer.Json.{
  Json, Items, Fields, no_item, item_and, null, text, array, object, get_or_json, is_text,
}
use where_to_tls.Importer.RawFile.{dict_of}

items_of : Items → List Json
items_of no_item = []
items_of (item_and x xs) = x ∷ items_of xs

unfoldable pub text_of : Json → Result String
text_of (text s) = ok s
text_of other = err (bad_recorded_runs "")

-- `recorded_runs`, with the checks of it
unfoldable pub recorded_of : Json → Result (List String)
unfolding items_of
recorded_of (array xs) = for_each text_of (items_of xs)
recorded_of (object fields) = for_each text_of (values (dict_of fields))
recorded_of other = err (bad_recorded_runs "")

-- `provenance.get(key) == value` of a text
abbrev pub has_text : Fields → String × String → Bool
has_text provenance (key, value) = is_text value (get_or_json key null provenance)

-- `provenance` is what `json.loads` returned of the metadata of the SVG, `{}` where it has none.
unfoldable pub reusable_svg : Json → List String → Dict String String → Result Bool
unfolding string_eq
reusable_svg (object provenance) run_ids expected_metadata = do
  recorded ← recorded_of (get_or_json "run_ids" (array no_item) provenance)
  ok (same_set recorded run_ids && all (has_text provenance) expected_metadata)
reusable_svg other run_ids expected_metadata = err (bad_provenance "")
