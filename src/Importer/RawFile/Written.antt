-- ===== src/Importer/RawFile/Written.antt =====
-- analyze/files/import-results.py: the batches that `write_raw_file` writes.
use where_to_tls.Base.{
  String, ◌≡◌, ap, ◌∙◌, subst, Bool, true, false, ◌&&◌, ◌==◌, some, List, [], ◌∷◌, Dict, lookup,
  has_key, select, is_empty, NodupKeys, Bool-cases, inl, inr, ok, or_raise, or_raise-eq-ok,
  key_error, raise_if-eq-ok, >>=-eq-ok, ok-injective, for_loop, for_each, AllItems, AllItems-mono,
  AllPairs, for_each-AllPairs, no_observations, not_a_float, string_eq,
}
use mathlib.Core.Option.{none-ne-some, some-injective}
use where_to_tls.Base.Text.{lower}
use where_to_tls.Importer.Json.{
  Json, Fields, null, truth, int, real, array, object, text, get, get_or_json, is_text,
}
use where_to_tls.Importer.Evidence.{tls_group_metadata}
use where_to_tls.Importer.Batches.{IsBatched, write_points-IsBatched}
use where_to_tls.Importer.RawFile.{
  Conversions, item_of, record_tags, is_owned, is_point, point_tags, as_object, time_of, merge_tag,
  RawPoint, raw_point, write_raw_file,
}
use where_to_tls.Importer.RawFile.Identified.{Agrees, merge_tag-IsMerged, set_tags-lookup}
use where_to_tls.Importer.RawFile.Owned.{IsOwned, record_tags-IsOwned}
use where_to_tls.Importer.RawFile.Keys.{point_tags-NodupKeys, record_tags-NodupKeys}

as_object-eq-ok :
    (value : Json) (fields : Fields) → as_object value ≡ ok fields → value ≡ object fields
unfolding as_object
as_object-eq-ok (object own) fields h = ap object (ok-injective h)
as_object-eq-ok null fields h = cc
as_object-eq-ok (truth b) fields h = cc
as_object-eq-ok (int n) fields h = cc
as_object-eq-ok (real m e) fields h = cc
as_object-eq-ok (text s) fields h = cc
as_object-eq-ok (array xs) fields h = cc

module _ (C : Conversions) where
  open C use {str}

  -- A point with the identity of a record.
  pub record IsIdentified (own : Dict String Json) (line : Fields) (point : RawPoint C)
      : Type 0 where
    pub data_fields : Fields
    pub data_read : get "data" line ≡ some (object data_fields)
    pub given : Dict String Json
    pub given_read : point_tags (get_or_json "tags" null data_fields) ≡ ok given
    pub agrees :
        AllItems
          (λ item.
            (found : Json) → lookup item.0 given ≡ some found → is_text (str found) item.1 ≡ true)
          own
    pub owned :
        AllItems
          (λ item. is_owned item.0 ≡ true → lookup item.0 point.tags ≡ some (text (str item.1)))
          own
    pub others :
        (key : String) (value : Json)
        → lookup key given ≡ some value
        → has_key key own ≡ false
        → lookup key point.tags ≡ some (text (str value))

  read_object :
      (line data_fields : Fields) (read : Json)
      → item_of "data" line ≡ ok read
      → as_object read ≡ ok data_fields
      → get "data" line ≡ some (object data_fields)
  unfolding item_of
  read_object line data_fields read h k =
      or_raise-eq-ok (get "data" line) (key_error "data") h
      ∙ ap some (as_object-eq-ok read data_fields k)

  raw_point-IsIdentified :
      (own : Dict String Json) (line : Fields) (point : RawPoint C)
      → NodupKeys own
      → raw_point C own line ≡ ok point
      → IsIdentified own line point
  unfolding raw_point
  raw_point-IsIdentified own line point u h =
      let (read, read_is, h₁) = >>=-eq-ok (item_of "data" line) _ h in
      let (data_fields, is_object, h₂) = >>=-eq-ok (as_object read) _ h₁ in
      let (given, given_read, h₃) =
        >>=-eq-ok (point_tags (get_or_json "tags" null data_fields)) _ h₂ in
      let (merged, looped, h₄) = >>=-eq-ok (for_loop (merge_tag C) given own) _ h₃ in
      let (time, _, h₅) = >>=-eq-ok (item_of "time" data_fields) _ h₄ in
      let (timestamp, _, h₆) = >>=-eq-ok (time_of time) _ h₅ in
      let (metric, _, h₇) = >>=-eq-ok (item_of "metric" line) _ h₆ in
      let (number, _, h₈) = >>=-eq-ok (item_of "value" data_fields) _ h₇ in
      let (value, _, h₉) = >>=-eq-ok (or_raise (C.float number) (not_a_float "value")) _ h₈ in
      let i = merge_tag-IsMerged C own given merged looped u in
      let distinct = i.distinct (point_tags-NodupKeys _ given given_read) in
      subst (IsIdentified own line) (ok-injective h₉) (record {
        data_fields = data_fields;
        data_read = read_object line data_fields read read_is is_object;
        given = given;
        given_read = given_read;
        agrees = AllItems-mono (Agrees C given merged) _ own (λ item a. a.same) i.each;
        owned =
            AllItems-mono (Agrees C given merged) _ own
              (λ item a is.
                set_tags-lookup C (("metric", metric) ∷ []) merged item.0 item.1 distinct
                  (a.owned is))
              i.each;
        others = λ key found there absent.
            set_tags-lookup C (("metric", metric) ∷ []) merged key found distinct
              (i.others key absent ∙ there);
      })

  -- If `write_raw_file` does not skip a file and returns, then the tags of its record have distinct
  -- keys and the record's run, scenario, stack, profile, name and execution index, and, unless the source
  -- of its TLS group is `unverified-legacy`, its group, configured group and that source; every line
  -- of a point became one point, in order, and the batches hold these points once and in order, all
  -- but the last of them full; a tag of the record that a point has as well is the same there, those
  -- of the TLS group, the name and the execution index are tags of every point, and a point's other
  -- tags are left as they are.
  pub write_raw_file-IsIdentified :
      (skip_warmup : Bool) (summary : Fields) (lines : List Fields)
      (batches : List (List (RawPoint C)))
      → write_raw_file C skip_warmup summary lines ≡ ok (some batches)
      → (own : Dict String Json) × (points : List (RawPoint C)) × IsOwned summary own
        × AllPairs (IsIdentified own) (select is_point lines) points
        × IsBatched points batches
  unfolding write_raw_file
  write_raw_file-IsIdentified skip_warmup summary lines batches h =
      let (metadata, has_group, h₁) = >>=-eq-ok (tls_group_metadata summary) _ h in
      let warm =
        skip_warmup && lower (str (get_or_json "warmup" (text "unavailable") summary)) == "true" in
      elim (Bool-cases warm) [
        | inl skipped ↦ absurd (none-ne-some batches (ok-injective (rw skipped at h₁)))
        | inr kept ↦
            let (own, owned, h₂) = >>=-eq-ok (record_tags summary metadata) _ (rw kept at h₁) in
            let (some_line, h₃) =
              raise_if-eq-ok (is_empty (select is_point lines)) (no_observations "") _ h₂ in
            let (points, read, h₄) =
              >>=-eq-ok (for_each (raw_point C own) (select is_point lines)) _ h₃ in
            let u = record_tags-NodupKeys summary metadata own owned in
            (
              own,
              points,
              record_tags-IsOwned summary metadata own has_group owned,
              for_each-AllPairs (raw_point C own) (IsIdentified own)
                  (λ line point k. raw_point-IsIdentified own line point u k)
                  (select is_point lines) points read,
              subst (IsBatched points) (some-injective _ _ (ok-injective h₄))
                  (write_points-IsBatched points).0,
            )
      ]
