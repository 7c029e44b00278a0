-- ===== src/Importer/Tags.antt =====
-- analyze/files/import-results.py: `execution_tags`.
use where_to_tls.Base.{
  ℕ, zero, suc, ◌≤◌, String, ◌≡◌, ap, subst, Bool, not, ◌&&◌, ◌||◌, ◌==◌, none, some, [], ◌∷◌, Dict,
  pos, negsuc, lookup, insert, ltb, lookup-insert_self, Result, ok, err, raise_if, ◌>>=◌, ◌>>◌,
  >>=-eq-ok, ok-injective, bad_run_name, bad_execution_index, string_eq, nat_eq, arith,
}
use Prim.Native.Char.{Char, code}
use where_to_tls.Base.Text.{all_chars, strip, parse_int}
use where_to_tls.Base.Decimal.{show_nat, parse_int-show_nat}
use where_to_tls.Importer.Json.{Json, Fields, null, truth, real, array, object, text, int, get}

-- No control character.
abbrev pub is_printed : Char → Bool
is_printed c = not (ltb (code c) 32) && not (code c == 127)

-- `run_name` where it is valid
unfoldable pub name_of : Json → Result String
unfolding string_eq
name_of (text name) = do
  raise_if (strip name == "" || not (all_chars is_printed name)) (bad_run_name name)
  ok name
name_of _ = err (bad_run_name "")

-- `execution_index` where it is valid; a bool is no int here.
unfoldable pub index_of : Json → Result ℕ
index_of (int (pos (suc n))) = ok (suc n)
index_of _ = err (bad_execution_index "")

unfoldable pub name_tags : Fields → Result (Dict String String)
name_tags record_fields = elim (get "run_name" record_fields) [
  | none ↦ ok []
  | some value ↦ (do name ← name_of value; ok (("wtt_run_name", name) ∷ []))
]

unfoldable pub execution_tags : Fields → Result (Dict String String)
unfolding string_eq
execution_tags record_fields = do
  tags ← name_tags record_fields
  elim (get "execution_index" record_fields) [
    | none ↦ ok tags
    | some value ↦ (do
      index ← index_of value
      ok (insert "wtt_execution_index" (show_nat index) tags))
  ]

-- What the tags say of the index of a record.
pub record IsIndexed (index : ℕ) (tags : Dict String String) : Type 0 where
  pub written : String
  pub there : lookup "wtt_execution_index" tags ≡ some written
  pub positive : 1 ≤ index
  pub read_back : parse_int written ≡ some (pos index)

index_of-eq-ok :
    (value : Json) (index : ℕ) → index_of value ≡ ok index → (value ≡ int (pos index)) × (1 ≤ index)
unfolding index_of
index_of-eq-ok (int (pos (suc n))) index h =
    (ap (λ m. int (pos m)) (ok-injective h), subst (λ m. 1 ≤ m) (ok-injective h) (omega arith))
index_of-eq-ok (int (pos zero)) index h = cc
index_of-eq-ok (int (negsuc n)) index h = cc
index_of-eq-ok null index h = cc
index_of-eq-ok (truth b) index h = cc
index_of-eq-ok (real m e) index h = cc
index_of-eq-ok (text s) index h = cc
index_of-eq-ok (array xs) index h = cc
index_of-eq-ok (object fields) index h = cc

-- Where a record has an execution index, `execution_tags` does not return unless it is a positive
-- integer, and then the tag that it writes is read by `int`, as the exporter reads it, as this index.
pub execution_tags-parse_int :
    (record_fields : Fields) (value : Json) (tags : Dict String String)
    → get "execution_index" record_fields ≡ some value
    → execution_tags record_fields ≡ ok tags
    → (index : ℕ) × (value ≡ int (pos index)) × IsIndexed index tags
unfolding execution_tags
execution_tags-parse_int record_fields value tags there h =
    let (names, named, h₁) = >>=-eq-ok (name_tags record_fields) _ h in
    let (index, is_index, h₂) = >>=-eq-ok (index_of value) _ (rw there at h₁) in
    let (same, positive) = index_of-eq-ok value index is_index in
    (
      index,
      same,
      subst (IsIndexed index) (ok-injective h₂) (record {
        written = show_nat index;
        there = lookup-insert_self "wtt_execution_index" (show_nat index) names;
        positive = positive;
        read_back = parse_int-show_nat index;
      }),
    )
