-- ===== src/Runs/Metadata/Records.antt =====
-- runs.py: every row of `parse_scenario_metadata_rows` is in the record of its execution.
use where_to_tls.Base.{
  String, ◌≡◌, sym, ap, ◌∙◌, subst, false, ◌==◌, List, [], ◌∷◌, Dict, lookup, insert, get_or,
  has_key, any, Bool-cases, inl, inr, Option-cases, get_or_of_lookup, lookup-insert_self,
  lookup-insert_ne, eq_of_test, none, some, AllItems, AllItems-append, AllItems-mono, AllValues,
  AllValues-insert, AllValues-lookup, ok, raise_if-eq-ok, >>=-eq-ok, ok-injective, for_loop,
  for_loop_done, incomplete_identity, no_field, duplicate_field, string_eq, list_eq, arith,
}
use where_to_tls.Base.Growth.{Extends, Extends-insert}
use where_to_tls.Base.Occurs.{Occurs, lookup-Occurs}
use where_to_tls.Runs.Rows.{Row, field}
use where_to_tls.Runs.Metadata.{
  identity_fields, zipped, row_key, add_field, parse_scenario_metadata_rows,
}

abbrev Records : Type 0
Records = Dict (List String) Row

-- The record of a row's execution, with the row's own field.
record HasRecord (records : Records) (row : Row) : Type 0 where
  whole : Row
  found : lookup (row_key row) records ≡ some whole
  own : lookup (field "_field" row) whole ≡ some (field "_value" row)

abbrev Identified : Records → Type 0
Identified = AllValues (λ key whole. Extends (zipped identity_fields key) whole)

-- What a round that does not raise tests and does.
record Round (records : Records) (row : Row) (after : Records) : Type 0 where
  complete : any (λ value. value == "") (row_key row) ≡ false
  named : (field "_field" row == "") ≡ false
  free :
      has_key
        (field "_field" row)
        (get_or (row_key row) (zipped identity_fields (row_key row)) records)
      ≡ false
  result :
      insert
        (row_key row)
        (insert
          (field "_field" row)
          (field "_value" row)
          (get_or (row_key row) (zipped identity_fields (row_key row)) records))
        records
      ≡ after

add_field-Round :
    (records : Records) (row : Row) (after : Records)
    → add_field records row ≡ ok after
    → Round records row after
unfolding add_field
add_field-Round records row after h =
    let (complete, h₁) = raise_if-eq-ok _ (incomplete_identity "") _ h in
    let (named, h₂) = raise_if-eq-ok _ (no_field "") _ h₁ in
    let (free, h₃) = raise_if-eq-ok _ (duplicate_field (field "_field" row)) _ h₂ in
    record { complete = complete; named = named; free = free; result = ok-injective h₃ }

missing_record :
    (records : Records) (key : List String) (d : Row)
    → lookup key records ≡ none
    → get_or key d records ≡ d
missing_record records key d h = ground arith

module _ (records : Records) (row : Row) (after : Records) (r : Round records row after) where
  abbrev base : Row
  base = get_or (row_key row) (zipped identity_fields (row_key row)) records

  abbrev grown : Row
  grown = insert (field "_field" row) (field "_value" row) base

  Round-HasRecord : HasRecord after row
  Round-HasRecord = record {
    whole = grown;
    found =
        ap (lookup (row_key row)) (sym r.result) ∙ lookup-insert_self (row_key row) grown records;
    own = lookup-insert_self (field "_field" row) (field "_value" row) base;
  }

  Round-keeps : (other : Row) → HasRecord records other → HasRecord after other
  Round-keeps other p = elim (Bool-cases (row_key other == row_key row)) [
    | inl same ↦
        let e = eq_of_test (row_key other) (row_key row) same in
        let there : base ≡ p.whole =
          get_or_of_lookup (row_key row) p.whole (zipped identity_fields (row_key row)) records
            (ap (λ k. lookup k records) (sym e) ∙ p.found) in
        record {
          whole = grown;
          found =
              ap (lookup (row_key other)) (sym r.result)
              ∙ ap (λ k. lookup k (insert (row_key row) grown records)) e
              ∙ lookup-insert_self (row_key row) grown records;
          own =
              Extends-insert base (field "_field" row) (field "_value" row) r.free
                (field "_field" other) (field "_value" other)
                (ap (lookup (field "_field" other)) there ∙ p.own);
        }
    | inr differs ↦ record {
      whole = p.whole;
      found =
          ap (lookup (row_key other)) (sym r.result)
          ∙ lookup-insert_ne (row_key other) (row_key row) grown records differs
          ∙ p.found;
      own = p.own;
    }
  ]

  base_missing : lookup (row_key row) records ≡ none → base ≡ zipped identity_fields (row_key row)
  base_missing h = missing_record records (row_key row) (zipped identity_fields (row_key row)) h

  base-Extends : Identified records → Extends (zipped identity_fields (row_key row)) base
  base-Extends all = elim (Option-cases (lookup (row_key row) records)) [
    | inl missing ↦ λ name value h.
        subst (λ (x : Row). lookup name x ≡ some value) (sym (base_missing missing)) h
    | inr (whole, found) ↦
        subst (Extends (zipped identity_fields (row_key row)))
          (sym (
            get_or_of_lookup (row_key row) whole (zipped identity_fields (row_key row)) records
              found))
          (AllValues-lookup (λ key whole. Extends (zipped identity_fields key) whole) records
            (row_key row) whole all found)
  ]

  Round-Identified : Identified records → Identified after
  Round-Identified all = subst Identified r.result (
      AllValues-insert (λ key whole. Extends (zipped identity_fields key) whole) records
        (row_key row) grown
        (λ name value h.
          Extends-insert base (field "_field" row) (field "_value" row) r.free name value
            (base-Extends all name value h))
        all)

-- A row in the records: its execution's record has the row's identity and the row's field.
pub record IsRecorded (records : List Row) (row : Row) : Type 0 where
  pub whole : Row
  pub listed : Occurs whole records
  pub identity : Extends (zipped identity_fields (row_key row)) whole
  pub own : lookup (field "_field" row) whole ≡ some (field "_value" row)

-- If `parse_scenario_metadata_rows` returns, then each row has a record in the result that holds the
-- six fields of the row's identity and, under the name of the row's field, the row's value.
pub parse_scenario_metadata_rows-IsRecorded :
    (rows : List Row) (records : List Row)
    → parse_scenario_metadata_rows rows ≡ ok records
    → AllItems (IsRecorded records) rows
unfolding parse_scenario_metadata_rows
parse_scenario_metadata_rows-IsRecorded rows records h =
    let (found, looped, h₁) = >>=-eq-ok (for_loop add_field [] rows) _ h in
    let (all, identified) =
      for_loop_done add_field (λ done d. AllItems (HasRecord d) done × Identified d)
        (λ done d row t e p.
          let r = add_field-Round d row t e in
          (
            AllItems-append (HasRecord t) done (row ∷ [])
                (AllItems-mono (HasRecord d) (HasRecord t) done (Round-keeps d row t r) p.0)
                (Round-HasRecord d row t r, tt),
            Round-Identified d row t r p.1,
          ))
        rows [] [] found looped (tt, tt) in
    AllItems-mono (HasRecord found) (IsRecorded records) rows
      (λ row p. record {
        whole = p.whole;
        listed =
            subst (Occurs p.whole) (ok-injective h₁)
              (lookup-Occurs (row_key row) found p.whole p.found);
        identity =
            AllValues-lookup (λ key whole. Extends (zipped identity_fields key) whole) found
              (row_key row) p.whole identified p.found;
        own = p.own;
      })
      all
