-- ===== src/Runs/TlsComparison/Taken.antt =====
-- runs.py: what `build_tls_comparison` makes of an execution: the flat baseline gets byte counters.
use where_to_tls.Base.{
  ◌≢◌, ◌⊎◌, ℕ, String, ◌≡◌, refl, sym, ap, ◌∙◌, subst, true, false, some, List, [], ◌∷◌, ◌++◌, Dict,
  lookup, AllValues, AllValues-insert, AllValues-lookup, AllPairs, no_pair, pair_and, Bool-cases,
  inl, inr, eq_of_test, ok, or_raise, or_raise-eq-ok, >>=-eq-ok, ok-injective, for_loop,
  for_loop_done, key_error, not_an_integer, string_eq, pair_eq, int_eq, nat_eq, arith,
}
use mathlib.Core.Bool.{false≢true}
use where_to_tls.Base.Occurs.{Occurs, for_loop-Occurs}
use where_to_tls.Base.Text.{parse_int}
use where_to_tls.Config.{Family, Profile, family_eq, profile_eq}
use where_to_tls.Common.Numbers.{Floats}
use where_to_tls.Runs.Rows.{Row, item}
use where_to_tls.Runs.Summary.{ExecutionKey, SummaryExecution}
use where_to_tls.Runs.Summary.Groups.{TlsKey}
use where_to_tls.Runs.TlsComparison.{
  ProfileKey, Identities, RecordKey, is_flat, add_record, read_counters, with_counters,
  check_execution, add_execution,
}
use where_to_tls.Runs.TlsComparison.Agreement.{IsReadFrom, read_counters-row}

-- A row of the run and the execution.
pub record IsRecordOf (rows : List Row) (key : RecordKey) (row : Row) : Type 0 where
  pub listed : Occurs row rows
  pub of_run : lookup "wtt_run_id" row ≡ some key.0
  pub index : String
  pub index_found : lookup "wtt_execution_index" row ≡ some index
  pub index_read : parse_int index ≡ some key.1

abbrev pub AllRecords : List Row → Dict RecordKey Row → Type 0
AllRecords rows = AllValues (IsRecordOf rows)

add_record-AllRecords :
    (rows : List Row) (records : Dict RecordKey Row) (row : Row) (after : Dict RecordKey Row)
    → Occurs row rows
    → add_record records row ≡ ok after
    → AllRecords rows records
    → AllRecords rows after
unfolding add_record
add_record-AllRecords rows records row after o h all =
    let (run_id, run_read, h₁) = >>=-eq-ok (item "wtt_run_id" row) _ h in
    let (index, index_read, h₂) = >>=-eq-ok (item "wtt_execution_index" row) _ h₁ in
    let (number, number_read, h₃) =
      >>=-eq-ok (or_raise (parse_int index) (not_an_integer index)) _ h₂ in
    subst (AllRecords rows) (ok-injective h₃) (
      AllValues-insert (IsRecordOf rows) records (run_id, number) row
        (record {
          listed = o;
          of_run = or_raise-eq-ok (lookup "wtt_run_id" row) (key_error "wtt_run_id") run_read;
          index = index;
          index_found =
              or_raise-eq-ok (lookup "wtt_execution_index" row) (key_error "wtt_execution_index")
                index_read;
          index_read = or_raise-eq-ok (parse_int index) (not_an_integer index) number_read;
        })
        all)

pub records-AllRecords :
    (rows : List Row) (records : Dict RecordKey Row)
    → for_loop add_record [] rows ≡ ok records
    → AllRecords rows records
records-AllRecords rows records h =
    for_loop-Occurs add_record (AllRecords rows) rows
      (λ s row t. add_record-AllRecords rows s row t) [] records h tt

AllPairs-append {ℓ κ μ} :
    {A : Type ℓ} {B : Type κ} (R : A → B → Type μ) (xs xs' : List A) (ys ys' : List B)
    → AllPairs R xs ys
    → AllPairs R xs' ys'
    → AllPairs R (xs ++ xs') (ys ++ ys')
AllPairs-append R _ xs' _ ys' no_pair q = q
AllPairs-append R _ xs' _ ys' (pair_and x y xs ys r p) q =
    pair_and x y (xs ++ xs') (ys ++ ys') r (AllPairs-append R xs xs' ys ys' p q)

module _ (F : Floats) where
  -- The counters of an execution are those of a row of its run and index.
  pub record IsCountedFrom (rows : List Row) (x x' : SummaryExecution) : Type 0 where
    pub row : Row
    pub of_execution : IsRecordOf rows (x.run_id, x.execution_index) row
    pub counters : Dict String ℕ
    pub read : IsReadFrom F row counters
    pub there : x'.byte_counters ≡ some counters

  -- An execution is taken over as it is, except for the counters that the flat baseline gets.
  pub record IsTaken (rows : List Row) (key : ProfileKey)
      (before after : ExecutionKey × SummaryExecution) : Type 0 where
    pub same_key : after.0 ≡ before.0
    pub same : record after.1 { byte_counters = before.1.byte_counters } ≡ before.1
    pub counted :
        ((key ≡ (Family.baseline, Profile.flat)) × IsCountedFrom rows before.1 after.1)
        ⊎ ((key ≢ (Family.baseline, Profile.flat)) × (after.1 ≡ before.1))

  flat_eq : (key : ProfileKey) → is_flat key ≡ true → key ≡ (Family.baseline, Profile.flat)
  flat_eq (family, profile) h = λ i. (
    eq_of_test family Family.baseline (ground (arith, h)) i,
    eq_of_test profile Profile.flat (ground (arith, h)) i,
  )

  not_flat : (key : ProfileKey) → is_flat key ≡ false → key ≢ (Family.baseline, Profile.flat)
  unfolding family_eq profile_eq
  not_flat key h e = false≢true (sym h ∙ ap is_flat e)

  with_counters-IsTaken :
      (rows : List Row) (records : Dict RecordKey Row) (key : ProfileKey) (place : ExecutionKey)
      (x x' : SummaryExecution)
      → AllRecords rows records
      → with_counters F records key x ≡ ok x'
      → IsTaken rows key (place, x) (place, x')
  unfolding with_counters
  with_counters-IsTaken rows records key place x x' all h = elim (Bool-cases (is_flat key)) [
    | inr other ↦
        let e = ok-injective (rw other at h) in
        record {
          same_key = refl;
          same =
              ap (λ (y : SummaryExecution). record y { byte_counters = x.byte_counters }) (sym e);
          counted = inr (not_flat key other, sym e);
        }
    | inl flat ↦
        let (counters, read, h₁) = >>=-eq-ok (read_counters F records x) _ (rw flat at h) in
        let (row, found, from) = read_counters-row F records x counters read in
        let e = ok-injective h₁ in
        record {
          same_key = refl;
          same =
              ap (λ (y : SummaryExecution). record y { byte_counters = x.byte_counters }) (sym e);
          counted = inl (
            flat_eq key flat,
            record {
              row = row;
              of_execution = AllValues-lookup (IsRecordOf rows) records _ row all found;
              counters = counters;
              read = from;
              there = ap (λ (y : SummaryExecution). y.byte_counters) (sym e);
            },
          );
        }
  ]

  pub add_execution-IsTaken :
      (rows : List Row) (records : Dict RecordKey Row) (key : ProfileKey) (configuration : TlsKey)
      (before after : Identities) (items out : Dict ExecutionKey SummaryExecution)
      → AllRecords rows records
      → for_loop (add_execution F records key configuration) (before, []) items ≡ ok (after, out)
      → AllPairs (IsTaken rows key) items out
  unfolding add_execution
  add_execution-IsTaken rows records key configuration before after items out all h =
      for_loop_done (add_execution F records key configuration)
        (λ done (s : Identities × Dict ExecutionKey SummaryExecution).
          AllPairs (IsTaken rows key) done s.1)
        (λ done s item t step p.
          let (_, checked, h₁) =
            >>=-eq-ok (check_execution F key configuration s.0 item.1) _ step in
          let (x', counted, h₂) = >>=-eq-ok (with_counters F records key item.1) _ h₁ in
          subst
            (λ (u : Identities × Dict ExecutionKey SummaryExecution).
              AllPairs (IsTaken rows key) (done ++ (item ∷ [])) u.1)
            (ok-injective h₂)
            (AllPairs-append (IsTaken rows key) done (item ∷ []) s.1 ((item.0, x') ∷ []) p (
              pair_and item (item.0, x') [] []
                (with_counters-IsTaken rows records key item.0 item.1 x' all counted) no_pair)))
        items [] (before, []) (after, out) h no_pair
