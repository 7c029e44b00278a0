-- ===== src/Runs/Rows.antt =====
-- A row of an Influx answer, and the rows of each run: the loop `by_run.setdefault(…).append(row)`
-- at the head of four functions of runs.py.
use where_to_tls.Base.{
  String, ◌≡◌, refl, ap, sym, ◌∙◌, Bool, some, List, [], ◌∷◌, ◌++◌, Dict, lookup, insert, get_or,
  get_or-insert, or_raise-eq-ok, select, Result, ok, or_raise, ◌>>=◌, >>=-eq-ok, ok-injective,
  for_loop, for_loop_done, key_error, not_an_integer, string_eq, option_eq, ◌==◌, arith,
  if◌then◌else◌,
}
use where_to_tls.Base.Text.{parse_int}
use where_to_tls.Common.Slots.{Execution}

abbrev pub Row : Type 0
Row = Dict String String

-- `row[key]`
abbrev pub item : String → Row → Result String
item key row = or_raise (lookup key row) (key_error key)

-- `row.get(key, "")`
abbrev pub field : String → Row → String
field key = get_or key ""

-- `(row["wtt_profile"], int(row["wtt_execution_index"]))`
unfoldable pub execution_of : Row → Result Execution
execution_of row = do
  profile ← item "wtt_profile" row
  index ← item "wtt_execution_index" row
  number ← or_raise (parse_int index) (not_an_integer index)
  ok (profile, number)

push_row : Dict String (List Row) → Row → Result (Dict String (List Row))
push_row by_run row = do
  run_id ← item "wtt_run_id" row
  ok (insert run_id (get_or run_id [] by_run ++ (row ∷ [])) by_run)

unfoldable pub group_by_run : List Row → Result (Dict String (List Row))
unfolding push_row
group_by_run = for_loop push_row []

-- Is the row one of the run?
abbrev pub is_of_run : String → Row → Bool
is_of_run run_id row = lookup "wtt_run_id" row == some run_id

-- The rows of a run, in their order.
abbrev pub rows_of : String → List Row → List Row
rows_of run_id = select (is_of_run run_id)

select-append :
    (p : Row → Bool) (xs : List Row) (y : Row)
    → select p (xs ++ (y ∷ [])) ≡ (if p y then select p xs ++ (y ∷ []) else select p xs)
select-append p [] y = refl
select-append p (x ∷ xs) y = ground (arith, select-append p xs y)

get_or-push :
    (d : Dict String (List Row)) (row : Row) (run_id k : String)
    → lookup "wtt_run_id" row ≡ some run_id
    → get_or k [] (insert run_id (get_or run_id [] d ++ (row ∷ [])) d)
      ≡ (if is_of_run k row then get_or k [] d ++ (row ∷ []) else get_or k [] d)
get_or-push d row run_id k found =
    ground (arith, found, get_or-insert k run_id [] (get_or run_id [] d ++ (row ∷ [])) d)

push_row-get_or :
    (d : Dict String (List Row)) (row : Row) (t : Dict String (List Row)) (k : String)
    → push_row d row ≡ ok t
    → get_or k [] t ≡ (if is_of_run k row then get_or k [] d ++ (row ∷ []) else get_or k [] d)
unfolding push_row
push_row-get_or d row t k h =
    let (run_id, found, put) = >>=-eq-ok (item "wtt_run_id" row) _ h in
    ap (get_or k []) (sym (ok-injective put))
    ∙ get_or-push d row run_id k (or_raise-eq-ok _ (key_error "wtt_run_id") found)

-- Each run has its rows of the answer, in the order of the answer, and a run with none has no rows.
pub group_by_run-rows_of :
    (rows : List Row) (by_run : Dict String (List Row))
    → group_by_run rows ≡ ok by_run
    → (run_id : String) → get_or run_id [] by_run ≡ rows_of run_id rows
unfolding group_by_run
group_by_run-rows_of rows by_run h =
    for_loop_done push_row (λ done d. (k : String) → get_or k [] d ≡ rows_of k done)
      (λ done d row t e p k.
        push_row-get_or d row t k e
        ∙ ap (λ x. if is_of_run k row then x ++ (row ∷ []) else x) (p k)
        ∙ sym (select-append (is_of_run k) done row))
      rows [] [] by_run h (λ k. refl)
