-- ===== src/Runs/Origins/Earliest.antt =====
-- The origins that `parse_origins` returns.
use where_to_tls.Base.{
  passed, List, ◌∷◌, ◌++◌, ◌==◌, AllItems-append, AllItems-mono, for_loop_done, not_an_integer,
  String, ◌≡◌, refl, sym, ap, ◌∙◌, subst, true, false, not, none, some, Option-cases, inl, inr,
  Bool-cases, [], Dict, keys, lookup, insert, get_or, get_or_of_lookup, has_key, lookup-insert_self,
  lookup-insert_ne, AllValues, AllValues-insert, AllValues-lookup, AllItems, eq_of_test, is_empty,
  no_difference, contains, same_set-contains, difference, same_set, ℤ, ltb_ℤ, ◌≤ℤ◌, arith, ok,
  or_raise, or_raise-eq-ok, raise_if-eq-ok, >>=-eq-ok, ok-injective, for_loop, for_loop-AllItems,
  key_error, origin_identity_differs, duplicate_origin, missing_origins, origin_set_differs,
  string_eq, pair_eq, int_eq, if◌then◌else◌,
}
use where_to_tls.Base.Growth.{old_key, AllValues-mono}
use where_to_tls.Base.Occurs.{Occurs, for_loop-Occurs}
use where_to_tls.Base.Text.{parse_int}
use mathlib.Core.Bool.{false≢true}
use mathlib.Core.Option.{none-ne-some, some-injective}
use where_to_tls.Config.{Family}
use where_to_tls.Common.RunIds.{run_family}
use where_to_tls.Common.Slots.{Execution, expected_executions}
use where_to_tls.Common.Timestamps.{timestamp_ns}
use where_to_tls.Runs.Rows.{Row, item}
use where_to_tls.Runs.Comparison.{Comparison, Identity}
use where_to_tls.Runs.Origins.{
  Origin, expected_runs, new_origin, earlier, put_origin, origin_execution, add_expected,
  add_origin, check_origin, parse_origins,
}

-- m is the least of the times.
pub record IsEarliest (times : Dict Execution ℤ) (m : ℤ) : Type 0 where
  pub not_after : AllValues (λ key t. m ≤ℤ t) times
  pub attained : Execution
  pub found : lookup attained times ≡ some m

IsEarliest-first : (key : Execution) (t : ℤ) → IsEarliest (insert key t []) t
IsEarliest-first key t = record {
  not_after = (omega arith, tt);
  attained = key;
  found = lookup-insert_self key t [];
}

below_of : (m t : ℤ) → ltb_ℤ t m ≡ true → t ≤ℤ m
below_of m t h = ground arith

IsEarliest-next :
    (times : Dict Execution ℤ) (m t : ℤ) (key : Execution)
    → has_key key times ≡ false
    → IsEarliest times m
    → IsEarliest (insert key t times) (if ltb_ℤ t m then t else m)
IsEarliest-next times m t key free e = elim (Bool-cases (ltb_ℤ t m)) [
  | inl less ↦ rw less (record {
    not_after =
        AllValues-insert (λ key u. t ≤ℤ u) times key t (omega arith)
          (AllValues-mono (λ key u. m ≤ℤ u) (λ key u. t ≤ℤ u) times
            (λ key u below. omega (arith, below, below_of m t less)) e.not_after);
    attained = key;
    found = lookup-insert_self key t times;
  })
  | inr not_less ↦ rw not_less (record {
    not_after =
        AllValues-insert (λ key u. m ≤ℤ u) times key t (ground (arith, not_less)) e.not_after;
    attained = e.attained;
    found =
        lookup-insert_ne e.attained key t times (old_key times e.attained key free e.found)
        ∙ e.found;
  })
]

-- The row has the time of an execution of a run.
pub record IsTimeOf (row : Row) (run_id : String) (key : Execution) (t : ℤ) : Type 0 where
  pub of_run : lookup "wtt_run_id" row ≡ some run_id
  pub profile : lookup "wtt_profile" row ≡ some key.0
  pub index : String
  pub index_found : lookup "wtt_execution_index" row ≡ some index
  pub index_read : parse_int index ≡ some key.1
  pub time : String
  pub time_found : lookup "_time" row ≡ some time
  pub time_read : timestamp_ns time ≡ ok t

-- The time of a row is that of its execution in the entry of its run.
pub record HasTime (origins : Dict String Origin) (row : Row) (run_id : String) : Type 0 where
  pub key : Execution
  pub time : ℤ
  pub of_row : IsTimeOf row run_id key time
  pub entry : Origin
  pub entry_found : lookup run_id origins ≡ some entry
  pub found : lookup key entry.executions ≡ some time

-- An entry of the origins of a comparison.
pub record IsOriginOf (comparison : Comparison) (rows : List Row) (run_id : String) (entry : Origin)
    : Type 0 where
  pub identity : Identity
  pub known : lookup run_id comparison.identities ≡ some identity
  pub scenario : entry.scenario ≡ identity.scenario
  pub stack : entry.stack ≡ identity.stack
  pub earliest : ℤ
  pub origin : entry.origin_ns ≡ some earliest
  pub least : IsEarliest entry.executions earliest
  pub times :
      AllValues
        (λ key t. (row : Row) × Occurs row rows × IsTimeOf row run_id key t)
        entry.executions

-- What a round for an expected run reads and tests.
record Round (comparison : Comparison) (origins : Dict String Origin) (run_id : String) (row : Row)
    (after : Dict String Origin) : Type 0 where
  identity : Identity
  known : lookup run_id comparison.identities ≡ some identity
  scenario : String
  same_scenario : scenario ≡ identity.scenario
  stack : String
  same_stack : stack ≡ identity.stack
  key : Execution
  free : has_key key (get_or run_id (new_origin scenario stack) origins).executions ≡ false
  time : ℤ
  of_row : IsTimeOf row run_id key time
  result :
      insert run_id
        (put_origin key time (get_or run_id (new_origin scenario stack) origins))
        origins
      ≡ after

item-lookup :
    (name : String) (row : Row) (value : String)
    → item name row ≡ ok value
    → lookup name row ≡ some value
item-lookup name row value h = or_raise-eq-ok (lookup name row) (key_error name) h

origin_execution-IsTimeOf :
    (row : Row) (run_id : String) (key : Execution) (time : String) (t : ℤ)
    → lookup "wtt_run_id" row ≡ some run_id
    → origin_execution row ≡ ok key
    → lookup "_time" row ≡ some time
    → timestamp_ns time ≡ ok t
    → IsTimeOf row run_id key t
unfolding origin_execution
origin_execution-IsTimeOf row run_id key time t of_run h found read =
    let (index, read₁, h₁) = >>=-eq-ok (item "wtt_execution_index" row) _ h in
    let (number, read₂, h₂) = >>=-eq-ok (or_raise (parse_int index) (not_an_integer index)) _ h₁ in
    let (profile, read₃, h₃) = >>=-eq-ok (item "wtt_profile" row) _ h₂ in
    let same = ok-injective h₃ in
    record {
      of_run = of_run;
      profile = item-lookup "wtt_profile" row profile read₃ ∙ ap (λ (k : Execution). some k.0) same;
      index = index;
      index_found = item-lookup "wtt_execution_index" row index read₁;
      index_read =
          or_raise-eq-ok (parse_int index) (not_an_integer index) read₂
          ∙ ap (λ (k : Execution). some k.1) same;
      time = time;
      time_found = found;
      time_read = read;
    }

add_expected-Round :
    (comparison : Comparison) (origins : Dict String Origin) (run_id : String) (row : Row)
    (after : Dict String Origin)
    → lookup "wtt_run_id" row ≡ some run_id
    → add_expected comparison origins run_id row ≡ ok after
    → Round comparison origins run_id row after
unfolding add_expected
add_expected-Round comparison origins run_id row after of_run h =
    let (identity, found, h₁) =
      >>=-eq-ok (or_raise (lookup run_id comparison.identities) (key_error run_id)) _ h in
    let (scenario, read₁, h₂) = >>=-eq-ok (item "wtt_scenario" row) _ h₁ in
    let (same₁, h₃) = raise_if-eq-ok _ (origin_identity_differs run_id) _ h₂ in
    let (stack, read₂, h₄) = >>=-eq-ok (item "wtt_stack" row) _ h₃ in
    let (same₂, h₅) = raise_if-eq-ok _ (origin_identity_differs run_id) _ h₄ in
    let (key, read₃, h₆) = >>=-eq-ok (origin_execution row) _ h₅ in
    let (free, h₇) = raise_if-eq-ok _ (duplicate_origin run_id) _ h₆ in
    let (time, read₄, h₈) = >>=-eq-ok (item "_time" row) _ h₇ in
    let (t, read₅, h₉) = >>=-eq-ok (timestamp_ns time) _ h₈ in
    record {
      identity = identity;
      known = or_raise-eq-ok _ (key_error run_id) found;
      scenario = scenario;
      same_scenario = eq_of_test scenario identity.scenario (passed _ same₁);
      stack = stack;
      same_stack = eq_of_test stack identity.stack (passed _ same₂);
      key = key;
      free = free;
      time = t;
      of_row =
          origin_execution-IsTimeOf row run_id key time t of_run read₃
            (item-lookup "_time" row time read₄) read₅;
      result = ok-injective h₉;
    }

-- An entry with a time for each expected execution.
pub record HasExecutions (run_id : String) (entry : Origin) : Type 0 where
  pub family : Family
  pub read : run_family run_id ≡ ok family
  pub complete :
      (x : Execution) → contains (keys entry.executions) x ≡ contains (expected_executions family) x

-- A row of an expected run that is done has its time in the origins.
abbrev pub AllRows : List String → List Row → Dict String Origin → Type 0
AllRows expected done origins =
    AllItems
      (λ row.
        (run_id : String)
        → lookup "wtt_run_id" row ≡ some run_id
        → contains expected run_id ≡ true
        → HasTime origins row run_id)
      done

module _ (comparison : Comparison) (rows : List Row) where
  abbrev AllOrigins : Dict String Origin → Type 0
  AllOrigins = AllValues (IsOriginOf comparison rows)

  module _ (origins : Dict String Origin) (run_id : String) (row : Row) (occurs : Occurs row rows)
      (after : Dict String Origin) (r : Round comparison origins run_id row after) where
    abbrev fresh : Origin
    fresh = new_origin r.scenario r.stack

    put_origin-fresh : IsOriginOf comparison rows run_id (put_origin r.key r.time fresh)
    put_origin-fresh = record {
      identity = r.identity;
      known = r.known;
      scenario = r.same_scenario;
      stack = r.same_stack;
      earliest = r.time;
      origin = refl;
      least = IsEarliest-first r.key r.time;
      times = ((row, occurs, r.of_row), tt);
    }

    put_origin-next :
        (entry : Origin)
        → has_key r.key entry.executions ≡ false
        → IsOriginOf comparison rows run_id entry
        → IsOriginOf comparison rows run_id (put_origin r.key r.time entry)
    put_origin-next entry free was = record {
      identity = was.identity;
      known = was.known;
      scenario = was.scenario;
      stack = was.stack;
      earliest = if ltb_ℤ r.time was.earliest then r.time else was.earliest;
      origin = ap (λ o. some (earlier o r.time)) was.origin;
      least = IsEarliest-next entry.executions was.earliest r.time r.key free was.least;
      times = AllValues-insert _ entry.executions r.key r.time (row, occurs, r.of_row) was.times;
    }

    base_fresh : lookup run_id origins ≡ none → get_or run_id fresh origins ≡ fresh
    base_fresh h = ground arith

    put_origin-IsOriginOf :
        AllOrigins origins
        → IsOriginOf comparison rows run_id (put_origin r.key r.time (get_or run_id fresh origins))
    put_origin-IsOriginOf all = elim (Option-cases (lookup run_id origins)) [
      | inl missing ↦
          subst (λ o. IsOriginOf comparison rows run_id (put_origin r.key r.time o))
            (sym (base_fresh missing)) put_origin-fresh
      | inr (entry, found) ↦ put_origin-next (get_or run_id fresh origins) r.free (
          subst (IsOriginOf comparison rows run_id)
            (sym (get_or_of_lookup run_id entry fresh origins found))
            (AllValues-lookup (IsOriginOf comparison rows) origins run_id entry all found))
    ]

  add_origin-AllOrigins :
      (expected : List String) (origins : Dict String Origin) (row : Row)
      (after : Dict String Origin)
      → Occurs row rows
      → add_origin comparison expected origins row ≡ ok after
      → AllOrigins origins
      → AllOrigins after
  unfolding add_origin
  add_origin-AllOrigins expected origins row after occurs h all =
      elim (Option-cases (lookup "wtt_run_id" row)) [
        | inl missing ↦ subst AllOrigins (ok-injective (rw (missing, add_origin) at h)) all
        | inr (run_id, found) ↦ elim (Bool-cases (contains expected run_id)) [
          | inr other ↦ subst AllOrigins (ok-injective (rw (found, other, add_origin) at h)) all
          | inl known ↦
              let r =
                add_expected-Round comparison origins run_id row after found
                  (rw (found, known, add_origin) at h) in
              subst AllOrigins r.result (
                AllValues-insert (IsOriginOf comparison rows) origins run_id _
                  (put_origin-IsOriginOf origins run_id row occurs after r all) all)
        ]
      ]

  Round-HasTime :
      (origins : Dict String Origin) (run_id : String) (row : Row) (after : Dict String Origin)
      → Round comparison origins run_id row after
      → HasTime after row run_id
  Round-HasTime origins run_id row after r =
      let entry = put_origin r.key r.time (get_or run_id (new_origin r.scenario r.stack) origins) in
      record {
        key = r.key;
        time = r.time;
        of_row = r.of_row;
        entry = entry;
        entry_found = ap (lookup run_id) (sym r.result) ∙ lookup-insert_self run_id entry origins;
        found =
            lookup-insert_self r.key r.time
              (get_or run_id (new_origin r.scenario r.stack) origins).executions;
      }

  Round-keeps :
      (origins : Dict String Origin) (run_id : String) (row : Row) (after : Dict String Origin)
      → Round comparison origins run_id row after
      → (other : Row) (other_id : String) → HasTime origins other other_id
      → HasTime after other other_id
  Round-keeps origins run_id row after r other other_id was =
      let old = get_or run_id (new_origin r.scenario r.stack) origins in
      let entry = put_origin r.key r.time old in
      elim (Bool-cases (other_id == run_id)) [
        | inr differs ↦ record {
          key = was.key;
          time = was.time;
          of_row = was.of_row;
          entry = was.entry;
          entry_found =
              ap (lookup other_id) (sym r.result)
              ∙ lookup-insert_ne other_id run_id entry origins differs
              ∙ was.entry_found;
          found = was.found;
        }
        | inl same ↦
            let e = eq_of_test other_id run_id same in
            let there : old ≡ was.entry =
              get_or_of_lookup run_id was.entry (new_origin r.scenario r.stack) origins
                (ap (λ k. lookup k origins) (sym e) ∙ was.entry_found) in
            let before : lookup was.key old.executions ≡ some was.time =
              ap (λ (o : Origin). lookup was.key o.executions) there ∙ was.found in
            record {
              key = was.key;
              time = was.time;
              of_row = was.of_row;
              entry = entry;
              entry_found =
                  ap (lookup other_id) (sym r.result)
                  ∙ ap (λ k. lookup k (insert run_id entry origins)) e
                  ∙ lookup-insert_self run_id entry origins;
              found =
                  lookup-insert_ne was.key r.key r.time old.executions
                    (old_key old.executions was.key r.key r.free before)
                  ∙ before;
            }
      ]

  add_origin-AllRows :
      (expected : List String) (done : List Row) (origins : Dict String Origin) (row : Row)
      (after : Dict String Origin)
      → add_origin comparison expected origins row ≡ ok after
      → AllRows expected done origins
      → AllRows expected (done ++ (row ∷ [])) after
  unfolding add_origin
  add_origin-AllRows expected done origins row after h all =
      elim (Option-cases (lookup "wtt_run_id" row)) [
        | inl missing ↦
            let same = ok-injective (rw (missing, add_origin) at h) in
            subst (AllRows expected (done ++ (row ∷ []))) same (
              AllItems-append _ done (row ∷ []) all
                ((λ run_id found listed. absurd (none-ne-some run_id (sym missing ∙ found))), tt))
        | inr (run_id, found) ↦ elim (Bool-cases (contains expected run_id)) [
          | inr other ↦
              let same = ok-injective (rw (found, other, add_origin) at h) in
              subst (AllRows expected (done ++ (row ∷ []))) same (
                AllItems-append _ done (row ∷ []) all (
                  (λ id found' listed.
                      let e = some-injective run_id id (sym found ∙ found') in
                      absurd (false≢true (sym other ∙ ap (contains expected) e ∙ listed))),
                  tt,
                ))
          | inl known ↦
              let r =
                add_expected-Round comparison origins run_id row after found
                  (rw (found, known, add_origin) at h) in
              AllItems-append _ done (row ∷ [])
                (AllItems-mono _ _ done
                  (λ other was id found' listed.
                    Round-keeps origins run_id row after r other id (was id found' listed))
                  all)
                (
                  (λ id found' listed.
                      subst (HasTime after row) (some-injective run_id id (sym found ∙ found'))
                        (Round-HasTime origins run_id row after r)),
                  tt,
                )
        ]
      ]

  check_origin-expected :
      (run_id : String) (entry : Origin) (u : Unit {0})
      → check_origin (run_id, entry) ≡ ok u
      → HasExecutions run_id entry
  unfolding check_origin
  check_origin-expected run_id entry u h =
      let (family, found, h₁) = >>=-eq-ok (run_family run_id) _ h in
      let (same, _) =
        raise_if-eq-ok (not (same_set (keys entry.executions) (expected_executions family)))
          (origin_set_differs run_id) (ok tt) h₁ in
      record {
        family = family;
        read = found;
        complete = λ x.
            same_set-contains (keys entry.executions) (expected_executions family) x
              (passed _ same);
      }

  -- If `parse_origins` returns, its result has an entry of each run of the comparison; each entry has
  -- the scenario and the stack that the comparison knows of its run, has a time for each execution
  -- that the run's family expects and for no other, which is the `_time` of a row of that execution,
  -- and its origin is the least of these times; and each row of a run of the comparison has its time
  -- in the entry of the run.
  pub parse_origins-IsOriginOf :
      (origins : Dict String Origin)
      → parse_origins comparison rows ≡ ok origins
      → ((expected : List String) × (expected_runs comparison ≡ ok expected)
          × AllItems (λ run_id. has_key run_id origins ≡ true) expected
          × AllRows expected rows origins)
        × AllValues (IsOriginOf comparison rows) origins
        × AllItems (λ (run_id, entry). HasExecutions run_id entry) origins
  unfolding parse_origins
  parse_origins-IsOriginOf origins h =
      let (expected, e, h₁) = >>=-eq-ok (expected_runs comparison) _ h in
      let (found, looped, h₂) =
        >>=-eq-ok (for_loop (add_origin comparison expected) [] rows) _ h₁ in
      let (complete, h₃) =
        raise_if-eq-ok (not (is_empty (difference expected (keys found)))) (missing_origins "") _
          h₂ in
      let (u, checked, h₄) = >>=-eq-ok (for_loop (λ _ entry. check_origin entry) tt found) _ h₃ in
      let all =
        for_loop-Occurs (add_origin comparison expected) AllOrigins rows
          (add_origin-AllOrigins expected) [] found looped tt in
      let kept =
        for_loop_done (add_origin comparison expected) (AllRows expected)
          (add_origin-AllRows expected) rows [] [] found looped tt in
      let each =
        for_loop-AllItems (λ _ entry. check_origin entry) (λ x. HasExecutions x.0 x.1)
          (λ s x t k. check_origin-expected x.0 x.1 t k) found tt u checked in
      subst
        (λ d.
          ((expected : List String) × (expected_runs comparison ≡ ok expected)
            × AllItems (λ run_id. has_key run_id d ≡ true) expected
            × AllRows expected rows d)
          × AllValues (IsOriginOf comparison rows) d
          × AllItems (λ (run_id, entry). HasExecutions run_id entry) d)
        (ok-injective h₄)
        ((expected, e, no_difference expected (keys found) (passed _ complete), kept), all, each)
