-- ===== src/Runs/TlsComparison/Agreement.antt =====
-- runs.py: what `build_tls_comparison` checks of the executions of a source cell.
use where_to_tls.Base.{
  ℕ, ◌<◌, String, ◌≡◌, refl, sym, ap, ◌∙◌, subst, true, false, ◌&&◌, ◌==◌, some, List, [], ◌∷◌,
  ◌++◌, Dict, keys, lookup, contains, same_set, same_set-contains, map, Bool-cases, inl, inr, ok,
  or_raise, or_raise-eq-ok, raise_if-eq-ok, >>=-eq-ok, ok-injective, for_loop, for_loop_done,
  for_loop-AllItems, AllItems, AllItems-append, AllItems-last, AllItems-mono, AllItems-contains,
  insert, missing_counter, key_error, zero_requests, inconsistent_metadata, incompatible_stack_tags,
  non_positive_elapsed, string_eq, nat_eq, pair_eq, int_eq, arith,
}
use mathlib.Core.Bool.{false≢true}
use where_to_tls.Base.Growth.{Extends, Extends-trans, agree, agree-lookup, agree-Extends}
use where_to_tls.Config.{Stack, tls_byte_metrics, stack_eq, family_eq, profile_eq}
use where_to_tls.Common.Numbers.{Floats, finite_number, exact_count}
use where_to_tls.Runs.Rows.{Row, field}
use where_to_tls.Runs.Summary.{ExecutionKey, SummaryExecution}
use where_to_tls.Runs.Summary.Groups.{TlsKey, repeats_of}
use where_to_tls.Runs.Summary.Keys.{SameRepeat, three, same_key, contains-repeats_of}
use where_to_tls.Runs.TlsComparison.{
  Pair, ProfileKey, Identities, RecordKey, pair_of, check_pair, is_flat, counter_fields,
  read_counter, read_counters, with_counters, check_execution, add_execution,
}

-- The dicts of identities only gain entries.
pub record Grows (before after : Identities) : Type 0 where
  pub runs : Extends before.run_identities after.run_identities
  pub stacks : Extends before.pair_stacks after.pair_stacks

pub Grows-refl : (identities : Identities) → Grows identities identities
Grows-refl identities = record { runs = λ k v h. h; stacks = λ k v h. h }

pub Grows-trans : (a b c : Identities) → Grows a b → Grows b c → Grows a c
Grows-trans a b c f g = record {
  runs = Extends-trans a.run_identities b.run_identities c.run_identities f.runs g.runs;
  stacks = Extends-trans a.pair_stacks b.pair_stacks c.pair_stacks f.stacks g.stacks;
}

pub contains-pair_of :
    (ks : List ExecutionKey) (scenario : String) (stack : Stack) (repeat : ℕ)
    → contains ks (scenario, (stack, repeat)) ≡ true
    → contains (map pair_of ks) (scenario, stack) ≡ true
unfolding pair_eq
contains-pair_of [] scenario stack repeat h = cc
contains-pair_of (k ∷ ks) scenario stack repeat h =
    ground (arith, contains-pair_of ks scenario stack repeat, same_key k scenario stack repeat)

-- The executions of a cell are the three repeats of its pairs.
abbrev pub HasRepeats : List ExecutionKey → Type 0
HasRepeats ks =
    (scenario : String) (stack : Stack) (repeat : ℕ)
    → contains ks (scenario, (stack, repeat))
      ≡ (contains (map pair_of ks) (scenario, stack) && contains three repeat)

check_pair-eq-ok :
    (ks : List ExecutionKey) (pair : Pair) (u : Unit {0})
    → check_pair ks pair ≡ ok u
    → same_set (repeats_of ks pair.0 pair.1) three ≡ true
unfolding check_pair
check_pair-eq-ok ks (scenario, stack) u h = ground arith

pub check_pair-HasRepeats :
    (ks : List ExecutionKey) (u : Unit {0})
    → for_loop (λ _ pair. check_pair ks pair) tt (map pair_of ks) ≡ ok u
    → HasRepeats ks
check_pair-HasRepeats ks u h scenario stack repeat =
    let each =
      for_loop-AllItems (λ _ pair. check_pair ks pair)
        (λ pair. same_set (repeats_of ks pair.0 pair.1) three ≡ true)
        (λ s x t k. check_pair-eq-ok ks x t k) (map pair_of ks) tt u h in
    let there = contains-repeats_of ks scenario stack repeat in
    elim (Bool-cases (contains (map pair_of ks) (scenario, stack))) [
      | inl present ↦
          let same = AllItems-contains _ (map pair_of ks) (scenario, stack) each present in
          ground (
            arith,
            present,
            there,
            same_set-contains (repeats_of ks scenario stack) three repeat same,
          )
      | inr absent ↦ ground (arith, absent, contains-pair_of ks scenario stack repeat)
    ]

keys-append_one :
    (d : Dict ExecutionKey SummaryExecution) (k : ExecutionKey) (x : SummaryExecution)
    → keys (d ++ ((k, x) ∷ [])) ≡ keys d ++ (k ∷ [])
keys-append_one [] k x = refl
keys-append_one ((j, y) ∷ d) k x = ap (λ ks. j ∷ ks) (keys-append_one d k x)

-- A metric of bytes that is among the counters.
abbrev pub HasCounter : Dict String ℕ → String × (String × String) → Type 0
HasCounter counters metric = (count : ℕ) × (lookup metric.0 counters ≡ some count)

module _ (F : Floats) where
  open F use {is_non_positive}

  -- An execution that was checked in a cell of a profile and a configuration.
  pub record IsAgreed (identities : Identities) (key : ProfileKey) (configuration : TlsKey)
      (x : SummaryExecution) : Type 0 where
    pub run :
        lookup x.run_id identities.run_identities
        ≡ some (x.scenario_tag, (x.stack_tag, configuration))
    pub stack : lookup (key, (x.scenario, x.stack)) identities.pair_stacks ≡ some x.stack_tag
    pub elapsed : F.Float
    pub read : finite_number F x.elapsed_ms x.run_id ≡ ok elapsed
    pub positive : is_non_positive elapsed ≡ false

  -- Where byte counters are needed they are there, with some requests.
  pub record IsCounted (x : SummaryExecution) : Type 0 where
    pub counters : Dict String ℕ
    pub there : x.byte_counters ≡ some counters
    pub requests : ℕ
    pub counted : lookup "requests" counters ≡ some requests
    pub some_request : 0 < requests
    pub metrics : AllItems (HasCounter counters) tls_byte_metrics

  pub IsAgreed-Grows :
      (before after : Identities) (key : ProfileKey) (configuration : TlsKey) (x : SummaryExecution)
      → Grows before after
      → IsAgreed before key configuration x
      → IsAgreed after key configuration x
  IsAgreed-Grows before after key configuration x g a = record {
    run = g.runs x.run_id _ a.run;
    stack = g.stacks (key, (x.scenario, x.stack)) _ a.stack;
    elapsed = a.elapsed;
    read = a.read;
    positive = a.positive;
  }

  check_execution-IsAgreed :
      (key : ProfileKey) (configuration : TlsKey) (before after : Identities) (x : SummaryExecution)
      → check_execution F key configuration before x ≡ ok after
      → Grows before after × IsAgreed after key configuration x
  unfolding check_execution
  check_execution-IsAgreed key configuration before after x h =
      let (runs, run, h₁) =
        >>=-eq-ok
          (agree x.run_id (x.scenario_tag, (x.stack_tag, configuration))
            (inconsistent_metadata x.run_id) before.run_identities)
          _ h in
      let (stacks, stack, h₂) =
        >>=-eq-ok
          (agree (key, (x.scenario, x.stack)) x.stack_tag (incompatible_stack_tags x.scenario)
            before.pair_stacks)
          _ h₁ in
      let (elapsed, read, h₃) = >>=-eq-ok (finite_number F x.elapsed_ms x.run_id) _ h₂ in
      let (positive, h₄) =
        raise_if-eq-ok (is_non_positive elapsed) (non_positive_elapsed x.run_id) _ h₃ in
      let known : Identities = record { run_identities = runs; pair_stacks = stacks } in
      let grows : Grows before known = record {
        runs = agree-Extends x.run_id _ _ before.run_identities runs run;
        stacks =
            agree-Extends (key, (x.scenario, x.stack)) x.stack_tag _ before.pair_stacks stacks
              stack;
      } in
      let agreed : IsAgreed known key configuration x = record {
        run = agree-lookup x.run_id _ _ before.run_identities runs run;
        stack =
            agree-lookup (key, (x.scenario, x.stack)) x.stack_tag _ before.pair_stacks stacks stack;
        elapsed = elapsed;
        read = read;
        positive = positive;
      } in
      subst (λ s. Grows before s × IsAgreed s key configuration x) (ok-injective h₄) (grows, agreed)

  positive_of : (n : ℕ) → (n == 0) ≡ false → 0 < n
  unfolding nat_eq
  positive_of n h = ground arith

  read_counter-inserts :
      (row : Row) (counters after : Dict String ℕ) (name : String × String)
      → read_counter F row counters name ≡ ok after
      → (count : ℕ) × (exact_count F (field name.1 row) name.1 ≡ ok count)
        × (after ≡ insert name.0 count counters)
  unfolding read_counter
  read_counter-inserts row counters after (name, source) h =
      let (_, h₁) = raise_if-eq-ok (field source row == "") (missing_counter source) _ h in
      let (count, read, h₂) = >>=-eq-ok (exact_count F (field source row) source) _ h₁ in
      (count, read, sym (ok-injective h₂))

  -- The counters are those of the fields of a row.
  pub record IsReadFrom (row : Row) (counters : Dict String ℕ) : Type 0 where
    pub requests : ℕ
    pub sent : ℕ
    pub received : ℕ
    pub requests_read :
        exact_count F (field "configured_iterations" row) "configured_iterations" ≡ ok requests
    pub sent_read : exact_count F (field "data_sent_bytes" row) "data_sent_bytes" ≡ ok sent
    pub received_read :
        exact_count F (field "data_received_bytes" row) "data_received_bytes" ≡ ok received
    pub all_read : ("requests", requests) ∷ ("sent", sent) ∷ ("received", received) ∷ [] ≡ counters

  read_counter-IsReadFrom :
      (row : Row) (counters : Dict String ℕ)
      → for_loop (read_counter F row) [] counter_fields ≡ ok counters
      → IsReadFrom row counters
  unfolding for_loop string_eq
  read_counter-IsReadFrom row counters h =
      let (first, read₁, h₁) =
        >>=-eq-ok (read_counter F row [] ("requests", "configured_iterations")) _ h in
      let (second, read₂, h₂) =
        >>=-eq-ok (read_counter F row first ("sent", "data_sent_bytes")) _ h₁ in
      let (third, read₃, h₃) =
        >>=-eq-ok (read_counter F row second ("received", "data_received_bytes")) _ h₂ in
      let (requests, count₁, made₁) =
        read_counter-inserts row [] first ("requests", "configured_iterations") read₁ in
      let (sent, count₂, made₂) =
        read_counter-inserts row first second ("sent", "data_sent_bytes") read₂ in
      let (received, count₃, made₃) =
        read_counter-inserts row second third ("received", "data_received_bytes") read₃ in
      record {
        requests = requests;
        sent = sent;
        received = received;
        requests_read = count₁;
        sent_read = count₂;
        received_read = count₃;
        all_read =
            ap (λ d. insert "received" received (insert "sent" sent d)) (sym made₁)
            ∙ ap (insert "received" received) (sym made₂)
            ∙ sym made₃
            ∙ ok-injective h₃;
      }

  counted_metrics :
      (row : Row) (counters : Dict String ℕ)
      → IsReadFrom row counters
      → AllItems (HasCounter counters) tls_byte_metrics
  unfolding string_eq
  counted_metrics row counters i =
      subst (λ d. AllItems (HasCounter d) tls_byte_metrics) i.all_read
        ((i.sent, refl), ((i.received, refl), tt))

  pub read_counters-row :
      (records : Dict RecordKey Row) (x : SummaryExecution) (counters : Dict String ℕ)
      → read_counters F records x ≡ ok counters
      → (row : Row) × (lookup (x.run_id, x.execution_index) records ≡ some row)
        × IsReadFrom row counters
  unfolding read_counters
  read_counters-row records x counters h =
      let (row, found, h₁) =
        >>=-eq-ok (or_raise (lookup (x.run_id, x.execution_index) records) (key_error x.run_id)) _
          h in
      let (read, looped, h₂) = >>=-eq-ok (for_loop (read_counter F row) [] counter_fields) _ h₁ in
      let (requests, there, h₃) =
        >>=-eq-ok (or_raise (lookup "requests" read) (key_error "requests")) _ h₂ in
      let (_, h₄) = raise_if-eq-ok (requests == 0) (zero_requests x.run_id) _ h₃ in
      (
        row,
        or_raise-eq-ok _ (key_error x.run_id) found,
        subst (IsReadFrom row) (ok-injective h₄) (read_counter-IsReadFrom row read looped),
      )

  read_counters-some :
      (records : Dict RecordKey Row) (x : SummaryExecution) (counters : Dict String ℕ)
      → read_counters F records x ≡ ok counters
      → (requests : ℕ) × (lookup "requests" counters ≡ some requests)
        × (0 < requests)
        × AllItems (HasCounter counters) tls_byte_metrics
  unfolding read_counters
  read_counters-some records x counters h =
      let (row, found, h₁) =
        >>=-eq-ok (or_raise (lookup (x.run_id, x.execution_index) records) (key_error x.run_id)) _
          h in
      let (read, looped, h₂) = >>=-eq-ok (for_loop (read_counter F row) [] counter_fields) _ h₁ in
      let (requests, there, h₃) =
        >>=-eq-ok (or_raise (lookup "requests" read) (key_error "requests")) _ h₂ in
      let (some_request, h₄) = raise_if-eq-ok (requests == 0) (zero_requests x.run_id) _ h₃ in
      let same = ok-injective h₄ in
      (
        requests,
        ap (lookup "requests") (sym same)
            ∙ or_raise-eq-ok (lookup "requests" read) (key_error "requests") there,
        positive_of requests some_request,
        subst (λ d. AllItems (HasCounter d) tls_byte_metrics) same
            (counted_metrics row read (read_counter-IsReadFrom row read looped)),
      )

  with_counters_repeat :
      (records : Dict RecordKey Row) (key : ProfileKey) (x x' : SummaryExecution)
      → with_counters F records key x ≡ ok x'
      → x'.repeat ≡ x.repeat
  unfolding with_counters
  with_counters_repeat records key x x' h = elim (Bool-cases (is_flat key)) [
    | inr other ↦ ap (λ (y : SummaryExecution). y.repeat) (sym (ok-injective (rw other at h)))
    | inl flat ↦
        let (counters, read, h₁) = >>=-eq-ok (read_counters F records x) _ (rw flat at h) in
        ap (λ (y : SummaryExecution). y.repeat) (sym (ok-injective h₁))
  ]

  with_counters-IsCounted :
      (records : Dict RecordKey Row) (identities : Identities) (key : ProfileKey)
      (configuration : TlsKey) (x x' : SummaryExecution)
      → with_counters F records key x ≡ ok x'
      → IsAgreed identities key configuration x
      → IsAgreed identities key configuration x' × (is_flat key ≡ true → IsCounted x')
  unfolding with_counters
  with_counters-IsCounted records identities key configuration x x' h a =
      elim (Bool-cases (is_flat key)) [
        | inr other ↦
            let e = ok-injective (rw other at h) in
            (
              subst (IsAgreed identities key configuration) e a,
              λ flat. absurd (false≢true (sym other ∙ flat)),
            )
        | inl flat ↦
            let (counters, read, h₁) = >>=-eq-ok (read_counters F records x) _ (rw flat at h) in
            let (requests, there, some_request, metrics) =
              read_counters-some records x counters read in
            let counted : SummaryExecution = record x { byte_counters = some counters } in
            subst
              (λ y. IsAgreed identities key configuration y × (is_flat key ≡ true → IsCounted y))
              (ok-injective h₁)
              (
                record {
                  run = a.run;
                  stack = a.stack;
                  elapsed = a.elapsed;
                  read = a.read;
                  positive = a.positive;
                },
                λ _. record {
                  counters = counters;
                  there = refl;
                  requests = requests;
                  counted = there;
                  some_request = some_request;
                  metrics = metrics;
                },
              )
      ]

  -- An item of a source cell behind the loop.
  abbrev pub IsChecked : Identities → ProfileKey → TlsKey → ExecutionKey × SummaryExecution → Type 0
  IsChecked identities key configuration item =
      IsAgreed identities key configuration item.1 × (is_flat key ≡ true → IsCounted item.1)

  -- The state of the loop after some of the items.
  record IsState (key : ProfileKey) (configuration : TlsKey) (first : Identities)
      (done : Dict ExecutionKey SummaryExecution)
      (s : Identities × Dict ExecutionKey SummaryExecution) : Type 0 where
    grows : Grows first s.0
    checked : AllItems (IsChecked s.0 key configuration) s.1
    same_keys : keys s.1 ≡ keys done
    same_repeats : AllItems SameRepeat done → AllItems SameRepeat s.1

  add_execution-IsState :
      (records : Dict RecordKey Row) (key : ProfileKey) (configuration : TlsKey)
      (first : Identities) (done : Dict ExecutionKey SummaryExecution)
      (s : Identities × Dict ExecutionKey SummaryExecution) (item : ExecutionKey × SummaryExecution)
      (t : Identities × Dict ExecutionKey SummaryExecution)
      → add_execution F records key configuration s item ≡ ok t
      → IsState key configuration first done s
      → IsState key configuration first (done ++ (item ∷ [])) t
  unfolding add_execution
  add_execution-IsState records key configuration first done (before, out) (place, x) t h i =
      let (after, checked, h₁) = >>=-eq-ok (check_execution F key configuration before x) _ h in
      let (x', counted, h₂) = >>=-eq-ok (with_counters F records key x) _ h₁ in
      let (grows, agreed) = check_execution-IsAgreed key configuration before after x checked in
      let new = with_counters-IsCounted records after key configuration x x' counted agreed in
      subst (IsState key configuration first (done ++ ((place, x) ∷ []))) (ok-injective h₂)
        (record {
          grows = Grows-trans first before after i.grows grows;
          checked =
              AllItems-append (IsChecked after key configuration) out ((place, x') ∷ [])
                (AllItems-mono (IsChecked before key configuration)
                  (IsChecked after key configuration) out
                  (λ y c. (IsAgreed-Grows before after key configuration y.1 grows c.0, c.1))
                  i.checked)
                (new, tt);
          same_keys =
              keys-append_one out place x'
              ∙ ap (λ ks. ks ++ (place ∷ [])) i.same_keys
              ∙ sym (keys-append_one done place x);
          same_repeats = λ all.
              let (before_all, new_repeat) = AllItems-last SameRepeat done (place, x) all in
              AllItems-append SameRepeat out ((place, x') ∷ []) (i.same_repeats before_all)
                (new_repeat ∙ sym (with_counters_repeat records key x x' counted), tt);
        })

  pub add_execution-IsChecked :
      (records : Dict RecordKey Row) (key : ProfileKey) (configuration : TlsKey)
      (before after : Identities) (items out : Dict ExecutionKey SummaryExecution)
      → for_loop (add_execution F records key configuration) (before, []) items ≡ ok (after, out)
      → Grows before after
        × AllItems (IsChecked after key configuration) out
        × (keys out ≡ keys items)
        × (AllItems SameRepeat items → AllItems SameRepeat out)
  add_execution-IsChecked records key configuration before after items out h =
      let i =
        for_loop_done (add_execution F records key configuration) (IsState key configuration before)
          (add_execution-IsState records key configuration before) items [] (before, [])
          (after, out) h
          (record {
            grows = Grows-refl before;
            checked = tt;
            same_keys = refl;
            same_repeats = λ all. all;
          }) in
      (i.grows, i.checked, i.same_keys, i.same_repeats)
