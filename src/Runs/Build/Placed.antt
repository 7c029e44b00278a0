-- ===== src/Runs/Build/Placed.antt =====
-- Where `build_comparisons` puts the supplied runs.
use where_to_tls.Base.{
  ◌<>◌, ◌||◌, not, is_empty, map, select, dedupe, contains-dedupe, refl, true, starts_with,
  AllValues, AllValues-insert, AllValues-lookup, for_loop_inv, for_each-AllItems, no_metadata,
  invalid_scenario, unsupported_tls, String, ◌≡◌, ap, sym, ◌∙◌, false, some, List, [], ◌∷◌, ◌++◌,
  Dict, lookup, insert, get_or, has_key, values, contains, lookup-insert, lookup-insert_self,
  lookup-insert_ne, get_or_of_lookup, eq_of_test, get_or-insert, lookup-has_key, NodupList,
  append-NodupList, Bool-cases, inl, inr, AllItems, AllItems-append, AllItems-mono,
  AllItems-contains, ok, raise_if-eq-ok, >>=-eq-ok, ok-injective, for_loop, for_loop_done, for_each,
  arith, ◌==◌, string_eq, pair_eq, slot_taken, Eq, subst,
}
use mathlib.Core.Bool.{false≢true}
use where_to_tls.Base.Occurs.{Occurs, lookup-Occurs, for_each-Occurs}
use where_to_tls.Base.Growth.{get_or-AllValues}
use where_to_tls.Base.Text.{removesuffix}
use where_to_tls.Common.RunIds.{run_family}
use where_to_tls.Config.{Stack, Family, stack_order, stack_prefix, stack_eq, family_eq}
use where_to_tls.Runs.Rows.{Row, field, group_by_run, rows_of, group_by_run-rows_of}
use where_to_tls.Runs.Comparison.{Comparison, Identity, validate_metadata}
use where_to_tls.Runs.Build.{
  GroupKey, Tags, tags_of, sole_tags, is_scenario, matching_stacks, sole_stack, Place, place_of,
  new_comparison, put_run, is_taken, Groups, add_run, set_id, finish, build_comparisons,
}

module _ {ℓ κ μ} {K : Type ℓ} {F : Type κ} {V : Type μ} ⦃e : Eq K⦄ ⦃f : Eq F⦄ where
  -- A value in a dict of dicts stays where it is when a free place is filled.
  keep_slot :
      (d : Dict K (Dict F V)) (k k' : K) (a a' : F) (v v' : V)
      → lookup a (get_or k [] d) ≡ some v
      → has_key a' (get_or k' [] d) ≡ false
      → lookup a (get_or k [] (insert k' (insert a' v' (get_or k' [] d)) d)) ≡ some v
  keep_slot d k k' a a' v v' there free = ground (
    arith,
    get_or-insert k k' [] (insert a' v' (get_or k' [] d)) d,
    lookup-insert a a' v' (get_or k' [] d),
    lookup-has_key a (get_or k [] d) {v = v},
  )

  fill_slot :
      (d : Dict K (Dict F V)) (k : K) (a : F) (v : V)
      → lookup a (get_or k [] (insert k (insert a v (get_or k [] d)) d)) ≡ some v
  fill_slot d k a v = ground (
    arith,
    get_or-insert k k [] (insert a v (get_or k [] d)) d,
    lookup-insert a a v (get_or k [] d),
  )

-- A run in the groups, at the place that its rows name.
record IsPlaced (rows : List Row) (groups : Groups) (run_id : String) : Type 0 where
  place : Place
  read : place_of run_id rows ≡ ok place
  comparison : Comparison
  found : lookup place.key groups ≡ some comparison
  slot : lookup place.family (get_or place.stack [] comparison.stacks) ≡ some run_id
  identity : lookup run_id comparison.identities ≡ some place.identity

module _ (by_run : Dict String (List Row)) where
  abbrev Placed : Groups → String → Type 0
  Placed groups run_id = IsPlaced (get_or run_id [] by_run) groups run_id

  -- What a successful round reads and tests.
  record Round (source_start source_stop : String) (groups : Groups) (run_id : String)
      (after : Groups) : Type 0 where
    place : Place
    read : place_of run_id (get_or run_id [] by_run) ≡ ok place
    free :
        is_taken place (get_or place.key (new_comparison source_start source_stop place.key) groups)
        ≡ false
    result :
        insert place.key
          (put_run run_id place
            (get_or place.key (new_comparison source_start source_stop place.key) groups))
          groups
        ≡ after

  add_run-Round :
      (source_start source_stop : String) (groups : Groups) (run_id : String) (after : Groups)
      → add_run source_start source_stop by_run groups run_id ≡ ok after
      → Round source_start source_stop groups run_id after
  unfolding add_run
  add_run-Round source_start source_stop groups run_id after h =
      let (place, read, h₁) = >>=-eq-ok (place_of run_id (get_or run_id [] by_run)) _ h in
      let (free, h₂) = raise_if-eq-ok _ (slot_taken run_id) _ h₁ in
      record { place = place; read = read; free = free; result = ok-injective h₂ }

  module _ (source_start source_stop : String) (groups : Groups) (run_id : String) (after : Groups)
      (r : Round source_start source_stop groups run_id after) where
    abbrev base : Comparison
    base = get_or r.place.key (new_comparison source_start source_stop r.place.key) groups

    Round-Placed : Placed after run_id
    unfolding put_run
    Round-Placed = record {
      place = r.place;
      read = r.read;
      comparison = put_run run_id r.place base;
      found =
          ap (lookup r.place.key) (sym r.result)
          ∙ lookup-insert_self r.place.key (put_run run_id r.place base) groups;
      slot = fill_slot base.stacks r.place.stack r.place.family run_id;
      identity = lookup-insert_self run_id r.place.identity base.identities;
    }

    -- A run that has its place cannot be added once more.
    Round-new : ¬ Placed groups run_id
    Round-new p =
        let same : p.place ≡ r.place = ok-injective (sym p.read ∙ r.read) in
        let found = subst (λ x. lookup x.key groups ≡ some p.comparison) same p.found in
        let slot =
          subst
            (λ (x : Place). lookup x.family (get_or x.stack [] p.comparison.stacks) ≡ some run_id)
            same p.slot in
        let there : base ≡ p.comparison =
          get_or_of_lookup r.place.key p.comparison
            (new_comparison source_start source_stop r.place.key) groups found in
        let free = subst (λ c. is_taken r.place c ≡ false) there r.free in
        false≢true (
          sym free
          ∙ lookup-has_key r.place.family (get_or r.place.stack [] p.comparison.stacks) slot)

    other_run : (other : String) → Placed groups other → (other == run_id) ≡ false
    other_run other p = elim (Bool-cases (other == run_id)) [
      | inl same ↦ absurd (Round-new (subst (Placed groups) (eq_of_test other run_id same) p))
      | inr differs ↦ differs
    ]

    Round-keeps : (other : String) → Placed groups other → Placed after other
    unfolding put_run
    Round-keeps other p = elim (Bool-cases (p.place.key == r.place.key)) [
      | inl same ↦
          let e = eq_of_test p.place.key r.place.key same in
          let there : base ≡ p.comparison =
            get_or_of_lookup r.place.key p.comparison
              (new_comparison source_start source_stop r.place.key) groups
              (subst (λ k. lookup k groups ≡ some p.comparison) e p.found) in
          record {
            place = p.place;
            read = p.read;
            comparison = put_run run_id r.place base;
            found =
                ap (lookup p.place.key) (sym r.result)
                ∙ ap (λ k. lookup k (insert r.place.key (put_run run_id r.place base) groups)) e
                ∙ lookup-insert_self r.place.key (put_run run_id r.place base) groups;
            slot =
                keep_slot base.stacks p.place.stack r.place.stack p.place.family r.place.family
                  other run_id
                  (subst
                    (λ (c : Comparison).
                      lookup p.place.family (get_or p.place.stack [] c.stacks) ≡ some other)
                    (sym there) p.slot)
                  r.free;
            identity =
                lookup-insert_ne other run_id r.place.identity base.identities (other_run other p)
                ∙ subst (λ (c : Comparison). lookup other c.identities ≡ some p.place.identity)
                    (sym there) p.identity;
          }
      | inr differs ↦ record {
        place = p.place;
        read = p.read;
        comparison = p.comparison;
        found =
            ap (lookup p.place.key) (sym r.result)
            ∙ lookup-insert_ne p.place.key r.place.key (put_run run_id r.place base) groups differs
            ∙ p.found;
        slot = p.slot;
        identity = p.identity;
      }
    ]

  abbrev Done : List String → Groups → Type 0
  Done done groups = AllItems (Placed groups) done × NodupList done

  add_run-Done :
      (source_start source_stop : String) (done : List String) (groups : Groups) (run_id : String)
      (after : Groups)
      → add_run source_start source_stop by_run groups run_id ≡ ok after
      → Done done groups
      → Done (done ++ (run_id ∷ [])) after
  add_run-Done source_start source_stop done groups run_id after h (placed, distinct) =
      let r = add_run-Round source_start source_stop groups run_id after h in
      let kept =
        AllItems-mono (Placed groups) (Placed after) done
          (Round-keeps source_start source_stop groups run_id after r) placed in
      let new : contains done run_id ≡ false = elim (Bool-cases (contains done run_id)) [
        | inl old ↦ absurd (
            Round-new source_start source_stop groups run_id after r
              (AllItems-contains (Placed groups) done run_id placed old))
        | inr new ↦ new
      ] in
      (
        AllItems-append (Placed after) done (run_id ∷ []) kept
            (Round-Placed source_start source_stop groups run_id after r, tt),
        append-NodupList done run_id new distinct,
      )

-- What the rows of a run say of a comparison and of the run's place in it.
pub record IsNamed (rows : List Row) (run_id : String) (key : GroupKey) (stack : Stack)
    (family : Family) (identity : Identity) : Type 0 where
  pub some_row : is_empty rows ≡ false
  pub each_row :
      AllItems
        (λ row.
          (field "wtt_scenario" row ≡ identity.scenario)
          × (field "wtt_stack" row ≡ identity.stack)
          × (field "tls_version" row ≡ key.1.0)
          × (field "key_exchange_group" row ≡ key.1.1))
        rows
  pub scenario : removesuffix ("-" <> stack_prefix stack) identity.scenario ≡ key.0
  pub of_stack : starts_with identity.stack (stack_prefix stack) ≡ true
  pub of_family : run_family run_id ≡ ok family

only_tags :
    (t : Tags) (rows : List Row)
    → ((u : Tags) → contains (map tags_of rows) u ≡ true → u ≡ t)
    → AllItems (λ row. tags_of row ≡ t) rows
only_tags t [] h = tt
only_tags t (row ∷ rows) h =
    (h (tags_of row) (ground arith), only_tags t rows (λ u m. h u (ground (arith, m))))

sole_tags-eq-ok :
    (run_id : String) (found : List Tags) (t : Tags)
    → sole_tags run_id found ≡ ok t
    → found ≡ t ∷ []
unfolding sole_tags
sole_tags-eq-ok run_id [] t h = cc
sole_tags-eq-ok run_id (u ∷ []) t h = ap (λ v. v ∷ []) (ok-injective h)
sole_tags-eq-ok run_id (u ∷ v ∷ found) t h = cc

sole_stack-matches :
    (subject raw : String) (candidates : List Stack) (stack : Stack)
    → sole_stack subject (select (λ s. starts_with raw (stack_prefix s)) candidates) ≡ ok stack
    → starts_with raw (stack_prefix stack) ≡ true
unfolding sole_stack
sole_stack-matches subject raw candidates stack h =
    go (select (λ s. starts_with raw (stack_prefix s)) candidates) (selected candidates) h
  where
    selected :
        (xs : List Stack)
        → AllItems
            (λ s. starts_with raw (stack_prefix s) ≡ true)
            (select (λ s. starts_with raw (stack_prefix s)) xs)
    selected [] = tt
    selected (x ∷ xs) = elim (Bool-cases (starts_with raw (stack_prefix x))) [
      | inl is ↦ rw is (is, selected xs)
      | inr is_not ↦ rw is_not (selected xs)
    ]

    go :
        (xs : List Stack)
        → AllItems (λ s. starts_with raw (stack_prefix s) ≡ true) xs
        → sole_stack subject xs ≡ ok stack
        → starts_with raw (stack_prefix stack) ≡ true
    go [] all k = cc
    go (x ∷ []) all k = ap (λ s. starts_with raw (stack_prefix s)) (sym (ok-injective k)) ∙ all.0
    go (x ∷ y ∷ xs) all k = cc

place_of-IsNamed :
    (run_id : String) (rows : List Row) (place : Place)
    → place_of run_id rows ≡ ok place
    → IsNamed rows run_id place.key place.stack place.family place.identity
unfolding place_of tags_of matching_stacks
place_of-IsNamed run_id rows place h =
    let (some_row, h₁) = raise_if-eq-ok (is_empty rows) (no_metadata run_id) _ h in
    let (t, sole, h₂) = >>=-eq-ok (sole_tags run_id (dedupe (map tags_of rows))) _ h₁ in
    let (_, h₃) = raise_if-eq-ok (not (is_scenario t.0)) (invalid_scenario run_id) _ h₂ in
    let (_, h₄) =
      raise_if-eq-ok
        (not (contains ("1.2" ∷ "1.3" ∷ []) t.1.1.0)
          || not (contains ("P-256" ∷ "X25519" ∷ []) t.1.1.1))
        (unsupported_tls run_id) _ h₃ in
    let (stack, chosen, h₅) = >>=-eq-ok (sole_stack run_id (matching_stacks t.1.0)) _ h₄ in
    let (family, of_family, h₆) = >>=-eq-ok (run_family run_id) _ h₅ in
    let only = sole_tags-eq-ok run_id (dedupe (map tags_of rows)) t sole in
    let each = only_tags t rows (λ u m.
      let listed : contains (t ∷ []) u ≡ true =
        ap (λ ts. contains ts u) (sym only) ∙ contains-dedupe (map tags_of rows) u ∙ m in
      eq_of_test u t (ground (arith, listed))) in
    subst (λ (p : Place). IsNamed rows run_id p.key p.stack p.family p.identity) (ok-injective h₆)
      (record {
        some_row = some_row;
        each_row =
            AllItems-mono _ _ rows
              (λ row e. (
                ap (λ (u : Tags). u.0) e,
                ap (λ (u : Tags). u.1.0) e,
                ap (λ (u : Tags). u.1.1.0) e,
                ap (λ (u : Tags). u.1.1.1) e,
              ))
              each;
        scenario = refl;
        of_stack = sole_stack-matches run_id t.1.0 stack_order stack chosen;
        of_family = of_family;
      })

-- The key that the comparison is for.
abbrev group_key : Comparison → GroupKey
group_key c = (c.scenario, (c.tls_version, c.tls_group))

abbrev AllKeyed : Groups → Type 0
AllKeyed = AllValues (λ key comparison. group_key comparison ≡ key)

add_run-AllKeyed :
    (by_run : Dict String (List Row)) (source_start source_stop : String) (groups : Groups)
    (run_id : String) (after : Groups)
    → add_run source_start source_stop by_run groups run_id ≡ ok after
    → AllKeyed groups
    → AllKeyed after
unfolding put_run new_comparison
add_run-AllKeyed by_run source_start source_stop groups run_id after h all =
    let r = add_run-Round by_run source_start source_stop groups run_id after h in
    subst AllKeyed r.result (
      AllValues-insert (λ key comparison. group_key comparison ≡ key) groups r.place.key _
        (get_or-AllValues (λ key comparison. group_key comparison ≡ key) groups r.place.key
          (new_comparison source_start source_stop r.place.key) all refl)
        all)

-- A supplied run in the comparisons that were built.
pub record HasSlot (rows : List Row) (comparisons : List Comparison) (run_id : String)
    : Type 0 where
  pub place : Place
  pub read : place_of run_id (rows_of run_id rows) ≡ ok place
  pub comparison : Comparison
  pub built : Occurs comparison comparisons
  pub slot : lookup place.family (get_or place.stack [] comparison.stacks) ≡ some run_id
  pub identity : lookup run_id comparison.identities ≡ some place.identity
  pub named :
      IsNamed
        (rows_of run_id rows)
        run_id
        (comparison.scenario, (comparison.tls_version, comparison.tls_group))
        place.stack
        place.family
        place.identity

finish-eq :
    (rows : List Row) (c c' : Comparison)
    → finish rows c ≡ ok c'
    → (set_id c ≡ c') × ((m : Dict String Stack) × (validate_metadata c' rows ≡ ok m))
unfolding finish
finish-eq rows c c' h =
    let (m, valid, done) = >>=-eq-ok (validate_metadata (set_id c) rows) _ h in
    let e = ok-injective done in (e, (m, subst (λ x. validate_metadata x rows ≡ ok m) e valid))

IsPlaced-HasSlot :
    (rows : List Row) (by_run : Dict String (List Row)) (groups : Groups)
    (comparisons : List Comparison)
    → ((run_id : String) → get_or run_id [] by_run ≡ rows_of run_id rows)
    → for_each (finish rows) (values groups) ≡ ok comparisons
    → AllKeyed groups
    → (run_id : String) → IsPlaced (get_or run_id [] by_run) groups run_id
    → HasSlot rows comparisons run_id
unfolding set_id
IsPlaced-HasSlot rows by_run groups comparisons group h keyed run_id p =
    let (built, finished, member) =
      for_each-Occurs (finish rows) p.comparison (values groups) comparisons h
        (lookup-Occurs p.place.key groups p.comparison p.found) in
    let (e, _) = finish-eq rows p.comparison built finished in
    let read = subst (λ r. place_of run_id r ≡ ok p.place) (group run_id) p.read in
    let same : p.place.key ≡ group_key built =
      sym (
        AllValues-lookup (λ key c. group_key c ≡ key) groups p.place.key p.comparison keyed p.found)
      ∙ ap group_key e in
    record {
      place = p.place;
      read = read;
      comparison = built;
      built = member;
      slot =
          subst
            (λ (c : Comparison).
              lookup p.place.family (get_or p.place.stack [] c.stacks) ≡ some run_id)
            e p.slot;
      identity =
          subst (λ (c : Comparison). lookup run_id c.identities ≡ some p.place.identity) e
            p.identity;
      named =
          subst
            (λ key.
              IsNamed (rows_of run_id rows) run_id key p.place.stack p.place.family
                p.place.identity)
            same (place_of-IsNamed run_id (rows_of run_id rows) p.place read);
    }

AllItems-Unit {ℓ} : {A : Type ℓ} (xs : List A) → AllItems (λ _. Unit {0}) xs
AllItems-Unit [] = tt
AllItems-Unit (x ∷ xs) = (tt, AllItems-Unit xs)

-- If `build_comparisons` returns, then no run was supplied twice; every supplied run stands in one of
-- the comparisons, under a stack whose prefix its stack tag has and under the family of its Run ID,
-- with its scenario and stack tags as its identity; it has rows, all of them with these tags and
-- with the TLS version and group of that comparison, whose scenario is the tag without the suffix of
-- the stack; and every comparison has passed `validate_metadata`.
pub build_comparisons-HasSlot :
    (run_ids : List String) (rows : List Row) (source_start source_stop : String)
    (comparisons : List Comparison)
    → build_comparisons run_ids rows source_start source_stop ≡ ok comparisons
    → NodupList run_ids
      × AllItems (HasSlot rows comparisons) run_ids
      × AllItems
          (λ comparison. (m : Dict String Stack) × (validate_metadata comparison rows ≡ ok m))
          comparisons
unfolding build_comparisons
build_comparisons-HasSlot run_ids rows source_start source_stop comparisons h =
    let (by_run, grouped, h₁) = >>=-eq-ok (group_by_run rows) _ h in
    let (groups, added, h₂) =
      >>=-eq-ok (for_loop (add_run source_start source_stop by_run) [] run_ids) _ h₁ in
    let (placed, distinct) =
      for_loop_done (add_run source_start source_stop by_run) (Done by_run)
        (add_run-Done by_run source_start source_stop) run_ids [] [] groups added (tt, tt) in
    (
      distinct,
      AllItems-mono (Placed by_run groups) _ run_ids
          (IsPlaced-HasSlot rows by_run groups comparisons
            (group_by_run-rows_of rows by_run grouped) h₂
            (for_loop_inv (add_run source_start source_stop by_run) AllKeyed
              (add_run-AllKeyed by_run source_start source_stop) run_ids [] groups added tt))
          placed,
      for_each-AllItems (finish rows) (λ _. Unit {0})
          (λ comparison. (m : Dict String Stack) × (validate_metadata comparison rows ≡ ok m))
          (λ c c' done _. (finish-eq rows c c' done).1) (values groups) comparisons h₂
          (AllItems-Unit (values groups)),
    )
