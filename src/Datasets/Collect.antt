-- ===== src/Datasets/Collect.antt =====
-- datasets.py: the loop of `parse_percentiles` and of `parse_failure_rates`, which puts each selected
-- row's value under the row's key and raises where the key is there, and the test for missing keys
-- behind it.
use where_to_tls.Base.{
  ◌+◌, ◌≡◌, refl, ap, sym, ◌∙◌, subst, Bool, true, false, not, some, List, [], ◌∷◌, ◌++◌, inl, inr,
  Dict, keys, lookup, insert, has_key, lookup-insert_self, lookup-insert_ne, lookup-has_key,
  insert_absent, Eq, ◌==◌, eq_of_test, difference, select, length, Bool-cases, Result, ok, raise_if,
  Fault, raise_if-eq-ok, ◌>>=◌, ◌>>◌, >>=-eq-ok, ok-injective, for_loop, for_loop_done,
  for_loop_inv, AllValues, AllValues-insert, AllItems, is_empty, no_difference, AllItems-append,
  AllItems-mono, NodupKeys, insert-NodupKeys, arith, if◌then◌else◌,
}
use mathlib.Core.Bool.{false≢true}

length-append_one {ℓ} : {B : Type ℓ} (xs : List B) (x : B) → length (xs ++ (x ∷ [])) ≡ length xs + 1
length-append_one [] x = refl
length-append_one (y ∷ xs) x = omega (arith, length-append_one xs x)

module _ {ℓ κ μ} {A : Type ℓ} {K : Type κ} {V : Type μ} ⦃e : Eq K⦄ (selected : A → Bool)
    (key_of : A → Result K) (value_of : K → A → Result V) (duplicate : K → Fault) where
  collect_selected : Dict K V → A → Result (Dict K V)
  collect_selected result row = do
    key ← key_of row
    raise_if (has_key key result) (duplicate key)
    value ← value_of key row
    ok (insert key value result)

  collect_row : Dict K V → A → Result (Dict K V)
  collect_row result row = if selected row then collect_selected result row else ok result

  unfoldable pub collect : List A → Result (Dict K V)
  unfolding collect_row collect_selected
  collect = for_loop collect_row []

  -- The value of a row stands at the key of the row.
  pub record IsAt (result : Dict K V) (row : A) : Type (ℓ ⊔ κ ⊔ μ) where
    pub key : K
    pub value : V
    pub key_read : key_of row ≡ ok key
    pub value_read : value_of key row ≡ ok value
    pub found : lookup key result ≡ some value

  -- The dict has the values of the selected rows, and these alone.
  pub record IsCollected (rows : List A) (result : Dict K V) : Type (ℓ ⊔ κ ⊔ μ) where
    pub each_row : AllItems (λ row. selected row ≡ true → IsAt result row) rows
    pub each_once : length result ≡ length (select selected rows)

  select-one :
      (rows : List A) (row : A)
      → length (select selected (rows ++ (row ∷ [])))
        ≡ length (select selected rows) + (if selected row then 1 else 0)
  select-one [] row = ground arith
  select-one (y ∷ rows) row = ground (arith, select-one rows row)

  IsAt-insert :
      (result : Dict K V) (k : K) (v : V) (row : A)
      → has_key k result ≡ false
      → IsAt result row
      → IsAt (insert k v result) row
  IsAt-insert result k v row free at_row = elim (Bool-cases (at_row.key == k)) [
    | inl same ↦ absurd (
        false≢true (
          sym free
          ∙ ap (λ j. has_key j result) (sym (eq_of_test at_row.key k same))
          ∙ lookup-has_key at_row.key result at_row.found))
    | inr other ↦ record {
      key = at_row.key;
      value = at_row.value;
      key_read = at_row.key_read;
      value_read = at_row.value_read;
      found = lookup-insert_ne at_row.key k v result other ∙ at_row.found;
    }
  ]

  collect_selected-IsCollected :
      (done : List A) (s : Dict K V) (row : A) (t : Dict K V)
      → collect_selected s row ≡ ok t
      → selected row ≡ true
      → IsCollected done s
      → IsCollected (done ++ (row ∷ [])) t
  unfolding collect_selected
  collect_selected-IsCollected done s row t h is c =
      let (k, key_read, h₁) = >>=-eq-ok (key_of row) _ h in
      let (free, h₂) = raise_if-eq-ok _ (duplicate k) _ h₁ in
      let (v, value_read, h₃) = >>=-eq-ok (value_of k row) _ h₂ in
      subst (IsCollected (done ++ (row ∷ []))) (ok-injective h₃) (record {
        each_row =
            AllItems-append _ done (row ∷ [])
              (AllItems-mono _ _ done (λ x f b. IsAt-insert s k v x free (f b)) c.each_row)
              (
                (λ _. record {
                  key = k;
                  value = v;
                  key_read = key_read;
                  value_read = value_read;
                  found = lookup-insert_self k v s;
                }),
                tt,
              );
        each_once =
            ap length (insert_absent k v s free)
            ∙ length-append_one s (k, v)
            ∙ ap (λ n. n + 1) c.each_once
            ∙ sym (
                select-one done row
                ∙ ap (λ b. length (select selected done) + (if b then 1 else 0)) is);
      })

  collect_row-IsCollected :
      (done : List A) (s : Dict K V) (row : A) (t : Dict K V)
      → collect_row s row ≡ ok t
      → IsCollected done s
      → IsCollected (done ++ (row ∷ [])) t
  unfolding collect_row
  collect_row-IsCollected done s row t h c = elim (Bool-cases (selected row)) [
    | inl is ↦ collect_selected-IsCollected done s row t (rw is at h) is c
    | inr is_not ↦
        subst (IsCollected (done ++ (row ∷ []))) (ok-injective (rw is_not at h)) (record {
          each_row =
              AllItems-append _ done (row ∷ []) c.each_row
                ((λ b. absurd (false≢true (sym is_not ∙ b))), tt);
          each_once =
              c.each_once
              ∙ sym (
                  select-one done row
                  ∙ ap (λ b. length (select selected done) + (if b then 1 else 0)) is_not
                  ∙ omega arith);
        })
  ]

  pub collect-IsCollected :
      (rows : List A) (result : Dict K V) → collect rows ≡ ok result → IsCollected rows result
  unfolding collect
  collect-IsCollected rows result h =
      for_loop_done collect_row IsCollected collect_row-IsCollected rows [] [] result h
        (record { each_row = tt; each_once = refl })

  pub collect-NodupKeys :
      (rows : List A) (result : Dict K V) → collect rows ≡ ok result → NodupKeys result
  unfolding collect collect_row collect_selected
  collect-NodupKeys rows result h =
      for_loop_inv collect_row NodupKeys
        (λ s row t e p. elim (Bool-cases (selected row)) [
          | inl is ↦
              let (k, key_read, h₁) = >>=-eq-ok (key_of row) _ (rw is at e) in
              let (free, h₂) = raise_if-eq-ok _ (duplicate k) _ h₁ in
              let (v, value_read, h₃) = >>=-eq-ok (value_of k row) _ h₂ in
              subst NodupKeys (ok-injective h₃) (insert-NodupKeys k v s p)
          | inr is_not ↦ subst NodupKeys (ok-injective (rw is_not at e)) p
        ])
        rows [] result h tt

  -- What every value that is read satisfies holds of every value of the dict.
  pub collect-AllValues {ν} :
      (P : V → Type ν)
      → ((k : K) (row : A) (v : V) → value_of k row ≡ ok v → P v)
      → (rows : List A) (result : Dict K V) → collect rows ≡ ok result
      → AllValues (λ k v. P v) result
  unfolding collect collect_row collect_selected
  collect-AllValues P each rows result h =
      for_loop_inv collect_row (AllValues (λ k v. P v))
        (λ s row t e p. elim (Bool-cases (selected row)) [
          | inl is ↦
              let (k, key_read, h₁) = >>=-eq-ok (key_of row) _ (rw is at e) in
              let (free, h₂) = raise_if-eq-ok _ (duplicate k) _ h₁ in
              let (v, value_read, h₃) = >>=-eq-ok (value_of k row) _ h₂ in
              subst (AllValues (λ k v. P v)) (ok-injective h₃)
                (AllValues-insert (λ k v. P v) s k v (each k row v value_read) p)
          | inr is_not ↦ subst (AllValues (λ k v. P v)) (ok-injective (rw is_not at e)) p
        ])
        rows [] result h tt

module _ {ℓ κ} {K : Type ℓ} {V : Type κ} ⦃e : Eq K⦄ where
  -- `missing = expected - set(result)`, and the `raise` where some are missing
  unfoldable pub require_keys : List K → Fault → Dict K V → Result (Dict K V)
  require_keys expected fault result = do
    raise_if (not (is_empty (difference expected (keys result)))) fault
    ok result

  pub require_keys-has_key :
      (expected : List K) (fault : Fault) (result checked : Dict K V)
      → require_keys expected fault result ≡ ok checked
      → (result ≡ checked) × AllItems (λ key. has_key key checked ≡ true) expected
  unfolding require_keys
  require_keys-has_key expected fault result checked h =
      let (none_missing, h₁) =
        raise_if-eq-ok (not (is_empty (difference expected (keys result)))) fault (ok result) h in
      let same = ok-injective h₁ in
      (
        same,
        subst (λ (d : Dict K V). AllItems (λ key. has_key key d ≡ true) expected) same
            (no_difference expected (keys result) (ground arith)),
      )
