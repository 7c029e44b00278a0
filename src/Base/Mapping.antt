-- ===== src/Base/Mapping.antt =====
-- Python's dict, in insertion order: `d[k] = v` keeps the place of a key that is there.
use mathlib.Core.Path.{◌≡◌, refl, sym, subst₂}
use mathlib.Core.Logic.{inl, inr}
use mathlib.Core.Bool.{Bool, true, false, ◌||◌}
use mathlib.Core.Option.{Option, none, some, none-ne-some, some-injective}
use mathlib.Core.List.{List, [], ◌∷◌, ◌++◌}
use native.Mathlib.Omega.{arith}
use where_to_tls.Base.Equality.{Eq, ◌==◌, contains, if◌then◌else◌}
use where_to_tls.Base.Sets.{NodupList, Bool-cases, eq_of_test}

abbrev pub Dict {ℓ κ} : Type ℓ → Type κ → Type (ℓ ⊔ κ)
Dict K V = List (K × V)

module _ {ℓ κ} {K : Type ℓ} {V : Type κ} where
  abbrev pub keys : Dict K V → List K
  keys [] = []
  keys ((k, v) ∷ d) = k ∷ keys d

  abbrev pub values : Dict K V → List V
  values [] = []
  values ((k, v) ∷ d) = v ∷ values d

module _ {ℓ κ} {K : Type ℓ} {V : Type κ} ⦃e : Eq K⦄ where
  -- `d.get(k)`
  abbrev pub lookup : K → Dict K V → Option V
  lookup k [] = none
  lookup k ((j, v) ∷ d) = let rest = lookup k d in if k == j then some v else rest

  -- `d[k] = v`
  abbrev pub insert : K → V → Dict K V → Dict K V
  insert k v [] = (k, v) ∷ []
  insert k v ((j, w) ∷ d) = let rest = insert k v d in if k == j then (k, v) ∷ d else (j, w) ∷ rest

  -- `d.get(k, default)`
  abbrev pub get_or : K → V → Dict K V → V
  get_or k v d = elim (lookup k d) [ none ↦ v | some w ↦ w ]

  -- `k in d`
  abbrev pub has_key : K → Dict K V → Bool
  has_key k d = contains (keys d) k

  pub lookup-insert :
      (j k : K) (v : V) (d : Dict K V)
      → lookup j (insert k v d) ≡ (if j == k then some v else lookup j d)
  lookup-insert j k v [] = refl
  lookup-insert j k v ((i, w) ∷ d) = ground (arith, lookup-insert j k v d)

  pub lookup-insert_self : (k : K) (v : V) (d : Dict K V) → lookup k (insert k v d) ≡ some v
  lookup-insert_self k v d = ground (arith, lookup-insert k k v d)

  pub lookup-insert_ne :
      (j k : K) (v : V) (d : Dict K V) → (j == k) ≡ false → lookup j (insert k v d) ≡ lookup j d
  lookup-insert_ne j k v d n = ground (arith, lookup-insert j k v d)

  pub get_or_of_lookup : (k : K) (v w : V) (d : Dict K V) → lookup k d ≡ some v → get_or k w d ≡ v
  get_or_of_lookup k v w d h = ground arith

  pub get_or-insert :
      (j k : K) (v w : V) (d : Dict K V)
      → get_or j v (insert k w d) ≡ (if j == k then w else get_or j v d)
  get_or-insert j k v w d = ground (arith, lookup-insert j k w d)

  pub has_key-insert :
      (j k : K) (v : V) (d : Dict K V) → has_key j (insert k v d) ≡ (j == k || has_key j d)
  has_key-insert j k v [] = refl
  has_key-insert j k v ((i, w) ∷ d) = ground (arith, has_key-insert j k v d)

  -- A key is there exactly if it has a value.
  pub has_key-lookup : (k : K) (d : Dict K V) → has_key k d ≡ true → (v : V) × (lookup k d ≡ some v)
  has_key-lookup k [] h = cc
  has_key-lookup k ((j, v) ∷ d) h = elim (Bool-cases (k == j)) [
    | inl same ↦ (v, rw same)
    | inr other ↦ rw other (has_key-lookup k d (rw other at h))
  ]

  pub lookup-has_key : (k : K) (d : Dict K V) {v : V} → lookup k d ≡ some v → has_key k d ≡ true
  lookup-has_key k [] h = cc
  lookup-has_key k ((j, w) ∷ d) {v} h = ground (arith, lookup-has_key k d {v = v})

  pub lookup_absent : (k : K) (d : Dict K V) → has_key k d ≡ false → lookup k d ≡ none
  lookup_absent k [] h = refl
  lookup_absent k ((j, w) ∷ d) h = ground (arith, lookup_absent k d)

  -- A new key goes to the end.
  pub insert_absent :
      (k : K) (v : V) (d : Dict K V) → has_key k d ≡ false → insert k v d ≡ d ++ ((k, v) ∷ [])
  insert_absent k v [] h = refl
  insert_absent k v ((j, w) ∷ d) h = ground (arith, insert_absent k v d)

  -- No key is listed twice.
  abbrev pub NodupKeys : Dict K V → Type 0
  NodupKeys d = NodupList (keys d)

  pub insert-NodupKeys : (k : K) (v : V) (d : Dict K V) → NodupKeys d → NodupKeys (insert k v d)
  insert-NodupKeys k v [] u = (refl, tt)
  insert-NodupKeys k v ((j, w) ∷ d) u =
      ground (arith, insert-NodupKeys k v d u.1, has_key-insert j k v d)

module _ {ℓ κ} {K : Type ℓ} {V : Type κ} ⦃e : Eq K⦄ ⦃f : Eq V⦄ where
  pub lookup-contains-values :
      (k : K) (d : Dict K V) (v : V) → lookup k d ≡ some v → contains (values d) v ≡ true
  lookup-contains-values k [] v h = cc
  lookup-contains-values k ((j, w) ∷ d) v h = ground (arith, lookup-contains-values k d v)

  -- Where no value stands twice, a value has one key.
  pub lookup-injective :
      (d : Dict K V) (j k : K) (v : V)
      → NodupList (values d)
      → lookup j d ≡ some v
      → lookup k d ≡ some v
      → j ≡ k
  lookup-injective [] j k v u a b = absurd (none-ne-some v a)
  lookup-injective ((i, w) ∷ d) j k v u a b = ground (
    arith,
    lookup-injective d j k v u.1,
    lookup-contains-values j d v,
    lookup-contains-values k d v,
  )

  -- Where no key stands twice, each value is found under a key.
  pub values-lookup :
      (d : Dict K V) (v : V)
      → NodupKeys d
      → contains (values d) v ≡ true
      → (k : K) × (lookup k d ≡ some v)
  values-lookup [] v u h = cc
  values-lookup ((i, w) ∷ d) v u h = elim (Bool-cases (v == w)) [
    | inl same ↦ (i, ground arith)
    | inr other ↦
        let (k, m) = values-lookup d v u.1 (ground arith) in
        (k, ground (arith, lookup-has_key k d m))
  ]

-- What holds of every value of a dict.
module _ {ℓ κ μ} {K : Type ℓ} {V : Type κ} where
  abbrev pub AllValues : (K → V → Type μ) → Dict K V → Type μ
  AllValues P [] = Unit
  AllValues P ((k, v) ∷ d) = P k v × AllValues P d

module _ {ℓ κ μ} {K : Type ℓ} {V : Type κ} ⦃e : Eq K⦄ (P : K → V → Type μ) where
  pub AllValues-lookup :
      (d : Dict K V) (k : K) (v : V) → AllValues P d → lookup k d ≡ some v → P k v
  AllValues-lookup [] k v h m = absurd (none-ne-some v m)
  AllValues-lookup ((j, w) ∷ d) k v h m = elim (Bool-cases (k == j)) [
    | inl same ↦ subst₂ P (sym (eq_of_test k j same)) (some-injective w v (rw same at m)) h.0
    | inr other ↦ AllValues-lookup d k v h.1 (rw other at m)
  ]

  pub AllValues-insert :
      (d : Dict K V) (k : K) (v : V) → P k v → AllValues P d → AllValues P (insert k v d)
  AllValues-insert [] k v p h = (p, tt)
  AllValues-insert ((j, w) ∷ d) k v p h = elim (Bool-cases (k == j)) [
    | inl same ↦ rw same (p, h.1)
    | inr other ↦ rw other (h.0, AllValues-insert d k v p h.1)
  ]
