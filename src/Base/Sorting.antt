-- ===== src/Base/Sorting.antt =====
-- `sorted(xs, key=…)`: a stable sort by an order that is given as a test.
use Prim.Native.Nat.{ℕ, suc, Ordering}
use Prim.Native.String.{String, compare}
use mathlib.Core.Path.{◌≡◌, refl}
use mathlib.Core.Bool.{Bool, true, false, ◌||◌}
use mathlib.Core.List.{List, [], ◌∷◌, map}
use where_to_tls.Base.Sets.{NodupList}
use native.Mathlib.Omega.{arith}
use where_to_tls.Base.Equality.{Eq, ◌==◌, contains, if◌then◌else◌}
use where_to_tls.Base.Loops.{AllItems}

-- `s <= t` on texts
abbrev pub leb_text : String → String → Bool
leb_text s t = elim (compare s t) [ Ordering.gt ↦ false | _ ↦ true ]

-- `xs.index(a)`, or the length where it is missing
abbrev pub index {ℓ} : {A : Type ℓ} → ⦃e : Eq A⦄ → List A → A → ℕ
index [] a = 0
index (x ∷ xs) a = let later = suc (index xs a) in if a == x then 0 else later

module _ {ℓ} {A : Type ℓ} (leq : A → A → Bool) where
  unfoldable pub put_in : A → List A → List A
  put_in a [] = a ∷ []
  put_in a (x ∷ xs) = let rest = put_in a xs in if leq a x then a ∷ x ∷ xs else x ∷ rest

  unfoldable pub sort_by : List A → List A
  unfolding put_in
  sort_by [] = []
  sort_by (x ∷ xs) = put_in x (sort_by xs)

  -- Each item is at most the next one.
  abbrev pub IsSorted : List A → Type 0
  IsSorted [] = Unit
  IsSorted (x ∷ xs) = elim xs [ [] ↦ Unit | y ∷ ys ↦ leq x y ≡ true ] × IsSorted xs

  module _ (total : (a b : A) → leq a b ≡ false → leq b a ≡ true) where
    put_in-IsSorted : (a : A) (xs : List A) → IsSorted xs → IsSorted (put_in a xs)
    unfolding put_in
    put_in-IsSorted a [] s = (tt, tt)
    put_in-IsSorted a (x ∷ []) s = ground (arith, total a x)
    put_in-IsSorted a (x ∷ y ∷ xs) s = ground (arith, total a x, put_in-IsSorted a (y ∷ xs))

    pub sort_by-IsSorted : (xs : List A) → IsSorted (sort_by xs)
    unfolding sort_by
    sort_by-IsSorted [] = tt
    sort_by-IsSorted (x ∷ xs) = put_in-IsSorted x (sort_by xs) (sort_by-IsSorted xs)

  put_in-AllItems {κ} :
      (P : A → Type κ) (a : A) (xs : List A) → P a → AllItems P xs → AllItems P (put_in a xs)
  unfolding put_in
  put_in-AllItems P a [] p h = (p, tt)
  put_in-AllItems P a (x ∷ xs) p h = ground (arith, put_in-AllItems P a xs p)

  pub sort_by-AllItems {κ} :
      (P : A → Type κ) (xs : List A) → AllItems P xs → AllItems P (sort_by xs)
  unfolding sort_by
  sort_by-AllItems P [] h = tt
  sort_by-AllItems P (x ∷ xs) h = put_in-AllItems P x (sort_by xs) h.0 (sort_by-AllItems P xs h.1)

module _ {ℓ κ} {A : Type ℓ} {K : Type κ} ⦃e : Eq K⦄ (leq : A → A → Bool) (name : A → K) where
  contains-put_in :
      (a : A) (xs : List A) (k : K)
      → contains (map name (put_in leq a xs)) k ≡ (k == name a || contains (map name xs) k)
  unfolding put_in
  contains-put_in a [] k = refl
  contains-put_in a (x ∷ xs) k = ground (arith, contains-put_in a xs k)

  put_in-NodupList :
      (a : A) (xs : List A)
      → contains (map name xs) (name a) ≡ false
      → NodupList (map name xs)
      → NodupList (map name (put_in leq a xs))
  unfolding put_in
  put_in-NodupList a [] n u = (refl, tt)
  put_in-NodupList a (x ∷ xs) n u =
      ground (arith, put_in-NodupList a xs, contains-put_in a xs (name x))

  pub contains-sort_by :
      (xs : List A) (k : K) → contains (map name (sort_by leq xs)) k ≡ contains (map name xs) k
  unfolding sort_by
  contains-sort_by [] k = refl
  contains-sort_by (x ∷ xs) k =
      ground (arith, contains-sort_by xs k, contains-put_in x (sort_by leq xs) k)

  -- Distinct names stay distinct.
  pub sort_by-NodupList :
      (xs : List A) → NodupList (map name xs) → NodupList (map name (sort_by leq xs))
  unfolding sort_by
  sort_by-NodupList [] u = tt
  sort_by-NodupList (x ∷ xs) u =
      put_in-NodupList x (sort_by leq xs) (ground (arith, contains-sort_by xs (name x), u.0))
        (sort_by-NodupList xs u.1)
