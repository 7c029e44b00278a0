-- ===== src/Base/Pigeonhole.antt =====
-- As many items as distinct wanted ones, and every wanted one among them: each is there once.
use Prim.Native.Nat.{suc, ◌+◌, ◌≤◌}
use mathlib.Core.Path.{◌≡◌, refl}
use mathlib.Core.Bool.{true, false}
use mathlib.Core.List.{List, [], ◌∷◌}
use native.Mathlib.Omega.{arith}
use where_to_tls.Base.Equality.{Eq, ◌==◌, contains, if◌then◌else◌}
use where_to_tls.Base.Sets.{length, count, subset, NodupList}

module _ {ℓ} {A : Type ℓ} ⦃e : Eq A⦄ where
  remove : A → List A → List A
  remove a [] = []
  remove a (x ∷ xs) = let rest = remove a xs in if a == x then xs else x ∷ rest

  length-remove :
      (a : A) (xs : List A) → contains xs a ≡ true → suc (length (remove a xs)) ≡ length xs
  unfolding remove
  length-remove a [] m = cc
  length-remove a (x ∷ xs) m = ground (arith, length-remove a xs)

  count-remove :
      (a b : A) (xs : List A)
      → contains xs a ≡ true
      → count b xs ≡ (if b == a then 1 else 0) + count b (remove a xs)
  unfolding remove
  count-remove a b [] m = cc
  count-remove a b (x ∷ xs) m = ground (arith, count-remove a b xs)

  contains-remove :
      (a b : A) (xs : List A)
      → contains xs b ≡ true
      → (b == a) ≡ false
      → contains (remove a xs) b ≡ true
  unfolding remove
  contains-remove a b [] m n = cc
  contains-remove a b (x ∷ xs) m n = ground (arith, contains-remove a b xs)

  subset-remove :
      (ys xs : List A) (a : A)
      → subset ys xs ≡ true
      → contains ys a ≡ false
      → subset ys (remove a xs) ≡ true
  subset-remove [] xs a h n = refl
  subset-remove (y ∷ ys) xs a h n = ground (arith, subset-remove ys xs a, contains-remove a y xs)

  pub count_of_cover :
      (ys xs : List A) (a : A)
      → NodupList ys
      → subset ys xs ≡ true
      → length xs ≡ length ys
      → count a xs ≡ (if contains ys a then 1 else 0)
  count_of_cover [] [] a u h l = refl
  count_of_cover [] (x ∷ xs) a u h l = absurd (omega arith)
  count_of_cover (y ∷ ys) xs a u h l = ground (
    arith,
    count-remove y a xs,
    length-remove y xs,
    subset-remove ys xs y,
    count_of_cover ys (remove y xs) a u.1,
  )

  -- A list that has distinct items among its own is at least as long.
  pub NodupList-length :
      (ys xs : List A) → NodupList ys → subset ys xs ≡ true → length ys ≤ length xs
  NodupList-length [] xs u h = omega arith
  NodupList-length (y ∷ ys) xs u h =
      ground
        (arith, length-remove y xs, subset-remove ys xs y, NodupList-length ys (remove y xs) u.1)
