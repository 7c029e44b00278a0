-- ===== src/Base/Sets.antt =====
-- Lists counted by native numbers, and Python's sets as lists: an iteration order is kept, and
-- `==` on sets forgets it.
use Prim.Native.Nat.{ℕ, zero, suc, ◌+◌}
use mathlib.Core.Path.{◌≡◌, refl}
use mathlib.Core.Bool.{Bool, true, false, not, ◌&&◌, ◌||◌}
use mathlib.Core.Logic.{◌⊎◌, inl, inr}
use mathlib.Core.Option.{Option, none, some}
use mathlib.Core.List.{List, [], ◌∷◌, ◌++◌}
use native.Mathlib.Omega.{arith}
use where_to_tls.Base.Equality.{Eq, ◌==◌, contains, if◌then◌else◌}

-- To split on a computed value and keep the equation.
pub Bool-cases : (b : Bool) → (b ≡ true) ⊎ (b ≡ false)
Bool-cases true = inl refl
Bool-cases false = inr refl

pub Option-cases {ℓ} : {A : Type ℓ} (o : Option A) → (o ≡ none) ⊎ ((a : A) × (o ≡ some a))
Option-cases none = inl refl
Option-cases (some a) = inr (a, refl)

module _ {ℓ} {A : Type ℓ} where
  abbrev pub length : List A → ℕ
  length [] = 0
  length (x ∷ xs) = suc (length xs)

  -- `not xs`
  abbrev pub is_empty : List A → Bool
  is_empty [] = true
  is_empty (x ∷ xs) = false

  -- `[x for x in xs if p(x)]`
  abbrev pub select : (A → Bool) → List A → List A
  select p [] = []
  select p (x ∷ xs) = let rest = select p xs in if p x then x ∷ rest else rest

  -- `all(p(x) for x in xs)` and `any(p(x) for x in xs)`
  abbrev pub all : (A → Bool) → List A → Bool
  all p [] = true
  all p (x ∷ xs) = p x && all p xs

  abbrev pub any : (A → Bool) → List A → Bool
  any p [] = false
  any p (x ∷ xs) = p x || any p xs

-- `range(start, start + n)`
abbrev pub range : ℕ → ℕ → List ℕ
range start zero = []
range start (suc n) = start ∷ range (start + 1) n

module _ {ℓ} {A : Type ℓ} ⦃e : Eq A⦄ where
  abbrev pub count : A → List A → ℕ
  count a [] = 0
  count a (x ∷ xs) = (if a == x then 1 else 0) + count a xs

  -- `xs <= ys` and `xs == ys` on sets
  abbrev pub subset : List A → List A → Bool
  subset xs ys = all (contains ys) xs

  abbrev pub same_set : List A → List A → Bool
  same_set xs ys = subset xs ys && subset ys xs

  -- `xs - ys`
  abbrev pub difference : List A → List A → List A
  difference xs ys = select (λ x. not (contains ys x)) xs

  -- `if a not in xs: xs.append(a)`
  abbrev pub append_new : List A → A → List A
  append_new xs a = if contains xs a then xs else xs ++ (a ∷ [])

  dedupe_onto : List A → List A → List A
  dedupe_onto seen [] = seen
  dedupe_onto seen (x ∷ xs) = dedupe_onto (append_new seen x) xs

  -- `list(dict.fromkeys(xs))`
  unfoldable pub dedupe : List A → List A
  unfolding dedupe_onto
  dedupe = dedupe_onto []

  pub eq_of_test : (a b : A) → (a == b) ≡ true → a ≡ b
  eq_of_test a b h = ground arith

  pub test_of_eq : (a b : A) → a ≡ b → (a == b) ≡ true
  test_of_eq a b h = ground arith

  abbrev pub NodupList : List A → Type 0
  NodupList [] = Unit
  NodupList (x ∷ xs) = (contains xs x ≡ false) × NodupList xs

  abbrev pub is_nodup : List A → Bool
  is_nodup [] = true
  is_nodup (x ∷ xs) = not (contains xs x) && is_nodup xs

  pub is_nodup-NodupList : (xs : List A) → is_nodup xs ≡ true → NodupList xs
  is_nodup-NodupList [] h = tt
  is_nodup-NodupList (x ∷ xs) h = ground (arith, is_nodup-NodupList xs)

  pub contains-append :
      (xs ys : List A) (a : A) → contains (xs ++ ys) a ≡ (contains xs a || contains ys a)
  contains-append [] ys a = refl
  contains-append (x ∷ xs) ys a = ground (arith, contains-append xs ys a)

  pub contains-append_new :
      (xs : List A) (x a : A) → contains (append_new xs x) a ≡ (a == x || contains xs a)
  contains-append_new xs x a = ground (arith, contains-append xs (x ∷ []) a)

  contains-dedupe_onto :
      (seen xs : List A) (a : A)
      → contains (dedupe_onto seen xs) a ≡ (contains seen a || contains xs a)
  unfolding dedupe_onto
  contains-dedupe_onto seen [] a = ground arith
  contains-dedupe_onto seen (x ∷ xs) a =
      ground (arith, contains-dedupe_onto (append_new seen x) xs a, contains-append_new seen x a)

  pub contains-dedupe : (xs : List A) (a : A) → contains (dedupe xs) a ≡ contains xs a
  unfolding dedupe
  contains-dedupe xs a = contains-dedupe_onto [] xs a

  pub append-NodupList :
      (xs : List A) (a : A) → contains xs a ≡ false → NodupList xs → NodupList (xs ++ (a ∷ []))
  append-NodupList [] a h u = (refl, tt)
  append-NodupList (x ∷ xs) a h u =
      ground (arith, contains-append xs (a ∷ []) x, append-NodupList xs a)

  pub append_new-NodupList : (xs : List A) (a : A) → NodupList xs → NodupList (append_new xs a)
  append_new-NodupList xs a u = ground (arith, append-NodupList xs a)

  dedupe_onto-NodupList : (seen xs : List A) → NodupList seen → NodupList (dedupe_onto seen xs)
  unfolding dedupe_onto
  dedupe_onto-NodupList seen [] u = u
  dedupe_onto-NodupList seen (x ∷ xs) u =
      dedupe_onto-NodupList (append_new seen x) xs (append_new-NodupList seen x u)

  pub dedupe-NodupList : (xs : List A) → NodupList (dedupe xs)
  unfolding dedupe
  dedupe-NodupList xs = dedupe_onto-NodupList [] xs tt

  pub contains-select :
      (p : A → Bool) (xs : List A) (a : A) → contains (select p xs) a ≡ (p a && contains xs a)
  contains-select p [] a = ground arith
  contains-select p (x ∷ xs) a = ground (arith, contains-select p xs a)

  pub subset-contains :
      (xs ys : List A) (a : A) → subset xs ys ≡ true → contains xs a ≡ true → contains ys a ≡ true
  subset-contains [] ys a h m = cc
  subset-contains (x ∷ xs) ys a h m = ground (arith, subset-contains xs ys a)

  pub same_set-contains :
      (xs ys : List A) (a : A) → same_set xs ys ≡ true → contains xs a ≡ contains ys a
  same_set-contains xs ys a h = ground (arith, subset-contains xs ys a, subset-contains ys xs a)

  -- An empty difference leaves nothing out.
  pub difference-contains :
      (xs ys : List A) (a : A) → difference xs ys ≡ [] → contains xs a ≡ true → contains ys a ≡ true
  difference-contains (x ∷ xs) ys a h m = ground (arith, difference-contains xs ys a)
  difference-contains [] ys a h m = cc
