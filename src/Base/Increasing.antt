-- ===== src/Base/Increasing.antt =====
-- Lists of numbers that increase: two with the same items are equal.
use Prim.Native.Nat.{ℕ, ◌<◌}
use mathlib.Core.Path.{◌≡◌, refl, sym, ap, ◌∙◌}
use mathlib.Core.Logic.{inl, inr}
use mathlib.Core.Bool.{Bool, true, false, ◌&&◌}
use mathlib.Core.List.{List, [], ◌∷◌}
use native.Mathlib.Omega.{arith}
use where_to_tls.Base.Equality.{contains, nat_eq}
use where_to_tls.Base.Int.{ltb, leb}
use where_to_tls.Base.Sets.{all, Bool-cases, NodupList, test_of_eq}
use where_to_tls.Base.Sorting.{IsSorted}

-- Each item is below all later ones.
abbrev pub IsIncreasing : List ℕ → Type 0
IsIncreasing [] = Unit
IsIncreasing (x ∷ xs) = (all (ltb x) xs ≡ true) × IsIncreasing xs

all_above : (x y : ℕ) (xs : List ℕ) → ltb x y ≡ true → all (ltb y) xs ≡ true → all (ltb x) xs ≡ true
all_above x y [] h k = refl
all_above x y (z ∷ xs) h k = ground (arith, all_above x y xs)

below_next : (x y : ℕ) (xs : List ℕ) → leb x y ≡ true → contains (y ∷ xs) x ≡ false → ltb x y ≡ true
unfolding nat_eq
below_next x y xs h k = ground arith

both_tests : (a b : Bool) → a ≡ true → b ≡ true → (a && b) ≡ true
both_tests a b h k = ground arith

-- A sorted list in which no number stands twice increases.
pub IsSorted-IsIncreasing : (xs : List ℕ) → IsSorted leb xs → NodupList xs → IsIncreasing xs
IsSorted-IsIncreasing [] s u = tt
IsSorted-IsIncreasing (x ∷ []) s u = (refl, tt)
IsSorted-IsIncreasing (x ∷ y ∷ xs) s u =
    let rest = IsSorted-IsIncreasing (y ∷ xs) s.1 u.1 in
    let below = below_next x y xs s.0 u.0 in
    (both_tests _ _ below (all_above x y xs below rest.0), rest)

above-contains : (x y : ℕ) (xs : List ℕ) → all (ltb x) xs ≡ true → contains xs y ≡ true → x < y
unfolding nat_eq
above-contains x y [] h m = cc
above-contains x y (z ∷ xs) h m = ground (arith, above-contains x y xs)

same_tail :
    (x : ℕ) (xs ys : List ℕ)
    → all (ltb x) xs ≡ true
    → all (ltb x) ys ≡ true
    → ((r : ℕ) → contains (x ∷ xs) r ≡ contains (x ∷ ys) r)
    → (r : ℕ) → contains xs r ≡ contains ys r
unfolding nat_eq
same_tail x xs ys a b same r =
    let e = same r in
    let f = above-contains x r xs a in
    let g = above-contains x r ys b in
    elim (Bool-cases (contains xs r)) [
      | inl there ↦ ground (arith, there, e, f there)
      | inr not_there ↦ elim (Bool-cases (contains ys r)) [
        | inl there ↦ ground (arith, there, not_there, e, g there)
        | inr absent ↦ not_there ∙ sym absent
      ]
    ]

same_head :
    (x y : ℕ) (xs ys : List ℕ)
    → all (ltb x) xs ≡ true
    → all (ltb y) ys ≡ true
    → contains (y ∷ ys) x ≡ true
    → contains (x ∷ xs) y ≡ true
    → x ≡ y
unfolding nat_eq
same_head x y xs ys a b m n = ground (arith, above-contains x y xs a, above-contains y x ys b)

pub IsIncreasing-eq :
    (xs ys : List ℕ)
    → IsIncreasing xs
    → IsIncreasing ys
    → ((r : ℕ) → contains xs r ≡ contains ys r)
    → xs ≡ ys
IsIncreasing-eq [] [] i j same = refl
IsIncreasing-eq [] (y ∷ ys) i j same = ground (arith, same y, test_of_eq y y refl)
IsIncreasing-eq (x ∷ xs) [] i j same = ground (arith, same x, test_of_eq x x refl)
IsIncreasing-eq (x ∷ xs) (y ∷ ys) i j same =
    let e =
      same_head x y xs ys i.0 j.0 (ground (arith, same x, test_of_eq x x refl))
        (ground (arith, same y, test_of_eq y y refl)) in
    let tail =
      same_tail x xs ys i.0 (ap (λ z. all (ltb z) ys) e ∙ j.0)
        (λ r. same r ∙ ap (λ z. contains (z ∷ ys) r) (sym e)) in
    ap (λ zs. x ∷ zs) (IsIncreasing-eq xs ys i.1 j.1 tail) ∙ ap (λ z. z ∷ ys) e
