-- ===== src/Base/Occurs.antt =====
-- Membership in a list whose items have no equality test.
use mathlib.Core.Path.{◌≡◌, refl, subst, sym, ap, ◌∙◌}
use mathlib.Core.Logic.{inl, inr}
use mathlib.Core.Bool.{Bool, true, false≢true}
use mathlib.Core.Option.{some, none-ne-some, some-injective}
use mathlib.Core.List.{List, [], ◌∷◌, ◌++◌, map}
use native.Mathlib.Omega.{arith}
use where_to_tls.Base.Equality.{Eq, ◌==◌, contains}
use where_to_tls.Base.Sets.{Bool-cases, eq_of_test, test_of_eq}
use where_to_tls.Base.Mapping.{Dict, keys, values, lookup, NodupKeys, lookup-has_key}
use where_to_tls.Base.Faults.{Result, ok, >>=-eq-ok, ok-injective}
use where_to_tls.Base.Loops.{for_loop, for_each, AllItems, AllItems-mono}
use where_to_tls.Base.Sorting.{put_in, sort_by}

pub data Occurs {ℓ} {A : Type ℓ} (a : A) : List A → Type ℓ where
  here : (x : A) (xs : List A) → a ≡ x → Occurs a (x ∷ xs)
  there : (x : A) (xs : List A) → Occurs a xs → Occurs a (x ∷ xs)

pub each-Occurs {ℓ} : {A : Type ℓ} (xs : List A) → AllItems (λ x. Occurs x xs) xs
each-Occurs [] = tt
each-Occurs (x ∷ xs) = (
  here x xs refl,
  AllItems-mono (λ y. Occurs y xs) (λ y. Occurs y (x ∷ xs)) xs (λ y o. there x xs o)
      (each-Occurs xs),
)

pub map-Occurs {ℓ κ} :
    {A : Type ℓ} {B : Type κ} (f : A → B) (a : A) (xs : List A)
    → Occurs a xs
    → Occurs (f a) (map f xs)
map-Occurs f a _ (here x xs e) = here (f x) (map f xs) (ap f e)
map-Occurs f a _ (there x xs o) = there (f x) (map f xs) (map-Occurs f a xs o)

module _ {ℓ} {A : Type ℓ} (leq : A → A → Bool) where
  put_in-Occurs : (a b : A) (xs : List A) → Occurs b (a ∷ xs) → Occurs b (put_in leq a xs)
  unfolding put_in
  put_in-Occurs a b [] o = o
  put_in-Occurs a b (x ∷ xs) (here _ _ e) = elim (Bool-cases (leq a x)) [
    | inl least ↦ rw least (here a (x ∷ xs) e)
    | inr other ↦ rw other (there x (put_in leq a xs) (put_in-Occurs a b xs (here a xs e)))
  ]
  put_in-Occurs a b (x ∷ xs) (there _ _ (here _ _ e)) = elim (Bool-cases (leq a x)) [
    | inl least ↦ rw least (there a (x ∷ xs) (here x xs e))
    | inr other ↦ rw other (here x (put_in leq a xs) e)
  ]
  put_in-Occurs a b (x ∷ xs) (there _ _ (there _ _ o)) = elim (Bool-cases (leq a x)) [
    | inl least ↦ rw least (there a (x ∷ xs) (there x xs o))
    | inr other ↦ rw other (there x (put_in leq a xs) (put_in-Occurs a b xs (there a xs o)))
  ]

  -- Sorting loses no item.
  pub sort_by-Occurs : (b : A) (xs : List A) → Occurs b xs → Occurs b (sort_by leq xs)
  unfolding sort_by
  sort_by-Occurs b _ (here x xs e) = put_in-Occurs x b (sort_by leq xs) (here x (sort_by leq xs) e)
  sort_by-Occurs b _ (there x xs o) =
      put_in-Occurs x b (sort_by leq xs) (there x (sort_by leq xs) (sort_by-Occurs b xs o))

pub lookup-Occurs {ℓ κ} :
    {K : Type ℓ} {V : Type κ} ⦃e : Eq K⦄ (k : K) (d : Dict K V) (v : V)
    → lookup k d ≡ some v
    → Occurs v (values d)
lookup-Occurs k [] v h = absurd (none-ne-some v h)
lookup-Occurs k ((j, w) ∷ d) v h = elim (Bool-cases (k == j)) [
  | inl same ↦ here w (values d) (sym (some-injective w v (rw same at h)))
  | inr other ↦ there w (values d) (lookup-Occurs k d v (rw other at h))
]

module _ {ℓ κ} {A : Type ℓ} {B : Type κ} (f : A → Result B) where
  -- Every item of the comprehension has its value among the results.
  pub for_each-Occurs :
      (x : A) (xs : List A) (ys : List B)
      → for_each f xs ≡ ok ys
      → Occurs x xs
      → (y : B) × (f x ≡ ok y) × Occurs y ys
  unfolding for_each
  for_each-Occurs x _ ys h (here z xs e) =
      let (y, first, h₁) = >>=-eq-ok (f z) _ h in
      let (rest, others, h₂) = >>=-eq-ok (for_each f xs) _ h₁ in
      (y, ap f e ∙ first, subst (Occurs y) (ok-injective h₂) (here y rest refl))
  for_each-Occurs x _ ys h (there z xs o) =
      let (y, first, h₁) = >>=-eq-ok (f z) _ h in
      let (rest, others, h₂) = >>=-eq-ok (for_each f xs) _ h₁ in
      let (w, value, found) = for_each-Occurs x xs rest others o in
      (w, value, subst (Occurs w) (ok-injective h₂) (there y rest found))

pub AllItems-Occurs {ℓ κ} :
    {A : Type ℓ} (P : A → Type κ) (a : A) (xs : List A) → AllItems P xs → Occurs a xs → P a
AllItems-Occurs P a _ h (here x xs e) = subst P (sym e) h.0
AllItems-Occurs P a _ h (there x xs o) = AllItems-Occurs P a xs h.1 o

pub contains-Occurs {ℓ} :
    {A : Type ℓ} ⦃e : Eq A⦄ (a : A) (xs : List A) → contains xs a ≡ true → Occurs a xs
contains-Occurs a [] h = absurd (false≢true h)
contains-Occurs a (x ∷ xs) h = elim (Bool-cases (a == x)) [
  | inl same ↦ here x xs (eq_of_test a x same)
  | inr other ↦ there x xs (contains-Occurs a xs (ground (arith, other, h)))
]

pub Occurs-append {ℓ} : {A : Type ℓ} (a : A) (xs ys : List A) → Occurs a xs → Occurs a (xs ++ ys)
Occurs-append a _ ys (here x xs e) = here x (xs ++ ys) e
Occurs-append a _ ys (there x xs o) = there x (xs ++ ys) (Occurs-append a xs ys o)

pub append-Occurs {ℓ} : {A : Type ℓ} (a : A) (xs ys : List A) → Occurs a ys → Occurs a (xs ++ ys)
append-Occurs a [] ys o = o
append-Occurs a (x ∷ xs) ys o = there x (xs ++ ys) (append-Occurs a xs ys o)

-- An invariant of a loop, where a step may use that its item is one of the list.
pub for_loop-Occurs {ℓ κ μ} :
    {S : Type ℓ} {A : Type κ} (body : S → A → Result S) (P : S → Type μ) (xs : List A)
    → ((s : S) (x : A) (t : S) → Occurs x xs → body s x ≡ ok t → P s → P t)
    → (s t : S) → for_loop body s xs ≡ ok t
    → P s
    → P t
unfolding for_loop
for_loop-Occurs body P [] step s t h p = subst P (ok-injective h) p
for_loop-Occurs body P (x ∷ xs) step s t h p =
    let (u, first, rest) = >>=-eq-ok (body s x) _ h in
    for_loop-Occurs body P xs (λ s' y t' o. step s' y t' (there x xs o)) u t rest
      (step s x u (here x xs refl) first p)

-- With distinct keys, each entry is what its key is looked up as.
pub Occurs-lookup {ℓ κ} :
    {K : Type ℓ} {V : Type κ} ⦃e : Eq K⦄ (k : K) (v : V) (d : Dict K V)
    → NodupKeys d
    → Occurs (k, v) d
    → lookup k d ≡ some v
Occurs-lookup k v _ u (here (j, w) d e) =
    let same : (k == j) ≡ true = test_of_eq k j (ap (λ p. p.0) e) in
    rw same (ap (λ p. some p.1) (sym e))
Occurs-lookup k v _ u (there (j, w) d o) = elim (Bool-cases (k == j)) [
  | inr other ↦ rw other (Occurs-lookup k v d u.1 o)
  | inl same ↦ absurd (
      false≢true (
        sym u.0
        ∙ ap (contains (keys d)) (sym (eq_of_test k j same))
        ∙ lookup-has_key k d (Occurs-lookup k v d u.1 o)))
]
