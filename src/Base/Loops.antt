-- ===== src/Base/Loops.antt =====
-- `for` loops whose body may raise, and comprehensions whose expression may raise.
use Prim.Native.Nat.{suc}
use mathlib.Core.Path.{refl, ◌≡◌, subst, sym, ap, ◌∙◌}
use mathlib.Core.Logic.{inl, inr}
use mathlib.Core.Bool.{true, false, false≢true}
use native.Mathlib.Omega.{arith}
use mathlib.Core.List.{List, [], ◌∷◌, ◌++◌, map, append-nil, append_assoc}
use where_to_tls.Base.Equality.{Eq, ◌==◌, contains}
use where_to_tls.Base.Sets.{is_empty, difference, length, Bool-cases, eq_of_test}
use where_to_tls.Base.Faults.{Result, ok, ◌>>=◌, >>=-eq-ok, ok-injective}

module _ {ℓ κ} {S : Type ℓ} {A : Type κ} (body : S → A → Result S) where
  -- `for a in xs: s = body(s, a)`
  unfoldable pub for_loop : S → List A → Result S
  for_loop s [] = ok s
  for_loop s (x ∷ xs) = body s x >>= λ t. for_loop t xs

  -- The loop rule: `P` speaks of the items done so far.
  module _ {μ} (P : List A → S → Type μ)
      (step : (done : List A) (s : S) (x : A) (t : S)
        → body s x ≡ ok t
        → P done s
        → P (done ++ x ∷ []) t) where
    pub for_loop_done :
        (xs done : List A) (s t : S) → for_loop s xs ≡ ok t → P done s → P (done ++ xs) t
    unfolding for_loop
    for_loop_done [] done s t h p = rw append-nil (subst (P done) (ok-injective h) p)
    for_loop_done (x ∷ xs) done s t h p =
        let (u, first, rest) = >>=-eq-ok (body s x) _ h in
        rw (append_assoc done (x ∷ []) xs) at
          (for_loop_done xs (done ++ x ∷ []) u t rest (step done s x u first p))

  -- The same where the invariant does not mention the items.
  pub for_loop_inv {μ} :
      (P : S → Type μ)
      → ((s : S) (x : A) (t : S) → body s x ≡ ok t → P s → P t)
      → (xs : List A) (s t : S) → for_loop s xs ≡ ok t
      → P s
      → P t
  unfolding for_loop
  for_loop_inv P step [] s t h p = subst P (ok-injective h) p
  for_loop_inv P step (x ∷ xs) s t h p =
      let (u, first, rest) = >>=-eq-ok (body s x) _ h in
      for_loop_inv P step xs u t rest (step s x u first p)

module _ {ℓ κ} {A : Type ℓ} {B : Type κ} (f : A → Result B) where
  -- `[f(a) for a in xs]`
  unfoldable pub for_each : List A → Result (List B)
  for_each [] = ok []
  for_each (x ∷ xs) = do y ← f x; ys ← for_each xs; ok (y ∷ ys)

  pub length-for_each : (xs : List A) (ys : List B) → for_each xs ≡ ok ys → length ys ≡ length xs
  unfolding for_each
  length-for_each [] ys h = ap length (sym (ok-injective h))
  length-for_each (x ∷ xs) ys h =
      let (y, first, h₁) = >>=-eq-ok (f x) _ h in
      let (rest, others, h₂) = >>=-eq-ok (for_each xs) _ h₁ in
      ap length (sym (ok-injective h₂)) ∙ ap suc (length-for_each xs rest others)

-- What holds of every item.
abbrev pub AllItems {ℓ κ} : {A : Type ℓ} → (A → Type κ) → List A → Type κ
AllItems P [] = Unit
AllItems P (x ∷ xs) = P x × AllItems P xs

module _ {ℓ κ μ} {S : Type ℓ} {A : Type κ} (body : S → A → Result S) (Q : A → Type μ) where
  -- What each round that does not raise shows of its item holds of every item.
  pub for_loop-AllItems :
      ((s : S) (x : A) (t : S) → body s x ≡ ok t → Q x)
      → (xs : List A) (s t : S) → for_loop body s xs ≡ ok t
      → AllItems Q xs
  unfolding for_loop
  for_loop-AllItems each [] s t h = tt
  for_loop-AllItems each (x ∷ xs) s t h =
      let (u, first, rest) = >>=-eq-ok (body s x) _ h in
      (each s x u first, for_loop-AllItems each xs u t rest)

module _ {ℓ κ} {A : Type ℓ} (P : A → Type κ) where
  pub AllItems-append : (xs ys : List A) → AllItems P xs → AllItems P ys → AllItems P (xs ++ ys)
  AllItems-append [] ys h k = k
  AllItems-append (x ∷ xs) ys h k = (h.0, AllItems-append xs ys h.1 k)

  pub AllItems-last : (xs : List A) (y : A) → AllItems P (xs ++ (y ∷ [])) → AllItems P xs × P y
  AllItems-last [] y h = (tt, h.0)
  AllItems-last (x ∷ xs) y h = let (rest, last) = AllItems-last xs y h.1 in ((h.0, rest), last)

  pub AllItems-mono {μ} :
      (Q : A → Type μ) (xs : List A) → ((x : A) → P x → Q x) → AllItems P xs → AllItems Q xs
  AllItems-mono Q [] w h = tt
  AllItems-mono Q (x ∷ xs) w h = (w x h.0, AllItems-mono Q xs w h.1)

  pub AllItems-contains :
      ⦃e : Eq A⦄ (xs : List A) (x : A) → AllItems P xs → contains xs x ≡ true → P x
  AllItems-contains [] x h m = absurd (false≢true m)
  AllItems-contains (y ∷ xs) x h m = elim (Bool-cases (x == y)) [
    | inl same ↦ subst P (sym (eq_of_test x y same)) h.0
    | inr other ↦ AllItems-contains xs x h.1 (ground arith)
  ]

pub AllItems-both {ℓ κ μ} :
    {A : Type ℓ} (P : A → Type κ) (Q : A → Type μ) (xs : List A)
    → AllItems P xs
    → AllItems Q xs
    → AllItems (λ x. P x × Q x) xs
AllItems-both P Q [] p q = tt
AllItems-both P Q (x ∷ xs) p q = ((p.0, q.0), AllItems-both P Q xs p.1 q.1)

pub AllItems-map {ℓ κ μ} :
    {A : Type ℓ} {B : Type κ} (f : A → B) (P : B → Type μ) (xs : List A)
    → AllItems (λ x. P (f x)) xs
    → AllItems P (map f xs)
AllItems-map f P [] h = tt
AllItems-map f P (x ∷ xs) h = (h.0, AllItems-map f P xs h.1)

-- Where nothing is missing, everything is there.
pub no_difference {ℓ} :
    {K : Type ℓ} ⦃e : Eq K⦄ (expected there : List K)
    → is_empty (difference expected there) ≡ true
    → AllItems (λ key. contains there key ≡ true) expected
no_difference [] there h = tt
no_difference (k ∷ expected) there h = ground (arith, no_difference expected there)

pub for_each-AllItems {ℓ κ μ ν} :
    {A : Type ℓ} {B : Type κ} (f : A → Result B) (P : A → Type μ) (Q : B → Type ν)
    → ((x : A) (y : B) → f x ≡ ok y → P x → Q y)
    → (xs : List A) (ys : List B) → for_each f xs ≡ ok ys
    → AllItems P xs
    → AllItems Q ys
unfolding for_each
for_each-AllItems f P Q each [] ys h p = subst (AllItems Q) (ok-injective h) tt
for_each-AllItems f P Q each (x ∷ xs) ys h p =
    let (y, first, h₁) = >>=-eq-ok (f x) _ h in
    let (rest, others, h₂) = >>=-eq-ok (for_each f xs) _ h₁ in
    subst (AllItems Q) (ok-injective h₂)
      (each x y first p.0, for_each-AllItems f P Q each xs rest others p.1)

-- Two lists of equal length, whose items are related one by one.
pub data AllPairs {ℓ κ μ} {A : Type ℓ} {B : Type κ} (R : A → B → Type μ)
    : List A → List B → Type (ℓ ⊔ κ ⊔ μ) where
  no_pair : AllPairs R [] []
  pair_and :
      (x : A) (y : B) (xs : List A) (ys : List B)
      → R x y
      → AllPairs R xs ys
      → AllPairs R (x ∷ xs) (y ∷ ys)

pub for_each-AllPairs {ℓ κ μ} :
    {A : Type ℓ} {B : Type κ} (f : A → Result B) (R : A → B → Type μ)
    → ((x : A) (y : B) → f x ≡ ok y → R x y)
    → (xs : List A) (ys : List B) → for_each f xs ≡ ok ys
    → AllPairs R xs ys
unfolding for_each
for_each-AllPairs f R each [] ys h = subst (AllPairs R []) (ok-injective h) no_pair
for_each-AllPairs f R each (x ∷ xs) ys h =
    let (y, first, h₁) = >>=-eq-ok (f x) _ h in
    let (rest, others, h₂) = >>=-eq-ok (for_each f xs) _ h₁ in
    subst (AllPairs R (x ∷ xs)) (ok-injective h₂)
      (pair_and x y xs rest (each x y first) (for_each-AllPairs f R each xs rest others))

-- A comprehension whose expression returns on each item returns, with what it promises of them.
pub for_each-returned {ℓ κ ν} :
    {A : Type ℓ} {B : Type κ} (f : A → Result B) (R : A → B → Type ν) (xs : List A)
    → AllItems (λ x. (y : B) × (f x ≡ ok y) × R x y) xs
    → (ys : List B) × (for_each f xs ≡ ok ys) × AllPairs R xs ys
unfolding for_each
for_each-returned f R [] h = ([], refl, no_pair)
for_each-returned f R (x ∷ xs) h =
    let (y, first, r) = h.0 in
    let (ys, others, rs) = for_each-returned f R xs h.1 in
    (
      y ∷ ys,
      ap (λ z. z >>= λ y'. for_each f xs >>= λ zs. ok (y' ∷ zs)) first
          ∙ ap (λ z. z >>= λ zs. ok (y ∷ zs)) others,
      pair_and x y xs ys r rs,
    )

pub each_contains {ℓ} :
    {A : Type ℓ} ⦃e : Eq A⦄ (xs : List A) → AllItems (λ x. contains xs x ≡ true) xs
each_contains [] = tt
each_contains (x ∷ xs) = (
  ground arith,
  AllItems-mono (λ y. contains xs y ≡ true) (λ y. contains (x ∷ xs) y ≡ true) xs
      (λ y h. ground (arith, h)) (each_contains xs),
)

pub contains-some {ℓ} :
    {A : Type ℓ} ⦃e : Eq A⦄ (xs : List A) (x : A) → contains xs x ≡ true → is_empty xs ≡ false
contains-some [] x h = absurd (false≢true h)
contains-some (y ∷ xs) x h = refl
