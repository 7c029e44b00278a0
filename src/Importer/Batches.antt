-- ===== src/Importer/Batches.antt =====
-- analyze/files/import-results.py: the batches in which `write_raw_file` writes the points of a file.
use where_to_tls.Base.{
  ℕ, ◌+◌, ◌≤◌, ◌<◌, ◌≡◌, refl, sym, ap, ◌∙◌, subst, true, false, List, [], ◌∷◌, ◌++◌, length,
  is_empty, AllItems, AllItems-append, arith, if◌then◌else◌, ◌==◌, nat_eq, Bool-cases, inl, inr,
}
use mathlib.Core.List.{append_assoc, append-nil}

abbrev pub batch_limit : ℕ
batch_limit = 25_000

-- What was written so far, the points that wait, and their number in all.
pub record Batches {ℓ} (P : Type ℓ) : Type ℓ where
  pub written : List (List P)
  pub batch : List P
  pub imported : ℕ

module _ {ℓ} {P : Type ℓ} where
  -- The end of the loop's body: a full batch is written and cleared.
  unfoldable pub add_point : Batches P → P → Batches P
  unfolding nat_eq
  add_point s point =
      let batch = s.batch ++ (point ∷ []) in
      if length batch == batch_limit
      then record { written = s.written ++ (batch ∷ []); batch = []; imported = s.imported + 1 }
      else record { written = s.written; batch = batch; imported = s.imported + 1 }

  unfoldable pub add_points : Batches P → List P → Batches P
  add_points s [] = s
  add_points s (point ∷ points) = add_points (add_point s point) points

  -- `if batch: write_api.write(…)` behind the loop
  unfoldable pub flush : Batches P → List (List P)
  flush s = if is_empty s.batch then s.written else s.written ++ (s.batch ∷ [])

  abbrev pub no_batches : Batches P
  no_batches = record { written = []; batch = []; imported = 0 }

  unfoldable pub write_points : List P → List (List P)
  write_points points = flush (add_points no_batches points)

  abbrev pub joined : List (List P) → List P
  joined [] = []
  joined (xs ∷ xss) = xs ++ joined xss

  joined-append : (xss : List (List P)) (ys : List P) → joined (xss ++ (ys ∷ [])) ≡ joined xss ++ ys
  joined-append [] ys = append-nil ys
  joined-append (xs ∷ xss) ys =
      ap (λ zs. xs ++ zs) (joined-append xss ys) ∙ sym (append_assoc xs (joined xss) ys)

  length-append : (xs : List P) (y : P) → length (xs ++ (y ∷ [])) ≡ length xs + 1
  length-append [] y = refl
  length-append (x ∷ xs) y = omega (arith, length-append xs y)

  -- A batch that is written in the loop.
  abbrev pub IsFull : List P → Type 0
  IsFull xs = length xs ≡ batch_limit

  record IsState (done : List P) (s : Batches P) : Type ℓ where
    in_order : joined s.written ++ s.batch ≡ done
    full : AllItems IsFull s.written
    below : length s.batch < batch_limit
    counted : s.imported ≡ length done

  add_point-IsState :
      (done : List P) (s : Batches P) (point : P)
      → IsState done s
      → IsState (done ++ (point ∷ [])) (add_point s point)
  unfolding add_point
  add_point-IsState done s point i =
      let grown = length-append s.batch point in
      let order : joined s.written ++ (s.batch ++ (point ∷ [])) ≡ done ++ (point ∷ []) =
        sym (append_assoc (joined s.written) s.batch (point ∷ []))
        ∙ ap (λ xs. xs ++ (point ∷ [])) i.in_order in
      let counted : s.imported + 1 ≡ length (done ++ (point ∷ [])) =
        ap (λ n. n + 1) i.counted ∙ sym (length-append done point) in
      elim (Bool-cases (length (s.batch ++ (point ∷ [])) == batch_limit)) [
        | inl full ↦ rw full (record {
          in_order = append-nil _ ∙ joined-append s.written (s.batch ++ (point ∷ [])) ∙ order;
          full = AllItems-append IsFull s.written _ i.full (ground (arith, full), tt);
          below = omega arith;
          counted = counted;
        })
        | inr part ↦ rw part (record {
          in_order = order;
          full = i.full;
          below = ground (arith, part, grown, i.below);
          counted = counted;
        })
      ]

  add_points-IsState :
      (done points : List P) (s : Batches P)
      → IsState done s
      → IsState (done ++ points) (add_points s points)
  unfolding add_points
  add_points-IsState done [] s i = subst (λ xs. IsState xs s) (sym (append-nil done)) i
  add_points-IsState done (point ∷ points) s i =
      subst (λ xs. IsState xs (add_points (add_point s point) points))
        (append_assoc done (point ∷ []) points)
        (add_points-IsState (done ++ (point ∷ [])) points (add_point s point)
          (add_point-IsState done s point i))

  -- The batches of the points of a file.
  pub record IsBatched (points : List P) (batches : List (List P)) : Type ℓ where
    pub in_order : joined batches ≡ points
    pub full : List (List P)
    pub rest : List (List P)
    pub split : batches ≡ full ++ rest
    pub each_full : AllItems IsFull full
    pub at_most_one : length rest ≤ 1
    pub partial : AllItems (λ batch. (0 < length batch) × (length batch < batch_limit)) rest

  some_point : (xs : List P) → is_empty xs ≡ false → 0 < length xs
  some_point [] h = cc
  some_point (x ∷ xs) h = omega arith

  no_point : (xs : List P) → is_empty xs ≡ true → xs ≡ []
  no_point [] h = refl
  no_point (x ∷ xs) h = cc

  flush-IsBatched :
      (points : List P) (s : Batches P) → IsState points s → IsBatched points (flush s)
  unfolding flush
  flush-IsBatched points s i = elim (Bool-cases (is_empty s.batch)) [
    | inl nothing ↦ rw nothing (record {
      in_order =
          sym (append-nil (joined s.written))
          ∙ ap (λ xs. joined s.written ++ xs) (sym (no_point s.batch nothing))
          ∙ i.in_order;
      full = s.written;
      rest = [];
      split = sym (append-nil s.written);
      each_full = i.full;
      at_most_one = omega arith;
      partial = tt;
    })
    | inr waiting ↦ rw waiting (record {
      in_order = joined-append s.written s.batch ∙ i.in_order;
      full = s.written;
      rest = s.batch ∷ [];
      split = refl;
      each_full = i.full;
      at_most_one = omega arith;
      partial = ((some_point s.batch waiting, i.below), tt);
    })
  ]

  empty-IsState : IsState [] no_batches
  empty-IsState = record { in_order = refl; full = tt; below = omega arith; counted = refl }

  -- The batches that are written hold every point of a file once and in order; each batch has 25000
  -- points, but for one last batch of fewer points, which is never empty; and the number that is
  -- reported as imported is the number of points.
  pub write_points-IsBatched :
      (points : List P)
      → IsBatched points (write_points points)
        × ((add_points no_batches points).imported ≡ length points)
  unfolding write_points
  write_points-IsBatched points =
      let i = add_points-IsState [] points no_batches empty-IsState in
      (flush-IsBatched points (add_points no_batches points) i, i.counted)
