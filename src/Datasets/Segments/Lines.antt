-- ===== src/Datasets/Segments/Lines.antt =====
-- datasets.py: the lines that `parse_aggregate_rows` returns.
use where_to_tls.Base.{
  ◌≤◌, ◌+◌, ◌*◌, ◌^◌, each_contains, ℕ, ◌≡◌, refl, sym, ap, ◌∙◌, subst, true, false, ◌==◌, Option,
  none, some, List, [], ◌∷◌, Dict, keys, lookup, contains, contains-dedupe, dedupe,
  dedupe-NodupList, NodupList, AllValues, AllItems, AllItems-mono, map, is_empty, leb, Bool-cases,
  inl, inr, eq_of_test, test_of_eq, ok, raise_if-eq-ok, >>=-eq-ok, ok-injective, for_loop,
  no_series_values, string_eq, nat_eq, option_eq, pair_eq, arith,
}
use mathlib.Core.Bool.{false≢true}
use mathlib.Core.Option.{none-ne-some}
use where_to_tls.Base.Occurs.{
  Occurs, here, there, AllItems-Occurs, contains-Occurs, each-Occurs, sort_by-Occurs,
}
use where_to_tls.Base.Sorting.{
  sort_by, sort_by-IsSorted, sort_by-AllItems, sort_by-NodupList, IsSorted,
}
use where_to_tls.Config.{Stack, Family, Profile, stack_eq, stack_label}
use where_to_tls.Common.Numbers.{Floats}
use where_to_tls.Runs.Rows.{Row}
use where_to_tls.Runs.Origins.{Origin}
use where_to_tls.Datasets.Segments.{
  BucketKey, SegmentKey, bucket_leq, repeat_rank, repeats_in, Buckets, Segments, add_value,
  add_buckets, add_repeats, parse_aggregate_rows,
}
use where_to_tls.Datasets.Segments.Cut.{Lines, IsLine, IsOn, IsJoined, IsCut}
use where_to_tls.Datasets.Segments.Loop.{
  IsOrdered, IsLater, AllNear, later-AllNear, add_buckets-Looped,
}

bucket_leq_total : (a b : BucketKey) → bucket_leq a b ≡ false → bucket_leq b a ≡ true
unfolding nat_eq
bucket_leq_total (none, e) (none, f) h = ground (arith, h)
bucket_leq_total (none, e) (some b, f) h = cc
bucket_leq_total (some a, e) (none, f) h = refl
bucket_leq_total (some a, e) (some b, f) h = ground (arith, h)

bucket_leq_trans :
    (a b c : BucketKey) → bucket_leq a b ≡ true → bucket_leq b c ≡ true → bucket_leq a c ≡ true
unfolding nat_eq
bucket_leq_trans (none, e) (none, f) (none, g) h k = ground (arith, h, k)
bucket_leq_trans (none, e) b (some c, g) h k = refl
bucket_leq_trans (none, e) (some b, f) (none, g) h k = cc
bucket_leq_trans (some a, e) (none, f) c h k = cc
bucket_leq_trans (some a, e) (some b, f) (none, g) h k = cc
bucket_leq_trans (some a, e) (some b, f) (some c, g) h k = ground (arith, h, k)

below_all :
    (a b : BucketKey) (ks : List BucketKey)
    → bucket_leq a b ≡ true
    → AllItems (λ k. bucket_leq b k ≡ true) ks
    → AllItems (λ k. bucket_leq a k ≡ true) ks
below_all a b ks h = AllItems-mono _ _ ks (λ k. bucket_leq_trans a b k h)

IsSorted-IsOrdered : (ks : List BucketKey) → IsSorted bucket_leq ks → IsOrdered ks
IsSorted-IsOrdered [] s = tt
IsSorted-IsOrdered (k ∷ []) s = (tt, tt)
IsSorted-IsOrdered (k ∷ j ∷ ks) s =
    let rest = IsSorted-IsOrdered (j ∷ ks) s.1 in ((s.0, below_all k j ks s.0 rest.0), rest)

map_id {ℓ} : {A : Type ℓ} (xs : List A) → map (λ x. x) xs ≡ xs
map_id [] = refl
map_id (x ∷ xs) = ap (λ ys. x ∷ ys) (map_id xs)

repeats_in-NodupList : (ks : List BucketKey) → NodupList (repeats_in ks)
unfolding repeats_in
repeats_in-NodupList ks =
    let repeats = dedupe (map (λ (k : BucketKey). k.0) ks) in
    let leq = λ (a b : Option ℕ). leb (repeat_rank a) (repeat_rank b) in
    subst NodupList (map_id (sort_by leq repeats)) (
      sort_by-NodupList leq (λ r. r) repeats
        (subst NodupList (sym (map_id repeats)) (dedupe-NodupList _)))

contains-repeats :
    (k : BucketKey) (ks : List BucketKey)
    → Occurs k ks
    → contains (map (λ (j : BucketKey). j.0) ks) k.0 ≡ true
contains-repeats k _ (here x xs e) =
    ground (arith, test_of_eq k.0 x.0 (ap (λ (j : BucketKey). j.0) e))
contains-repeats k _ (there x xs o) = ground (arith, contains-repeats k xs o)

repeats_in-Occurs : (ks : List BucketKey) (k : BucketKey) → Occurs k ks → Occurs k.0 (repeats_in ks)
unfolding repeats_in
repeats_in-Occurs ks k o = sort_by-Occurs _ k.0 (dedupe (map (λ (j : BucketKey). j.0) ks)) (
    contains-Occurs k.0 _
      (contains-dedupe (map (λ (j : BucketKey). j.0) ks) k.0 ∙ contains-repeats k ks o))

other_repeat :
    (repeats : List (Option ℕ)) (a b : Option ℕ)
    → contains repeats a ≡ true
    → contains repeats b ≡ false
    → (a == b) ≡ false
other_repeat repeats a b listed absent = elim (Bool-cases (a == b)) [
  | inr other ↦ other
  | inl same ↦
      absurd (false≢true (sym absent ∙ ap (contains repeats) (sym (eq_of_test a b same)) ∙ listed))
]

not-IsLater : (repeat : Option ℕ) (ks : List BucketKey) → AllItems (IsLater repeat none) ks
not-IsLater repeat [] = tt
not-IsLater repeat (k ∷ ks) = (λ p h e. absurd (none-ne-some p h), not-IsLater repeat ks)

module _ (F : Floats) (stack : Stack) (buckets : Buckets F) (ordered : List BucketKey)
    (is_ordered : IsOrdered ordered)
    (listed_all : AllItems (λ k. contains (keys buckets) k ≡ true) ordered) where
  -- What the loop over the repeats does to the lines.
  record Repeated (result : Lines F stack buckets) (repeats : List (Option ℕ))
      (final : Lines F stack buckets) : Type 0 where
    each : AllValues (IsLine F stack buckets) final
    keeps :
        (key : SegmentKey) (k : BucketKey)
        → IsOn F stack buckets result key k
        → IsOn F stack buckets final key k
    near : AllItems (λ r. AllNear F stack buckets r final ordered) repeats

  first-IsCut :
      (result : Lines F stack buckets) (repeat : Option ℕ)
      → AllValues (IsLine F stack buckets) result
      → ((key : SegmentKey) → key.1.0 ≡ repeat → lookup key result ≡ none)
      → IsCut F stack buckets repeat (record { segment = 0; previous = none; result = result })
  first-IsCut result repeat each absent = record {
    each = each;
    current = λ p h. absurd (none-ne-some p h);
    start = λ _. absent _ refl;
    fresh = λ j above. absent _ refl;
  }

  add_repeats-Repeated :
      (repeats : List (Option ℕ)) (result : Lines F stack buckets)
      → NodupList repeats
      → AllValues (IsLine F stack buckets) result
      → ((key : SegmentKey) → contains repeats key.1.0 ≡ true → lookup key result ≡ none)
      → Repeated result repeats (add_repeats F stack buckets ordered result repeats)
  unfolding add_repeats
  add_repeats-Repeated [] result u each absent = record {
    each = each;
    keeps = λ key k p. p;
    near = tt;
  }
  add_repeats-Repeated (repeat ∷ repeats) result u each absent =
      let start : Segments F = record { segment = 0; previous = none; result = result } in
      let cut =
        first-IsCut result repeat each
          (λ key e. absent key (ground (arith, test_of_eq key.1.0 repeat e))) in
      let looped =
        add_buckets-Looped F stack buckets repeat [] ordered start listed_all is_ordered
          (not-IsLater repeat ordered) tt tt cut in
      let next = (add_buckets F stack buckets repeat start ordered).result in
      let rest = add_repeats-Repeated repeats next u.1 looped.cut.each (λ key listed.
        looped.others key (other_repeat repeats key.1.0 repeat listed u.0)
        ∙ absent key (ground (arith, listed))) in
      record {
        each = rest.each;
        keeps = λ key k p. rest.keeps key k (looped.keeps key k p);
        near =
            (later-AllNear F stack buckets repeat next _ rest.keeps ordered looped.near, rest.near);
      }

-- The means of two buckets of one repeat that are at most a minute apart are points of one line of
-- that repeat.
abbrev pub IsUncut :
    (F : Floats) (stack : Stack) (buckets : Buckets F)
    → Lines F stack buckets
    → BucketKey
    → BucketKey
    → Type 0
IsUncut F stack buckets result j k =
    j.0 ≡ k.0
    → j.1 ≤ k.1 + 60 * 10 ^ 9
    → k.1 ≤ j.1 + 60 * 10 ^ 9
    → IsJoined F stack buckets result k.0 j k

-- If `parse_aggregate_rows` returns, then there was a value; each line that it returns is made of the
-- means of buckets of its repeat, in the order of time and with at most a minute from one point to
-- the next; and the means of any two buckets of one repeat that are at most a minute apart, so
-- that of every bucket, are points of one line of that repeat.
pub parse_aggregate_rows-IsLine :
    (F : Floats) (rows : List Row) (stack : Stack) (run_info : Origin) (family : Family)
    (profile_row : Option Profile) (result : Dict SegmentKey (List (F.Float × F.Float)))
    → parse_aggregate_rows F rows stack run_info family profile_row ≡ ok result
    → (buckets : Buckets F) × (for_loop (add_value F stack run_info family profile_row) [] rows
        ≡ ok buckets)
      × (is_empty buckets ≡ false)
      × AllValues (IsLine F stack buckets) result
      × AllItems
          (λ k. AllItems (λ j. IsUncut F stack buckets result j k) (keys buckets))
          (keys buckets)
unfolding parse_aggregate_rows
parse_aggregate_rows-IsLine F rows stack run_info family profile_row result h =
    let (buckets, filled, h₁) =
      >>=-eq-ok (for_loop (add_value F stack run_info family profile_row) [] rows) _ h in
    let (some_value, h₂) =
      raise_if-eq-ok (is_empty buckets) (no_series_values (stack_label stack)) _ h₁ in
    let ks = keys buckets in
    let ordered = sort_by bucket_leq ks in
    let r =
      add_repeats-Repeated F stack buckets ordered
        (IsSorted-IsOrdered ordered (sort_by-IsSorted bucket_leq bucket_leq_total ks))
        (sort_by-AllItems bucket_leq (λ k. contains ks k ≡ true) ks (each_contains ks))
        (repeats_in ks) [] (repeats_in-NodupList ks) tt (λ key h. refl) in
    let same = ok-injective h₂ in
    (
      buckets,
      filled,
      some_value,
      subst (AllValues (IsLine F stack buckets)) same r.each,
      subst (λ d. AllItems (λ k. AllItems (λ j. IsUncut F stack buckets d j k) ks) ks) same
          (AllItems-mono (λ k. Occurs k ks) _ ks
            (λ k o.
              let near = AllItems-Occurs _ k.0 (repeats_in ks) r.near (repeats_in-Occurs ks k o) in
              let of_k = AllItems-Occurs _ k ordered near (sort_by-Occurs bucket_leq k ks o) in
              AllItems-mono (λ j. Occurs j ks) _ ks
                (λ j o' same_repeat a b.
                  AllItems-Occurs _ j ordered of_k (sort_by-Occurs bucket_leq j ks o') same_repeat
                    refl a b)
                (each-Occurs ks))
            (each-Occurs ks)),
    )
