-- ===== src/Datasets/Segments/Cut.antt =====
-- datasets.py: the segments of one repeat in `parse_aggregate_rows`.
use where_to_tls.Base.{
  ◌*◌, ◌^◌, AllItems, contains, keys, ℕ, ◌+◌, ◌≤◌, ◌<◌, ◌≢◌, ◌≡◌, refl, sym, ap, ◌∙◌, subst, true,
  ◌==◌, Option, none, some, List, [], ◌∷◌, ◌++◌, Dict, lookup, insert, get_or, get_or_of_lookup,
  lookup-insert_self, lookup-insert_ne, AllValues, AllValues-insert, map, Bool-cases, inl, inr,
  eq_of_test, pos, string_eq, nat_eq, option_eq, pair_eq, arith,
}
use mathlib.Core.Option.{none-ne-some, some-injective}
use where_to_tls.Base.Decimal.{show_nat, parse_int-show_nat}
use where_to_tls.Base.Occurs.{Occurs, here, there, Occurs-append}
use where_to_tls.Base.Text.{parse_int}
use where_to_tls.Config.{Stack, stack_eq}
use where_to_tls.Common.Numbers.{Floats}
use where_to_tls.Datasets.Segments.{BucketKey, SegmentKey, Buckets, mean_point, Segments}

-- Times, of which the last is named, each at most a minute behind the one before.
pub data IsClose : List ℕ → ℕ → Type 0 where
  one : (t : ℕ) → IsClose (t ∷ []) t
  more :
      (ts : List ℕ) (p e : ℕ)
      → IsClose ts p
      → p ≤ e
      → e ≤ p + 60 * 10 ^ 9
      → IsClose (ts ++ (e ∷ [])) e

pos-injective : (m n : ℕ) → some (pos m) ≡ some (pos n) → m ≡ n
pos-injective m n h = cc

show_nat-injective : (m n : ℕ) → show_nat m ≡ show_nat n → m ≡ n
show_nat-injective m n h =
    pos-injective m n (sym (parse_int-show_nat m) ∙ ap parse_int h ∙ parse_int-show_nat n)

some-ne-none : (n : ℕ) → some n ≢ none
some-ne-none n h = none-ne-some n (sym h)

below-ne : (m n : ℕ) → m < n → n ≢ m
below-ne m n h e = omega arith

Occurs-last {ℓ} : {A : Type ℓ} (a : A) (xs : List A) → Occurs a (xs ++ (a ∷ []))
Occurs-last a [] = here a [] refl
Occurs-last a (x ∷ xs) = there x (xs ++ (a ∷ [])) (Occurs-last a xs)

map-append {ℓ κ} :
    {A : Type ℓ} {B : Type κ} (f : A → B) (xs ys : List A) → map f (xs ++ ys) ≡ map f xs ++ map f ys
map-append f [] ys = refl
map-append f (x ∷ xs) ys = ap (λ zs. f x ∷ zs) (map-append f xs ys)

module _ (F : Floats) (stack : Stack) (buckets : Buckets F) where
  open F use {Float}

  abbrev pub Lines : Type 0
  Lines = Dict SegmentKey (List (Float × Float))

  -- The point of a bucket.
  abbrev pub point_of : Option ℕ → ℕ → Float × Float
  point_of repeat elapsed = mean_point F elapsed (get_or (repeat, elapsed) [] buckets)

  -- A line of the result: the points of buckets of its repeat, with no gap in them.
  pub record IsLine (key : SegmentKey) (points : List (Float × Float)) : Type 0 where
    pub times : List ℕ
    pub last : ℕ
    pub close : IsClose times last
    pub drawn : points ≡ map (point_of key.1.0) times
    pub of_buckets : AllItems (λ t. contains (keys buckets) (key.1.0, t) ≡ true) times

  -- The point of a bucket is on the line of a key.
  pub record IsOn (result : Lines) (key : SegmentKey) (k : BucketKey) : Type 0 where
    pub points : List (Float × Float)
    pub found : lookup key result ≡ some points
    pub there : Occurs (point_of k.0 k.1) points

  -- The points of two buckets are on one line of a repeat.
  pub record IsJoined (result : Lines) (repeat : Option ℕ) (j k : BucketKey) : Type 0 where
    pub key : SegmentKey
    pub same_repeat : key.1.0 ≡ repeat
    pub one_point : IsOn result key j
    pub other_point : IsOn result key k

  module _ (repeat : Option ℕ) where
    abbrev pub line_key : ℕ → SegmentKey
    line_key segment = (stack, (repeat, show_nat segment))

    line_key-injective : (m n : ℕ) → (line_key m == line_key n) ≡ true → m ≡ n
    line_key-injective m n h =
        show_nat-injective m n
          (ap (λ (k : SegmentKey). k.1.1) (eq_of_test (line_key m) (line_key n) h))

    pub record IsCut (s : Segments F) : Type 0 where
      pub each : AllValues IsLine s.result
      pub current :
          (p : ℕ)
          → s.previous ≡ some p
          → (times : List ℕ) × IsClose times p
            × (lookup (line_key s.segment) s.result ≡ some (map (point_of repeat) times))
            × AllItems (λ t. contains (keys buckets) (repeat, t) ≡ true) times
      pub start : s.previous ≡ none → lookup (line_key s.segment) s.result ≡ none
      pub fresh : (j : ℕ) → s.segment < j → lookup (line_key j) s.result ≡ none

    -- A point is put at the end of a line, which may be a new one.
    module _ (result : Lines) (segment : ℕ) (times : List ℕ) (elapsed : ℕ)
        (before : get_or (line_key segment) [] result ≡ map (point_of repeat) times)
        (close : IsClose (times ++ (elapsed ∷ [])) elapsed)
        (known : AllItems
          (λ t. contains (keys buckets) (repeat, t) ≡ true)
          (times ++ (elapsed ∷ []))) where
      abbrev pub line : List (Float × Float)
      line = get_or (line_key segment) [] result ++ (point_of repeat elapsed ∷ [])

      line_drawn : line ≡ map (point_of repeat) (times ++ (elapsed ∷ []))
      line_drawn =
          ap (λ xs. xs ++ (point_of repeat elapsed ∷ [])) before
          ∙ sym (map-append (point_of repeat) times (elapsed ∷ []))

      pub put-IsCut :
          AllValues IsLine result
          → ((j : ℕ) → segment < j → lookup (line_key j) result ≡ none)
          → IsCut (record {
            segment = segment;
            previous = some elapsed;
            result = insert (line_key segment) line result;
          })
      put-IsCut each fresh = record {
        each =
            AllValues-insert IsLine result (line_key segment) line
              (record {
                times = times ++ (elapsed ∷ []);
                last = elapsed;
                close = close;
                drawn = line_drawn;
                of_buckets = known;
              })
              each;
        current = λ p h. (
          times ++ (elapsed ∷ []),
          subst (IsClose (times ++ (elapsed ∷ []))) (some-injective elapsed p h) close,
          lookup-insert_self (line_key segment) line result ∙ ap some line_drawn,
          known,
        );
        start = λ h. absurd (some-ne-none elapsed h);
        fresh = λ j above. elim (Bool-cases (line_key j == line_key segment)) [
          | inl same ↦ absurd (below-ne segment j above (line_key-injective j segment same))
          | inr other ↦
              lookup-insert_ne (line_key j) (line_key segment) line result other ∙ fresh j above
        ];
      }

      pub put-IsOn_keeps :
          (key : SegmentKey) (k : BucketKey)
          → IsOn result key k
          → IsOn (insert (line_key segment) line result) key k
      put-IsOn_keeps key k p = elim (Bool-cases (key == line_key segment)) [
        | inr other ↦ record {
          points = p.points;
          found = lookup-insert_ne key (line_key segment) line result other ∙ p.found;
          there = p.there;
        }
        | inl same ↦
            let e = eq_of_test key (line_key segment) same in
            let old : get_or (line_key segment) [] result ≡ p.points =
              get_or_of_lookup (line_key segment) p.points [] result
                (ap (λ j. lookup j result) (sym e) ∙ p.found) in
            record {
              points = line;
              found =
                  ap (λ j. lookup j (insert (line_key segment) line result)) e
                  ∙ lookup-insert_self (line_key segment) line result;
              there =
                  Occurs-append (point_of k.0 k.1) (get_or (line_key segment) [] result)
                    (point_of repeat elapsed ∷ [])
                    (subst (Occurs (point_of k.0 k.1)) (sym old) p.there);
            }
      ]

      pub put-IsOn :
          IsOn (insert (line_key segment) line result) (line_key segment) (repeat, elapsed)
      put-IsOn = record {
        points = line;
        found = lookup-insert_self (line_key segment) line result;
        there = Occurs-last (point_of repeat elapsed) (get_or (line_key segment) [] result);
      }
