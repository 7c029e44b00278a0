-- ===== src/Datasets/Segments.antt =====
-- datasets.py: `parse_aggregate_rows`, which puts values into buckets of a second and cuts the buckets
-- into segments where more than a minute is missing.
pub mod Cut
pub mod Loop
pub mod Lines
use where_to_tls.Base.{
  ℕ, zero, suc, ◌+◌, ◌*◌, ◌^◌, String, Bool, true, false, not, ◌&&◌, ◌||◌, ◌==◌, Option, none, some,
  List, [], ◌∷◌, ◌++◌, Dict, keys, lookup, insert, get_or, dedupe, is_empty, length, map, ℤ, pos,
  negsuc, ltb, leb, Result, ok, or_raise, raise_if, ◌>>=◌, ◌>>◌, for_loop, key_error,
  not_an_integer, no_series_values, string_eq, nat_eq, int_eq, option_eq, pair_eq, if◌then◌else◌,
}
use where_to_tls.Base.Decimal.{show_nat}
use where_to_tls.Base.Sorting.{sort_by}
use where_to_tls.Base.Text.{parse_int}
use where_to_tls.Config.{Stack, Family, Profile, stack_label, stack_eq, profile_eq}
use where_to_tls.Common.Numbers.{Floats, finite_number}
use where_to_tls.Common.Slots.{profile_slot}
use where_to_tls.Runs.Rows.{Row, item, field}
use where_to_tls.Runs.Origins.{Origin}
use where_to_tls.Datasets.Buckets.{elapsed_bucket_ns}

-- Repeat and elapsed nanoseconds, which are not negative.
abbrev pub BucketKey : Type 0
BucketKey = Option ℕ × ℕ

abbrev pub SegmentKey : Type 0
SegmentKey = Stack × (Option ℕ × String)

-- `origin_ns` and `repeat` of a row, or None where the row is of another profile.
unfoldable pub row_origin : Origin → Family → Option Profile → Row → Result (Option (Option ℕ × ℤ))
unfolding profile_eq string_eq int_eq pair_eq
row_origin run_info family none row = do
  origin ← or_raise run_info.origin_ns (key_error "origin_ns")
  ok (some (none, origin))
row_origin run_info family (some profile_row) row = do
  index ← item "wtt_execution_index" row
  execution ← or_raise (parse_int index) (not_an_integer index)
  profile_tag ← item "wtt_profile" row
  (actual_profile, repeat) ← profile_slot family profile_tag execution
  if not (actual_profile == profile_row) then ok none else (do
    origin ← or_raise (lookup (profile_tag, execution) run_info.executions) (key_error profile_tag)
    ok (some (some repeat, origin)))

-- The order of `sorted(buckets)`; None and a number never stand in one answer.
abbrev pub bucket_leq : BucketKey → BucketKey → Bool
bucket_leq (none, e) (none, f) = leb e f
bucket_leq (none, e) (some b, f) = true
bucket_leq (some a, e) (none, f) = false
bucket_leq (some a, e) (some b, f) = ltb a b || (a == b && leb e f)

-- `value or -1`, one higher
abbrev pub repeat_rank : Option ℕ → ℕ
repeat_rank none = 0
repeat_rank (some zero) = 0
repeat_rank (some (suc n)) = suc (suc n)

-- `key[0]` of the buckets, once each and in order
unfoldable pub repeats_in : List BucketKey → List (Option ℕ)
unfolding option_eq nat_eq
repeats_in ks =
    sort_by (λ a b. leb (repeat_rank a) (repeat_rank b)) (dedupe (map (λ (k : BucketKey). k.0) ks))

abbrev pub gap_ns : ℕ
gap_ns = 60 * 10 ^ 9

-- `previous is not None and elapsed_ns - previous > 60_000_000_000`
abbrev pub is_gap : Option ℕ → ℕ → Bool
is_gap none elapsed = false
is_gap (some previous) elapsed = ltb (previous + gap_ns) elapsed

module _ (F : Floats) where
  open F use {Float, of_ℕ, add, div}

  abbrev pub Buckets : Type 0
  Buckets = Dict BucketKey (List Float)

  unfoldable pub put_bucket : Stack → Row → Option ℕ → Buckets → ℤ → Result Buckets
  unfolding option_eq nat_eq pair_eq
  put_bucket stack row repeat buckets (negsuc _) = ok buckets
  put_bucket stack row repeat buckets (pos elapsed) = do
    value ← finite_number F (field "_value" row) (stack_label stack)
    ok (insert (repeat, elapsed) (get_or (repeat, elapsed) [] buckets ++ (value ∷ [])) buckets)

  unfoldable pub place_row : Stack → Row → Option (Option ℕ × ℤ) → Buckets → Result Buckets
  place_row stack row none buckets = ok buckets
  place_row stack row (some (repeat, origin)) buckets = do
    elapsed ← elapsed_bucket_ns (field "_time" row) origin
    put_bucket stack row repeat buckets elapsed

  -- The body of the loop over the rows.
  unfoldable pub add_value :
      Stack → Origin → Family → Option Profile → Buckets → Row → Result Buckets
  unfolding string_eq
  add_value stack run_info family profile_row buckets row =
      if field "_time" row == "" || field "_value" row == "" then ok buckets else (do
        place ← row_origin run_info family profile_row row
        place_row stack row place buckets)

  abbrev pub total : Float → List Float → Float
  total sum [] = sum
  total sum (x ∷ xs) = total (add sum x) xs

  -- `(elapsed_ns / 1_000_000_000.0, sum(values) / len(values))`
  abbrev pub mean_point : ℕ → List Float → Float × Float
  mean_point elapsed values =
      (div (of_ℕ elapsed) (of_ℕ (10 ^ 9)), div (total (of_ℕ 0) values) (of_ℕ (length values)))

  -- `segment`, `previous` and `result`
  pub record Segments : Type 0 where
    pub segment : ℕ
    pub previous : Option ℕ
    pub result : Dict SegmentKey (List (Float × Float))

  -- The body of the loop over the buckets, of the repeat that is looked for.
  unfoldable pub add_bucket : Stack → Buckets → Option ℕ → Segments → BucketKey → Segments
  unfolding option_eq nat_eq pair_eq stack_eq string_eq
  add_bucket stack buckets repeat s (selected, elapsed) =
      let segment = if is_gap s.previous elapsed then suc s.segment else s.segment in
      let key : SegmentKey = (stack, (repeat, show_nat segment)) in
      let point = mean_point elapsed (get_or (repeat, elapsed) [] buckets) in
      let next : Segments = record {
        segment = segment;
        previous = some elapsed;
        result = insert key (get_or key [] s.result ++ (point ∷ [])) s.result;
      } in
      if not (selected == repeat) then s else next

  unfoldable pub add_buckets : Stack → Buckets → Option ℕ → Segments → List BucketKey → Segments
  add_buckets stack buckets repeat s [] = s
  add_buckets stack buckets repeat s (k ∷ ks) =
      add_buckets stack buckets repeat (add_bucket stack buckets repeat s k) ks

  -- The loop over the repeats.
  unfoldable pub add_repeats :
      Stack
      → Buckets
      → List BucketKey
      → Dict SegmentKey (List (Float × Float))
      → List (Option ℕ)
      → Dict SegmentKey (List (Float × Float))
  add_repeats stack buckets ordered result [] = result
  add_repeats stack buckets ordered result (repeat ∷ repeats) =
      add_repeats stack buckets ordered
        (add_buckets stack buckets repeat (record { segment = 0; previous = none; result = result })
          ordered).result
        repeats

  unfoldable pub parse_aggregate_rows :
      List Row
      → Stack
      → Origin
      → Family
      → Option Profile
      → Result (Dict SegmentKey (List (Float × Float)))
  parse_aggregate_rows rows stack run_info family profile_row = do
    buckets ← for_loop (add_value stack run_info family profile_row) [] rows
    raise_if (is_empty buckets) (no_series_values (stack_label stack))
    ok (
        add_repeats stack buckets (sort_by bucket_leq (keys buckets)) []
          (repeats_in (keys buckets)))
