-- ===== src/Datasets/Buckets.antt =====
-- datasets.py: `elapsed_bucket_ns`, the whole seconds that lie between an origin and a timestamp.
use where_to_tls.Base.{
  ℕ, zero, refl, subst, ◌%◌, ◌+◌, ◌*◌, ◌/◌, ◌≤◌, ◌<◌, String, ◌≡◌, Result, ok, ◌>>=◌, >>=-eq-ok,
  ok-injective, ℤ, pos, negsuc, negated, pos_part, neg_part, ◌-ℤ◌, arith, suc,
}
use where_to_tls.Common.Timestamps.{timestamp_ns}

abbrev second_ns : ℕ
second_ns = 1_000_000_000

-- The two branches: rounding is toward the origin on either side of it.
unfoldable pub whole_seconds_ns : ℤ → ℤ
whole_seconds_ns (pos delta) = pos (delta / second_ns * second_ns)
whole_seconds_ns (negsuc delta) = negated (suc delta / second_ns * second_ns)

unfoldable pub elapsed_bucket_ns : String → ℤ → Result ℤ
elapsed_bucket_ns timestamp origin_ns = do
  time ← timestamp_ns timestamp
  ok (whole_seconds_ns (time -ℤ origin_ns))

-- |x|
abbrev pub magnitude : ℤ → ℕ
magnitude z = pos_part z + neg_part z

multiple_bounds :
    (n : ℕ)
    → (n / 1_000_000_000 * 1_000_000_000 ≤ n)
      × (n < n / 1_000_000_000 * 1_000_000_000 + 1_000_000_000)
multiple_bounds n = (omega arith, omega arith)

-- What `elapsed_bucket_ns` makes of the difference of the two times.
pub record IsBucketOf (delta bucket : ℤ) : Type 0 where
  pub whole : magnitude bucket % 1_000_000_000 ≡ 0
  pub not_above : magnitude bucket ≤ magnitude delta
  pub within_a_second : magnitude delta < magnitude bucket + 1_000_000_000
  pub before_origin : 1_000_000_000 ≤ neg_part delta → 1_000_000_000 ≤ neg_part bucket
  pub after_origin : neg_part delta < 1_000_000_000 → neg_part bucket ≡ 0

parts-negated : (n : ℕ) → (neg_part (negated n) ≡ n) × (pos_part (negated n) ≡ 0)
parts-negated zero = (refl, refl)
parts-negated (suc n) = (omega arith, refl)

whole_seconds_ns-IsBucketOf : (delta : ℤ) → IsBucketOf delta (whole_seconds_ns delta)
unfolding whole_seconds_ns
whole_seconds_ns-IsBucketOf (pos n) = record {
  whole = omega arith;
  not_above = omega (arith, multiple_bounds n);
  within_a_second = omega (arith, multiple_bounds n);
  before_origin = λ h. omega arith;
  after_origin = λ h. refl;
}
whole_seconds_ns-IsBucketOf (negsuc n) =
    let m = multiple_bounds (suc n) in
    let p = parts-negated (suc n / 1_000_000_000 * 1_000_000_000) in
    record {
      whole = omega (arith, p);
      not_above = omega (arith, m, p);
      within_a_second = omega (arith, m, p);
      before_origin = λ h. omega (arith, p);
      after_origin = λ h. omega (arith, p);
    }

-- If `elapsed_bucket_ns` returns a bucket, then the timestamp has a reading, and the bucket is a
-- whole number of seconds, no farther from the origin than the timestamp and less than a second
-- nearer to it; it is at least a second before the origin if the timestamp is, and otherwise not
-- before it.
pub elapsed_bucket_ns-IsBucketOf :
    (timestamp : String) (origin_ns bucket : ℤ)
    → elapsed_bucket_ns timestamp origin_ns ≡ ok bucket
    → (time : ℤ) × (timestamp_ns timestamp ≡ ok time) × IsBucketOf (time -ℤ origin_ns) bucket
unfolding elapsed_bucket_ns
elapsed_bucket_ns-IsBucketOf timestamp origin_ns bucket h =
    let (time, read, h₁) = >>=-eq-ok (timestamp_ns timestamp) _ h in
    (
      time,
      read,
      subst (IsBucketOf (time -ℤ origin_ns)) (ok-injective h₁)
          (whole_seconds_ns-IsBucketOf (time -ℤ origin_ns)),
    )
