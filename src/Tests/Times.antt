-- ===== src/Tests/Times.antt =====
-- Timestamps at concrete inputs.
use native.Mathlib.Decide.{ℕ_discrete}
use where_to_tls.Common.Timestamps.Days.{is_date, epoch_seconds, is_leap, ordinal}
use where_to_tls.Base.{true, false, ◌+ℤ◌, ◌≡◌, refl, ℤ, pos, ◌-ℤ◌, ok, string_eq, nat_eq}
use where_to_tls.Base.Text.{
  all_chars, lacks, ends_with, parse_int, skip, skip_digits, lstrip, rstrip, strip, removesuffix,
}
use where_to_tls.Base.Padding.{ljust, text_length, take_chars, repeat_char}
use where_to_tls.Common.Timestamps
use where_to_tls.Common.Timestamps.{
  timestamp_groups, skip_datetime, match_fraction, fraction_of, fraction_at, span_digits,
  datetime_seconds, read_digits, accept_datetime, total_ns, scale,
}
use where_to_tls.Importer.Timestamps.{timestamp_ns, partition, nine_digits, parts_ns}
use where_to_tls.Importer.Timestamps.Agreement.{timestamp_ns-agreement, timestamp_ns-offset}
use where_to_tls.Datasets.Buckets.{
  elapsed_bucket_ns, whole_seconds_ns, IsBucketOf, elapsed_bucket_ns-IsBucketOf,
}

exported : Timestamps.timestamp_ns "2026-01-01T10:00:00.25Z" ≡ ok (pos 1767261600250000000)
unfolding Timestamps.timestamp_ns timestamp_groups skip_datetime skip_digits skip nat_eq
    match_fraction fraction_at fraction_of text_length span_digits string_eq total_ns
    datetime_seconds read_digits take_chars accept_datetime is_date ℕ_discrete ◌+ℤ◌ ◌-ℤ◌ ljust
    repeat_char lstrip parse_int rstrip strip epoch_seconds is_leap ordinal scale
exported = refl

timestamp_ns-agreement_example :
    timestamp_ns "2026-01-01T10:00:00.25Z" ≡ ok (pos 1767261600250000000)
timestamp_ns-agreement_example =
    timestamp_ns-agreement "2026-01-01T10:00:00.25Z" (pos 1767261600250000000) exported

no_dot : lacks b'.' "2026-01-01T10:00:00" ≡ true
unfolding nat_eq all_chars
no_dot = refl

no_z : ends_with "Z" "2026-01-01T10:00:00.123456789+02:00" ≡ false
unfolding ends_with string_eq
no_z = refl

read : timestamp_ns "2026-01-01T10:00:00.123456789Z" ≡ ok (pos 1767261600123456789)
unfolding timestamp_ns partition nine_digits parts_ns removesuffix skip nat_eq text_length string_eq
    datetime_seconds read_digits take_chars accept_datetime is_date ℕ_discrete ◌+ℤ◌ ◌-ℤ◌ repeat_char
    lstrip parse_int rstrip strip epoch_seconds is_leap ordinal scale
read = refl

timestamp_ns-offset_example :
    timestamp_ns "2026-01-01T10:00:00.123456789+02:00" ≡ ok (pos 1767261600123456789)
unfolding text_length
timestamp_ns-offset_example =
    timestamp_ns-offset "2026-01-01T10:00:00" "123456789" "+02:00" (pos 1767261600123456789) no_dot
      refl no_z read

bucket : elapsed_bucket_ns "2026-01-01T10:00:00.25Z" (pos 1767261598000000000) ≡ ok (pos 2000000000)
unfolding elapsed_bucket_ns whole_seconds_ns Timestamps.timestamp_ns timestamp_groups skip_datetime
    skip_digits skip nat_eq match_fraction fraction_at fraction_of text_length span_digits string_eq
    total_ns datetime_seconds read_digits take_chars accept_datetime is_date ℕ_discrete ◌+ℤ◌ ◌-ℤ◌
    ljust repeat_char lstrip parse_int rstrip strip epoch_seconds is_leap ordinal scale
bucket = refl

elapsed_bucket_ns-IsBucketOf_example :
    (time : ℤ) × (Timestamps.timestamp_ns "2026-01-01T10:00:00.25Z" ≡ ok time)
    × IsBucketOf (time -ℤ pos 1767261598000000000) (pos 2000000000)
elapsed_bucket_ns-IsBucketOf_example =
    elapsed_bucket_ns-IsBucketOf "2026-01-01T10:00:00.25Z" (pos 1767261598000000000)
      (pos 2000000000) bucket
