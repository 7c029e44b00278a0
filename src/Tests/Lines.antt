-- ===== src/Tests/Lines.antt =====
-- The lines of a series at concrete rows, with whole numbers for floats.
use where_to_tls.Base.{
  ◌≡◌, refl, false, none, some, List, [], ◌∷◌, Dict, keys, is_empty, AllItems, AllValues, ℤ, pos,
  ok, for_loop, nat_eq, option_eq, pair_eq, string_eq, int_eq, ◌+ℤ◌, ◌-ℤ◌, dedupe,
}
use where_to_tls.Config.{Stack, Family, stack_eq}
use where_to_tls.Runs.Rows.{Row}
use where_to_tls.Runs.Origins.{Origin}
use where_to_tls.Base.Decimal.{digit_char, digits_onto, show_nat}
use where_to_tls.Base.Padding.{ljust, repeat_char, text_length, take_chars}
use where_to_tls.Base.Sorting.{put_in, sort_by}
use where_to_tls.Base.Text.{
  skip, skip_digits, kind, lstrip, rstrip, strip, int_digits, int_signed, parse_int,
}
use where_to_tls.Common.Numbers.{finite_number}
use where_to_tls.Common.Timestamps.{
  timestamp_ns, timestamp_groups, skip_datetime, match_fraction, fraction_at, total_ns,
  datetime_seconds, read_digits, accept_datetime, fraction_of, scale, span_digits,
}
use where_to_tls.Common.Timestamps.Days.{is_date, epoch_seconds, is_leap, ordinal}
use where_to_tls.Datasets.Buckets.{elapsed_bucket_ns, whole_seconds_ns}
use where_to_tls.Datasets.Segments.{
  SegmentKey, Buckets, row_origin, place_row, put_bucket, add_value, add_bucket, add_buckets,
  add_repeats, repeats_in, parse_aggregate_rows,
}
use native.Mathlib.Decide.{ℕ_discrete}
use where_to_tls.Datasets.Segments.Cut.{IsLine}
use where_to_tls.Datasets.Segments.Lines.{IsUncut, parse_aggregate_rows-IsLine}
use where_to_tls.Tests.Answers.{whole}

abbrev origin : Origin
origin = record { origin_ns = some (pos 0); scenario = "s"; stack = "go"; executions = [] }

abbrev series : List Row
series =
    (("_time", "1970-01-01T00:00:01Z") ∷ ("_value", "4") ∷ [])
    ∷ (("_time", "1970-01-01T00:00:01Z") ∷ ("_value", "6") ∷ [])
    ∷ (("_time", "1970-01-01T00:00:02Z") ∷ ("_value", "9") ∷ [])
    ∷ (("_time", "1970-01-01T00:05:00Z") ∷ ("_value", "8") ∷ [])
    ∷ []

lines :
    (result : Dict SegmentKey (List (ℤ × ℤ))) × (parse_aggregate_rows whole series Stack.go origin
        Family.linear none
      ≡ ok result)
unfolding parse_aggregate_rows add_value for_loop row_origin place_row put_bucket add_bucket
    add_buckets add_repeats repeats_in elapsed_bucket_ns whole_seconds_ns timestamp_ns
    timestamp_groups skip_datetime skip_digits skip kind match_fraction fraction_at total_ns
    datetime_seconds read_digits accept_datetime fraction_of scale span_digits is_date epoch_seconds
    is_leap ordinal take_chars ljust repeat_char text_length digit_char digits_onto show_nat put_in
    sort_by int_digits int_signed parse_int strip lstrip rstrip finite_number dedupe nat_eq
    option_eq pair_eq string_eq int_eq stack_eq ◌+ℤ◌ ◌-ℤ◌ ℕ_discrete
lines = (_, refl)

parse_aggregate_rows-IsLine_example :
    (buckets : Buckets whole) × (for_loop
        (add_value whole Stack.go origin Family.linear none)
        []
        series
      ≡ ok buckets)
    × (is_empty buckets ≡ false)
    × AllValues (IsLine whole Stack.go buckets) lines.0
    × AllItems
        (λ k. AllItems (λ j. IsUncut whole Stack.go buckets lines.0 j k) (keys buckets))
        (keys buckets)
parse_aggregate_rows-IsLine_example =
    parse_aggregate_rows-IsLine whole series Stack.go origin Family.linear none lines.0 lines.1
