-- ===== src/Common/Timestamps.antt =====
-- common.py: `timestamp_ns` and `flux_time`, with the part of `datetime.fromisoformat` that they
-- reach: `YYYY-MM-DDTHH:MM:SS+00:00` for the years 1 to 9999, in whole seconds since 1970.
pub mod Days
pub mod Parts
use where_to_tls.Base.{
  ℕ, zero, suc, ◌+◌, ◌*◌, String, Bool, true, false, not, ◌&&◌, ◌||◌, Option, none, some, Result,
  ok, err, or_raise, if◌then◌else◌, ◌==◌, string_eq, nat_eq, leb, ltb, ℤ, pos, negsuc, negated,
  ◌+ℤ◌, invalid_timestamp, not_a_datetime,
}
use where_to_tls.Base.Text.{
  ◌>>=◌, skip, skip_digits, is_digit, digit_value, all_chars, is_char, parse_int,
}
use where_to_tls.Base.Padding.{text_length, take_chars, ljust}
use where_to_tls.Common.Timestamps.Days.{epoch_seconds, is_date}

-- `\d{4}-\d{2}-\d{2}T\d{2}:\d{2}:\d{2}` at the start: the rest
unfoldable pub skip_datetime : String → Option String
skip_datetime s = do
  s₁ ← skip_digits 4 s
  s₂ ← skip "-" s₁
  s₃ ← skip_digits 2 s₂
  s₄ ← skip "-" s₃
  s₅ ← skip_digits 2 s₄
  s₆ ← skip "T" s₅
  s₇ ← skip_digits 2 s₆
  s₈ ← skip ":" s₇
  s₉ ← skip_digits 2 s₈
  s' ← skip ":" s₉
  skip_digits 2 s'

-- The number that n digits at the start write, and the rest.
unfoldable pub read_digits : ℕ → ℕ → String → Option (ℕ × String)
read_digits zero acc s = some (acc, s)
read_digits (suc n) acc String.[] = none
read_digits (suc n) acc (String.◌∷◌ c s) =
    let rest = read_digits n (acc * 10 + digit_value c) s in if is_digit c then rest else none

-- `ValueError` for a date or a time that does not exist.
unfoldable pub accept_datetime : String → ℕ → ℕ → ℕ → ℕ → ℕ → ℕ → Option ℤ
accept_datetime rest year month day hour minute second =
    if rest == "" && is_date year month day && ltb hour 24 && ltb minute 60 && ltb second 60
    then some (epoch_seconds year month day hour minute second)
    else none

-- `datetime.fromisoformat(text + "+00:00").timestamp()`
unfoldable pub datetime_seconds : String → Option ℤ
datetime_seconds s = do
  (year, s₁) ← read_digits 4 0 s
  s₂ ← skip "-" s₁
  (month, s₃) ← read_digits 2 0 s₂
  s₄ ← skip "-" s₃
  (day, s₅) ← read_digits 2 0 s₄
  s₆ ← skip "T" s₅
  (hour, s₇) ← read_digits 2 0 s₆
  s₈ ← skip ":" s₇
  (minute, s₉) ← read_digits 2 0 s₈
  s' ← skip ":" s₉
  (second, rest) ← read_digits 2 0 s'
  accept_datetime rest year month day hour minute second

-- The digits at the start, and the rest.
unfoldable pub span_digits : String → String × String
span_digits String.[] = ("", "")
span_digits (String.◌∷◌ c s) =
    let (digits, rest) = span_digits s in
    if is_digit c then (String.◌∷◌ c digits, rest) else ("", String.◌∷◌ c s)

unfoldable pub fraction_of : String × String → Option String
fraction_of (digits, rest) =
    if leb 1 (text_length digits) && leb (text_length digits) 9 && rest == "Z"
    then some digits
    else none

-- What follows the seconds, with what follows its dot, if it begins with one.
unfoldable pub fraction_at : String → Option String → Option String
fraction_at s none = if s == "Z" then some "" else none
fraction_at s (some s₁) = fraction_of (span_digits s₁)

-- `(?:\.(\d{1,9}))?Z` to the end: the group, or "" where it takes no part
unfoldable pub match_fraction : String → Option String
match_fraction s = fraction_at s (skip "." s)

-- n * k on an integer n
unfoldable pub scale : ℤ → ℕ → ℤ
scale (pos n) k = pos (n * k)
scale (negsuc n) k = negated (suc n * k)

abbrev pub nanoseconds : ℤ → ℤ → ℤ
nanoseconds seconds fraction = scale seconds 1_000_000_000 +ℤ fraction

-- The two groups of the full match.
unfoldable pub timestamp_groups : String → Option (String × String)
timestamp_groups value = do
  rest ← skip_datetime value
  fraction ← match_fraction rest
  some (take_chars 19 value, fraction)

-- `int(datetime.fromisoformat(…).timestamp()) * 1_000_000_000 + int(fraction)`; `none` where one of
-- the two raises.
unfoldable pub total_ns : String → String → Option ℤ
total_ns seconds fraction = do
  whole ← datetime_seconds seconds
  nanos ← parse_int (ljust 9 "0" fraction)
  some (nanoseconds whole nanos)

unfoldable pub timestamp_ns : String → Result ℤ
timestamp_ns value = elim (timestamp_groups value) [
  | none ↦ err (invalid_timestamp value)
  | some (seconds, fraction) ↦ or_raise (total_ns seconds fraction) (not_a_datetime value)
]

-- The value itself, once it is known to be a timestamp.
unfoldable pub flux_time : String → Result String
flux_time value = elim (timestamp_ns value) [ ok _ ↦ ok value | err e ↦ err e ]
