-- ===== src/Common/Timestamps/Days.antt =====
-- The calendar of `datetime`: the proleptic Gregorian one, with 1970-01-01 as day 719163.
use where_to_tls.Base.{
  ℕ, zero, suc, ◌+◌, ◌-◌, ◌*◌, ◌/◌, ◌%◌, Bool, not, ◌&&◌, ◌||◌, ◌==◌, nat_eq, leb, ℤ, pos, ◌-ℤ◌,
  if◌then◌else◌, ◌≡◌, refl,
}

unfoldable pub is_leap : ℕ → Bool
unfolding nat_eq
is_leap year = year % 4 == 0 && (not (year % 100 == 0) || year % 400 == 0)

-- The days of the month before `month` begins, in a year that is no leap year.
abbrev before_month : ℕ → ℕ
before_month (suc (suc zero)) = 31
before_month (suc (suc (suc zero))) = 59
before_month (suc (suc (suc (suc zero)))) = 90
before_month (suc (suc (suc (suc (suc zero))))) = 120
before_month (suc (suc (suc (suc (suc (suc zero)))))) = 151
before_month (suc (suc (suc (suc (suc (suc (suc zero))))))) = 181
before_month (suc (suc (suc (suc (suc (suc (suc (suc zero)))))))) = 212
before_month (suc (suc (suc (suc (suc (suc (suc (suc (suc zero))))))))) = 243
before_month (suc (suc (suc (suc (suc (suc (suc (suc (suc (suc zero)))))))))) = 273
before_month (suc (suc (suc (suc (suc (suc (suc (suc (suc (suc (suc zero))))))))))) = 304
before_month (suc (suc (suc (suc (suc (suc (suc (suc (suc (suc (suc (suc zero)))))))))))) = 334
before_month _ = 0

abbrev days_in_month : ℕ → ℕ → ℕ
days_in_month year month =
    if month == 2
    then (if is_leap year then 29 else 28)
    else if month == 4 || month == 6 || month == 9 || month == 11
    then 30
    else 31

unfoldable pub is_date : ℕ → ℕ → ℕ → Bool
unfolding is_leap nat_eq
is_date year month day =
    leb 1 year && leb 1 month && leb month 12 && leb 1 day && leb day (days_in_month year month)

-- The number of the day, 1 for 0001-01-01.
unfoldable pub ordinal : ℕ → ℕ → ℕ → ℕ
unfolding is_leap
ordinal year month day =
    let past = year - 1 in
    past * 365
    + past / 4
    - past / 100
    + past / 400
    + (before_month month + (if leb 3 month && is_leap year then 1 else 0))
    + day

unfoldable pub epoch_seconds : ℕ → ℕ → ℕ → ℕ → ℕ → ℕ → ℤ
unfolding ordinal
epoch_seconds year month day hour minute second =
    pos (ordinal year month day * 86400 + hour * 3600 + minute * 60 + second)
    -ℤ pos (719163 * 86400)

epoch_test : epoch_seconds 1970 1 1 0 0 0 ≡ pos 0
unfolding epoch_seconds ◌-ℤ◌
epoch_test = refl

recent_test : epoch_seconds 2024 3 1 12 30 15 ≡ pos 1709296215
unfolding epoch_seconds ◌-ℤ◌ nat_eq
recent_test = refl
