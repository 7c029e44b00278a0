-- ===== src/Importer/Timestamps.antt =====
-- import-results.py: `timestamp_ns`, which reads a timestamp with no pattern; and common.py's, which
-- checks one first.
pub mod Agreement
use Prim.Native.Char.{Char}
use where_to_tls.Base.{
  ℕ, String, ◌<>◌, Bool, true, false, Option, none, some, Result, ok, err, or_raise, ◌==◌,
  string_eq, nat_eq, ℤ, not_a_datetime, if◌then◌else◌,
}
use where_to_tls.Base.Text.{◌>>=◌, removesuffix, parse_int, is_char}
use where_to_tls.Base.Padding.{take_chars, repeat_char}
use where_to_tls.Common.Timestamps.{datetime_seconds, nanoseconds}

after_char : Char → String × Bool × String → String × Bool × String
after_char c (before, found, after) = (String.◌∷◌ c before, found, after)

-- `s.partition(sep)` at a character: the part before it, whether it is there, the part after it
unfoldable pub partition : ℕ → String → String × Bool × String
unfolding after_char
partition sep String.[] = ("", false, "")
partition sep (String.◌∷◌ c s) =
    let rest = partition sep s in if is_char sep c then ("", true, s) else after_char c rest

-- `((fraction if separator else "") + "000000000")[:9]`
unfoldable pub nine_digits : Bool → String → String
nine_digits found fraction = take_chars 9 ((if found then fraction else "") <> repeat_char "0" 9)

unfoldable pub parts_ns : String × Bool × String → Option ℤ
parts_ns (seconds, found, fraction) = do
  whole ← datetime_seconds seconds
  nanos ← parse_int (nine_digits found fraction)
  some (nanoseconds whole nanos)

unfoldable pub timestamp_ns : String → Result ℤ
timestamp_ns value =
    or_raise (parts_ns (partition b'.' (removesuffix "Z" value))) (not_a_datetime value)
