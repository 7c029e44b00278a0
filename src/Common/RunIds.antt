-- ===== src/Common/RunIds.antt =====
-- common.py: `artifact_run_id`; runs.py: `run_family`. A Run ID is
-- `\d{8}T\d{6}Z-blog_tls_(baseline|linear_peak|race)-[a-z0-9-]+`.
pub mod Shape
pub mod Accepted
use Prim.Native.String
use where_to_tls.Base.{
  String, Bool, true, false, not, ◌&&◌, Option, none, some, Result, ok, err, or_raise, ◌==◌,
  string_eq, if◌then◌else◌, unsupported_run_id, no_run_family,
}
use where_to_tls.Base.Text.{◌>>=◌, skip, skip_digits, all_chars, is_slug_char, rsplit_last}
use where_to_tls.Config.{Family}

-- `(baseline|linear_peak|race)` at the start: the family that it names, and the rest
unfoldable pub take_family : String → Option (Family × String)
take_family s = elim (skip "baseline" s) [
  | some rest ↦ some (Family.baseline, rest)
  | none ↦ elim (skip "linear_peak" s) [
    | some rest ↦ some (Family.linear, rest)
    | none ↦ elim (skip "race" s) [ some rest ↦ some (Family.race, rest) | none ↦ none ]
  ]
]

-- `[a-z0-9-]+` to the end
unfoldable pub is_slug : String → Bool
is_slug s = not (s == "") && all_chars is_slug_char s

unfoldable pub accept_slug : Family → String → Option Family
accept_slug family s = if is_slug s then some family else none

-- The full match of the pattern, with the family of its group.
unfoldable pub match_run_id : String → Option Family
match_run_id s = do
  s₁ ← skip_digits 8 s
  s₂ ← skip "T" s₁
  s₃ ← skip_digits 6 s₂
  s₄ ← skip "Z-blog_tls_" s₃
  (family, s₅) ← take_family s₄
  s₆ ← skip "-" s₅
  accept_slug family s₆

unfoldable pub artifact_run_id : String → Result String
artifact_run_id reference =
    let run_id = rsplit_last b':' reference in
    elim (match_run_id run_id) [ some _ ↦ ok run_id | none ↦ err (unsupported_run_id run_id) ]

-- `-blog_tls_(baseline|linear_peak|race)-` at the start
unfoldable pub family_here : String → Option Family
family_here s = do
  s₁ ← skip "-blog_tls_" s
  (family, s₂) ← take_family s₁
  s₃ ← skip "-" s₂
  some family

-- The first place where it matches.
unfoldable pub search_family : String → Option Family
search_family String.[] = none
search_family (String.◌∷◌ c s) =
    let later = search_family s in
    elim (family_here (String.◌∷◌ c s)) [ some family ↦ some family | none ↦ later ]

-- Where nothing matches, `re.search` is None, and `.group` an AttributeError.
unfoldable pub run_family : String → Result Family
run_family run_id = or_raise (search_family run_id) (no_run_family run_id)
