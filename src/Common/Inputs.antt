-- ===== src/Common/Inputs.antt =====
-- common.py: `split_selections` and `read_token_file`.
use mathlib.Core.List.{flat_map}
use where_to_tls.Base.{
  String, ◌==◌, Option, none, some, List, [], ◌∷◌, map, dedupe, Result, ok, err,
  unreadable_token_file, bad_token_entry, string_eq, if◌then◌else◌,
}
use where_to_tls.Base.Text.{split, strip, skip}

-- The names of one option, without the spaces around them.
abbrev pub names_of : String → List String
names_of selection = map strip (split b',' selection)

unfoldable pub split_selections : List String → List String
unfolding string_eq flat_map
split_selections selections = dedupe (flat_map names_of selections)

-- What follows the name in the lines that begin with it.
unfoldable pub token_entries : List String → List String
token_entries [] = []
token_entries (line ∷ lines) =
    let rest = token_entries lines in
    elim (skip "INFLUX_TOKEN=" line) [ some token ↦ token ∷ rest | none ↦ rest ]

unfoldable pub sole_token : String → List String → Result String
unfolding string_eq
sole_token path (token ∷ []) = if token == "" then err (bad_token_entry path) else ok token
sole_token path _ = err (bad_token_entry path)

-- The lines of the file are `none` where reading it is an OSError.
unfoldable pub read_token_file : String → Option (List String) → Result String
read_token_file path none = err (unreadable_token_file path)
read_token_file path (some lines) = sole_token path (token_entries lines)
