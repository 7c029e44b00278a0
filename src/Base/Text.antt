-- ===== src/Base/Text.antt =====
-- The parts of Python's `str`, `int` and `re` that the exporter uses. Characters are told apart by
-- their code points; of the decimal digits that `\d` and `int` know, the ASCII ones are meant.
use Prim.Native.Nat.{ℕ, zero, suc, ◌+◌, ◌-◌, ◌*◌}
use Prim.Native.Char.{Char, code}
use Prim.Native.String.{String}
use mathlib.Core.Path.{◌≡◌, refl, ap, sym, ◌∙◌}
use mathlib.Core.Bool.{Bool, true, false, ◌&&◌, ◌||◌, not}
use mathlib.Core.Option.{Option, none, some}
use mathlib.Core.List.{List, [], ◌∷◌}
use native.Mathlib.Omega.{arith}
use Prim.Native.String.{◌++◌ as ◌<>◌}
use mathlib.Core.Logic.{inl, inr}
use mathlib.Core.Option.{none-ne-some}
use text.Mathlib.TextLemmas.{concat-ne-nil, tail-eq_of_cons-eq, nil-append, cons-append}
use text.Mathlib.TextEquality.{Char-path}
use where_to_tls.Base.Sets.{Bool-cases, eq_of_test}
use where_to_tls.Base.Equality.{◌==◌, nat_eq, string_eq, if◌then◌else◌}
use where_to_tls.Base.Int.{ℤ, pos, negsuc, negated, leb}

infixl 5 ◌>>=◌
abbrev pub ◌>>=◌ {ℓ κ} : {A : Type ℓ} {B : Type κ} → Option A → (A → Option B) → Option B
none >>= f = none
some a >>= f = f a

pub some-bind {ℓ κ} :
    {A : Type ℓ} {B : Type κ} (m : Option A) (f : A → Option B) {b : B}
    → (m >>= f) ≡ some b
    → (a : A) × (m ≡ some a) × (f a ≡ some b)
some-bind none f h = cc
some-bind (some a) f h = (a, refl, h)

abbrev pub is_char : ℕ → Char → Bool
is_char n c = code c == n

abbrev pub is_digit : Char → Bool
is_digit c = leb b'0' (code c) && leb (code c) b'9'

abbrev pub digit_value : Char → ℕ
digit_value c = code c - b'0'

-- `[a-z0-9]` and `[a-z0-9-]`
abbrev pub is_lower_alnum : Char → Bool
is_lower_alnum c = (leb b'a' (code c) && leb (code c) b'z') || is_digit c

abbrev pub is_slug_char : Char → Bool
is_slug_char c = is_lower_alnum c || is_char b'-' c

-- The ASCII characters that `strip` removes.
abbrev pub is_space : Char → Bool
is_space c =
    is_char 32 c || (leb 9 (code c) && leb (code c) 13) || (leb 28 (code c) && leb (code c) 31)

unfoldable pub all_chars : (Char → Bool) → String → Bool
all_chars p String.[] = true
all_chars p (String.◌∷◌ c s) = p c && all_chars p s

-- `\d{n}` at the start: the rest
unfoldable pub skip_digits : ℕ → String → Option String
skip_digits zero s = some s
skip_digits (suc n) String.[] = none
skip_digits (suc n) (String.◌∷◌ c s) =
    let rest = skip_digits n s in if is_digit c then rest else none

-- A text of the pattern at the start: the rest
unfoldable pub skip : String → String → Option String
skip String.[] s = some s
skip (String.◌∷◌ p ps) String.[] = none
skip (String.◌∷◌ p ps) (String.◌∷◌ c s) =
    let rest = skip ps s in if is_char (code p) c then rest else none

pub skip-cons :
    (p : Char) (ps : String) (c : Char) (s : String) {r : String}
    → skip (String.◌∷◌ p ps) (String.◌∷◌ c s) ≡ some r
    → (is_char (code p) c ≡ true) × (skip ps s ≡ some r)
unfolding skip
skip-cons p ps c s {r} h = ground arith

-- `s.rsplit(":", 1)[-1]`, with the part found so far
after_last : ℕ → String → String → String
after_last sep found String.[] = found
after_last sep found (String.◌∷◌ c s) = after_last sep (if is_char sep c then s else found) s

unfoldable pub rsplit_last : ℕ → String → String
unfolding after_last
rsplit_last sep s = after_last sep s s

abbrev pub lacks : ℕ → String → Bool
lacks sep = all_chars (λ c. not (is_char sep c))

after_last-lacks :
    (sep : ℕ) (found s : String)
    → (lacks sep s ≡ true → lacks sep found ≡ true)
    → lacks sep (after_last sep found s) ≡ true
unfolding after_last all_chars
after_last-lacks sep found String.[] h = h refl
after_last-lacks sep found (String.◌∷◌ c s) h = elim (Bool-cases (is_char sep c)) [
  | inl cut ↦ rw cut (after_last-lacks sep s s (λ l. l))
  | inr more ↦ rw more (after_last-lacks sep found s (λ l. h (rw (more, l))))
]

-- What is split off at the last separator holds none.
pub rsplit_last-lacks : (sep : ℕ) (s : String) → lacks sep (rsplit_last sep s) ≡ true
unfolding rsplit_last
rsplit_last-lacks sep s = after_last-lacks sep s s (λ l. l)

after_last_of_lacks :
    (sep : ℕ) (found s : String) → lacks sep s ≡ true → after_last sep found s ≡ found
unfolding after_last all_chars
after_last_of_lacks sep found String.[] h = refl
after_last_of_lacks sep found (String.◌∷◌ c s) h = ground (arith, after_last_of_lacks sep found s)

-- A text with no separator is its own last part.
pub rsplit_last_of_lacks : (sep : ℕ) (s : String) → lacks sep s ≡ true → rsplit_last sep s ≡ s
unfolding rsplit_last
rsplit_last_of_lacks sep s h = after_last_of_lacks sep s s h

-- The texts of n digits.
unfoldable pub is_digits : ℕ → String → Bool
is_digits zero String.[] = true
is_digits zero (String.◌∷◌ c s) = false
is_digits (suc n) String.[] = false
is_digits (suc n) (String.◌∷◌ c s) = is_digit c && is_digits n s

-- `skip` takes off exactly its pattern.
pub skip-eq : (p s : String) {r : String} → skip p s ≡ some r → s ≡ p <> r
unfolding skip
skip-eq String.[] s {r} h = ground (arith, nil-append r)
skip-eq (String.◌∷◌ p ps) String.[] h = cc
skip-eq (String.◌∷◌ p ps) (String.◌∷◌ c s) {r} h =
    ground (arith, skip-eq ps s {r = r}, cons-append p ps r, Char-path c p)

pub skip-append : (p r : String) → skip p (p <> r) ≡ some r
unfolding skip
skip-append String.[] r = rw nil-append refl
skip-append (String.◌∷◌ p ps) r = rw cons-append (ground (arith, skip-append ps r))

pub skip_digits-eq :
    (n : ℕ) (s : String) {r : String}
    → skip_digits n s ≡ some r
    → (d : String) × (s ≡ d <> r) × (is_digits n d ≡ true)
unfolding skip_digits is_digits
skip_digits-eq zero s {r} h = ("", ground (arith, nil-append r), refl)
skip_digits-eq (suc n) String.[] h = cc
skip_digits-eq (suc n) (String.◌∷◌ c s) {r} h = elim (Bool-cases (is_digit c)) [
  | inl is ↦
      let (d, e, a) = skip_digits-eq n s {r = r} (rw is at h) in
      (String.◌∷◌ c d, ap (String.◌∷◌ c) e ∙ sym (cons-append c d r), rw (is, a))
  | inr isnt ↦ absurd (none-ne-some _ (rw isnt at h))
]

pub skip_digits-append :
    (n : ℕ) (d r : String) → is_digits n d ≡ true → skip_digits n (d <> r) ≡ some r
unfolding skip_digits is_digits
skip_digits-append zero String.[] r h = rw nil-append refl
skip_digits-append zero (String.◌∷◌ c d) r h = cc
skip_digits-append (suc n) String.[] r h = cc
skip_digits-append (suc n) (String.◌∷◌ c d) r h =
    rw cons-append (ground (arith, skip_digits-append n d r))

pub all_chars-append :
    (p : Char → Bool) (s t : String) → all_chars p (s <> t) ≡ (all_chars p s && all_chars p t)
unfolding all_chars
all_chars-append p String.[] t = rw nil-append refl
all_chars-append p (String.◌∷◌ c s) t = rw cons-append (ground (arith, all_chars-append p s t))

-- A weaker test holds too.
pub all_chars_mono :
    (p q : Char → Bool) (s : String)
    → ((c : Char) → p c ≡ true → q c ≡ true)
    → all_chars p s ≡ true
    → all_chars q s ≡ true
unfolding all_chars
all_chars_mono p q String.[] w h = refl
all_chars_mono p q (String.◌∷◌ c s) w h = ground (arith, w c, all_chars_mono p q s w)

pub is_digits-all_chars : (n : ℕ) (s : String) → is_digits n s ≡ true → all_chars is_digit s ≡ true
unfolding is_digits all_chars
is_digits-all_chars zero String.[] h = refl
is_digits-all_chars zero (String.◌∷◌ c s) h = cc
is_digits-all_chars (suc n) String.[] h = cc
is_digits-all_chars (suc n) (String.◌∷◌ c s) h = ground (arith, is_digits-all_chars n s)

add_char : Char → List String → List String
add_char c [] = String.◌∷◌ c String.[] ∷ []
add_char c (part ∷ parts) = String.◌∷◌ c part ∷ parts

-- `s.split(sep)` at a character
unfoldable pub split : ℕ → String → List String
unfolding add_char
split sep String.[] = String.[] ∷ []
split sep (String.◌∷◌ c s) =
    let parts = split sep s in if is_char sep c then String.[] ∷ parts else add_char c parts

unfoldable pub lstrip : String → String
lstrip String.[] = String.[]
lstrip (String.◌∷◌ c s) = let rest = lstrip s in if is_space c then rest else String.◌∷◌ c s

unfoldable pub rstrip : String → String
rstrip String.[] = String.[]
rstrip (String.◌∷◌ c s) =
    let rest = rstrip s in if is_space c && rest == "" then String.[] else String.◌∷◌ c rest

-- `s.strip()`
unfoldable pub strip : String → String
unfolding lstrip rstrip string_eq nat_eq
strip s = rstrip (lstrip s)

-- `s.removesuffix(suffix)` and `s.endswith(suffix)`
unfoldable pub removesuffix : String → String → String
unfolding string_eq
removesuffix suffix String.[] = String.[]
removesuffix suffix (String.◌∷◌ c s) =
    let rest = removesuffix suffix s in
    if String.◌∷◌ c s == suffix then String.[] else String.◌∷◌ c rest

unfoldable pub ends_with : String → String → Bool
unfolding string_eq
ends_with suffix String.[] = String.[] == suffix
ends_with suffix (String.◌∷◌ c s) = String.◌∷◌ c s == suffix || ends_with suffix s

-- `s.replace(c, "")` at a character
unfoldable pub without_char : ℕ → String → String
without_char n String.[] = String.[]
without_char n (String.◌∷◌ c s) =
    let rest = without_char n s in if is_char n c then rest else String.◌∷◌ c rest

-- The character of `targets` that stands where the character stands in `sources`.
translate : String → String → Char → Char
translate (String.◌∷◌ s sources) (String.◌∷◌ t targets) c =
    let other = translate sources targets c in if is_char (code s) c then t else other
translate String.[] targets c = c
translate (String.◌∷◌ s sources) String.[] c = c

-- `s.lower()` on ASCII letters
unfoldable pub lower : String → String
unfolding translate
lower String.[] = String.[]
lower (String.◌∷◌ c s) =
    String.◌∷◌ (translate "ABCDEFGHIJKLMNOPQRSTUVWXYZ" "abcdefghijklmnopqrstuvwxyz" c) (lower s)

lower_test : lower "X25519" ≡ "x25519"
unfolding lower nat_eq
lower_test = refl

-- The digits of `int(text)`; one `_` may stand between two of them. The flag tells whether the
-- last character was a digit.
pub data Kind : Type 0 where
  digit underscore other : Kind

unfoldable pub kind : Char → Kind
kind c = if is_digit c then digit else if is_char b'_' c then underscore else other

unfoldable pub int_digits : Bool → ℕ → String → Option ℕ
int_digits after acc String.[] = if after then some acc else none
int_digits after acc (String.◌∷◌ c s) = elim (kind c) [
  | digit ↦ int_digits true (acc * 10 + digit_value c) s
  | underscore ↦ elim after [ true ↦ int_digits false acc s | false ↦ none ]
  | other ↦ none
]

unfoldable pub int_signed : String → Option ℤ
int_signed String.[] = none
int_signed (String.◌∷◌ c s) =
    if is_char b'-' c
    then (do n ← int_digits false 0 s; some (negated n))
    else if is_char b'+' c
    then (do n ← int_digits false 0 s; some (pos n))
    else (do n ← int_digits false 0 (String.◌∷◌ c s); some (pos n))

-- Does the text hold one of the separators 28 to 31? `strip` removes them, and `int` does not.
abbrev pub has_separator : String → Bool
has_separator String.[] = false
has_separator (String.◌∷◌ c s) = (leb 28 (code c) && leb (code c) 31) || has_separator s

-- `int(text)`; `none` is its `ValueError`.
unfoldable pub parse_int : String → Option ℤ
unfolding int_signed int_digits kind strip nat_eq
parse_int s = if has_separator s then none else int_signed (strip s)

int_test : parse_int " -12_3 " ≡ some (negsuc 122)
unfolding parse_int
int_test = refl

suffix_test : removesuffix "-go" "s2-vm-go" ≡ "s2-vm"
unfolding removesuffix
suffix_test = refl

split_test : split b',' "a,,b" ≡ "a" ∷ "" ∷ "b" ∷ []
unfolding split nat_eq
split_test = refl

tail_of_z : (c : Char) (x : String) → (String.◌∷◌ c (x <> "Z") == "Z") ≡ true → x <> "Z" ≡ ""
tail_of_z c x h = tail-eq_of_cons-eq (eq_of_test _ "Z" h)

-- Taking off the last "Z" is the inverse of putting it on.
pub removesuffix-append : (x : String) → removesuffix "Z" (x <> "Z") ≡ x
unfolding removesuffix
removesuffix-append String.[] = refl
removesuffix-append (String.◌∷◌ c x) = elim (Bool-cases (String.◌∷◌ c (x <> "Z") == "Z")) [
  | inl last ↦ absurd (concat-ne-nil "Z" x (tail_of_z c x last))
  | inr more ↦
      rw (cons-append c x "Z", removesuffix) (rw more (ap (String.◌∷◌ c) (removesuffix-append x)))
]
