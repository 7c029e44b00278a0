-- ===== src/Base/Padding.antt =====
-- Texts cut and padded to a width.
use Prim.Native.Nat.{ℕ, zero, suc, ◌-◌, ◌≤◌}
use Prim.Native.Char.{Char}
use Prim.Native.String.{String, ◌++◌ as ◌<>◌}
use mathlib.Core.Path.{◌≡◌, refl, ap, sym, ◌∙◌}
use native.Mathlib.Omega.{arith}
use text.Mathlib.TextLemmas.{nil-append, cons-append}

-- `len(s)`
unfoldable pub text_length : String → ℕ
text_length String.[] = 0
text_length (String.◌∷◌ c s) = suc (text_length s)

-- `s[:n]`
unfoldable pub take_chars : ℕ → String → String
take_chars zero s = ""
take_chars (suc n) String.[] = ""
take_chars (suc n) (String.◌∷◌ c s) = String.◌∷◌ c (take_chars n s)

-- `c * n`
unfoldable pub repeat_char : Char → ℕ → String
repeat_char c zero = ""
repeat_char c (suc n) = String.◌∷◌ c (repeat_char c n)

-- `s.ljust(n, c)`
unfoldable pub ljust : ℕ → Char → String → String
unfolding text_length repeat_char
ljust n c s = s <> repeat_char c (n - text_length s)

take_chars-repeat_char :
    (c : Char) (n m : ℕ) → n ≤ m → take_chars n (repeat_char c m) ≡ repeat_char c n
unfolding take_chars repeat_char
take_chars-repeat_char c zero m h = refl
take_chars-repeat_char c (suc n) zero h = absurd (omega arith)
take_chars-repeat_char c (suc n) (suc m) h =
    ap (String.◌∷◌ c) (take_chars-repeat_char c n m (omega arith))

repeat_char-sub_zero : (c : Char) (n : ℕ) → repeat_char c (n - 0) ≡ repeat_char c n
repeat_char-sub_zero c n = let e : n - 0 ≡ n = omega arith in ap (repeat_char c) e

-- To pad behind a text and cut is to justify it.
pub take_chars-pad :
    (c : Char) (n m : ℕ) (s : String)
    → text_length s ≤ n
    → n ≤ m
    → take_chars n (s <> repeat_char c m) ≡ ljust n c s
unfolding ljust take_chars
take_chars-pad c n m String.[] h k =
    rw (nil-append (repeat_char c m), nil-append (repeat_char c (n - 0)))
      (take_chars-repeat_char c n m k ∙ sym (repeat_char-sub_zero c n))
take_chars-pad c zero m (String.◌∷◌ d s) h k = absurd (omega arith)
take_chars-pad c (suc n) m (String.◌∷◌ d s) h k =
    let e : suc n - suc (text_length s) ≡ n - text_length s = omega arith in
    rw
      (
        cons-append d s (repeat_char c m),
        cons-append d s (repeat_char c (suc n - suc (text_length s))),
        e,
      )
      (ap (String.◌∷◌ d) (take_chars-pad c n m s (omega arith) (omega arith)))

-- What stands behind the cut does not matter.
pub take_chars-append : (n : ℕ) (s t : String) → text_length s ≡ n → take_chars n (s <> t) ≡ s
unfolding take_chars text_length
take_chars-append zero String.[] t h = refl
take_chars-append (suc n) String.[] t h = absurd (omega arith)
take_chars-append zero (String.◌∷◌ c s) t h = absurd (omega arith)
take_chars-append (suc n) (String.◌∷◌ c s) t h =
    rw (cons-append c s t) (ap (String.◌∷◌ c) (take_chars-append n s t (omega arith)))
