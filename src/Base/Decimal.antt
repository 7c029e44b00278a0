-- ===== src/Base/Decimal.antt =====
-- `str(n)` on an int, and that `int` reads it back.
use Prim.Native.Nat.{ℕ, zero, suc, ◌+◌, ◌*◌, ◌/◌, ◌%◌, ◌≤◌, ◌<◌}
use Prim.Native.Char.{Char}
use Prim.Native.String.{String, ◌++◌ as ◌<>◌}
use mathlib.Core.Path.{◌≡◌, refl, ap, sym, ◌∙◌}
use mathlib.Core.Logic.{inl, inr}
use mathlib.Core.Bool.{Bool, true, false}
use mathlib.Core.Option.{some, none}
use native.Mathlib.Omega.{arith}
use where_to_tls.Base.Sets.{Bool-cases, eq_of_test}
use where_to_tls.Base.Equality.{◌==◌, nat_eq, string_eq, if◌then◌else◌}
use where_to_tls.Base.Int.{ℤ, pos, negsuc}
use where_to_tls.Base.Text.{
  has_separator, is_digit, is_space, digit_value, all_chars, lstrip, rstrip, strip, kind,
  int_digits, int_signed, parse_int,
}

char_at : ℕ → String → Char
char_at n String.[] = "0"
char_at zero (String.◌∷◌ c s) = c
char_at (suc n) (String.◌∷◌ c s) = char_at n s

-- The character of a digit.
unfoldable pub digit_char : ℕ → Char
unfolding char_at
digit_char d = char_at d "0123456789"

-- The digits of a number in front of `out`. The number is fuel enough: each round divides it.
unfoldable pub digits_onto : ℕ → ℕ → String → String
unfolding nat_eq
digits_onto zero n out = out
digits_onto (suc fuel) n out =
    let rest = digits_onto fuel (n / 10) (String.◌∷◌ (digit_char (n % 10)) out) in
    if n == 0 then out else rest

unfoldable pub show_nat : ℕ → String
unfolding nat_eq
show_nat n = if n == 0 then "0" else digits_onto n n ""

-- `str(n)`
unfoldable pub show_int : ℤ → String
show_int (pos n) = show_nat n
show_int (negsuc n) = "-" <> show_nat (suc n)

show_test : show_int (pos 1204) ≡ "1204"
unfolding show_int show_nat digits_onto digit_char nat_eq
show_test = refl

digit_char-IsDigit :
    (d : ℕ) → d < 10 → (is_digit (digit_char d) ≡ true) × (digit_value (digit_char d) ≡ d)
unfolding digit_char
digit_char-IsDigit zero h = (refl, refl)
digit_char-IsDigit (suc zero) h = (refl, refl)
digit_char-IsDigit (suc (suc zero)) h = (refl, refl)
digit_char-IsDigit (suc (suc (suc zero))) h = (refl, refl)
digit_char-IsDigit (suc (suc (suc (suc zero)))) h = (refl, refl)
digit_char-IsDigit (suc (suc (suc (suc (suc zero))))) h = (refl, refl)
digit_char-IsDigit (suc (suc (suc (suc (suc (suc zero)))))) h = (refl, refl)
digit_char-IsDigit (suc (suc (suc (suc (suc (suc (suc zero))))))) h = (refl, refl)
digit_char-IsDigit (suc (suc (suc (suc (suc (suc (suc (suc zero)))))))) h = (refl, refl)
digit_char-IsDigit (suc (suc (suc (suc (suc (suc (suc (suc (suc zero))))))))) h = (refl, refl)
digit_char-IsDigit (suc (suc (suc (suc (suc (suc (suc (suc (suc (suc n)))))))))) h =
    absurd (omega arith)

-- A digit in front is read into the number.
int_digits_step :
    (after : Bool) (acc : ℕ) (c : Char) (s : String)
    → is_digit c ≡ true
    → int_digits after acc (String.◌∷◌ c s) ≡ int_digits true (acc * 10 + digit_value c) s
unfolding int_digits kind
int_digits_step after acc c s h = ground (arith, h)

digits_onto_zero : (fuel : ℕ) (out : String) → digits_onto fuel 0 out ≡ out
unfolding digits_onto nat_eq
digits_onto_zero zero out = refl
digits_onto_zero (suc fuel) out = refl

low_digit : (n : ℕ) → n / 10 ≡ 0 → 0 * 10 + n % 10 ≡ n
low_digit n h = omega arith

int_digits-digits_onto :
    (fuel n : ℕ) (after : Bool) (out : String)
    → 0 < n
    → n ≤ fuel
    → int_digits after 0 (digits_onto fuel n out) ≡ int_digits true n out
unfolding digits_onto nat_eq
int_digits-digits_onto zero n after out h k = absurd (omega arith)
int_digits-digits_onto (suc fuel) n after out h k =
    let (is, value) = digit_char-IsDigit (n % 10) (omega arith) in
    let c = digit_char (n % 10) in
    let step : (acc : ℕ) (b : Bool)
        → int_digits b acc (String.◌∷◌ c out) ≡ int_digits true (acc * 10 + n % 10) out =
      λ acc b.
        int_digits_step b acc c out is ∙ ap (λ v. int_digits true (acc * 10 + v) out) value in
    let positive : (n == 0) ≡ false = ground (arith, h) in
    rw positive (elim (Bool-cases (n / 10 == 0)) [
      | inl last ↦
          ap (λ m. int_digits after 0 (digits_onto fuel m (String.◌∷◌ c out)))
            (eq_of_test (n / 10) 0 last)
          ∙ ap (int_digits after 0) (digits_onto_zero fuel (String.◌∷◌ c out))
          ∙ step 0 after
          ∙ ap (λ m. int_digits true m out) (low_digit n (ground (arith, last)))
      | inr more ↦
          int_digits-digits_onto fuel (n / 10) after (String.◌∷◌ c out) (ground (arith, more))
            (omega arith)
          ∙ step (n / 10) true
          ∙ ap (λ m. int_digits true m out) (omega arith)
    ])

digits_onto-all_chars :
    (fuel n : ℕ) (out : String)
    → all_chars is_digit out ≡ true
    → all_chars is_digit (digits_onto fuel n out) ≡ true
unfolding digits_onto all_chars nat_eq
digits_onto-all_chars zero n out h = h
digits_onto-all_chars (suc fuel) n out h =
    let (is, value) = digit_char-IsDigit (n % 10) (omega arith) in
    ground (
      arith,
      h,
      digits_onto-all_chars fuel (n / 10) (String.◌∷◌ (digit_char (n % 10)) out)
          (ground (arith, is, h)),
    )

show_nat-all_chars : (n : ℕ) → all_chars is_digit (show_nat n) ≡ true
unfolding show_nat all_chars
show_nat-all_chars n = elim (Bool-cases (n == 0)) [
  | inl is_zero ↦ rw is_zero refl
  | inr positive ↦ rw positive (digits_onto-all_chars n n "" refl)
]

digit_is_no_space : (c : Char) → is_digit c ≡ true → is_space c ≡ false
unfolding nat_eq
digit_is_no_space c h = ground arith

lstrip_digits : (s : String) → all_chars is_digit s ≡ true → lstrip s ≡ s
unfolding lstrip all_chars
lstrip_digits String.[] h = refl
lstrip_digits (String.◌∷◌ c s) h = ground (arith, digit_is_no_space c)

rstrip_digits : (s : String) → all_chars is_digit s ≡ true → rstrip s ≡ s
unfolding rstrip all_chars
rstrip_digits String.[] h = refl
rstrip_digits (String.◌∷◌ c s) h =
    let no_space = digit_is_no_space c (ground (arith, h)) in
    rw no_space (ap (String.◌∷◌ c) (rstrip_digits s (ground (arith, h))))

int_signed_digits :
    (s : String) (n : ℕ)
    → all_chars is_digit s ≡ true
    → int_digits false 0 s ≡ some n
    → int_signed s ≡ some (pos n)
unfolding int_signed int_digits all_chars nat_eq
int_signed_digits String.[] n h k = cc
int_signed_digits (String.◌∷◌ c s) n h k = ground (arith, h, k)

zero_read : (n : ℕ) → (n == 0) ≡ true → int_digits false 0 "0" ≡ some n
unfolding int_digits kind nat_eq
zero_read n h = ap some (sym (eq_of_test n 0 h))

positive_of : (n : ℕ) → (n == 0) ≡ false → 0 < n
unfolding nat_eq
positive_of n h = ground arith

end_read : (n : ℕ) → int_digits true n "" ≡ some n
unfolding int_digits
end_read n = refl

int_digits-show_nat : (n : ℕ) → int_digits false 0 (show_nat n) ≡ some n
unfolding show_nat
int_digits-show_nat n = elim (Bool-cases (n == 0)) [
  | inl is_zero ↦ rw is_zero (zero_read n is_zero)
  | inr positive ↦
      rw positive
        (int_digits-digits_onto n n false "" (positive_of n positive) (omega arith) ∙ end_read n)
]

has_separator_digits : (s : String) → all_chars is_digit s ≡ true → has_separator s ≡ false
unfolding all_chars
has_separator_digits String.[] h = refl
has_separator_digits (String.◌∷◌ c s) h = ground (arith, has_separator_digits s)

-- Every number is read back from its decimal print.
pub parse_int-show_nat : (n : ℕ) → parse_int (show_nat n) ≡ some (pos n)
unfolding parse_int strip
parse_int-show_nat n =
    let digits = show_nat-all_chars n in
    ap (λ b. if b then none else int_signed (strip (show_nat n)))
      (has_separator_digits (show_nat n) digits)
    ∙ ap (λ s. int_signed (rstrip s)) (lstrip_digits (show_nat n) digits)
    ∙ ap int_signed (rstrip_digits (show_nat n) digits)
    ∙ int_signed_digits (show_nat n) n digits (int_digits-show_nat n)
