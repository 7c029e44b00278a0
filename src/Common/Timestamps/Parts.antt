-- ===== src/Common/Timestamps/Parts.antt =====
-- What the pattern of a timestamp takes apart.
use mathlib.Core.Path.{subst₂, ap₂}
use mathlib.Core.Option.{some-injective}
use text.Mathlib.TextLemmas.{nil-append, cons-append, append_assoc}
use where_to_tls.Base.{
  ℕ, zero, suc, ◌+◌, ◌≤◌, String, ◌<>◌, ◌≡◌, refl, ap, sym, ◌∙◌, true, Option, none, some,
  string_eq, nat_eq, arith, ◌⊎◌, inl, inr, Bool-cases,
}
use where_to_tls.Base.Text.{
  is_digit, skip, skip_digits, lacks, all_chars, all_chars-append, all_chars_mono, is_digits,
  is_digits-all_chars, skip_digits-eq, skip-eq, some-bind,
}
use where_to_tls.Base.Padding.{text_length, take_chars, take_chars-append}
use where_to_tls.Common.Timestamps.{
  skip_datetime, match_fraction, timestamp_groups, span_digits, fraction_of, fraction_at,
}

text_length-append : (s t : String) → text_length (s <> t) ≡ text_length s + text_length t
unfolding text_length
text_length-append String.[] t = rw nil-append (omega arith)
text_length-append (String.◌∷◌ c s) t = rw cons-append (omega (arith, text_length-append s t))

-- `s` is n characters with no dot, and then `r`.
record Cut (n : ℕ) (s r : String) : Type 0 where
  part : String
  whole : s ≡ part <> r
  size : text_length part ≡ n
  no_dot : lacks b'.' part ≡ true

Cut-trans : {n m : ℕ} {s r t : String} → Cut n s r → Cut m r t → Cut (n + m) s t
Cut-trans {s} {t} c d = record {
  part = c.part <> d.part;
  whole = c.whole ∙ ap (λ x. c.part <> x) d.whole ∙ sym (append_assoc c.part d.part t);
  size = text_length-append c.part d.part ∙ omega (arith, c.size, d.size);
  no_dot = simp (all_chars-append, c.no_dot, d.no_dot);
}

is_digits-length : (n : ℕ) (s : String) → is_digits n s ≡ true → text_length s ≡ n
unfolding is_digits text_length
is_digits-length zero String.[] h = refl
is_digits-length zero (String.◌∷◌ c s) h = cc
is_digits-length (suc n) String.[] h = cc
is_digits-length (suc n) (String.◌∷◌ c s) h = ground (arith, is_digits-length n s)

Cut-skip_digits : (n : ℕ) (s : String) {r : String} → skip_digits n s ≡ some r → Cut n s r
Cut-skip_digits n s {r} h =
    let (d, e, a) = skip_digits-eq n s h in
    record {
      part = d;
      whole = e;
      size = is_digits-length n d a;
      no_dot = all_chars_mono is_digit _ d (λ c k. ground arith) (is_digits-all_chars n d a);
    }

Cut-skip :
    (p s : String) {r : String} → lacks b'.' p ≡ true → skip p s ≡ some r → Cut (text_length p) s r
Cut-skip p s l h = record { part = p; whole = skip-eq p s h; size = refl; no_dot = l }

Cut-skip_datetime : (s : String) {r : String} → skip_datetime s ≡ some r → Cut 19 s r
unfolding skip_datetime text_length all_chars nat_eq
Cut-skip_datetime s {r} h =
    let (s₁, m₁, h₁) = some-bind (skip_digits 4 s) _ h in
    let (s₂, m₂, h₂) = some-bind (skip "-" s₁) _ h₁ in
    let (s₃, m₃, h₃) = some-bind (skip_digits 2 s₂) _ h₂ in
    let (s₄, m₄, h₄) = some-bind (skip "-" s₃) _ h₃ in
    let (s₅, m₅, h₅) = some-bind (skip_digits 2 s₄) _ h₄ in
    let (s₆, m₆, h₆) = some-bind (skip "T" s₅) _ h₅ in
    let (s₇, m₇, h₇) = some-bind (skip_digits 2 s₆) _ h₆ in
    let (s₈, m₈, h₈) = some-bind (skip ":" s₇) _ h₇ in
    let (s₉, m₉, h₉) = some-bind (skip_digits 2 s₈) _ h₈ in
    let (s', m', h') = some-bind (skip ":" s₉) _ h₉ in
    Cut-trans (Cut-skip_digits 4 s m₁) (
      Cut-trans (Cut-skip "-" s₁ refl m₂) (
        Cut-trans (Cut-skip_digits 2 s₂ m₃) (
          Cut-trans (Cut-skip "-" s₃ refl m₄) (
            Cut-trans (Cut-skip_digits 2 s₄ m₅) (
              Cut-trans (Cut-skip "T" s₅ refl m₆) (
                Cut-trans (Cut-skip_digits 2 s₆ m₇) (
                  Cut-trans (Cut-skip ":" s₇ refl m₈) (
                    Cut-trans (Cut-skip_digits 2 s₈ m₉)
                      (Cut-trans (Cut-skip ":" s₉ refl m') (Cut-skip_digits 2 s' h'))))))))))

span_digits-append : (s : String) → (span_digits s).0 <> (span_digits s).1 ≡ s
unfolding span_digits
span_digits-append String.[] = refl
span_digits-append (String.◌∷◌ c s) = elim (Bool-cases (is_digit c)) [
  | inl is ↦ rw is (cons-append c _ _ ∙ ap (String.◌∷◌ c) (span_digits-append s))
  | inr isnt ↦ rw isnt (nil-append (String.◌∷◌ c s))
]

fraction_of-eq :
    (digits rest : String) {group : String}
    → fraction_of (digits, rest) ≡ some group
    → (digits ≡ group) × (rest ≡ "Z") × (text_length group ≤ 9)
unfolding fraction_of
fraction_of-eq digits rest {group} h = ground arith

abbrev Forms : String → String → Type 0
Forms rest group =
    ((rest ≡ "Z") × (group ≡ "")) ⊎ ((rest ≡ "." <> (group <> "Z")) × (text_length group ≤ 9))

fraction_at-Forms :
    (rest : String) (after : Option String) {group : String}
    → skip "." rest ≡ after
    → fraction_at rest after ≡ some group
    → Forms rest group
unfolding fraction_at
fraction_at-Forms rest none {group} e h = ground arith
fraction_at-Forms rest (some s) {group} e h =
    let (a, b, c) = fraction_of-eq (span_digits s).0 (span_digits s).1 h in
    let whole : group <> "Z" ≡ s = sym (ap₂ (λ x y. x <> y) a b) ∙ span_digits-append s in
    inr (skip-eq "." rest e ∙ ap (λ x. "." <> x) (sym whole), c)

-- The two forms of what follows the seconds.
match_fraction-Forms :
    (rest : String) {group : String} → match_fraction rest ≡ some group → Forms rest group
unfolding match_fraction
match_fraction-Forms rest h = fraction_at-Forms rest (skip "." rest) refl h

-- A timestamp that matches, with its two groups.
pub record Groups (value seconds fraction : String) : Type 0 where
  pub no_dot : lacks b'.' seconds ≡ true
  pub short : text_length fraction ≤ 9
  pub text :
      ((value ≡ seconds <> "Z") × (fraction ≡ "")) ⊎ (value ≡ seconds <> ("." <> (fraction <> "Z")))

groups_of :
    (value rest fraction : String)
    → Cut 19 value rest
    → Forms rest fraction
    → Groups value (take_chars 19 value) fraction
unfolding text_length
groups_of value rest fraction c (inl (z, e)) =
    let t : take_chars 19 value ≡ c.part =
      ap (take_chars 19) c.whole ∙ take_chars-append 19 c.part rest c.size in
    rw t (record {
      no_dot = c.no_dot;
      short = rw e (omega arith);
      text = inl (c.whole ∙ ap (λ x. c.part <> x) z, e);
    })
groups_of value rest fraction c (inr (z, l)) =
    let t : take_chars 19 value ≡ c.part =
      ap (take_chars 19) c.whole ∙ take_chars-append 19 c.part rest c.size in
    rw t (record { no_dot = c.no_dot; short = l; text = inr (c.whole ∙ ap (λ x. c.part <> x) z) })

pub timestamp_groups-Groups :
    (value seconds fraction : String)
    → timestamp_groups value ≡ some (seconds, fraction)
    → Groups value seconds fraction
unfolding timestamp_groups
timestamp_groups-Groups value seconds fraction h =
    let (rest, m₁, h₁) = some-bind (skip_datetime value) _ h in
    let (group, m₂, h₂) = some-bind (match_fraction rest) _ h₁ in
    let g =
      groups_of value rest group (Cut-skip_datetime value m₁) (match_fraction-Forms rest m₂) in
    let pair = some-injective _ _ h₂ in
    subst₂ (λ s f. Groups value s f) (ap (λ x. x.0) pair) (ap (λ x. x.1) pair) g
