-- ===== src/Common/RunIds/Shape.antt =====
-- What the accepted Run IDs look like, and the family that is read out of them.
use Prim.Native.Char.{Char}
use where_to_tls.Base.{
  ℕ, zero, suc, String, ◌<>◌, ◌≡◌, refl, ap, ◌∙◌, true, false, none, some, ok, arith, nat_eq,
}
use where_to_tls.Base.Text.{
  is_digits, skip-eq, skip-append, skip_digits-eq, skip_digits-append, some-bind, skip-cons, skip,
  skip_digits, is_digit, is_char,
}
use text.Mathlib.TextLemmas.{cons-append}
use where_to_tls.Config.{Family}
use where_to_tls.Common.RunIds.{
  take_family, is_slug, accept_slug, match_run_id, family_here, search_family, run_family,
}

-- Nothing begins at a character that is no dash.
family_here_ne :
    (c : Char) (s : String) → is_char b'-' c ≡ false → family_here (String.◌∷◌ c s) ≡ none
unfolding family_here skip
family_here_ne c s h = rw h refl

search_family-cons :
    (c : Char) (s : String)
    → is_char b'-' c ≡ false
    → search_family (String.◌∷◌ c s) ≡ search_family s
unfolding search_family
search_family-cons c s h = rw (family_here_ne c s h, search_family) refl

digit_no_dash : (c : Char) → is_digit c ≡ true → is_char b'-' c ≡ false
digit_no_dash c h = ground arith

search_family-skip_digits :
    (n : ℕ) (s r : String) → skip_digits n s ≡ some r → search_family s ≡ search_family r
unfolding skip_digits
search_family-skip_digits zero s r h = ground arith
search_family-skip_digits (suc n) String.[] r h = cc
search_family-skip_digits (suc n) (String.◌∷◌ c s) r h =
    ground (arith, search_family-skip_digits n s r, search_family-cons c s, digit_no_dash c)

-- The same for a literal character that is no dash.
search_family-skip_char :
    (c : Char) (s r : String)
    → is_char b'-' c ≡ false
    → skip (String.◌∷◌ c String.[]) s ≡ some r
    → search_family s ≡ search_family r
unfolding skip
search_family-skip_char c String.[] r n h = cc
search_family-skip_char c (String.◌∷◌ d s) r n h = ground (arith, search_family-cons d s)

family_here_found :
    (s s₁ s₂ s₃ : String) (family : Family)
    → skip "-blog_tls_" s ≡ some s₁
    → take_family s₁ ≡ some (family, s₂)
    → skip "-" s₂ ≡ some s₃
    → family_here s ≡ some family
unfolding family_here
family_here_found s s₁ s₂ s₃ family a b c = ground (arith, a, b, c)

search_family-here :
    (s : String) (family : Family) → family_here s ≡ some family → search_family s ≡ some family
unfolding search_family family_here skip
search_family-here String.[] family h = h
search_family-here (String.◌∷◌ c s) family h = rw (h, search_family) refl

z_no_dash : (c : Char) → is_char b'Z' c ≡ true → is_char b'-' c ≡ false
z_no_dash c h = ground arith

-- The text after "Z" begins where the search stops.
search_family_at_mark :
    (s s₁ s₂ s₃ : String) (family : Family)
    → skip "Z-blog_tls_" s ≡ some s₁
    → take_family s₁ ≡ some (family, s₂)
    → skip "-" s₂ ≡ some s₃
    → search_family s ≡ some family
search_family_at_mark String.[] s₁ s₂ s₃ family a b c = unfold skip in cc
search_family_at_mark (String.◌∷◌ d s) s₁ s₂ s₃ family a b c =
    let (z, dash) = skip-cons "Z" "-blog_tls_" d s a in
    search_family-cons d s (z_no_dash d z)
    ∙ search_family-here s family (family_here_found s s₁ s₂ s₃ family dash b c)

accept_slug-eq : (f : Family) (s : String) {g : Family} → accept_slug f s ≡ some g → f ≡ g
unfolding accept_slug
accept_slug-eq f s {g} h = ground arith

-- The rests of a match, one after each part of the pattern.
record Steps (s : String) (family : Family) : Type 0 where
  s₁ : String
  s₂ : String
  s₃ : String
  s₄ : String
  s₅ : String
  s₆ : String
  date : skip_digits 8 s ≡ some s₁
  letter : skip "T" s₁ ≡ some s₂
  time : skip_digits 6 s₂ ≡ some s₃
  mark : skip "Z-blog_tls_" s₃ ≡ some s₄
  tag : take_family s₄ ≡ some (family, s₅)
  dash : skip "-" s₅ ≡ some s₆
  slug : is_slug s₆ ≡ true

accept_slug-is_slug :
    (f : Family) (s : String) {g : Family} → accept_slug f s ≡ some g → is_slug s ≡ true
unfolding accept_slug
accept_slug-is_slug f s {g} h = ground arith

match-Steps : (s : String) (family : Family) → match_run_id s ≡ some family → Steps s family
unfolding match_run_id
match-Steps s family h =
    let (s₁, m₁, h₁) = some-bind (skip_digits 8 s) _ h in
    let (s₂, m₂, h₂) = some-bind (skip "T" s₁) _ h₁ in
    let (s₃, m₃, h₃) = some-bind (skip_digits 6 s₂) _ h₂ in
    let (s₄, m₄, h₄) = some-bind (skip "Z-blog_tls_" s₃) _ h₃ in
    let (found, m₅, h₅) = some-bind (take_family s₄) _ h₄ in
    let (s₆, m₆, h₆) = some-bind (skip "-" found.1) _ h₅ in
    record {
      s₁ = s₁;
      s₂ = s₂;
      s₃ = s₃;
      s₄ = s₄;
      s₅ = found.1;
      s₆ = s₆;
      date = m₁;
      letter = m₂;
      time = m₃;
      mark = m₄;
      tag = m₅ ∙ ap (λ f. some (f, found.1)) (accept_slug-eq found.0 s₆ h₆);
      dash = m₆;
      slug = accept_slug-is_slug found.0 s₆ h₆;
    }

run_family-Steps : (s : String) (family : Family) → Steps s family → run_family s ≡ ok family
unfolding run_family nat_eq
run_family-Steps s family r =
    rw
      (
        search_family-skip_digits 8 s r.s₁ r.date,
        search_family-skip_char "T" r.s₁ r.s₂ refl r.letter,
        search_family-skip_digits 6 r.s₂ r.s₃ r.time,
        search_family_at_mark r.s₃ r.s₄ r.s₅ r.s₆ family r.mark r.tag r.dash,
      )
      refl

pub run_family_of_match :
    (s : String) (family : Family) → match_run_id s ≡ some family → run_family s ≡ ok family
run_family_of_match s family h = run_family-Steps s family (match-Steps s family h)

-- The alternative of the pattern that names a family.
abbrev pub family_tag : Family → String
family_tag Family.baseline = "baseline"
family_tag Family.linear = "linear_peak"
family_tag Family.race = "race"

take_family-eq : (s r : String) (f : Family) → take_family s ≡ some (f, r) → s ≡ family_tag f <> r
unfolding take_family
take_family-eq s r f h =
    ground (
      arith,
      skip-eq "baseline" s {r = r},
      skip-eq "linear_peak" s {r = r},
      skip-eq "race" s {r = r},
    )

skip_other : (r : String) → skip "baseline" ("linear_peak" <> r) ≡ none
unfolding skip nat_eq
skip_other r = rw (cons-append "l" "inear_peak" r) refl

skip_others :
    (r : String)
    → (skip "baseline" ("race" <> r) ≡ none) × (skip "linear_peak" ("race" <> r) ≡ none)
unfolding skip nat_eq
skip_others r = (rw (cons-append "r" "ace" r) refl, rw (cons-append "r" "ace" r) refl)

take_family-append : (f : Family) (r : String) → take_family (family_tag f <> r) ≡ some (f, r)
unfolding take_family
take_family-append Family.baseline r = rw (skip-append "baseline" r, take_family) refl
take_family-append Family.linear r =
    rw (skip_other r, skip-append "linear_peak" r, take_family) refl
take_family-append Family.race r =
    rw ((skip_others r).0, (skip_others r).1, skip-append "race" r, take_family) refl

-- A text of the pattern, taken apart.
pub record IsRunId (s : String) (family : Family) : Type 0 where
  pub date : String
  pub time : String
  pub slug : String
  pub text : s ≡ date <> ("T" <> (time <> ("Z-blog_tls_" <> (family_tag family <> ("-" <> slug)))))
  pub date_digits : is_digits 8 date ≡ true
  pub time_digits : is_digits 6 time ≡ true
  pub slug_chars : is_slug slug ≡ true

Steps-IsRunId : (s : String) (family : Family) → Steps s family → IsRunId s family
Steps-IsRunId s family r =
    let (date, e₁, d₁) = skip_digits-eq 8 s r.date in
    let (time, e₂, d₂) = skip_digits-eq 6 r.s₂ r.time in
    record {
      date = date;
      time = time;
      slug = r.s₆;
      text = cc (
        e₁,
        skip-eq "T" r.s₁ r.letter,
        e₂,
        skip-eq "Z-blog_tls_" r.s₃ r.mark,
        take_family-eq r.s₄ r.s₅ family r.tag,
        skip-eq "-" r.s₅ r.dash,
      );
      date_digits = d₁;
      time_digits = d₂;
      slug_chars = r.slug;
    }

pub match_run_id-IsRunId :
    (s : String) (family : Family) → match_run_id s ≡ some family → IsRunId s family
match_run_id-IsRunId s family h = Steps-IsRunId s family (match-Steps s family h)

pub IsRunId-match_run_id :
    (s : String) (family : Family) → IsRunId s family → match_run_id s ≡ some family
unfolding match_run_id accept_slug
IsRunId-match_run_id s family r =
    rw
      (
        r.text,
        skip_digits-append 8 r.date _ r.date_digits,
        skip-append "T" _,
        skip_digits-append 6 r.time _ r.time_digits,
        skip-append "Z-blog_tls_" _,
        take_family-append family _,
        skip-append "-" r.slug,
        r.slug_chars,
      )
      refl
