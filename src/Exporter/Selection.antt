-- ===== src/Exporter/Selection.antt =====
-- exporter.py: which charts `select_charts` selects.
use where_to_tls.Base.{
  passed, ◌⊎◌, ◌↔◌, ◌&&◌, ◌||◌, test_of_eq, AllItems-mono, String, ◌≡◌, refl, sym, ap, ◌∙◌, subst,
  Bool, true, false, not, List, [], ◌∷◌, keys, lookup, contains, difference, is_empty, is_nodup,
  is_nodup-NodupList, NodupList, NodupKeys, select, any, eq_of_test, Bool-cases, inl, inr, ok,
  raise_if-eq-ok, >>=-eq-ok, ok-injective, for_loop, AllItems, unknown_charts, unmatched_charts,
  no_charts, string_eq, ◌==◌, arith, some,
}
use mathlib.Core.Bool.{false≢true}
use where_to_tls.Base.Occurs.{Occurs, here, there}
use where_to_tls.Base.Text.{removesuffix}
use mathlib.Core.Option.{some-injective}
use where_to_tls.Config.{Family, family_eq}
use where_to_tls.Exporter.{
  chart_names, ChartSpec, Specs, chart_specs, add_timeline, add_bars, add_failure_bars, matches,
  known_choices, is_wanted, select_from, select_charts,
}

pub distinct_names : is_nodup chart_names ≡ true
unfolding chart_names string_eq
distinct_names = refl

specs_named : (specs : Specs) × (chart_specs ≡ ok specs) × (keys specs ≡ chart_names)
unfolding chart_specs chart_names for_loop add_timeline add_bars add_failure_bars string_eq
specs_named = (_, refl, refl)

keys-select :
    (p : String × ChartSpec → Bool) (specs : Specs) (name : String)
    → contains (keys (select p specs)) name ≡ true
    → contains (keys specs) name ≡ true
keys-select p [] name h = cc
keys-select p ((other, s) ∷ specs) name h = ground (arith, keys-select p specs name)

-- A selected item of a dict, whose keys are distinct.
select-lookup :
    (p : String × ChartSpec → Bool) (specs : Specs) (name : String) (spec : ChartSpec)
    → NodupKeys specs
    → lookup name specs ≡ some spec
    → contains (keys (select p specs)) name ≡ p (name, spec)
select-lookup p [] name spec u h = cc
select-lookup p ((other, s) ∷ specs) name spec u h = elim (Bool-cases (name == other)) [
  | inr differs ↦ ground (arith, select-lookup p specs name spec u.1, differs)
  | inl same ↦
      let e = eq_of_test name other same in
      let f = some-injective s spec (rw same at h) in
      let item : p (other, s) ≡ p (name, spec) =
        ap (λ n. p (n, s)) (sym e) ∙ ap (λ x. p (name, x)) f in
      let once : contains (keys specs) name ≡ false = ap (contains (keys specs)) e ∙ u.0 in
      ground (arith, keys-select p specs name, item, once, same)
]

unmatched_none :
    (selections : List String) (m : String → Bool)
    → is_empty (select (λ choice. not (m choice)) selections) ≡ true
    → AllItems (λ choice. m choice ≡ true) selections
unmatched_none [] m h = tt
unmatched_none (choice ∷ selections) m h = ground (arith, unmatched_none selections m)

-- A choice names a chart: by its file, by its file without the suffix, or by its metric.
pub data Names (choice name : String) (spec : ChartSpec) : Type 0 where
  by_file : choice ≡ name → Names choice name spec
  by_stem : choice ≡ removesuffix ".svg" name → Names choice name spec
  by_metric : choice ≡ spec.metric → Names choice name spec

-- A chart is asked for: its family and its form are, and one of the choices names it, if there is one.
pub record IsAsked (selections export_types : List String) (families : List Family) (name : String)
    (spec : ChartSpec) : Type 0 where
  pub of_family : contains families spec.family ≡ true
  pub of_form : contains export_types spec.form ≡ true
  pub chosen :
      (selections ≡ [])
      ⊎ ((choice : String) × (contains selections choice ≡ true) × Names choice name spec)

matches-Names :
    (choice name : String) (spec : ChartSpec)
    → matches choice (name, spec) ≡ true
    → Names choice name spec
matches-Names choice name spec h = elim (Bool-cases (choice == name)) [
  | inl same ↦ by_file (eq_of_test choice name same)
  | inr other ↦ elim (Bool-cases (choice == removesuffix ".svg" name)) [
    | inl same ↦ by_stem (eq_of_test choice (removesuffix ".svg" name) same)
    | inr differs ↦ by_metric (eq_of_test choice spec.metric (ground (arith, h, other, differs)))
  ]
]

Names-matches :
    (choice name : String) (spec : ChartSpec)
    → Names choice name spec
    → matches choice (name, spec) ≡ true
Names-matches choice name spec (by_file e) = ground (arith, test_of_eq choice name e)
Names-matches choice name spec (by_stem e) =
    ground (arith, test_of_eq choice (removesuffix ".svg" name) e)
Names-matches choice name spec (by_metric e) = ground (arith, test_of_eq choice spec.metric e)

any-contains :
    (m : String → Bool) (selections : List String)
    → any m selections ≡ true
    → (choice : String) × (contains selections choice ≡ true) × (m choice ≡ true)
any-contains m [] h = absurd (false≢true h)
any-contains m (choice ∷ selections) h = elim (Bool-cases (m choice)) [
  | inl is ↦ (choice, ground arith, is)
  | inr is_not ↦
      let (other, listed, is) = any-contains m selections (ground (arith, h, is_not)) in
      (other, ground (arith, listed), is)
]

contains-any :
    (m : String → Bool) (selections : List String) (choice : String)
    → contains selections choice ≡ true
    → m choice ≡ true
    → any m selections ≡ true
contains-any m [] choice h is = absurd (false≢true h)
contains-any m (other ∷ selections) choice h is = elim (Bool-cases (choice == other)) [
  | inl same ↦ ground (arith, ap m (sym (eq_of_test choice other same)) ∙ is)
  | inr differs ↦ ground (arith, contains-any m selections choice (ground (arith, h, differs)) is)
]

chosen_of :
    (selections : List String) (name : String) (spec : ChartSpec)
    → (is_empty selections || any (λ choice. matches choice (name, spec)) selections) ≡ true
    → (selections ≡ [])
      ⊎ ((choice : String) × (contains selections choice ≡ true) × Names choice name spec)
chosen_of [] name spec h = inl refl
chosen_of (first ∷ selections) name spec h =
    let (choice, listed, is) =
      any-contains (λ choice. matches choice (name, spec)) (first ∷ selections) h in
    inr (choice, listed, matches-Names choice name spec is)

of_chosen :
    (selections : List String) (name : String) (spec : ChartSpec)
    → (selections ≡ [])
      ⊎ ((choice : String) × (contains selections choice ≡ true) × Names choice name spec)
    → (is_empty selections || any (λ choice. matches choice (name, spec)) selections) ≡ true
of_chosen selections name spec (inl none_chosen) =
    ap (λ xs. is_empty xs || any (λ choice. matches choice (name, spec)) xs) none_chosen
of_chosen selections name spec (inr (choice, listed, names)) =
    let found =
      contains-any (λ c. matches c (name, spec)) selections choice listed
        (Names-matches choice name spec names) in
    ground (arith, found)

is_wanted_iff :
    (selections export_types : List String) (families : List Family) (name : String)
    (spec : ChartSpec)
    → (is_wanted selections export_types families (name, spec) ≡ true)
      ↔ IsAsked selections export_types families name spec
is_wanted_iff selections export_types families name spec = (
  λ h. record {
    of_family = ground (arith, h);
    of_form = ground (arith, h);
    chosen = chosen_of selections name spec (ground (arith, h));
  },
  λ a. ground (arith, a.of_family, a.of_form, of_chosen selections name spec a.chosen),
)

-- A chart of the specs that the options and the choices ask for.
pub record IsSelection (specs : Specs) (selections export_types : List String)
    (families : List Family) (names : List String) : Type 0 where
  pub some_chart : is_empty names ≡ false
  -- One of the selected charts answers to each choice.
  pub each_choice :
      AllItems
        (λ choice.
          (name : String) × (spec : ChartSpec) × Occurs (name, spec) specs
          × IsAsked selections export_types families name spec
          × Names choice name spec)
        selections
  -- A chart is selected exactly if it is asked for.
  pub each_chart :
      (name : String) (spec : ChartSpec)
      → lookup name specs ≡ some spec
      → (contains names name ≡ true) ↔ IsAsked selections export_types families name spec
  pub known : (name : String) → contains names name ≡ true → contains chart_names name ≡ true

answered_by :
    (choice : String) (p : String × ChartSpec → Bool) (specs : Specs)
    → any (matches choice) (select p specs) ≡ true
    → (name : String) × (spec : ChartSpec) × Occurs (name, spec) specs
      × (p (name, spec) ≡ true)
      × (matches choice (name, spec) ≡ true)
answered_by choice p [] h = absurd (false≢true h)
answered_by choice p ((name, spec) ∷ specs) h =
    elim (Bool-cases (p (name, spec) && matches choice (name, spec))) [
      | inl both ↦
          (name, spec, here (name, spec) specs refl, ground (arith, both), ground (arith, both))
      | inr not_first ↦
          let (other, found, o, wanted, named) =
            answered_by choice p specs (ground (arith, h, not_first)) in
          (other, found, there (name, spec) specs o, wanted, named)
    ]

keys_empty : (specs : Specs) → is_empty specs ≡ false → is_empty (keys specs) ≡ false
keys_empty [] h = h
keys_empty (x ∷ specs) h = refl

select_from-IsSelection :
    (specs : Specs) (selections export_types : List String) (families : List Family)
    (names : List String)
    → keys specs ≡ chart_names
    → select_from specs selections export_types families ≡ ok names
    → IsSelection specs selections export_types families names
unfolding select_from
select_from-IsSelection specs selections export_types families names named h =
    let (known, h₁) =
      raise_if-eq-ok (not (is_empty (difference selections (known_choices specs))))
        (unknown_charts "") _ h in
    let chosen = select (is_wanted selections export_types families) specs in
    let (matched, h₂) =
      raise_if-eq-ok
        (not (is_empty (select (λ choice. not (any (matches choice) chosen)) selections)))
        (unmatched_charts "") _ h₁ in
    let (not_empty, h₃) = raise_if-eq-ok (is_empty chosen) (no_charts "") (ok (keys chosen)) h₂ in
    let distinct = subst NodupList (sym named) (is_nodup-NodupList chart_names distinct_names) in
    subst (IsSelection specs selections export_types families) (ok-injective h₃) (record {
      some_chart = keys_empty chosen not_empty;
      each_choice =
          AllItems-mono _ _ selections
            (λ choice answered.
              let (name, spec, occurs, wanted, answers) =
                answered_by choice (is_wanted selections export_types families) specs answered in
              (
                name,
                spec,
                occurs,
                (is_wanted_iff selections export_types families name spec).0 wanted,
                matches-Names choice name spec answers,
              ))
            (unmatched_none selections (λ choice. any (matches choice) chosen) (passed _ matched));
      each_chart = λ name spec m.
          let same =
            select-lookup (is_wanted selections export_types families) specs name spec distinct m in
          let iff = is_wanted_iff selections export_types families name spec in
          (λ listed. iff.0 (sym same ∙ listed), λ asked. same ∙ iff.1 asked);
      known = λ name m.
          ap (λ xs. contains xs name) (sym named)
          ∙ keys-select (is_wanted selections export_types families) specs name m;
    })

-- If `select_charts` returns, then the names it returns are names of charts and at least one; every
-- choice names a selected chart, by its file, its file without the suffix or its metric; and a chart
-- is selected exactly if its family and its form are asked for and there is no choice or one of
-- them names it.
pub select_charts-IsSelection :
    (selections export_types : List String) (families : List Family) (names : List String)
    → select_charts selections export_types families ≡ ok names
    → (specs : Specs) × (chart_specs ≡ ok specs)
      × IsSelection specs selections export_types families names
unfolding select_charts
select_charts-IsSelection selections export_types families names h =
    let (specs, built, h₁) = >>=-eq-ok chart_specs _ h in
    let (specs', built', named) = specs_named in
    let same : specs ≡ specs' = ok-injective (sym built ∙ built') in
    (
      specs,
      built,
      select_from-IsSelection specs selections export_types families names (ap keys same ∙ named)
          h₁,
    )
