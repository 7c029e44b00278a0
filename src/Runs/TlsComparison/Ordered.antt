-- ===== src/Runs/TlsComparison/Ordered.antt =====
-- runs.py: the configurations of a finished cell, and the pairs that are read off them.
use where_to_tls.Base.{
  String, ◌≡◌, refl, sym, ap, ◌∙◌, subst, Bool, true, false, ◌&&◌, ◌||◌, ◌==◌, none, some, List, [],
  ◌∷◌, Dict, keys, values, lookup, has_key, has_key-lookup, lookup-has_key, contains,
  contains-append, contains-select, select, map, NodupKeys, AllValues, AllValues-lookup, Bool-cases,
  Option-cases, inl, inr, eq_of_test, test_of_eq, string_eq, pair_eq, arith, if◌then◌else◌,
}
use mathlib.Core.List.{flat_map}
use mathlib.Core.Option.{none-ne-some}
use where_to_tls.Base.Growth.{old_key}
use where_to_tls.Config.{Stack, stack_eq, family_eq, profile_eq}
use where_to_tls.Runs.Summary.{Cell}
use where_to_tls.Runs.Summary.Groups.{TlsKey}
use where_to_tls.Runs.TlsComparison.{Pair, pair_of, taken}

module _ (configurations : Dict TlsKey Cell) where
  taken_missing :
      (k : TlsKey) (table : List TlsKey)
      → lookup k configurations ≡ none
      → taken configurations (k ∷ table) ≡ taken configurations table
  taken_missing k table h = ground (arith, h)

  taken_found :
      (k : TlsKey) (table : List TlsKey) (source : Cell)
      → lookup k configurations ≡ some source
      → taken configurations (k ∷ table) ≡ (k, source) ∷ taken configurations table
  taken_found k table source h = ground (arith, h)

  no_key : (k : TlsKey) → lookup k configurations ≡ none → has_key k configurations ≡ false
  no_key k h = elim (Bool-cases (has_key k configurations)) [
    | inl there ↦ absurd (none-ne-some _ (sym h ∙ (has_key-lookup k configurations there).1))
    | inr missing ↦ missing
  ]

  pub keys-taken :
      (table : List TlsKey)
      → keys (taken configurations table)
        ≡ select (λ configuration. has_key configuration configurations) table
  keys-taken [] = refl
  keys-taken (k ∷ table) = elim (Option-cases (lookup k configurations)) [
    | inl missing ↦
        ap keys (taken_missing k table missing)
        ∙ keys-taken table
        ∙ ground (arith, no_key k missing)
    | inr (source, found) ↦
        ap keys (taken_found k table source found)
        ∙ ap (λ ks. k ∷ ks) (keys-taken table)
        ∙ ground (arith, lookup-has_key k configurations found)
  ]

  same_lookup : (j k : TlsKey) → (k == j) ≡ true → lookup k configurations ≡ lookup j configurations
  same_lookup j k h = ap (λ i. lookup i configurations) (eq_of_test k j h)

  pub lookup-taken :
      (table : List TlsKey) (k : TlsKey)
      → lookup k (taken configurations table)
        ≡ (if contains table k then lookup k configurations else none)
  lookup-taken [] k = refl
  lookup-taken (j ∷ table) k = elim (Option-cases (lookup j configurations)) [
    | inl missing ↦
        ground
          (arith, taken_missing j table missing, lookup-taken table k, same_lookup j k, missing)
    | inr (source, found) ↦
        ground
          (arith, taken_found j table source found, lookup-taken table k, same_lookup j k, found)
  ]

  pub AllValues-taken {ℓ} :
      (P : TlsKey → Cell → Type ℓ) (table : List TlsKey)
      → AllValues P configurations
      → AllValues P (taken configurations table)
  AllValues-taken P [] h = tt
  AllValues-taken P (k ∷ table) h = elim (Option-cases (lookup k configurations)) [
    | inl missing ↦
        subst (AllValues P) (sym (taken_missing k table missing)) (AllValues-taken P table h)
    | inr (source, found) ↦
        subst (AllValues P) (sym (taken_found k table source found))
          (AllValues-lookup P configurations k source h found, AllValues-taken P table h)
  ]

-- The pairs of the scenarios and the stacks that a test lets through.
contains-row :
    (s : String) (stacks : List Stack) (scenario : String) (stack : Stack)
    → contains {A = Pair} (map (λ t. (s, t)) stacks) (scenario, stack)
      ≡ (scenario == s && contains stacks stack)
unfolding pair_eq
contains-row s [] scenario stack = ground arith
contains-row s (t ∷ stacks) scenario stack = ground (arith, contains-row s stacks scenario stack)

pub contains-pairs :
    (test : Pair → Bool) (scenarios : List String) (stacks : List Stack) (scenario : String)
    (stack : Stack)
    → contains (flat_map (λ s. select test (map (λ t. (s, t)) stacks)) scenarios) (scenario, stack)
      ≡ (contains scenarios scenario && (contains stacks stack && test (scenario, stack)))
unfolding flat_map
contains-pairs test [] stacks scenario stack = refl
contains-pairs test (s ∷ scenarios) stacks scenario stack =
    let row = select test (map (λ t. (s, t)) stacks) in
    let rest = flat_map (λ s'. select test (map (λ t. (s', t)) stacks)) scenarios in
    ground (
      arith,
      contains-append row rest (scenario, stack),
      contains-select test (map (λ t. (s, t)) stacks) (scenario, stack),
      contains-row s stacks scenario stack,
      contains-pairs test scenarios stacks scenario stack,
    )

pub contains-values :
    (d : Dict TlsKey Cell) (k : TlsKey) (source : Cell) (pair : Pair)
    → lookup k d ≡ some source
    → contains (map pair_of (keys source.executions)) pair ≡ true
    → contains (flat_map (λ (c : Cell). map pair_of (keys c.executions)) (values d)) pair ≡ true
unfolding flat_map
contains-values [] k source pair h there = cc
contains-values ((j, c) ∷ d) k source pair h there =
    let own = map pair_of (keys c.executions) in
    let rest = flat_map (λ (c' : Cell). map pair_of (keys c'.executions)) (values d) in
    elim (Bool-cases (k == j)) [
      | inl same ↦
          let e : c ≡ source = ground (arith, same, h) in
          contains-append own rest pair
          ∙ ap (λ (x : Cell). contains (map pair_of (keys x.executions)) pair || contains rest pair)
              e
          ∙ ground (arith, there)
      | inr other ↦ ground (
        arith,
        contains-append own rest pair,
        contains-values d k source pair (ground (arith, other, h)) there,
      )
    ]

lookup_later :
    (d : Dict TlsKey Cell) (j k : TlsKey) (c source : Cell)
    → has_key j d ≡ false
    → lookup k d ≡ some source
    → lookup k ((j, c) ∷ d) ≡ lookup k d
lookup_later d j k c source free found = ground (arith, old_key d k j free found)

pub values-contains :
    (d : Dict TlsKey Cell) (pair : Pair)
    → NodupKeys d
    → contains (flat_map (λ (c : Cell). map pair_of (keys c.executions)) (values d)) pair ≡ true
    → (k : TlsKey) × (source : Cell) × (lookup k d ≡ some source)
      × (contains (map pair_of (keys source.executions)) pair ≡ true)
unfolding flat_map
values-contains [] pair u h = cc
values-contains ((j, c) ∷ d) pair u h =
    let own = map pair_of (keys c.executions) in
    let rest = flat_map (λ (c' : Cell). map pair_of (keys c'.executions)) (values d) in
    elim (Bool-cases (contains own pair)) [
      | inl here ↦ (j, c, ground (arith, test_of_eq j j refl), here)
      | inr not_here ↦
          let (k, source, found, there) =
            values-contains d pair u.1
              (ground (arith, contains-append own rest pair, not_here, h)) in
          (k, source, lookup_later d j k c source u.0 found ∙ found, there)
    ]
