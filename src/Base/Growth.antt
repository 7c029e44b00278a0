-- ===== src/Base/Growth.antt =====
-- Dicts that only gain entries.
use mathlib.Core.Path.{◌≡◌, sym, ap, ◌∙◌, subst}
use mathlib.Core.Logic.{inl, inr}
use mathlib.Core.Bool.{false, not, false≢true}
use mathlib.Core.Option.{none, some}
use mathlib.Core.List.{[], ◌∷◌}
use native.Mathlib.Omega.{arith}
use where_to_tls.Base.Equality.{Eq, ◌==◌}
use where_to_tls.Base.Sets.{Bool-cases, Option-cases, eq_of_test}
use where_to_tls.Base.Loops.{AllItems}
use where_to_tls.Base.Faults.{
  Fault, Result, ok, raise_if, raise_if-eq-ok, ◌>>◌, ok-injective, passed,
}
use where_to_tls.Base.Mapping.{
  Dict, values, lookup, insert, get_or, has_key, get_or_of_lookup, lookup-insert_self,
  lookup-insert_ne, lookup-has_key, AllValues, AllValues-lookup,
}

module _ {ℓ κ} {K : Type ℓ} {V : Type κ} ⦃e : Eq K⦄ where
  -- Every entry of the one is in the other.
  abbrev pub Extends : Dict K V → Dict K V → Type (ℓ ⊔ κ)
  Extends part whole = (k : K) (v : V) → lookup k part ≡ some v → lookup k whole ≡ some v

  pub Extends-trans : (a b c : Dict K V) → Extends a b → Extends b c → Extends a c
  Extends-trans a b c f g k v h = g k v (f k v h)

  -- A key that has a value is not a new key.
  pub old_key :
      (d : Dict K V) (j k : K) {v : V}
      → has_key k d ≡ false
      → lookup j d ≡ some v
      → (j == k) ≡ false
  old_key d j k free there = elim (Bool-cases (j == k)) [
    | inl same ↦ absurd (
        false≢true
          (sym free ∙ ap (λ i. has_key i d) (sym (eq_of_test j k same)) ∙ lookup-has_key j d there))
    | inr other ↦ other
  ]

  -- A new entry overwrites nothing.
  pub Extends-insert :
      (d : Dict K V) (k : K) (v : V) → has_key k d ≡ false → Extends d (insert k v d)
  Extends-insert d k v free j w h = lookup-insert_ne j k v d (old_key d j k free h) ∙ h

  pub get_or_missing : (k : K) (v : V) (d : Dict K V) → lookup k d ≡ none → get_or k v d ≡ v
  get_or_missing k v d h = ground arith

  -- What holds of the default and of every entry holds of `d.get(k, default)`.
  pub get_or-AllValues {μ} :
      (P : K → V → Type μ) (d : Dict K V) (k : K) (default : V)
      → AllValues P d
      → P k default
      → P k (get_or k default d)
  get_or-AllValues P d k default all p = elim (Option-cases (lookup k d)) [
    | inl missing ↦ subst (P k) (sym (get_or_missing k default d missing)) p
    | inr (v, found) ↦
        subst (P k) (sym (get_or_of_lookup k v default d found))
          (AllValues-lookup P d k v all found)
  ]

  -- `if d.setdefault(k, v) != v: raise fault`
  unfoldable pub agree : ⦃f : Eq V⦄ → K → V → Fault → Dict K V → Result (Dict K V)
  agree k v fault d = do raise_if (not (get_or k v d == v)) fault; ok (insert k (get_or k v d) d)

  module _ ⦃f : Eq V⦄ (k : K) (v : V) (fault : Fault) (d d' : Dict K V)
      (h : agree k v fault d ≡ ok d') where
    agree-eq : (get_or k v d ≡ v) × (insert k v d ≡ d')
    unfolding agree
    agree-eq =
        let (same, h₁) =
          raise_if-eq-ok (not (get_or k v d == v)) fault (ok (insert k (get_or k v d) d)) h in
        let e = eq_of_test (get_or k v d) v (passed _ same) in
        (e, ap (λ w. insert k w d) (sym e) ∙ ok-injective h₁)

    pub agree-lookup : lookup k d' ≡ some v
    agree-lookup = ap (lookup k) (sym agree-eq.1) ∙ lookup-insert_self k v d

    pub agree-Extends : Extends d d'
    agree-Extends j w there = elim (Bool-cases (j == k)) [
      | inr other ↦ ap (lookup j) (sym agree-eq.1) ∙ lookup-insert_ne j k v d other ∙ there
      | inl same ↦
          let e = eq_of_test j k same in
          let there' : lookup k d ≡ some w = ap (λ i. lookup i d) (sym e) ∙ there in
          ap (λ i. lookup i d') e
          ∙ agree-lookup
          ∙ ap some (sym agree-eq.0 ∙ get_or_of_lookup k w v d there')
    ]

module _ {ℓ κ μ ν} {K : Type ℓ} {V : Type κ} where
  pub AllValues-mono :
      (P : K → V → Type μ) (Q : K → V → Type ν) (d : Dict K V)
      → ((k : K) (v : V) → P k v → Q k v)
      → AllValues P d
      → AllValues Q d
  AllValues-mono P Q [] w h = tt
  AllValues-mono P Q ((k, v) ∷ d) w h = (w k v h.0, AllValues-mono P Q d w h.1)

-- Each value has a key at which the property holds.
pub AllValues-values {ℓ κ μ} :
    {K : Type ℓ} {V : Type κ} (P : K → V → Type μ) (d : Dict K V)
    → AllValues P d
    → AllItems (λ v. (k : K) × P k v) (values d)
AllValues-values P [] h = tt
AllValues-values P ((k, v) ∷ d) h = ((k, h.0), AllValues-values P d h.1)
