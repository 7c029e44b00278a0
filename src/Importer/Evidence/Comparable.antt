-- ===== src/Importer/Evidence/Comparable.antt =====
-- import-results.py: the records that `require_comparable_tls_groups` lets be compared.
use where_to_tls.Base.{
  passed, String, ◌<>◌, ◌≡◌, refl, sym, ap, ◌∙◌, subst, Bool, true, false, not, ◌||◌, ◌==◌, ◌⊎◌,
  inl, inr, Bool-cases, Option, none, some, List, [], ◌∷◌, contains, contains-dedupe, dedupe,
  is_empty, map, AllItems, Fault, ok, err, raise_if-eq-ok, >>=-eq-ok, ok-injective, for_each,
  bad_preflight_evidence, bad_plaintext_group, incomparable_groups, eq_of_test, test_of_eq,
  string_eq, arith,
}
use mathlib.Core.Bool.{false≢true}
use where_to_tls.Importer.Json.{Json, Fields, text, get_or_json, is_text}
use where_to_tls.Importer.Evidence.{
  Metadata, evidence_of, is_evidence, supported, group_of, configured_of, version_of, preflight_of,
  preflight_metadata, plaintext_metadata, legacy_metadata, tls_group_metadata, sole_key,
  require_comparable_tls_groups,
}

-- A measurement whose TLS version and group a preflight has shown.
pub record IsPreflight (fields : Fields) (key : String) : Type 0 where
  pub version : String
  pub group : String
  pub key_text : key ≡ version <> "/" <> group
  pub is_supported : supported (version_of fields) (group_of fields) ≡ some (version, group)
  pub configured : is_text group (configured_of fields) ≡ true
  pub evidence : Fields
  pub evidence_read : evidence_of fields ≡ ok evidence
  pub valid : is_evidence version group evidence ≡ true

-- A measurement without TLS.
pub record IsPlaintext (fields : Fields) (key : String) : Type 0 where
  pub key_text : key ≡ "none"
  pub no_version : is_text "none" (version_of fields) ≡ true
  pub no_group : is_text "none" (group_of fields) ≡ true
  pub none_configured : is_text "none" (configured_of fields) ≡ true

-- What `tls_group_metadata` shows of a record, with the comparison key that it gives.
abbrev pub Shown : Fields → String → Type 0
Shown fields key = IsPreflight fields key ⊎ (IsPlaintext fields key ⊎ (key ≡ "unverified"))

preflight_of-IsPreflight :
    (fields : Fields) (found : Option (String × String)) (m : Metadata)
    → supported (version_of fields) (group_of fields) ≡ found
    → preflight_of fields found ≡ ok m
    → IsPreflight fields m.comparison_key
unfolding preflight_of
preflight_of-IsPreflight fields none m e h = cc
preflight_of-IsPreflight fields (some (version, group)) m e h =
    let (configured, h₁) =
      raise_if-eq-ok (not (is_text group (configured_of fields))) (bad_preflight_evidence "") _ h in
    let (evidence, read, h₂) = >>=-eq-ok (evidence_of fields) _ h₁ in
    let (valid, h₃) =
      raise_if-eq-ok (not (is_evidence version group evidence)) (bad_preflight_evidence "") _ h₂ in
    record {
      version = version;
      group = group;
      key_text = ap (λ (x : Metadata). x.comparison_key) (sym (ok-injective h₃));
      is_supported = e;
      configured = passed _ configured;
      evidence = evidence;
      evidence_read = read;
      valid = passed _ valid;
    }

three_tests :
    (a b c : Bool) → (not a || not b || not c) ≡ false → (a ≡ true) × (b ≡ true) × (c ≡ true)
three_tests a b c h = ground arith

plaintext_metadata-IsPlaintext :
    (fields : Fields) (m : Metadata)
    → plaintext_metadata fields ≡ ok m
    → IsPlaintext fields m.comparison_key
unfolding plaintext_metadata
plaintext_metadata-IsPlaintext fields m h =
    let (tests, h₁) = raise_if-eq-ok _ (bad_plaintext_group "") _ h in
    let (v, g, c) =
      three_tests (is_text "none" (version_of fields)) (is_text "none" (group_of fields))
        (is_text "none" (configured_of fields)) tests in
    record {
      key_text = ap (λ (x : Metadata). x.comparison_key) (sym (ok-injective h₁));
      no_version = v;
      no_group = g;
      none_configured = c;
    }

err_is_not_ok {ℓ} : {A : Type ℓ} {fault : Fault} {a : A} → ¬ (err fault ≡ ok a)
err_is_not_ok h = cc

abbrev source_of : Fields → Json
source_of = get_or_json "key_exchange_group_source" (text "unverified-legacy")

tls_group_metadata-Shown :
    (fields : Fields) (m : Metadata)
    → tls_group_metadata fields ≡ ok m
    → Shown fields m.comparison_key
unfolding tls_group_metadata legacy_metadata preflight_metadata
tls_group_metadata-Shown fields m h =
    elim (Bool-cases (is_text "openssl-preflight" (source_of fields))) [
      | inl pre ↦ inl (preflight_of-IsPreflight fields _ m refl (rw pre at h))
      | inr not_pre ↦ elim (Bool-cases (is_text "not-applicable" (source_of fields))) [
        | inl plain ↦ inr (inl (plaintext_metadata-IsPlaintext fields m (rw (not_pre, plain) at h)))
        | inr not_plain ↦ elim (Bool-cases (is_text "unverified-legacy" (source_of fields))) [
          | inl legacy ↦ inr (
              inr (
                ap (λ (x : Metadata). x.comparison_key)
                  (sym (ok-injective (rw (not_pre, not_plain, legacy) at h)))))
          | inr other ↦ absurd (err_is_not_ok (rw (not_pre, not_plain, other) at h))
        ]
      ]
    ]

abbrev key_of : Metadata → String
key_of m = m.comparison_key

sole_key-eq-ok : (found : List String) (key : String) → sole_key found ≡ ok key → found ≡ key ∷ []
unfolding sole_key
sole_key-eq-ok [] key h = cc
sole_key-eq-ok (k ∷ []) key h = ap (λ x. x ∷ []) (ok-injective h)
sole_key-eq-ok (k ∷ j ∷ found) key h = cc

-- A measurement that can be compared under a key.
abbrev pub Verified : Fields → String → Type 0
Verified fields key = IsPreflight fields key ⊎ IsPlaintext fields key

Shown-Verified :
    (fields : Fields) (key : String)
    → ("unverified" == key) ≡ false
    → Shown fields key
    → Verified fields key
Shown-Verified fields key n (inl preflight) = inl preflight
Shown-Verified fields key n (inr (inl plain)) = inr plain
Shown-Verified fields key n (inr (inr unverified)) =
    absurd (false≢true (sym n ∙ test_of_eq "unverified" key (sym unverified)))

each_record :
    (key : String) (records : List Fields) (read : List Metadata)
    → ("unverified" == key) ≡ false
    → ((k : String) → contains (map key_of read) k ≡ true → k ≡ key)
    → for_each tls_group_metadata records ≡ ok read
    → AllItems (λ fields. Verified fields key) records
unfolding for_each
each_record key [] read n only h = tt
each_record key (fields ∷ records) read n only h =
    let (m, first, h₁) = >>=-eq-ok (tls_group_metadata fields) _ h in
    let (rest, others, h₂) = >>=-eq-ok (for_each tls_group_metadata records) _ h₁ in
    let split : m ∷ rest ≡ read = ok-injective h₂ in
    let same_at : (k : String) → contains (map key_of (m ∷ rest)) k ≡ contains (map key_of read) k =
      λ k. ap (λ xs. contains (map key_of xs) k) split in
    (
      Shown-Verified fields key n (
          subst (Shown fields)
            (only m.comparison_key (
              sym (same_at m.comparison_key)
              ∙ ground (arith, test_of_eq m.comparison_key m.comparison_key refl)))
            (tls_group_metadata-Shown fields m first)),
      each_record key records rest n (λ k c. only k (sym (same_at k) ∙ ground (arith, c))) others,
    )

some_record :
    (records : List Fields) (read : List Metadata) (key : String)
    → for_each tls_group_metadata records ≡ ok read
    → contains (map key_of read) key ≡ true
    → is_empty records ≡ false
unfolding for_each
some_record [] read key h c =
    absurd (false≢true (ap (λ xs. contains (map key_of xs) key) (ok-injective h) ∙ c))
some_record (fields ∷ records) read key h c = refl

-- If `require_comparable_tls_groups` returns a key, there is at least one record, and of every
-- record either the key is the supported TLS version and group that the record has, that are
-- configured for it and that its preflight evidence names, or the key is "none" and the record is of
-- a plaintext measurement.
pub require_comparable_tls_groups-Verified :
    (records : List Fields) (key : String)
    → require_comparable_tls_groups records ≡ ok key
    → (is_empty records ≡ false) × AllItems (λ fields. Verified fields key) records
unfolding require_comparable_tls_groups
require_comparable_tls_groups-Verified records key h =
    let (read, each, h₁) = >>=-eq-ok (for_each tls_group_metadata records) _ h in
    let (verified, h₂) =
      raise_if-eq-ok (contains (dedupe (map key_of read)) "unverified") (incomparable_groups "") _
        h₁ in
    let sole : dedupe (map key_of read) ≡ key ∷ [] =
      sole_key-eq-ok (dedupe (map key_of read)) key h₂ in
    let among : (k : String) → contains (map key_of read) k ≡ contains (key ∷ []) k =
      λ k. sym (contains-dedupe (map key_of read) k) ∙ ap (λ xs. contains xs k) sole in
    let other : contains (key ∷ []) "unverified" ≡ false =
      ap (λ xs. contains xs "unverified") (sym sole) ∙ verified in
    (
      some_record records read key each (among key ∙ ground (arith, test_of_eq key key refl)),
      each_record key records read (ground (arith, other))
          (λ k c. eq_of_test k key (ground (arith, among k, c))) each,
    )
