-- ===== src/Importer/RawFile/Owned.antt =====
-- analyze/files/import-results.py: the tags that `write_raw_file` makes of a record.
use where_to_tls.Base.{
  ◌⊎◌, String, ◌≡◌, refl, sym, ap, ◌∙◌, subst, true, false, not, ◌&&◌, ◌==◌, Option, some, none, [],
  ◌∷◌, ◌++◌, Dict, lookup, NodupKeys, AllItems, AllItems-mono, contains, Bool-cases, inl, inr, ok,
  or_raise-eq-ok, key_error, bad_preflight_evidence, bad_plaintext_group, err, Fault,
  raise_if-eq-ok, >>=-eq-ok, ok-injective, string_eq, eq_of_test,
}
use mathlib.Core.Option.{none-ne-some, some-injective}
use where_to_tls.Base.Occurs.{Occurs, here, there, Occurs-append, append-Occurs, Occurs-lookup}
use where_to_tls.Importer.Json.{
  Json, Fields, null, truth, int, real, array, object, text, get, get_or_json, is_text,
}
use where_to_tls.Importer.Evidence.{
  Metadata, supported, evidence_of, is_evidence, group_of, configured_of, version_of, preflight_of,
  preflight_metadata, plaintext_metadata, tls_group_metadata,
}
use where_to_tls.Importer.Tags.{execution_tags}
use where_to_tls.Importer.RawFile.{item_of, as_texts, group_tags, record_tags}
use where_to_tls.Importer.RawFile.Keys.{record_tags-NodupKeys}

-- `record.get("key_exchange_group_source", "unverified-legacy")`
abbrev source_of : Fields → Json
source_of = get_or_json "key_exchange_group_source" (text "unverified-legacy")

-- The tags have the TLS group of the record, the configured one, and the source of the evidence.
pub record HasGroup (summary : Fields) (own : Dict String Json) : Type 0 where
  pub verified :
      lookup "wtt_tls_group_verified" own
      ≡ some (get_or_json "key_exchange_group" (text "unavailable") summary)
  pub configured :
      lookup "wtt_tls_group_configured" own
      ≡ some (get_or_json "key_exchange_group_configured" (text "unavailable") summary)
  pub evidence :
      lookup "wtt_tls_group_evidence" own
      ≡ some (get_or_json "key_exchange_group_source" (text "unverified-legacy") summary)

-- The tags say what run, scenario, stack, profile, name and execution the record is of, and its TLS
-- group, unless the record has no evidence for it.
pub record IsOwned (summary : Fields) (own : Dict String Json) : Type 0 where
  pub distinct : NodupKeys own
  pub run : lookup "wtt_run_id" own ≡ get "run_id" summary
  pub scenario : lookup "wtt_scenario" own ≡ get "scenario" summary
  pub stack : lookup "wtt_stack" own ≡ get "stack" summary
  pub profile : lookup "wtt_profile" own ≡ get "profile" summary
  pub tags : Dict String String
  pub tagged : execution_tags summary ≡ ok tags
  pub each_tag : AllItems (λ tag. lookup tag.0 own ≡ some (text tag.1)) tags
  pub group :
      (get_or_json "key_exchange_group_source" (text "unverified-legacy") summary
        ≡ text "unverified-legacy")
      ⊎ HasGroup summary own

is_text-eq : (s : String) (value : Json) → is_text s value ≡ true → value ≡ text s
unfolding is_text string_eq
is_text-eq s (text r) h = ap text (eq_of_test r s h)
is_text-eq s null h = cc
is_text-eq s (truth b) h = cc
is_text-eq s (int n) h = cc
is_text-eq s (real m e) h = cc
is_text-eq s (array xs) h = cc
is_text-eq s (object xs) h = cc

-- What the metadata of a record are, where it has evidence for its group.
record IsEvident (summary : Fields) (metadata : Metadata) : Type 0 where
  same_group : metadata.group ≡ group_of summary
  same_configured : metadata.configured ≡ configured_of summary
  same_source : text metadata.source ≡ source_of summary
  no_legacy : (metadata.source == "unverified-legacy") ≡ false

supported-group :
    (version group : Json) (found : String × String)
    → supported version group ≡ some found
    → group ≡ text found.1
unfolding supported
supported-group (text v) (text g) found h =
    elim (Bool-cases (contains ("1.2" ∷ "1.3" ∷ []) v && contains ("P-256" ∷ "X25519" ∷ []) g)) [
      | inl is ↦ ap (λ (p : String × String). text p.1) (some-injective _ _ (rw is at h))
      | inr is_not ↦ absurd (none-ne-some found (rw is_not at h))
    ]
supported-group version group found h = cc

preflight_of-IsEvident :
    (summary : Fields) (found : Option (String × String)) (metadata : Metadata)
    → supported (version_of summary) (group_of summary) ≡ found
    → is_text "openssl-preflight" (source_of summary) ≡ true
    → preflight_of summary found ≡ ok metadata
    → IsEvident summary metadata
unfolding preflight_of string_eq
preflight_of-IsEvident summary none metadata read is h = cc
preflight_of-IsEvident summary (some found) metadata read is h =
    let (_, h₁) =
      raise_if-eq-ok (not (is_text found.1 (configured_of summary))) (bad_preflight_evidence "") _
        h in
    let (evidence, _, h₂) = >>=-eq-ok (evidence_of summary) _ h₁ in
    let (_, h₃) =
      raise_if-eq-ok (not (is_evidence found.0 found.1 evidence)) (bad_preflight_evidence "") _
        h₂ in
    subst (IsEvident summary) (ok-injective h₃) (record {
      same_group = sym (supported-group (version_of summary) (group_of summary) found read);
      same_configured = refl;
      same_source = sym (is_text-eq "openssl-preflight" (source_of summary) is);
      no_legacy = refl;
    })

plaintext_metadata-IsEvident :
    (summary : Fields) (metadata : Metadata)
    → is_text "not-applicable" (source_of summary) ≡ true
    → plaintext_metadata summary ≡ ok metadata
    → IsEvident summary metadata
unfolding plaintext_metadata string_eq
plaintext_metadata-IsEvident summary metadata is h =
    let (_, h₁) = raise_if-eq-ok _ (bad_plaintext_group "") _ h in
    subst (IsEvident summary) (ok-injective h₁) (record {
      same_group = refl;
      same_configured = refl;
      same_source = sym (is_text-eq "not-applicable" (source_of summary) is);
      no_legacy = refl;
    })

err_is_not_ok : {A : Type 0} {fault : Fault} {a : A} → ¬ (err fault ≡ ok a)
err_is_not_ok h = cc

tls_group_metadata-IsEvident :
    (summary : Fields) (metadata : Metadata)
    → tls_group_metadata summary ≡ ok metadata
    → (source_of summary ≡ text "unverified-legacy") ⊎ IsEvident summary metadata
unfolding tls_group_metadata preflight_metadata
tls_group_metadata-IsEvident summary metadata h =
    elim (Bool-cases (is_text "openssl-preflight" (source_of summary))) [
      | inl pre ↦ inr (preflight_of-IsEvident summary _ metadata refl pre (rw pre at h))
      | inr not_pre ↦ elim (Bool-cases (is_text "not-applicable" (source_of summary))) [
        | inl plain ↦
            inr (plaintext_metadata-IsEvident summary metadata plain (rw (not_pre, plain) at h))
        | inr not_plain ↦ elim (Bool-cases (is_text "unverified-legacy" (source_of summary))) [
          | inl legacy ↦ inl (is_text-eq "unverified-legacy" (source_of summary) legacy)
          | inr other ↦ absurd (err_is_not_ok (rw (not_pre, not_plain, other) at h))
        ]
      ]
    ]

as_texts-Occurs :
    (tags : Dict String String) → AllItems (λ tag. Occurs (tag.0, text tag.1) (as_texts tags)) tags
unfolding as_texts
as_texts-Occurs [] = tt
as_texts-Occurs ((key, value) ∷ tags) = (
  here (key, text value) (as_texts tags) refl,
  AllItems-mono _ _ tags (λ tag o. there (key, text value) (as_texts tags) o)
      (as_texts-Occurs tags),
)

-- The tags that a record always has.
abbrev identity_tags : Json → Json → Json → Json → Dict String Json
identity_tags run_id scenario stack profile =
    ("wtt_run_id", run_id)
    ∷ ("wtt_scenario", scenario)
    ∷ ("wtt_stack", stack)
    ∷ ("wtt_profile", profile)
    ∷ []

group_tags-IsEvident :
    (summary : Fields) (metadata : Metadata)
    → IsEvident summary metadata
    → group_tags metadata
      ≡ ("wtt_tls_group_configured", configured_of summary)
        ∷ ("wtt_tls_group_verified", group_of summary)
        ∷ ("wtt_tls_group_evidence", source_of summary)
        ∷ []
unfolding group_tags
group_tags-IsEvident summary metadata e = rw e.no_legacy (λ i.
    ("wtt_tls_group_configured", e.same_configured i)
    ∷ ("wtt_tls_group_verified", e.same_group i)
    ∷ ("wtt_tls_group_evidence", e.same_source i)
    ∷ [])

pub record_tags-IsOwned :
    (summary : Fields) (metadata : Metadata) (own : Dict String Json)
    → tls_group_metadata summary ≡ ok metadata
    → record_tags summary metadata ≡ ok own
    → IsOwned summary own
unfolding record_tags item_of
record_tags-IsOwned summary metadata own read h =
    let distinct = record_tags-NodupKeys summary metadata own h in
    let (tags, tagged, h₁) = >>=-eq-ok (execution_tags summary) _ h in
    let (run_id, run_read, h₂) = >>=-eq-ok (item_of "run_id" summary) _ h₁ in
    let (scenario, scenario_read, h₃) = >>=-eq-ok (item_of "scenario" summary) _ h₂ in
    let (stack, stack_read, h₄) = >>=-eq-ok (item_of "stack" summary) _ h₃ in
    let (profile, profile_read, h₅) = >>=-eq-ok (item_of "profile" summary) _ h₄ in
    let identity = identity_tags run_id scenario stack profile in
    let same = ok-injective h₅ in
    let find : (key : String) (value : Json)
        → Occurs (key, value) ((as_texts tags ++ identity) ++ group_tags metadata)
        → lookup key own ≡ some value =
      λ key value o. Occurs-lookup key value own distinct (subst (Occurs (key, value)) same o) in
    let middle : (key : String) (value : Json)
        → Occurs (key, value) identity
        → lookup key own ≡ some value =
      λ key value o. find key value (
        Occurs-append (key, value) (as_texts tags ++ identity) (group_tags metadata)
          (append-Occurs (key, value) (as_texts tags) identity o)) in
    let last : (key : String) (value : Json)
        → Occurs (key, value) (group_tags metadata)
        → lookup key own ≡ some value =
      λ key value o.
        find key value
          (append-Occurs (key, value) (as_texts tags ++ identity) (group_tags metadata) o) in
    let given : (key : String) (value : Json)
        → item_of key summary ≡ ok value
        → get key summary ≡ some value =
      λ key value k. or_raise-eq-ok (get key summary) (key_error key) k in
    record {
      distinct = distinct;
      run = middle "wtt_run_id" run_id (here _ _ refl) ∙ sym (given "run_id" run_id run_read);
      scenario =
          middle "wtt_scenario" scenario (there _ _ (here _ _ refl))
          ∙ sym (given "scenario" scenario scenario_read);
      stack =
          middle "wtt_stack" stack (there _ _ (there _ _ (here _ _ refl)))
          ∙ sym (given "stack" stack stack_read);
      profile =
          middle "wtt_profile" profile (there _ _ (there _ _ (there _ _ (here _ _ refl))))
          ∙ sym (given "profile" profile profile_read);
      tags = tags;
      tagged = tagged;
      each_tag =
          AllItems-mono _ _ tags
            (λ tag o. find tag.0 (text tag.1) (
              Occurs-append _ (as_texts tags ++ identity) _
                (Occurs-append _ (as_texts tags) identity o)))
            (as_texts-Occurs tags);
      group = elim (tls_group_metadata-IsEvident summary metadata read) [
        | inl legacy ↦ inl legacy
        | inr e ↦
            let tags_are = sym (group_tags-IsEvident summary metadata e) in
            inr (record {
              configured = last _ _ (subst (Occurs _) tags_are (here _ _ refl));
              verified = last _ _ (subst (Occurs _) tags_are (there _ _ (here _ _ refl)));
              evidence =
                  last _ _ (subst (Occurs _) tags_are (there _ _ (there _ _ (here _ _ refl))));
            })
      ];
    }
