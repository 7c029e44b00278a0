-- ===== src/Importer/Evidence.antt =====
-- analyze/files/import-results.py: `tls_group_metadata` and `require_comparable_tls_groups`, which
-- accept the evidence that a record has for the TLS version and group of its measurement.
pub mod Comparable
use where_to_tls.Base.{
  ℕ, String, ◌<>◌, Bool, true, false, not, ◌&&◌, ◌||◌, ◌==◌, Option, none, some, List, [], ◌∷◌, all,
  contains, length, dedupe, Result, ok, err, raise_if, ◌>>=◌, ◌>>◌, for_each, map, is_empty,
  bad_preflight_evidence, bad_plaintext_group, unknown_group_source, incomparable_groups,
  attribute_error, string_eq, nat_eq, if◌then◌else◌,
}
use where_to_tls.Importer.Json.{
  Json, Fields, text, object, no_field, null, get, get_or_json, truthy, is_text,
}

-- The dict that is returned.
pub record Metadata : Type 0 where
  pub group : Json
  pub configured : Json
  pub source : String
  pub comparison_key : String

as_evidence : Json → Result Fields
as_evidence (object evidence) = ok evidence
as_evidence other = if truthy other then err (attribute_error "get") else ok no_field

-- `record.get("tls_group_evidence") or {}`, of which `get` is called: an AttributeError where it is
-- no object.
unfoldable pub evidence_of : Fields → Result Fields
unfolding as_evidence
evidence_of fields = as_evidence (get_or_json "tls_group_evidence" null fields)

-- The condition under which the evidence of a preflight is valid.
unfoldable pub is_evidence : String → String → Fields → Bool
is_evidence version group evidence =
    is_text group (get_or_json "group" null evidence)
    && is_text version (get_or_json "tls_version" null evidence)
    && is_text "openssl-preflight" (get_or_json "source" null evidence)
    && is_text "client-facing-preflight" (get_or_json "scope" null evidence)
    && all (λ key. truthy (get_or_json key null evidence))
        ("target" ∷ "hostname" ∷ "checked_at" ∷ [])

-- The texts of a version and a group that are supported.
unfoldable pub supported : Json → Json → Option (String × String)
unfolding string_eq
supported (text version) (text group) =
    if contains ("1.2" ∷ "1.3" ∷ []) version && contains ("P-256" ∷ "X25519" ∷ []) group
    then some (version, group)
    else none
supported _ _ = none

abbrev pub group_of : Fields → Json
group_of = get_or_json "key_exchange_group" (text "unavailable")

abbrev pub configured_of : Fields → Json
configured_of = get_or_json "key_exchange_group_configured" (text "unavailable")

abbrev pub version_of : Fields → Json
version_of = get_or_json "tls_version" (text "unavailable")

-- The branch of a preflight, with the version and the group where they are supported ones.
unfoldable pub preflight_of : Fields → Option (String × String) → Result Metadata
preflight_of fields none = err (bad_preflight_evidence "")
preflight_of fields (some (version, group)) = do
  raise_if (not (is_text group (configured_of fields))) (bad_preflight_evidence "")
  evidence ← evidence_of fields
  raise_if (not (is_evidence version group evidence)) (bad_preflight_evidence "")
  ok (record {
    group = text group;
    configured = configured_of fields;
    source = "openssl-preflight";
    comparison_key = version <> "/" <> group;
  })

unfoldable pub preflight_metadata : Fields → Result Metadata
preflight_metadata fields = preflight_of fields (supported (version_of fields) (group_of fields))

-- The branch of a plaintext control.
unfoldable pub plaintext_metadata : Fields → Result Metadata
plaintext_metadata fields = do
  raise_if
      (not (is_text "none" (version_of fields))
        || not (is_text "none" (group_of fields))
        || not (is_text "none" (configured_of fields)))
      (bad_plaintext_group "")
  ok (record {
    group = group_of fields;
    configured = configured_of fields;
    source = "not-applicable";
    comparison_key = "none";
  })

-- The branch of a record without evidence.
unfoldable pub legacy_metadata : Fields → Result Metadata
legacy_metadata fields = ok (record {
  group = group_of fields;
  configured = configured_of fields;
  source = "unverified-legacy";
  comparison_key = "unverified";
})

unfoldable pub tls_group_metadata : Fields → Result Metadata
tls_group_metadata fields =
    let source = get_or_json "key_exchange_group_source" (text "unverified-legacy") fields in
    if is_text "openssl-preflight" source
    then preflight_metadata fields
    else if is_text "not-applicable" source
    then plaintext_metadata fields
    else if is_text "unverified-legacy" source
    then legacy_metadata fields
    else err (unknown_group_source "")

unfoldable pub sole_key : List String → Result String
sole_key (key ∷ []) = ok key
sole_key keys = err (incomparable_groups "")

-- `keys` is the set of the comparison keys.
unfoldable pub require_comparable_tls_groups : List Fields → Result String
unfolding string_eq
require_comparable_tls_groups records = do
  read ← for_each tls_group_metadata records
  let keys = dedupe (map (λ (m : Metadata). m.comparison_key) read)
  raise_if (contains keys "unverified") (incomparable_groups "")
  sole_key keys
