-- ===== src/Tests/Imports.antt =====
-- The importer, and the options of the exporter, at concrete inputs.
use where_to_tls.Base.{
  ℕ, ◌≡◌, refl, false, List, [], ◌∷◌, length, is_empty, ok, AllItems, for_each, dedupe, string_eq,
}
use where_to_tls.Importer.Batches.{
  IsBatched, write_points, add_points, no_batches, write_points-IsBatched,
}
use where_to_tls.Importer.Json.{
  Fields, text, object, no_field, field_and, get, get_or_json, truthy, is_text,
}
use where_to_tls.Importer.Evidence.{
  evidence_of, is_evidence, supported, preflight_of, preflight_metadata, tls_group_metadata,
  sole_key, require_comparable_tls_groups,
}
use where_to_tls.Importer.Evidence.Comparable.{Verified, require_comparable_tls_groups-Verified}

abbrev numbers : List ℕ
numbers = 1 ∷ 2 ∷ 3 ∷ []

write_points-IsBatched_example :
    IsBatched numbers (write_points numbers)
    × ((add_points no_batches numbers).imported ≡ length numbers)
write_points-IsBatched_example = write_points-IsBatched numbers

abbrev evidence : Fields
evidence = field_and "group" (text "X25519") (
    field_and "tls_version" (text "1.3") (
      field_and "source" (text "openssl-preflight") (
        field_and "scope" (text "client-facing-preflight") (
          field_and "target" (text "10.0.0.4") (
            field_and "hostname" (text "bench.local")
              (field_and "checked_at" (text "2026-01-01T10:00:00Z") no_field))))))

abbrev measured : Fields
measured = field_and "key_exchange_group_source" (text "openssl-preflight") (
    field_and "tls_version" (text "1.3") (
      field_and "key_exchange_group" (text "X25519") (
        field_and "key_exchange_group_configured" (text "X25519")
          (field_and "tls_group_evidence" (object evidence) no_field))))

accepted : require_comparable_tls_groups (measured ∷ measured ∷ []) ≡ ok "1.3/X25519"
unfolding require_comparable_tls_groups for_each dedupe sole_key tls_group_metadata
    preflight_metadata preflight_of supported is_evidence evidence_of get_or_json get truthy is_text
    string_eq
accepted = refl

require_comparable_tls_groups-Verified_example :
    (is_empty (measured ∷ measured ∷ []) ≡ false)
    × AllItems (λ fields. Verified fields "1.3/X25519") (measured ∷ measured ∷ [])
require_comparable_tls_groups-Verified_example =
    require_comparable_tls_groups-Verified (measured ∷ measured ∷ []) "1.3/X25519" accepted
