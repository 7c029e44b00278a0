-- ===== src/Common/RunIds/Accepted.antt =====
-- The references that `artifact_run_id` accepts, and `run_family` after it.
use where_to_tls.Base.{
  String, ◌≡◌, refl, ap, sym, ◌∙◌, ◌↔◌, true, Option, none, some, Result, ok, err,
  unsupported_run_id, arith, nat_eq, ok-injective,
}
use where_to_tls.Base.Text.{
  lacks, is_digit, is_slug_char, all_chars, all_chars-append, all_chars_mono, is_digits-all_chars,
  rsplit_last, rsplit_last_of_lacks,
}
use where_to_tls.Config.{Family}
use where_to_tls.Common.RunIds.{is_slug, match_run_id, artifact_run_id, run_family}
use where_to_tls.Common.RunIds.Shape.{
  family_tag, IsRunId, match_run_id-IsRunId, IsRunId-match_run_id, run_family_of_match,
}

digits-lacks : (s : String) → all_chars is_digit s ≡ true → lacks b':' s ≡ true
digits-lacks s h = all_chars_mono _ _ s (λ c d. ground arith) h

slug-lacks : (s : String) → is_slug s ≡ true → lacks b':' s ≡ true
unfolding is_slug
slug-lacks s h = all_chars_mono is_slug_char _ s (λ c d. ground arith) (ground arith)

tag-lacks : (f : Family) → lacks b':' (family_tag f) ≡ true
unfolding all_chars nat_eq
tag-lacks Family.baseline = refl
tag-lacks Family.linear = refl
tag-lacks Family.race = refl

literals-lack :
    (lacks b':' "T" ≡ true) × (lacks b':' "Z-blog_tls_" ≡ true) × (lacks b':' "-" ≡ true)
unfolding all_chars nat_eq
literals-lack = (refl, refl, refl)

IsRunId-lacks : (s : String) (family : Family) → IsRunId s family → lacks b':' s ≡ true
IsRunId-lacks s family r = rw (r.text) (
    simp (
      all_chars-append,
      digits-lacks r.date (is_digits-all_chars 8 r.date r.date_digits),
      digits-lacks r.time (is_digits-all_chars 6 r.time r.time_digits),
      slug-lacks r.slug r.slug_chars,
      tag-lacks family,
      literals-lack.0,
      literals-lack.1,
      literals-lack.2,
    ))

abbrev outcome : String → Option Family → Result String
outcome run_id found = elim found [ some _ ↦ ok run_id | none ↦ err (unsupported_run_id run_id) ]

artifact_run_id-outcome :
    (reference : String)
    → artifact_run_id reference
      ≡ outcome (rsplit_last b':' reference) (match_run_id (rsplit_last b':' reference))
unfolding artifact_run_id
artifact_run_id-outcome reference = refl

outcome-eq-ok :
    (run_id : String) (found : Option Family) {result : String}
    → outcome run_id found ≡ ok result
    → (run_id ≡ result) × ((family : Family) × (found ≡ some family))
outcome-eq-ok run_id (some family) h = (ok-injective h, (family, refl))
outcome-eq-ok run_id none h = cc

-- A reference is accepted exactly if what follows its last colon is a Run ID of the pattern, and
-- that Run ID is the result.
pub artifact_run_id_iff :
    (reference run_id : String)
    → (artifact_run_id reference ≡ ok run_id)
      ↔ (rsplit_last b':' reference ≡ run_id) × ((family : Family) × IsRunId run_id family)
artifact_run_id_iff reference run_id = (
  λ h.
      let (e, (family, m)) = outcome-eq-ok _ _ (sym (artifact_run_id-outcome reference) ∙ h) in
      (e, (family, match_run_id-IsRunId run_id family (ap match_run_id (sym e) ∙ m))),
  λ t.
      let m = IsRunId-match_run_id run_id t.1.0 t.1.1 in
      rw (artifact_run_id-outcome reference, t.0, m) refl,
)

-- The family of an accepted Run ID is the one of its pattern, whatever its slug holds, and the
-- Run ID is accepted again as it is.
pub run_family-artifact_run_id :
    (reference run_id : String)
    → artifact_run_id reference ≡ ok run_id
    → ((family : Family) × IsRunId run_id family × (run_family run_id ≡ ok family))
      × (artifact_run_id run_id ≡ ok run_id)
run_family-artifact_run_id reference run_id h =
    let (e, (family, r)) = (artifact_run_id_iff reference run_id).0 h in
    let same = rsplit_last_of_lacks b':' run_id (IsRunId-lacks run_id family r) in
    (
      (family, r, run_family_of_match run_id family (IsRunId-match_run_id run_id family r)),
      (artifact_run_id_iff run_id run_id).1 (same, (family, r)),
    )
