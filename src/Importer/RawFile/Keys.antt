-- ===== src/Importer/RawFile/Keys.antt =====
-- analyze/files/import-results.py: the tags of `write_raw_file` have distinct keys.
use where_to_tls.Base.{
  String, ◌≡◌, refl, sym, ap, ◌∙◌, subst, Bool, true, false, ◌==◌, ◌⊎◌, List, [], ◌∷◌, ◌++◌, Dict,
  keys, insert, NodupList, NodupKeys, is_nodup, is_nodup-NodupList, insert-NodupKeys, Bool-cases,
  Option-cases, inl, inr, ok, err, >>=-eq-ok, ok-injective, attribute_error, string_eq,
  if◌then◌else◌,
}
use where_to_tls.Base.Decimal.{show_nat}
use where_to_tls.Importer.Json.{
  Json, Fields, null, truth, int, real, array, object, text, no_field, field_and, get, truthy,
}
use where_to_tls.Importer.Evidence.{Metadata}
use where_to_tls.Importer.Tags.{name_of, index_of, name_tags, execution_tags}
use where_to_tls.Importer.RawFile.{
  item_of, dict_onto, dict_of, as_texts, group_tags, record_tags, point_tags,
}

dict_onto-NodupKeys :
    (d : Dict String Json) (fields : Fields) → NodupKeys d → NodupKeys (dict_onto d fields)
unfolding dict_onto
dict_onto-NodupKeys d no_field u = u
dict_onto-NodupKeys d (field_and key value fields) u =
    dict_onto-NodupKeys (insert key value d) fields (insert-NodupKeys key value d u)

no_tags-NodupKeys :
    (test : Bool) (tags : Dict String Json)
    → (if test then err (attribute_error "items") else ok []) ≡ ok tags
    → NodupKeys tags
no_tags-NodupKeys true tags h = cc
no_tags-NodupKeys false tags h = subst NodupKeys (ok-injective h) tt

pub point_tags-NodupKeys :
    (value : Json) (tags : Dict String Json) → point_tags value ≡ ok tags → NodupKeys tags
unfolding point_tags dict_of
point_tags-NodupKeys (object fields) tags h =
    subst NodupKeys (ok-injective h) (dict_onto-NodupKeys [] fields tt)
point_tags-NodupKeys null tags h = no_tags-NodupKeys (truthy null) tags h
point_tags-NodupKeys (truth b) tags h = no_tags-NodupKeys (truthy (truth b)) tags h
point_tags-NodupKeys (int n) tags h = no_tags-NodupKeys (truthy (int n)) tags h
point_tags-NodupKeys (real m e) tags h = no_tags-NodupKeys (truthy (real m e)) tags h
point_tags-NodupKeys (text s) tags h = no_tags-NodupKeys (truthy (text s)) tags h
point_tags-NodupKeys (array xs) tags h = no_tags-NodupKeys (truthy (array xs)) tags h

abbrev identity_keys : List String
identity_keys = "wtt_run_id" ∷ "wtt_scenario" ∷ "wtt_stack" ∷ "wtt_profile" ∷ []

abbrev group_keys : List String
group_keys = "wtt_tls_group_configured" ∷ "wtt_tls_group_verified" ∷ "wtt_tls_group_evidence" ∷ []

-- Keys that differ from the other keys of the record's tags.
abbrev IsFresh : List String → Type 0
IsFresh ks =
    (is_nodup (ks ++ identity_keys ++ []) ≡ true)
    × (is_nodup (ks ++ identity_keys ++ group_keys) ≡ true)

name_tags-eq-ok :
    (summary : Fields) (names : Dict String String)
    → name_tags summary ≡ ok names
    → (names ≡ []) ⊎ ((name : String) × (names ≡ ("wtt_run_name", name) ∷ []))
unfolding name_tags
name_tags-eq-ok summary names h = elim (Option-cases (get "run_name" summary)) [
  | inl missing ↦ inl (sym (ok-injective (rw (missing, name_tags) at h)))
  | inr (value, found) ↦
      let (name, valid, h₁) = >>=-eq-ok (name_of value) _ (rw (found, name_tags) at h) in
      inr (name, sym (ok-injective h₁))
]

IsFresh-names :
    (names : Dict String String) (index : String)
    → (names ≡ []) ⊎ ((name : String) × (names ≡ ("wtt_run_name", name) ∷ []))
    → IsFresh (keys names) × IsFresh (keys (insert "wtt_execution_index" index names))
unfolding string_eq
IsFresh-names names index (inl e) =
    subst (λ d. IsFresh (keys d) × IsFresh (keys (insert "wtt_execution_index" index d))) (sym e)
      ((refl, refl), (refl, refl))
IsFresh-names names index (inr (name, e)) =
    subst (λ d. IsFresh (keys d) × IsFresh (keys (insert "wtt_execution_index" index d))) (sym e)
      ((refl, refl), (refl, refl))

execution_tags-IsFresh :
    (summary : Fields) (tags : Dict String String)
    → execution_tags summary ≡ ok tags
    → IsFresh (keys tags)
unfolding execution_tags
execution_tags-IsFresh summary tags h =
    let (names, named, h₁) = >>=-eq-ok (name_tags summary) _ h in
    let e = name_tags-eq-ok summary names named in
    elim (Option-cases (get "execution_index" summary)) [
      | inl missing ↦
          subst (λ t. IsFresh (keys t)) (ok-injective (rw missing at h₁))
            (IsFresh-names names "" e).0
      | inr (value, found) ↦
          let (index, valid, h₂) = >>=-eq-ok (index_of value) _ (rw found at h₁) in
          subst (λ t. IsFresh (keys t)) (ok-injective h₂) (IsFresh-names names (show_nat index) e).1
    ]

tag_keys :
    (tags : Dict String String) (run_id scenario stack profile : Json) (group : Dict String Json)
    → keys (
        as_texts tags
        ++ (("wtt_run_id", run_id)
            ∷ ("wtt_scenario", scenario)
            ∷ ("wtt_stack", stack)
            ∷ ("wtt_profile", profile)
            ∷ [])
        ++ group)
      ≡ keys tags ++ identity_keys ++ keys group
unfolding as_texts
tag_keys [] run_id scenario stack profile group = refl
tag_keys ((k, v) ∷ tags) run_id scenario stack profile group =
    ap (λ ks. k ∷ ks) (tag_keys tags run_id scenario stack profile group)

keys-group_tags :
    (metadata : Metadata)
    → (keys (group_tags metadata) ≡ []) ⊎ (keys (group_tags metadata) ≡ group_keys)
unfolding group_tags
keys-group_tags metadata = elim (Bool-cases (metadata.source == "unverified-legacy")) [
  | inl legacy ↦ inl (rw legacy refl)
  | inr verified ↦ inr (rw verified refl)
]

-- The tags of a record have distinct keys.
pub record_tags-NodupKeys :
    (summary : Fields) (metadata : Metadata) (own : Dict String Json)
    → record_tags summary metadata ≡ ok own
    → NodupKeys own
unfolding record_tags
record_tags-NodupKeys summary metadata own h =
    let (tags, tagged, h₁) = >>=-eq-ok (execution_tags summary) _ h in
    let (run_id, _, h₂) = >>=-eq-ok (item_of "run_id" summary) _ h₁ in
    let (scenario, _, h₃) = >>=-eq-ok (item_of "scenario" summary) _ h₂ in
    let (stack, _, h₄) = >>=-eq-ok (item_of "stack" summary) _ h₃ in
    let (profile, _, h₅) = >>=-eq-ok (item_of "profile" summary) _ h₄ in
    let (plain, grouped) = execution_tags-IsFresh summary tags tagged in
    let same : keys own ≡ keys tags ++ identity_keys ++ keys (group_tags metadata) =
      ap keys (sym (ok-injective h₅))
      ∙ tag_keys tags run_id scenario stack profile (group_tags metadata) in
    subst NodupList (sym same) (elim (keys-group_tags metadata) [
      | inl e ↦
          subst (λ ks. NodupList (keys tags ++ identity_keys ++ ks)) (sym e)
            (is_nodup-NodupList _ plain)
      | inr e ↦
          subst (λ ks. NodupList (keys tags ++ identity_keys ++ ks)) (sym e)
            (is_nodup-NodupList _ grouped)
    ])
