-- ===== src/Importer/RawFile/Identified.antt =====
-- analyze/files/import-results.py: what `write_raw_file` writes.
use where_to_tls.Base.{
  String, ◌≡◌, refl, sym, ap, ◌∙◌, subst, Bool, true, false, ◌==◌, some, [], ◌∷◌, Dict, keys,
  lookup, insert, has_key, contains, lookup-insert_self, lookup-insert_ne, insert-NodupKeys,
  NodupKeys, Bool-cases, inl, inr, eq_of_test, test_of_eq, ok, raise_if-eq-ok, passed, >>=-eq-ok,
  ok-injective, for_loop, AllItems, metadata_disagree, string_eq, if◌then◌else◌, arith,
}
use mathlib.Core.Option.{none-ne-some, some-injective}
use where_to_tls.Importer.Json.{Json, text, is_text}
use where_to_tls.Importer.RawFile.{Conversions, is_owned, disagrees, merge_tag, set_tags}

module _ (C : Conversions) where
  open C use {str}

  -- A point's own tag does not contradict the record, and a tag that it takes over is there.
  pub record Agrees (before after : Dict String Json) (item : String × Json) : Type 0 where
    pub same :
        (found : Json) → lookup item.0 before ≡ some found → is_text (str found) item.1 ≡ true
    pub owned : is_owned item.0 ≡ true → lookup item.0 after ≡ some item.1

other_keys :
    (own : Dict String Json) (key : String)
    → contains (keys own) key ≡ false
    → AllItems (λ item. (item.0 == key) ≡ false) own
other_keys [] key h = tt
other_keys ((k, v) ∷ own) key h =
    (ground (arith, h, eq_of_test k key, test_of_eq key k), other_keys own key (ground (arith, h)))

put_if-lookup :
    (test : Bool) (d : Dict String Json) (k key : String) (value : Json)
    → (k == key) ≡ false
    → lookup k (if test then insert key value d else d) ≡ lookup k d
put_if-lookup true d k key value h = lookup-insert_ne k key value d h
put_if-lookup false d k key value h = refl

put_if-NodupKeys :
    (test : Bool) (d : Dict String Json) (key : String) (value : Json)
    → NodupKeys d
    → NodupKeys (if test then insert key value d else d)
put_if-NodupKeys true d key value u = insert-NodupKeys key value d u
put_if-NodupKeys false d key value u = u

later_absent :
    (d : Dict String Json) (k key : String) (value : Json)
    → has_key k ((key, value) ∷ d) ≡ false
    → has_key k d ≡ false
later_absent d k key value h = ground arith

not_first :
    (d : Dict String Json) (k key : String) (value : Json)
    → has_key k ((key, value) ∷ d) ≡ false
    → (k == key) ≡ false
not_first d k key value h = ground arith

module _ (C : Conversions) where
  open C use {str}

  merge_tag-Agrees :
      (before after : Dict String Json) (key : String) (value : Json)
      → merge_tag C before (key, value) ≡ ok after
      → Agrees C before after (key, value)
        × ((k : String) → (k == key) ≡ false → lookup k after ≡ lookup k before)
        × (NodupKeys before → NodupKeys after)
  unfolding merge_tag
  merge_tag-Agrees before after key value h =
      let (same, h₁) =
        raise_if-eq-ok (disagrees C (lookup key before) value) (metadata_disagree key) _ h in
      subst
        (λ t.
          Agrees C before t (key, value)
          × ((k : String) → (k == key) ≡ false → lookup k t ≡ lookup k before)
          × (NodupKeys before → NodupKeys t))
        (ok-injective h₁)
        (
          record {
            same = λ found there. passed _ (ap (λ o. disagrees C o value) (sym there) ∙ same);
            owned = λ own. rw own (lookup-insert_self key value before);
          },
          λ k other. put_if-lookup (is_owned key) before k key value other,
          put_if-NodupKeys (is_owned key) before key value,
        )

  -- The state behind the loop over the tags of the record.
  pub record IsMerged (before after own : Dict String Json) : Type 0 where
    pub each : AllItems (Agrees C before after) own
    pub others : (k : String) → has_key k own ≡ false → lookup k after ≡ lookup k before
    pub distinct : NodupKeys before → NodupKeys after

  later-Agrees :
      (before between after : Dict String Json) (key : String) (own : Dict String Json)
      → ((k : String) → (k == key) ≡ false → lookup k between ≡ lookup k before)
      → AllItems (λ item. (item.0 == key) ≡ false) own
      → AllItems (Agrees C between after) own
      → AllItems (Agrees C before after) own
  later-Agrees before between after key [] kept other h = tt
  later-Agrees before between after key (item ∷ own) kept other h = (
    record {
      same = λ found there. h.0.same found (kept item.0 other.0 ∙ there);
      owned = h.0.owned;
    },
    later-Agrees before between after key own kept other.1 h.1,
  )

  pub merge_tag-IsMerged :
      (own before after : Dict String Json)
      → for_loop (merge_tag C) before own ≡ ok after
      → NodupKeys own
      → IsMerged before after own
  unfolding for_loop
  merge_tag-IsMerged [] before after h u =
      subst (λ t. IsMerged before t []) (ok-injective h)
        (record { each = tt; others = λ k absent. refl; distinct = λ d. d })
  merge_tag-IsMerged ((key, value) ∷ own) before after h u =
      let (between, first, rest) = >>=-eq-ok (merge_tag C before (key, value)) _ h in
      let (agrees, kept, distinct) = merge_tag-Agrees before between key value first in
      let i = merge_tag-IsMerged own between after rest u.1 in
      record {
        each = (
          record { same = agrees.same; owned = λ is. i.others key u.0 ∙ agrees.owned is },
          later-Agrees before between after key own kept (other_keys own key u.0) i.each,
        );
        others = λ k absent.
            i.others k (later_absent own k key value absent)
            ∙ kept k (not_first own k key value absent);
        distinct = λ d. i.distinct (distinct d);
      }

  pub set_tags-lookup_absent :
      (set tags : Dict String Json) (k : String)
      → has_key k tags ≡ false
      → lookup k (set_tags C set tags) ≡ lookup k set
  unfolding set_tags
  set_tags-lookup_absent set [] k h = refl
  set_tags-lookup_absent set ((key, value) ∷ tags) k h =
      set_tags-lookup_absent (insert key (text (str value)) set) tags k
        (later_absent tags k key value h)
      ∙ lookup-insert_ne k key (text (str value)) set (not_first tags k key value h)

  -- Every tag is set to its text.
  pub set_tags-lookup :
      (set tags : Dict String Json) (k : String) (v : Json)
      → NodupKeys tags
      → lookup k tags ≡ some v
      → lookup k (set_tags C set tags) ≡ some (text (str v))
  unfolding set_tags
  set_tags-lookup set [] k v u h = absurd (none-ne-some v h)
  set_tags-lookup set ((key, value) ∷ tags) k v u h = elim (Bool-cases (k == key)) [
    | inl same ↦
        let e = eq_of_test k key same in
        let w : value ≡ v = some-injective value v (rw same at h) in
        ap (λ j. lookup j (set_tags C (insert key (text (str value)) set) tags)) e
        ∙ set_tags-lookup_absent (insert key (text (str value)) set) tags key u.0
        ∙ lookup-insert_self key (text (str value)) set
        ∙ ap (λ x. some (text (str x))) w
    | inr other ↦ set_tags-lookup (insert key (text (str value)) set) tags k v u.1 (rw other at h)
  ]
