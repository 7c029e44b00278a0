-- ===== src/Common/Slots/Tables.antt =====
-- The two tables agree, and a family's executions are its profiles' three repeats.
use mathlib.Core.List.{flat_map}
use where_to_tls.Base.{
  ◌≡◌, refl, ap, ◌↔◌, ◌∙◌, sym, true, some, List, [], ◌∷◌, lookup, keys, values, contains, same_set,
  same_set-contains, has_key-lookup, lookup-has_key, is_nodup, is_nodup-NodupList, lookup-injective,
  values-lookup, lookup-contains-values, ok, or_raise, or_raise-eq-ok, pair_eq, string_eq, int_eq,
  nat_eq, unexpected_execution,
}
use where_to_tls.Config.{Family, profile_rows, profile_eq}
use where_to_tls.Common.Slots.{Execution, Slot, slot_mapping, profile_slot, expected_executions}

keys-expected :
    (family : Family) → same_set (expected_executions family) (keys (slot_mapping family)) ≡ true
unfolding slot_mapping expected_executions pair_eq string_eq int_eq
keys-expected Family.baseline = refl
keys-expected Family.linear = refl
keys-expected Family.race = refl

slots-nodup :
    (family : Family)
    → (is_nodup (keys (slot_mapping family)) ≡ true)
      × (is_nodup (values (slot_mapping family)) ≡ true)
unfolding slot_mapping pair_eq string_eq int_eq nat_eq profile_eq
slots-nodup Family.baseline = (refl, refl)
slots-nodup Family.linear = (refl, refl)
slots-nodup Family.race = (refl, refl)

-- The slots of a family: each of its profiles with the repeats 0, 1 and 2.
abbrev pub slots : Family → List Slot
slots family =
    flat_map (λ profile. (profile, 0) ∷ (profile, 1) ∷ (profile, 2) ∷ []) (profile_rows family)

slots-values : (family : Family) → same_set (slots family) (values (slot_mapping family)) ≡ true
unfolding slot_mapping pair_eq nat_eq profile_eq flat_map
slots-values Family.baseline = refl
slots-values Family.linear = refl
slots-values Family.race = refl

profile_slot-lookup :
    (family : Family) (x : Execution) (slot : Slot)
    → (profile_slot family x.0 x.1 ≡ ok slot) ↔ (lookup x (slot_mapping family) ≡ some slot)
profile_slot-lookup family x slot = (
  λ h. or_raise-eq-ok _ (unexpected_execution x.0) (unfold profile_slot in h),
  λ h. unfold profile_slot in ap (λ o. or_raise o (unexpected_execution x.0)) h,
)

-- `profile_slot` knows an execution exactly if it is one of the family's expected executions; on
-- every other profile tag or index it raises.
pub profile_slot-expected :
    (family : Family) (x : Execution)
    → (contains (expected_executions family) x ≡ true)
      ↔ ((slot : Slot) × (profile_slot family x.0 x.1 ≡ ok slot))
profile_slot-expected family x =
    let same = same_set-contains (expected_executions family) _ x (keys-expected family) in
    (
      λ h.
          let (slot, m) = has_key-lookup x (slot_mapping family) (sym same ∙ h) in
          (slot, (profile_slot-lookup family x slot).1 m),
      λ t. same ∙ lookup-has_key x _ ((profile_slot-lookup family x t.0).0 t.1),
    )

-- A slot of the family, a profile of it with a repeat below 3, is the slot of exactly one
-- execution.
pub profile_slot-slots :
    (family : Family) (slot : Slot)
    → contains (slots family) slot ≡ true
    → (x : Execution) × (profile_slot family x.0 x.1 ≡ ok slot)
      × ((y : Execution) → profile_slot family y.0 y.1 ≡ ok slot → y ≡ x)
profile_slot-slots family slot h =
    let (u, v) = slots-nodup family in
    let same = same_set-contains (slots family) _ slot (slots-values family) in
    let (x, m) = values-lookup (slot_mapping family) slot (is_nodup-NodupList _ u) (sym same ∙ h) in
    (
      x,
      (profile_slot-lookup family x slot).1 m,
      λ y n.
          lookup-injective (slot_mapping family) y x slot (is_nodup-NodupList _ v)
            ((profile_slot-lookup family y slot).0 n) m,
    )

-- What `profile_slot` returns is a slot of the family.
pub slots-profile_slot :
    (family : Family) (x : Execution) (slot : Slot)
    → profile_slot family x.0 x.1 ≡ ok slot
    → contains (slots family) slot ≡ true
slots-profile_slot family x slot h =
    same_set-contains (slots family) _ slot (slots-values family)
    ∙ lookup-contains-values x _ slot ((profile_slot-lookup family x slot).0 h)
