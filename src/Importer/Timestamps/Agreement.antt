-- ===== src/Importer/Timestamps/Agreement.antt =====
-- Where the exporter accepts a timestamp, the importer reads the same instant.
use text.Mathlib.TextLemmas.{append-nil, nil-append, cons-append, append_assoc}
use where_to_tls.Base.{
  ℕ, String, ◌≤◌, invalid_timestamp, not_a_datetime, ◌<>◌, ◌≡◌, refl, ap, sym, ◌∙◌, Bool, true,
  false, Option, none, some, Result, ok, err, or_raise, string_eq, nat_eq, ℤ, arith, inl, inr,
  Bool-cases, or_raise-eq-ok,
}
use where_to_tls.Base.Text.{removesuffix, is_char, lacks, all_chars, removesuffix-append, ends_with}
use where_to_tls.Base.Padding.{repeat_char, ljust, take_chars-pad, take_chars-append, text_length}
use where_to_tls.Common.Timestamps
use where_to_tls.Common.Timestamps.{
  datetime_seconds, nanoseconds, skip_datetime, match_fraction, timestamp_groups, total_ns,
  read_digits, accept_datetime, span_digits, scale,
}
use where_to_tls.Common.Timestamps.Parts.{Groups, timestamp_groups-Groups}
use where_to_tls.Importer.Timestamps.{partition, nine_digits, parts_ns, timestamp_ns}

partition_of_lacks : (sep : ℕ) (s : String) → lacks sep s ≡ true → partition sep s ≡ (s, false, "")
unfolding partition all_chars
partition_of_lacks sep String.[] h = refl
partition_of_lacks sep (String.◌∷◌ c s) h = elim (Bool-cases (is_char sep c)) [
  | inl is ↦ cc (is, h)
  | inr isnt ↦ rw (isnt, partition_of_lacks sep s (rw isnt at h)) refl
]

partition-append :
    (s t : String) → lacks b'.' s ≡ true → partition b'.' (s <> ("." <> t)) ≡ (s, true, t)
unfolding partition all_chars nat_eq
partition-append String.[] t h = rw (nil-append ("." <> t), cons-append "." "" t, nil-append t) refl
partition-append (String.◌∷◌ c s) t h = elim (Bool-cases (is_char b'.' c)) [
  | inl is ↦ cc (is, h)
  | inr isnt ↦ rw (cons-append c s ("." <> t)) (rw (isnt, partition-append s t (rw isnt at h)) refl)
]

nine_digits-ljust :
    (found : Bool) (fraction : String)
    → text_length fraction ≤ 9
    → (found ≡ false → fraction ≡ "")
    → nine_digits found fraction ≡ ljust 9 "0" fraction
unfolding nine_digits
nine_digits-ljust true fraction h e = take_chars-pad "0" 9 9 fraction h (omega arith)
nine_digits-ljust false fraction h e =
    rw (e refl) (take_chars-pad "0" 9 9 "" (unfold text_length in omega arith) (omega arith))

-- What the importer makes of the two groups.
partition-Groups :
    (value seconds fraction : String)
    → Groups value seconds fraction
    → (found : Bool) × (partition b'.' (removesuffix "Z" value) ≡ (seconds, found, fraction))
      × (nine_digits found fraction ≡ ljust 9 "0" fraction)
partition-Groups value seconds fraction g = elim g.text [
  | inl (t, e) ↦ (
    false,
    rw (t, removesuffix-append seconds, partition_of_lacks b'.' seconds g.no_dot, e) refl,
    nine_digits-ljust false fraction g.short (λ _. e),
  )
  | inr t ↦ (
    true,
    ap (λ x. partition b'.' (removesuffix "Z" x))
          (t
            ∙ ap (λ x. seconds <> x) (sym (append_assoc "." fraction "Z"))
            ∙ sym (append_assoc seconds ("." <> fraction) "Z"))
        ∙ ap (partition b'.') (removesuffix-append (seconds <> ("." <> fraction)))
        ∙ partition-append seconds fraction g.no_dot,
    nine_digits-ljust true fraction g.short (λ h. cc),
  )
]

parts_ns-total_ns :
    (value seconds fraction : String)
    → Groups value seconds fraction
    → parts_ns (partition b'.' (removesuffix "Z" value)) ≡ total_ns seconds fraction
unfolding parts_ns total_ns
parts_ns-total_ns value seconds fraction g =
    let (found, p, n) = partition-Groups value seconds fraction g in rw (p, parts_ns) (rw n refl)

abbrev outcome : String → Option (String × String) → Result ℤ
outcome value groups = elim groups [
  | none ↦ err (invalid_timestamp value)
  | some (seconds, fraction) ↦ or_raise (total_ns seconds fraction) (not_a_datetime value)
]

exporter-outcome :
    (value : String) → Timestamps.timestamp_ns value ≡ outcome value (timestamp_groups value)
unfolding Timestamps.timestamp_ns
exporter-outcome value = refl

agreement_at :
    (value : String) (groups : Option (String × String)) (t : ℤ)
    → timestamp_groups value ≡ groups
    → outcome value groups ≡ ok t
    → timestamp_ns value ≡ ok t
unfolding timestamp_ns
agreement_at value none t e h = cc
agreement_at value (some (seconds, fraction)) t e h =
    let total = or_raise-eq-ok (total_ns seconds fraction) _ h in
    rw (parts_ns-total_ns value seconds fraction (timestamp_groups-Groups value seconds fraction e))
      (rw total refl)

-- A timestamp that the exporter accepts is read by the importer as the same number of nanoseconds.
pub timestamp_ns-agreement :
    (value : String) (t : ℤ) → Timestamps.timestamp_ns value ≡ ok t → timestamp_ns value ≡ ok t
timestamp_ns-agreement value t h =
    agreement_at value (timestamp_groups value) t refl (sym (exporter-outcome value) ∙ h)

removesuffix_of_other : (s : String) → ends_with "Z" s ≡ false → removesuffix "Z" s ≡ s
unfolding removesuffix ends_with
removesuffix_of_other String.[] h = refl
removesuffix_of_other (String.◌∷◌ c s) h = ground (arith, removesuffix_of_other s)

nine_digits-append :
    (fraction more : String)
    → text_length fraction ≡ 9
    → nine_digits true (fraction <> more) ≡ fraction
unfolding nine_digits
nine_digits-append fraction more h =
    rw (append_assoc fraction more (repeat_char "0" 9)) (take_chars-append 9 fraction _ h)

-- With nine digits at the start of the fraction, only these count.
parts_ns_of_nine :
    (seconds fraction more : String)
    → text_length fraction ≡ 9
    → parts_ns (seconds, true, fraction <> more) ≡ parts_ns (seconds, true, fraction)
unfolding parts_ns
parts_ns_of_nine seconds fraction more h =
    let whole : nine_digits true fraction ≡ fraction =
      ap (nine_digits true) (sym (append-nil fraction)) ∙ nine_digits-append fraction "" h in
    rw (nine_digits-append fraction more h, whole) refl

-- Behind nine digits of a fraction the importer reads nothing: a UTC offset there, in place of the
-- "Z", is dropped, and the local time is taken for UTC.
pub timestamp_ns-offset :
    (seconds fraction offset : String) (t : ℤ)
    → lacks b'.' seconds ≡ true
    → text_length fraction ≡ 9
    → ends_with "Z" (seconds <> ("." <> (fraction <> offset))) ≡ false
    → timestamp_ns (seconds <> ("." <> (fraction <> "Z"))) ≡ ok t
    → timestamp_ns (seconds <> ("." <> (fraction <> offset))) ≡ ok t
unfolding timestamp_ns
timestamp_ns-offset seconds fraction offset t dot nine ends h =
    let z : removesuffix "Z" (seconds <> ("." <> (fraction <> "Z")))
        ≡ seconds <> ("." <> fraction) =
      ap (λ x. removesuffix "Z" (seconds <> x)) (sym (append_assoc "." fraction "Z"))
      ∙ ap (removesuffix "Z") (sym (append_assoc seconds ("." <> fraction) "Z"))
      ∙ removesuffix-append (seconds <> ("." <> fraction)) in
    let total =
      or_raise-eq-ok (parts_ns (seconds, true, fraction)) _
        (rw (z, partition-append seconds fraction dot) at h) in
    rw
      (
        removesuffix_of_other _ ends,
        partition-append seconds (fraction <> offset) dot,
        parts_ns_of_nine seconds fraction offset nine,
        total,
      )
      refl
