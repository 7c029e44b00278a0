-- ===== src/Datasets/Segments/Loop.antt =====
-- datasets.py: the loop over the buckets in `parse_aggregate_rows`.
use where_to_tls.Base.{
  ◌*◌, ◌^◌, AllItems-both, keys, contains, AllItems-append, AllItems-mono, ◌⊎◌, ℕ, suc, ◌+◌, ◌≤◌,
  ◌≡◌, refl, sym, ap, ◌∙◌, subst, true, false, ◌==◌, Option, none, some, List, [], ◌∷◌, ◌++◌,
  lookup, insert, lookup-insert_ne, get_or, get_or_of_lookup, AllItems, map, Bool-cases,
  Option-cases, inl, inr, eq_of_test, test_of_eq, string_eq, nat_eq, option_eq, pair_eq,
  if◌then◌else◌, arith,
}
use mathlib.Core.List.{append-nil, append_assoc}
use mathlib.Core.Bool.{false≢true}
use mathlib.Core.Option.{some-injective}
use where_to_tls.Base.Growth.{get_or_missing}
use where_to_tls.Config.{Stack, stack_eq}
use where_to_tls.Common.Numbers.{Floats}
use where_to_tls.Datasets.Segments.{
  BucketKey, SegmentKey, gap_ns, is_gap, bucket_leq, Buckets, Segments, add_bucket, add_buckets,
}
use where_to_tls.Datasets.Segments.Cut.{
  IsClose, one, more, point_of, Lines, IsOn, IsJoined, line_key, IsCut, put-IsCut, put-IsOn,
  put-IsOn_keeps,
}

-- A bucket of the repeat is not before the last one.
abbrev pub IsLater : Option ℕ → Option ℕ → BucketKey → Type 0
IsLater repeat previous k = (p : ℕ) → previous ≡ some p → k.0 ≡ repeat → p ≤ k.1

no_gap : (p elapsed : ℕ) → is_gap (some p) elapsed ≡ false → elapsed ≤ p + gap_ns
no_gap p elapsed h = ground arith

gap_far : (p q elapsed : ℕ) → is_gap (some p) elapsed ≡ true → p ≡ q → ¬ (elapsed ≤ q + gap_ns)
gap_far p q elapsed h e near = ground arith

-- Each bucket is at most all later ones.
abbrev pub IsOrdered : List BucketKey → Type 0
IsOrdered [] = Unit
IsOrdered (k ∷ ks) = AllItems (λ other. bucket_leq k other ≡ true) ks × IsOrdered ks

leq_times : (a : Option ℕ) (e f : ℕ) → bucket_leq (a, e) (a, f) ≡ true → e ≤ f
unfolding nat_eq
leq_times none e f h = ground (arith, h)
leq_times (some n) e f h = ground (arith, h)

same_repeat_leq :
    (k other : BucketKey) (p : ℕ)
    → k.0 ≡ other.0
    → k.1 ≡ p
    → bucket_leq k other ≡ true
    → p ≤ other.1
same_repeat_leq (a, e) (b, f) p same last h =
    let h' : bucket_leq (b, e) (b, f) ≡ true = ap (λ r. bucket_leq (r, e) (b, f)) (sym same) ∙ h in
    subst (λ n. n ≤ f) last (leq_times b e f h')

module _ (F : Floats) (stack : Stack) (buckets : Buckets F) (repeat : Option ℕ) where
  -- What a round does to the lines.
  record Step (s : Segments F) (k : BucketKey) (t : Segments F) : Type 0 where
    cut : IsCut F stack buckets repeat t
    keeps :
        (key : SegmentKey) (other : BucketKey)
        → IsOn F stack buckets s.result key other
        → IsOn F stack buckets t.result key other
    point :
        k.0 ≡ repeat
        → IsOn F stack buckets t.result (line_key F stack buckets repeat t.segment) k
          × (t.previous ≡ some k.1)
    same_segment :
        (p : ℕ) → s.previous ≡ some p → k.0 ≡ repeat → k.1 ≤ p + gap_ns → t.segment ≡ s.segment
    idle : (k.0 == repeat) ≡ false → t ≡ s
    last : (p : ℕ) → t.previous ≡ some p → (s.previous ≡ some p) ⊎ ((k.0 ≡ repeat) × (k.1 ≡ p))
    others :
        (key : SegmentKey) → (key.1.0 == repeat) ≡ false → lookup key t.result ≡ lookup key s.result

  abbrev put_at : Segments F → ℕ → ℕ → Segments F
  put_at s segment elapsed = record {
    segment = segment;
    previous = some elapsed;
    result =
        insert (line_key F stack buckets repeat segment)
          (get_or (line_key F stack buckets repeat segment) [] s.result
            ++ (point_of F stack buckets repeat elapsed ∷ []))
          s.result;
  }

  add_bucket_other :
      (s : Segments F) (selected : Option ℕ) (elapsed : ℕ)
      → (selected == repeat) ≡ false
      → add_bucket F stack buckets repeat s (selected, elapsed) ≡ s
  unfolding add_bucket
  add_bucket_other s selected elapsed h = rw h refl

  add_bucket_at :
      (s : Segments F) (selected : Option ℕ) (elapsed segment : ℕ)
      → (selected == repeat) ≡ true
      → (if is_gap s.previous elapsed then suc s.segment else s.segment) ≡ segment
      → add_bucket F stack buckets repeat s (selected, elapsed) ≡ put_at s segment elapsed
  unfolding add_bucket
  add_bucket_at s selected elapsed segment h e = rw h (ap (λ n. put_at s n elapsed) e)

  other_line :
      (segment : ℕ) (key : SegmentKey)
      → (key.1.0 == repeat) ≡ false
      → (key == line_key F stack buckets repeat segment) ≡ false
  other_line segment key differs =
      elim (Bool-cases (key == line_key F stack buckets repeat segment)) [
        | inr other ↦ other
        | inl same ↦
            let e =
              ap (λ (k : SegmentKey). k.1.0)
                (eq_of_test key (line_key F stack buckets repeat segment) same) in
            absurd (false≢true (sym differs ∙ test_of_eq key.1.0 repeat e))
      ]

  -- The lines after a point was put at the end of one that has the times `times`.
  put_at-Step :
      (s : Segments F) (segment elapsed : ℕ) (times : List ℕ)
      → get_or (line_key F stack buckets repeat segment) [] s.result
        ≡ map (point_of F stack buckets repeat) times
      → IsClose (times ++ (elapsed ∷ [])) elapsed
      → AllItems (λ t. contains (keys buckets) (repeat, t) ≡ true) (times ++ (elapsed ∷ []))
      → s.segment ≤ segment
      → ((p : ℕ) → s.previous ≡ some p → elapsed ≤ p + gap_ns → segment ≡ s.segment)
      → IsCut F stack buckets repeat s
      → Step s (repeat, elapsed) (put_at s segment elapsed)
  put_at-Step s segment elapsed times before close known least same c = record {
    cut =
        put-IsCut F stack buckets repeat s.result segment times elapsed before close known c.each
          (λ j above. c.fresh j (omega arith));
    keeps = put-IsOn_keeps F stack buckets repeat s.result segment times elapsed before close known;
    point = λ _.
        (put-IsOn F stack buckets repeat s.result segment times elapsed before close known, refl);
    same_segment = λ p h _ near. same p h near;
    idle = λ differs. absurd (false≢true (sym differs ∙ test_of_eq repeat repeat refl));
    last = λ p h. inr (refl, some-injective elapsed p h);
    others = λ key differs.
        lookup-insert_ne key (line_key F stack buckets repeat segment) _ s.result
          (other_line segment key differs);
  }

  add_bucket-Step :
      (s : Segments F) (k : BucketKey)
      → contains (keys buckets) k ≡ true
      → IsCut F stack buckets repeat s
      → IsLater repeat s.previous k
      → Step s k (add_bucket F stack buckets repeat s k)
  add_bucket-Step s (selected, elapsed) listed c later = elim (Bool-cases (selected == repeat)) [
    | inr other ↦
        subst (Step s (selected, elapsed)) (sym (add_bucket_other s selected elapsed other))
          (record {
            cut = c;
            keeps = λ key k p. p;
            point = λ e. absurd (false≢true (sym other ∙ test_of_eq selected repeat e));
            same_segment = λ p h e near. refl;
            idle = λ _. refl;
            last = λ p h. inl h;
            others = λ key differs. refl;
          })
    | inl same ↦
        let e = eq_of_test selected repeat same in
        let known : contains (keys buckets) (repeat, elapsed) ≡ true =
          ap (λ r. contains (keys buckets) (r, elapsed)) (sym e) ∙ listed in
        subst (λ r. Step s (r, elapsed) (add_bucket F stack buckets repeat s (selected, elapsed)))
          (sym e)
          (elim (Option-cases s.previous) [
            | inl none_yet ↦
                subst (Step s (repeat, elapsed))
                  (sym (
                    add_bucket_at s selected elapsed s.segment same
                      (ap (λ o. if is_gap o elapsed then suc s.segment else s.segment) none_yet)))
                  (put_at-Step s s.segment elapsed []
                    (get_or_missing _ [] s.result (c.start none_yet)) (one elapsed) (known, tt)
                    (omega arith) (λ q h _. refl) c)
            | inr (p, previous) ↦
                let tested = ap (λ o. is_gap o elapsed) previous in
                elim (Bool-cases (is_gap (some p) elapsed)) [
                  | inl gap ↦
                      subst (Step s (repeat, elapsed))
                        (sym (
                          add_bucket_at s selected elapsed (suc s.segment) same
                            (ap (λ b. if b then suc s.segment else s.segment) (tested ∙ gap))))
                        (put_at-Step s (suc s.segment) elapsed []
                          (get_or_missing _ [] s.result (c.fresh (suc s.segment) (omega arith)))
                          (one elapsed) (known, tt) (omega arith)
                          (λ q h near.
                            let same_time = some-injective p q (sym previous ∙ h) in
                            absurd (gap_far p q elapsed gap same_time near))
                          c)
                  | inr close ↦
                      let (times, so_far, found, of_times) = c.current p previous in
                      subst (Step s (repeat, elapsed))
                        (sym (
                          add_bucket_at s selected elapsed s.segment same
                            (ap (λ b. if b then suc s.segment else s.segment) (tested ∙ close))))
                        (put_at-Step s s.segment elapsed times
                          (get_or_of_lookup _ _ [] s.result found)
                          (more times p elapsed so_far (later p previous e)
                            (no_gap p elapsed close))
                          (AllItems-append _ times (elapsed ∷ []) of_times (known, tt))
                          (omega arith) (λ q h _. refl) c)
                ]
          ])
  ]

  still-IsLater :
      (s : Segments F) (k : BucketKey) (t : Segments F)
      → Step s k t
      → (ks : List BucketKey) → AllItems (λ other. bucket_leq k other ≡ true) ks
      → AllItems (IsLater repeat s.previous) ks
      → AllItems (IsLater repeat t.previous) ks
  still-IsLater s k t step [] above later = tt
  still-IsLater s k t step (other ∷ ks) above later = (
    λ p previous e. elim (step.last p previous) [
      | inl before ↦ later.0 p before e
      | inr (own, last) ↦ same_repeat_leq k other p (own ∙ sym e) last above.0
    ],
    still-IsLater s k t step ks above.1 later.1,
  )

  -- Buckets that are at most a minute apart are on one line.
  abbrev pub IsNear : Lines F stack buckets → BucketKey → BucketKey → Type 0
  IsNear result j k =
      j.0 ≡ repeat
      → k.0 ≡ repeat
      → j.1 ≤ k.1 + 60 * 10 ^ 9
      → k.1 ≤ j.1 + 60 * 10 ^ 9
      → IsJoined F stack buckets result repeat j k

  abbrev pub AllNear : Lines F stack buckets → List BucketKey → Type 0
  AllNear result ks = AllItems (λ k. AllItems (λ j. IsNear result j k) ks) ks

  -- A bucket that was there and is at most a minute before the last one is on the current line.
  abbrev IsRecent : Segments F → BucketKey → Type 0
  IsRecent s j =
      j.0 ≡ repeat
      → (p : ℕ) × (s.previous ≡ some p)
        × (j.1 ≤ p)
        × (p ≤ j.1 + gap_ns
            → IsOn F stack buckets s.result (line_key F stack buckets repeat s.segment) j)

  still-IsRecent :
      (s : Segments F) (k : BucketKey) (t : Segments F)
      → Step s k t
      → IsLater repeat s.previous k
      → (j : BucketKey) → IsRecent s j
      → IsRecent t j
  still-IsRecent s k t step later j recent own = elim (Bool-cases (k.0 == repeat)) [
    | inr other ↦ subst (λ u. IsRecent u j) (sym (step.idle other)) recent own
    | inl same ↦
        let e = eq_of_test k.0 repeat same in
        let (p, previous, below, on_line) = recent own in
        let p_below = later p previous e in
        (
          k.1,
          (step.point e).1,
          omega arith,
          λ near.
              subst (λ n. IsOn F stack buckets t.result (line_key F stack buckets repeat n) j)
                (sym (step.same_segment p previous e (omega arith)))
                (step.keeps _ j (on_line (omega arith))),
        )
  ]

  new-IsRecent : (s : Segments F) (k : BucketKey) (t : Segments F) → Step s k t → IsRecent t k
  new-IsRecent s k t step e = (k.1, (step.point e).1, omega arith, λ _. (step.point e).0)

  -- The new bucket and a recent one.
  recent-IsJoined :
      (s : Segments F) (k : BucketKey) (t : Segments F)
      → Step s k t
      → (j : BucketKey) → IsRecent t j
      → j.0 ≡ repeat
      → k.0 ≡ repeat
      → k.1 ≤ j.1 + 60 * 10 ^ 9
      → IsJoined F stack buckets t.result repeat j k
  recent-IsJoined s k t step j recent own e near =
      let (p, previous, below, on_line) = recent own in
      let same = some-injective p k.1 (sym previous ∙ (step.point e).1) in
      record {
        key = line_key F stack buckets repeat t.segment;
        same_repeat = refl;
        one_point = on_line (omega arith);
        other_point = (step.point e).0;
      }

  swap-IsJoined :
      (result : Lines F stack buckets) (j k : BucketKey)
      → IsJoined F stack buckets result repeat j k
      → IsJoined F stack buckets result repeat k j
  swap-IsJoined result j k i = record {
    key = i.key;
    same_repeat = i.same_repeat;
    one_point = i.other_point;
    other_point = i.one_point;
  }

  pub later-IsNear :
      (before after : Lines F stack buckets)
      → ((key : SegmentKey) (other : BucketKey)
          → IsOn F stack buckets before key other
          → IsOn F stack buckets after key other)
      → (j k : BucketKey) → IsNear before j k
      → IsNear after j k
  later-IsNear before after keeps j k near own own' a b =
      let i = near own own' a b in
      record {
        key = i.key;
        same_repeat = i.same_repeat;
        one_point = keeps i.key j i.one_point;
        other_point = keeps i.key k i.other_point;
      }

  pub later-AllNear :
      (before after : Lines F stack buckets)
      → ((key : SegmentKey) (other : BucketKey)
          → IsOn F stack buckets before key other
          → IsOn F stack buckets after key other)
      → (ks : List BucketKey) → AllNear before ks
      → AllNear after ks
  later-AllNear before after keeps ks all =
      AllItems-mono _ _ ks
        (λ k near. AllItems-mono _ _ ks (λ j. later-IsNear before after keeps j k) near) all

  new-AllNear :
      (s : Segments F) (k : BucketKey) (t : Segments F) (done : List BucketKey)
      → Step s k t
      → AllItems (IsRecent t) done
      → AllNear s.result done
      → AllNear t.result (done ++ (k ∷ []))
  new-AllNear s k t done step recent all =
      let own : IsNear t.result k k =
        λ e _ a b. recent-IsJoined s k t step k (new-IsRecent s k t step) e e a in
      let with_new =
        AllItems-mono (IsRecent t) (λ j. IsNear t.result j k) done
          (λ j r e e' a b. recent-IsJoined s k t step j r e e' b) recent in
      let from_new =
        AllItems-mono (IsRecent t) (λ j. IsNear t.result k j) done
          (λ j r e e' a b. swap-IsJoined t.result j k (recent-IsJoined s k t step j r e' e a))
          recent in
      AllItems-append (λ j. AllItems (λ i. IsNear t.result i j) (done ++ (k ∷ []))) done (k ∷ [])
        (AllItems-mono _ _ done
          (λ j (old, new). AllItems-append (λ i. IsNear t.result i j) done (k ∷ []) old (new, tt))
          (AllItems-both _ _ done (later-AllNear s.result t.result step.keeps done all) from_new))
        (AllItems-append (λ j. IsNear t.result j k) done (k ∷ []) with_new (own, tt), tt)

  -- What the loop over all buckets does to the lines.
  pub record Looped (s : Segments F) (ks : List BucketKey) (t : Segments F) : Type 0 where
    pub cut : IsCut F stack buckets repeat t
    pub keeps :
        (key : SegmentKey) (other : BucketKey)
        → IsOn F stack buckets s.result key other
        → IsOn F stack buckets t.result key other
    pub near : AllNear t.result ks
    pub others :
        (key : SegmentKey) → (key.1.0 == repeat) ≡ false → lookup key t.result ≡ lookup key s.result

  pub add_buckets-Looped :
      (done ks : List BucketKey) (s : Segments F)
      → AllItems (λ k. contains (keys buckets) k ≡ true) ks
      → IsOrdered ks
      → AllItems (IsLater repeat s.previous) ks
      → AllItems (IsRecent s) done
      → AllNear s.result done
      → IsCut F stack buckets repeat s
      → Looped s (done ++ ks) (add_buckets F stack buckets repeat s ks)
  unfolding add_buckets
  add_buckets-Looped done [] s listed ordered later recent near c = record {
    cut = c;
    keeps = λ key k p. p;
    near = subst (AllNear s.result) (sym (append-nil done)) near;
    others = λ key differs. refl;
  }
  add_buckets-Looped done (k ∷ ks) s listed ordered later recent near c =
      let t = add_bucket F stack buckets repeat s k in
      let step = add_bucket-Step s k listed.0 c later.0 in
      let still =
        AllItems-mono (IsRecent s) (IsRecent t) done (still-IsRecent s k t step later.0) recent in
      let rest =
        add_buckets-Looped (done ++ (k ∷ [])) ks t listed.1 ordered.1
          (still-IsLater s k t step ks ordered.0 later.1)
          (AllItems-append (IsRecent t) done (k ∷ []) still (new-IsRecent s k t step, tt))
          (new-AllNear s k t done step still near) step.cut in
      record {
        cut = rest.cut;
        keeps = λ key other p. rest.keeps key other (step.keeps key other p);
        near = subst (AllNear _) (append_assoc done (k ∷ []) ks) rest.near;
        others = λ key differs. rest.others key differs ∙ step.others key differs;
      }
