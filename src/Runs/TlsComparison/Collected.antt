-- ===== src/Runs/TlsComparison/Collected.antt =====
-- runs.py: the cells of `build_tls_comparison` behind the loop over the source cells.
use where_to_tls.Base.{
  AllPairs, String, ◌≡◌, refl, sym, ap, ◌∙◌, subst, true, false, not, ◌==◌, some, List, [], ◌∷◌,
  Dict, keys, lookup, insert, get_or, get_or_of_lookup, has_key, contains, AllItems-last, NodupKeys,
  NodupList, insert-NodupKeys, lookup-insert_self, lookup-insert_ne, map, Bool-cases, inl, inr,
  eq_of_test, ok, raise_if-eq-ok, passed, >>=-eq-ok, ok-injective, for_loop, for_loop_done,
  AllItems, AllItems-append, AllItems-mono, AllValues, AllValues-insert, incompatible_settings,
  duplicate_configuration, string_eq, nat_eq, pair_eq, list_eq,
}
use where_to_tls.Base.Growth.{Extends-insert, get_or-AllValues, AllValues-mono}
use where_to_tls.Config.{stack_eq, tls_configurations, profile_label, family_eq, profile_eq}
use where_to_tls.Common.Numbers.{Floats}
use where_to_tls.Runs.Rows.{Row}
use where_to_tls.Runs.Summary.{Cell, ExecutionKey, SummaryExecution}
use where_to_tls.Runs.Summary.Keys.{SameRepeat}
use where_to_tls.Runs.Summary.Groups.{TlsKey, tls_key, cell_name}
use where_to_tls.Runs.TlsComparison.{
  ProfileKey, TlsCell, Identities, new_tls_cell, RecordKey, pair_of, check_pair, Profiles,
  add_execution, add_source,
}
use where_to_tls.Runs.TlsComparison.Taken.{IsTaken, AllRecords, add_execution-IsTaken}
use where_to_tls.Runs.TlsComparison.Agreement.{
  Grows, HasRepeats, check_pair-HasRepeats, IsChecked, IsAgreed-Grows, add_execution-IsChecked,
}

-- A source cell in the profiles, at its configuration.
pub record HasSource (F : Floats) (rows : List Row) (profiles : Dict ProfileKey TlsCell)
    (source : Cell) : Type 0 where
  pub cell : TlsCell
  pub found : lookup (cell_name source) profiles ≡ some cell
  pub collected : Cell
  pub there : lookup (tls_key source) cell.configurations ≡ some collected
  pub same_keys : keys collected.executions ≡ keys source.executions
  pub same_cell : record collected { executions = source.executions } ≡ source
  pub taken : AllPairs (IsTaken F rows (cell_name source)) source.executions collected.executions

-- What is known of a source cell before.
pub record IsSupported (source : Cell) : Type 0 where
  pub supported : contains tls_configurations (tls_key source) ≡ true
  pub distinct : NodupKeys source.executions
  pub same_repeats : AllItems SameRepeat source.executions

module _ (F : Floats) where
  -- A source cell under its configuration in a cell of the comparison.
  pub record IsSource (identities : Identities) (key : ProfileKey)
      (compatibility : Dict String String) (configuration : TlsKey) (source : Cell) : Type 0 where
    pub configured : tls_key source ≡ configuration
    pub supported : contains tls_configurations configuration ≡ true
    pub named : cell_name source ≡ key
    pub compatible : compatibility ≡ source.compatibility
    pub repeats : HasRepeats (keys source.executions)
    pub distinct : NodupKeys source.executions
    pub same_repeats : AllItems SameRepeat source.executions
    pub checked : AllItems (IsChecked F identities key configuration) source.executions

  -- A cell of the comparison under its family and profile.
  pub record IsTlsCell (identities : Identities) (key : ProfileKey) (cell : TlsCell) : Type 0 where
    pub named : (cell.family, cell.profile) ≡ key
    pub distinct : NodupKeys cell.configurations
    pub each_source : AllValues (IsSource identities key cell.compatibility) cell.configurations

  pub record IsCollected (s : Profiles) : Type 0 where
    pub distinct : NodupKeys s.profiles
    pub each_cell : AllValues (IsTlsCell s.identities) s.profiles

  later-IsSource :
      (before after : Identities) (key : ProfileKey) (compatibility : Dict String String)
      (configuration : TlsKey) (source : Cell)
      → Grows before after
      → IsSource before key compatibility configuration source
      → IsSource after key compatibility configuration source
  later-IsSource before after key compatibility configuration source g i = record {
    configured = i.configured;
    supported = i.supported;
    named = i.named;
    compatible = i.compatible;
    repeats = i.repeats;
    distinct = i.distinct;
    same_repeats = i.same_repeats;
    checked =
        AllItems-mono (IsChecked F before key configuration) (IsChecked F after key configuration)
          source.executions
          (λ item c. (IsAgreed-Grows F before after key configuration item.1 g c.0, c.1)) i.checked;
  }

  later-IsTlsCell :
      (before after : Identities) (key : ProfileKey) (cell : TlsCell)
      → Grows before after
      → IsTlsCell before key cell
      → IsTlsCell after key cell
  later-IsTlsCell before after key cell g i = record {
    named = i.named;
    distinct = i.distinct;
    each_source =
        AllValues-mono (IsSource before key cell.compatibility)
          (IsSource after key cell.compatibility) cell.configurations
          (λ configuration source.
            later-IsSource before after key cell.compatibility configuration source g)
          i.each_source;
  }

  -- What a round that does not raise reads and does.
  record Round (records : Dict RecordKey Row) (s : Profiles) (source : Cell) (after : Profiles)
      : Type 0 where
    compatible :
        (get_or (cell_name source) (new_tls_cell source) s.profiles).compatibility
        ≡ source.compatibility
    free :
        has_key
          (tls_key source)
          (get_or (cell_name source) (new_tls_cell source) s.profiles).configurations
        ≡ false
    repeats : HasRepeats (keys source.executions)
    identities : Identities
    executions : Dict ExecutionKey SummaryExecution
    grows : Grows s.identities identities
    checked : AllItems (IsChecked F identities (cell_name source) (tls_key source)) executions
    same_keys : keys executions ≡ keys source.executions
    looped :
        for_loop
          (add_execution F records (cell_name source) (tls_key source))
          (s.identities, [])
          source.executions
        ≡ ok (identities, executions)
    same_repeats : AllItems SameRepeat source.executions → AllItems SameRepeat executions
    result :
        record {
          profiles =
              insert
                (cell_name source)
                (record (get_or (cell_name source) (new_tls_cell source) s.profiles) {
                  configurations =
                      insert
                        (tls_key source)
                        (record source { executions = executions })
                        (get_or (cell_name source) (new_tls_cell source) s.profiles).configurations;
                })
                s.profiles;
          identities = identities;
        }
        ≡ after

  add_source-Round :
      (records : Dict RecordKey Row) (s : Profiles) (source : Cell) (after : Profiles)
      → add_source F records s source ≡ ok after
      → Round records s source after
  unfolding add_source
  add_source-Round records s source after h =
      let key = cell_name source in
      let cell = get_or key (new_tls_cell source) s.profiles in
      let (compatible, h₁) =
        raise_if-eq-ok (not (cell.compatibility == source.compatibility))
          (incompatible_settings (profile_label source.profile)) _ h in
      let (free, h₂) =
        raise_if-eq-ok (has_key (tls_key source) cell.configurations)
          (duplicate_configuration (profile_label source.profile)) _ h₁ in
      let (u, pairs, h₃) =
        >>=-eq-ok
          (for_loop (λ _ pair. check_pair (keys source.executions) pair) tt
            (map pair_of (keys source.executions)))
          _ h₂ in
      let ((identities, executions), looped, h₄) =
        >>=-eq-ok
          (for_loop (add_execution F records key (tls_key source)) (s.identities, [])
            source.executions)
          _ h₃ in
      let (grows, checked, same_keys, same_repeats) =
        add_execution-IsChecked F records key (tls_key source) s.identities identities
          source.executions executions looped in
      record {
        compatible = eq_of_test cell.compatibility source.compatibility (passed _ compatible);
        free = free;
        repeats = check_pair-HasRepeats (keys source.executions) u pairs;
        identities = identities;
        executions = executions;
        grows = grows;
        checked = checked;
        same_keys = same_keys;
        looped = looped;
        same_repeats = same_repeats;
        result = ok-injective h₄;
      }

  module _ (records : Dict RecordKey Row) (s : Profiles) (source : Cell) (after : Profiles)
      (r : Round records s source after) where
    abbrev base : TlsCell
    base = get_or (cell_name source) (new_tls_cell source) s.profiles

    abbrev collected : Cell
    collected = record source { executions = r.executions }

    abbrev grown : TlsCell
    grown = record base { configurations = insert (tls_key source) collected base.configurations }

    new-IsSource :
        IsSupported source
        → IsSource r.identities (cell_name source) base.compatibility (tls_key source) collected
    new-IsSource supported = record {
      configured = refl;
      supported = supported.supported;
      named = refl;
      compatible = r.compatible;
      repeats = subst HasRepeats (sym r.same_keys) r.repeats;
      distinct = subst NodupList (sym r.same_keys) supported.distinct;
      same_repeats = r.same_repeats supported.same_repeats;
      checked = r.checked;
    }

    grown-IsTlsCell :
        IsSupported source
        → IsTlsCell r.identities (cell_name source) base
        → IsTlsCell r.identities (cell_name source) grown
    grown-IsTlsCell supported c = record {
      named = c.named;
      distinct = insert-NodupKeys (tls_key source) collected base.configurations c.distinct;
      each_source =
          AllValues-insert (IsSource r.identities (cell_name source) base.compatibility)
            base.configurations (tls_key source) collected (new-IsSource supported) c.each_source;
    }

    Round-IsCollected : IsSupported source → IsCollected s → IsCollected after
    Round-IsCollected supported i =
        let cells =
          AllValues-mono (IsTlsCell s.identities) (IsTlsCell r.identities) s.profiles
            (λ key cell. later-IsTlsCell s.identities r.identities key cell r.grows) i.each_cell in
        subst IsCollected r.result (record {
          distinct = insert-NodupKeys (cell_name source) grown s.profiles i.distinct;
          each_cell =
              AllValues-insert (IsTlsCell r.identities) s.profiles (cell_name source) grown
                (grown-IsTlsCell supported (
                  get_or-AllValues (IsTlsCell r.identities) s.profiles (cell_name source)
                    (new_tls_cell source) cells
                    (record { named = refl; distinct = tt; each_source = tt })))
                cells;
        })

    Round-HasSource :
        (rows : List Row) → AllRecords rows records → HasSource F rows after.profiles source
    Round-HasSource rows all =
        subst (λ (t : Profiles). HasSource F rows t.profiles source) r.result
          (record {
            cell = grown;
            found = lookup-insert_self (cell_name source) grown s.profiles;
            collected = collected;
            there = lookup-insert_self (tls_key source) collected base.configurations;
            same_keys = r.same_keys;
            same_cell = refl;
            taken =
                add_execution-IsTaken F rows records (cell_name source) (tls_key source)
                  s.identities r.identities source.executions r.executions all r.looped;
          })

    Round-keeps :
        (rows : List Row) (other : Cell)
        → HasSource F rows s.profiles other
        → HasSource F rows after.profiles other
    Round-keeps rows other p =
        subst (λ (t : Profiles). HasSource F rows t.profiles other) r.result
          (elim (Bool-cases (cell_name other == cell_name source)) [
            | inr differs ↦ record {
              cell = p.cell;
              found =
                  lookup-insert_ne (cell_name other) (cell_name source) grown s.profiles differs
                  ∙ p.found;
              collected = p.collected;
              there = p.there;
              same_keys = p.same_keys;
              same_cell = p.same_cell;
              taken = p.taken;
            }
            | inl same ↦
                let e = eq_of_test (cell_name other) (cell_name source) same in
                let there : base ≡ p.cell =
                  get_or_of_lookup (cell_name source) p.cell (new_tls_cell source) s.profiles
                    (ap (λ k. lookup k s.profiles) (sym e) ∙ p.found) in
                record {
                  cell = grown;
                  found =
                      ap (λ k. lookup k (insert (cell_name source) grown s.profiles)) e
                      ∙ lookup-insert_self (cell_name source) grown s.profiles;
                  collected = p.collected;
                  there =
                      Extends-insert base.configurations (tls_key source) collected r.free
                        (tls_key other) p.collected
                        (ap (λ (c : TlsCell). lookup (tls_key other) c.configurations) there
                          ∙ p.there);
                  same_keys = p.same_keys;
                  same_cell = p.same_cell;
                  taken = p.taken;
                }
          ])

  -- The state behind the loop over the source cells, from an empty one.
  pub add_source-IsCollected :
      (rows : List Row) (records : Dict RecordKey Row) (sources : List Cell) (after : Profiles)
      → AllRecords rows records
      → for_loop
          (add_source F records)
          (record { profiles = []; identities = record { run_identities = []; pair_stacks = [] } })
          sources
        ≡ ok after
      → AllItems IsSupported sources
      → IsCollected after × AllItems (HasSource F rows after.profiles) sources
  add_source-IsCollected rows records sources after all_records h supported =
      for_loop_done (add_source F records)
        (λ done (s : Profiles).
          AllItems IsSupported done → IsCollected s × AllItems (HasSource F rows s.profiles) done)
        (λ done s source t step p all.
          let r = add_source-Round records s source t step in
          let (before, new) = AllItems-last IsSupported done source all in
          let (collected, there) = p before in
          (
            Round-IsCollected records s source t r new collected,
            AllItems-append (HasSource F rows t.profiles) done (source ∷ [])
                (AllItems-mono (HasSource F rows s.profiles) (HasSource F rows t.profiles) done
                  (Round-keeps records s source t r rows) there)
                (Round-HasSource records s source t r rows all_records, tt),
          ))
        sources []
        (record { profiles = []; identities = record { run_identities = []; pair_stacks = [] } })
        after h (λ _. (record { distinct = tt; each_cell = tt }, tt)) supported
