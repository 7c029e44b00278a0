-- ===== src/Runs/TlsComparison/Finished.antt =====
-- runs.py: the cells of a comparison behind the last loop of `build_tls_comparison`.
use where_to_tls.Base.{
  String, ◌≡◌, refl, sym, ◌∙◌, subst, Bool, true, some, List, keys, lookup, has_key, contains,
  select, map, AllValues, AllValues-lookup, string_eq, pair_eq, nat_eq, list_eq, arith,
}
use where_to_tls.Config.{stack_order, tls_configurations, stack_eq, family_eq, profile_eq}
use where_to_tls.Common.Numbers.{Floats}
use where_to_tls.Runs.Summary.{Cell}
use where_to_tls.Runs.Summary.Groups.{TlsKey}
use where_to_tls.Runs.Summary.Product.{every_stack}
use where_to_tls.Runs.TlsComparison.{
  Pair, ProfileKey, TlsCell, Identities, pair_of, pairs_in, finish_cell,
}
use where_to_tls.Runs.TlsComparison.Collected.{IsSource, IsTlsCell}
use where_to_tls.Runs.TlsComparison.Ordered.{
  keys-taken, lookup-taken, AllValues-taken, contains-pairs, values-contains,
}

abbrev pub has_pair : Cell → Pair → Bool
has_pair source pair = contains (map pair_of (keys source.executions)) pair

-- Where a pair of scenario and stack was measured: in a configuration of the cell.
pub record IsMeasured (cell : TlsCell) (pair : Pair) : Type 0 where
  pub configuration : TlsKey
  pub source : Cell
  pub found : lookup configuration cell.configurations ≡ some source
  pub there : has_pair source pair ≡ true

abbrev pub tls_name : TlsCell → ProfileKey
tls_name cell = (cell.family, cell.profile)

listed_pair :
    (scenario_order : List String) (cell : TlsCell) (pair : Pair)
    → contains (finish_cell scenario_order cell).pairs pair ≡ true
    → contains (pairs_in cell) pair ≡ true
unfolding finish_cell
listed_pair scenario_order cell (scenario, stack) h =
    ground
      (arith, contains-pairs (contains (pairs_in cell)) scenario_order stack_order scenario stack)

pub measured_pair :
    (scenario_order : List String) (cell : TlsCell) (pair : Pair)
    → contains scenario_order pair.0 ≡ true
    → contains (pairs_in cell) pair ≡ true
    → contains (finish_cell scenario_order cell).pairs pair ≡ true
unfolding finish_cell
measured_pair scenario_order cell (scenario, stack) ordered h = ground (
  arith,
  contains-pairs (contains (pairs_in cell)) scenario_order stack_order scenario stack,
  every_stack stack,
)

pub finish_cell_name :
    (scenario_order : List String) (cell : TlsCell)
    → tls_name (finish_cell scenario_order cell) ≡ tls_name cell
unfolding finish_cell
finish_cell_name scenario_order cell = refl

pub finished-lookup :
    (scenario_order : List String) (cell : TlsCell) (configuration : TlsKey)
    → contains tls_configurations configuration ≡ true
    → lookup configuration (finish_cell scenario_order cell).configurations
      ≡ lookup configuration cell.configurations
unfolding finish_cell
finished-lookup scenario_order cell configuration supported =
    lookup-taken cell.configurations tls_configurations configuration ∙ ground (arith, supported)

module _ (F : Floats) where
  -- A cell of the comparison, as it is returned.
  pub record IsFinished (identities : Identities) (cell : TlsCell) : Type 0 where
    pub each_source :
        AllValues (IsSource F identities (tls_name cell) cell.compatibility) cell.configurations
    pub test : TlsKey → Bool
    pub ordered : keys cell.configurations ≡ select test tls_configurations
    pub measured : (pair : Pair) → contains cell.pairs pair ≡ true → IsMeasured cell pair

  pub finish_cell-IsFinished :
      (identities : Identities) (scenario_order : List String) (key : ProfileKey) (cell : TlsCell)
      → IsTlsCell F identities key cell
      → IsFinished identities (finish_cell scenario_order cell)
  unfolding finish_cell
  finish_cell-IsFinished identities scenario_order key cell i =
      let sources =
        subst (λ k. AllValues (IsSource F identities k cell.compatibility) cell.configurations)
          (sym i.named) i.each_source in
      record {
        each_source =
            AllValues-taken cell.configurations
              (IsSource F identities (tls_name cell) cell.compatibility) tls_configurations sources;
        test = λ configuration. has_key configuration cell.configurations;
        ordered = keys-taken cell.configurations tls_configurations;
        measured = λ pair listed.
            let (k, source, found, there) =
              values-contains cell.configurations pair i.distinct
                (listed_pair scenario_order cell pair listed) in
            let supported =
              (AllValues-lookup (IsSource F identities (tls_name cell) cell.compatibility)
                cell.configurations k source sources found).supported in
            record {
              configuration = k;
              source = source;
              found =
                  lookup-taken cell.configurations tls_configurations k
                  ∙ ground (arith, supported)
                  ∙ found;
              there = there;
            };
      }
