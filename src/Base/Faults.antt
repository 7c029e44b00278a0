-- ===== src/Base/Faults.antt =====
-- Python's exceptions as values. A constructor of `Fault` stands for a `raise` of the exporter or
-- for an exception of a builtin that it calls; it keeps the subject of the message, not its text.
use mathlib.Core.Path.{◌≡◌, refl}
use mathlib.Core.Bool.{Bool, true, false, not}
use mathlib.Core.Option.{Option, none, some}
use Prim.Native.String.{String}

pub data Fault : Type 0 where
  -- builtins: `d[key]` on a missing key, `int(text)`, `float(text)`, `datetime.fromisoformat(text)`
  key_error not_an_integer not_a_float not_a_datetime : String → Fault
  -- common.py
  unsupported_run_id invalid_timestamp non_finite invalid_count : String → Fault
  unexpected_execution unreadable_token_file bad_token_entry : String → Fault
  -- runs.py
  row_count_differs execution_set_differs unexpected_tls_version unexpected_tls_group :
      String → Fault
  unverified_tls_group stack_mismatch unexpected_scenario no_metadata : String → Fault
  inconsistent_metadata invalid_scenario unsupported_tls unsupported_stack : String → Fault
  slot_taken origin_identity_differs duplicate_origin missing_origins : String → Fault
  origin_set_differs no_stack_suffix missing_fields duplicate_execution : String → Fault
  single_scenario stack_sets_differ incomplete_profile_runs duplicate_cells : String → Fault
  scenario_sets_differ incompatible_settings duplicate_configuration : String → Fault
  incompatible_stack_tags incomplete_identity no_field duplicate_field : String → Fault
  -- datasets.py
  no_run_family no_series_values duplicate_percentile missing_percentiles duplicate_failure_rate :
      String → Fault
  zero_requests failed_exceed_requests missing_failure_rates negative_percentile : String → Fault
  non_positive_elapsed missing_counter wrong_run_count : String → Fault
  -- exporter.py
  unknown_charts unmatched_charts no_charts incomplete_executions : String → Fault
  bad_provenance bad_recorded_runs duplicate_segments wrong_svgs duplicate_filenames :
      String → Fault
  bad_scenario_name : String → Fault
  -- import-results.py
  bad_preflight_evidence bad_plaintext_group unknown_group_source : String → Fault
  incomparable_groups bad_run_name bad_execution_index metadata_disagree : String → Fault
  no_observations attribute_error : String → Fault

-- What a call does: it raises, or it returns.
pub data Result {ℓ} (A : Type ℓ) : Type ℓ where
  err : Fault → Result A
  ok : A → Result A

-- `None` where the caller raises.
abbrev pub or_raise {ℓ} : {A : Type ℓ} → Option A → Fault → Result A
or_raise none e = err e
or_raise (some a) e = ok a

-- `if test: raise fault`
abbrev pub raise_if : Bool → Fault → Result (Unit {0})
raise_if false fault = ok tt
raise_if true fault = err fault

infixl 5 ◌>>=◌ ◌>>◌
abbrev pub ◌>>=◌ {ℓ κ} : {A : Type ℓ} {B : Type κ} → Result A → (A → Result B) → Result B
err fault >>= next = err fault
ok value >>= next = next value

-- A call whose value is not used.
abbrev pub ◌>>◌ {κ} : {B : Type κ} → Result (Unit {0}) → Result B → Result B
check >> next = check >>= λ _. next

-- What a sequence that returned did.
pub >>=-eq-ok {ℓ κ} :
    {A : Type ℓ} {B : Type κ} (call : Result A) (next : A → Result B) {result : B}
    → (call >>= next) ≡ ok result
    → (value : A) × (call ≡ ok value) × (next value ≡ ok result)
>>=-eq-ok (err fault) next h = cc
>>=-eq-ok (ok value) next h = (value, refl, h)

-- What follows a check that did not raise.
pub raise_if-eq-ok {ℓ} :
    {B : Type ℓ} (b : Bool) (e : Fault) (k : Result B) {r : B}
    → (raise_if b e >> k) ≡ ok r
    → (b ≡ false) × (k ≡ ok r)
raise_if-eq-ok true e k h = cc
raise_if-eq-ok false e k h = (refl, h)

pub or_raise-eq-ok {ℓ} :
    {A : Type ℓ} (o : Option A) (e : Fault) {a : A} → or_raise o e ≡ ok a → o ≡ some a
or_raise-eq-ok none e h = cc
or_raise-eq-ok (some x) e h = cc

pub ok-injective {ℓ} : {A : Type ℓ} {a b : A} → ok a ≡ ok b → a ≡ b
ok-injective h = cc

-- `if not test: raise` did not raise.
pub passed : (test : Bool) → not test ≡ false → test ≡ true
passed true h = refl
passed false h = cc
