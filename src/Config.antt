-- ===== src/Config.antt =====
-- analyze/exporting/tls_result_svg/config.py: the stacks, workload families and profiles, and what
-- the exporter knows of each. Keys of its tables that the code makes itself are constructors here.
pub mod Charts
use where_to_tls.Base.{String, Bool, true, false, List, [], ◌∷◌, Eq, map}

pub data Stack : Type 0 where
  dotnet java go rust : Stack

pub data Family : Type 0 where
  baseline linear race : Family

-- The labels of `PROFILE_ROWS`.
pub data Profile : Type 0 where
  linear flat sine fixed_100_vus expandable_1000_vus vus_10 vus_100 vus_1000 : Profile

pub data Statistic : Type 0 where
  p01 p50 p90 p99 : Statistic

Stack_dec : Discrete Stack
Stack_dec = hlevel

instance unfoldable pub stack_eq : Eq Stack
unfolding Stack_dec
stack_eq = record { dec = Stack_dec }

Family_dec : Discrete Family
Family_dec = hlevel

instance unfoldable pub family_eq : Eq Family
unfolding Family_dec
family_eq = record { dec = Family_dec }

Profile_dec : Discrete Profile
Profile_dec = hlevel

instance unfoldable pub profile_eq : Eq Profile
unfolding Profile_dec
profile_eq = record { dec = Profile_dec }

Statistic_dec : Discrete Statistic
Statistic_dec = hlevel

instance unfoldable pub statistic_eq : Eq Statistic
unfolding Statistic_dec
statistic_eq = record { dec = Statistic_dec }

-- STACK_ORDER
abbrev pub stack_order : List Stack
stack_order = Stack.dotnet ∷ Stack.java ∷ Stack.go ∷ Stack.rust ∷ []

-- TLS_CONFIGURATIONS
abbrev pub tls_configurations : List (String × String)
tls_configurations =
    ("1.2", "P-256") ∷ ("1.2", "X25519") ∷ ("1.3", "P-256") ∷ ("1.3", "X25519") ∷ []

-- SUMMARY_METRICS: the measurement, the title, and whether only positive values count
pub record SummaryMetric : Type 0 where
  pub name : String
  pub measurement : String
  pub title : String
  pub positive : Bool

abbrev pub summary_metrics : List SummaryMetric
summary_metrics =
    record {
      name = "http";
      measurement = "http_req_duration";
      title = "HTTP response time";
      positive = false;
    }
    ∷ record {
      name = "tls";
      measurement = "http_req_tls_handshaking";
      title = "TLS handshake time";
      positive = true;
    }
    ∷ []

-- TLS_BYTE_METRICS: the metric, with its field and its title
abbrev pub tls_byte_metrics : List (String × (String × String))
tls_byte_metrics =
    ("sent", ("data_sent_bytes", "Client bytes sent"))
    ∷ ("received", ("data_received_bytes", "Client bytes received"))
    ∷ []

-- STACK_LABELS
abbrev pub stack_label : Stack → String
stack_label Stack.dotnet = ".NET"
stack_label Stack.java = "Java"
stack_label Stack.go = "golang"
stack_label Stack.rust = "Rust"

-- STACK_PREFIXES
abbrev pub stack_prefix : Stack → String
stack_prefix Stack.dotnet = "net"
stack_prefix Stack.java = "java"
stack_prefix Stack.go = "go"
stack_prefix Stack.rust = "rust"

-- FAMILIES
abbrev pub families : List Family
families = Family.baseline ∷ Family.linear ∷ Family.race ∷ []

-- The keys of the tables over families, as texts.
abbrev pub family_name : Family → String
family_name Family.baseline = "baseline"
family_name Family.linear = "linear"
family_name Family.race = "race"

-- The names in STATISTICS; the quantiles are only written into queries.
abbrev pub statistics : List Statistic
statistics = Statistic.p01 ∷ Statistic.p50 ∷ Statistic.p90 ∷ Statistic.p99 ∷ []

abbrev pub statistic_name : Statistic → String
statistic_name Statistic.p01 = "P01"
statistic_name Statistic.p50 = "P50"
statistic_name Statistic.p90 = "P90"
statistic_name Statistic.p99 = "P99"

-- EXECUTION_KEYS
abbrev pub execution_keys : List String
execution_keys =
    "wtt_run_id" ∷ "wtt_scenario" ∷ "wtt_stack" ∷ "wtt_profile" ∷ "wtt_execution_index" ∷ []

-- PROFILE_ROWS
abbrev pub profile_rows : Family → List Profile
profile_rows Family.baseline = Profile.linear ∷ Profile.flat ∷ Profile.sine ∷ []
profile_rows Family.linear = Profile.fixed_100_vus ∷ Profile.expandable_1000_vus ∷ []
profile_rows Family.race = Profile.vus_10 ∷ Profile.vus_100 ∷ Profile.vus_1000 ∷ []

-- The label itself.
abbrev pub profile_label : Profile → String
profile_label Profile.linear = "Linear"
profile_label Profile.flat = "Flat"
profile_label Profile.sine = "Sine"
profile_label Profile.fixed_100_vus = "Fixed 100 VUs"
profile_label Profile.expandable_1000_vus = "Expandable to 1,000 VUs"
profile_label Profile.vus_10 = "10 VUs"
profile_label Profile.vus_100 = "100 VUs"
profile_label Profile.vus_1000 = "1,000 VUs"

-- PROFILE_SLUGS, RACE_PROFILE_SLUGS among them
abbrev pub profile_slug : Profile → String
profile_slug Profile.linear = "linear"
profile_slug Profile.flat = "flat"
profile_slug Profile.sine = "sine"
profile_slug Profile.fixed_100_vus = "fixed-100-vus"
profile_slug Profile.expandable_1000_vus = "expandable-1000-vus"
profile_slug Profile.vus_10 = "10-vus"
profile_slug Profile.vus_100 = "100-vus"
profile_slug Profile.vus_1000 = "1000-vus"

-- The keys of PROFILE_SLUGS, in their order.
abbrev pub profile_order : List Profile
profile_order =
    Profile.linear ∷ Profile.flat ∷ Profile.sine ∷ Profile.fixed_100_vus
    ∷ Profile.expandable_1000_vus ∷ Profile.vus_10 ∷ Profile.vus_100 ∷ Profile.vus_1000 ∷ []

-- FAMILY_LABELS
abbrev pub family_label : Family → String
family_label Family.baseline = "Baseline"
family_label Family.linear = "High-pressure linear"
family_label Family.race = "Fixed-work race"

-- SUMMARY_METADATA_FIELDS
abbrev pub summary_metadata_fields : List String
summary_metadata_fields =
    "elapsed_ms" ∷ "tls_version" ∷ "key_exchange_group" ∷ "key_exchange_group_source"
    ∷ "http_version" ∷ "endpoint" ∷ "payload_bytes" ∷ "connection_reuse"
    ∷ "tls_resumption_configured" ∷ "configured_vus" ∷ "configured_iterations" ∷ "max_duration_s"
    ∷ "configured_rate" ∷ "configured_peak_rate" ∷ []
