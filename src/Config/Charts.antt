-- ===== src/Config/Charts.antt =====
-- config.py: TIME_SERIES, BAR_METRICS, BAR_CHARTS and FAILURE_CHARTS, the charts that `export`
-- makes. An optional key of a table's entry that no code reads (`panel`) is left out.
use mathlib.Core.List.{flat_map}
use where_to_tls.Base.{
  String, ◌<>◌, Bool, true, false, Option, none, some, List, [], ◌∷◌, ◌++◌, map,
}
use where_to_tls.Config.{
  Family, Profile, profile_rows, profile_slug, profile_label, family_name, family_label, families,
}

pub record TimeSeries : Type 0 where
  pub family : Family
  pub profile_row : Option Profile
  pub filename : String
  pub title : String
  pub unit : String
  pub filled : Bool
  pub metric : String
  pub aggregate : String
  pub tls_positive : Bool
  pub log_scale : Bool

-- An entry of the table with the keys that are always there; `tls_positive` and `log_scale` are
-- false where they are missing, as `get` reads them.
timeline : Family → String → String → String → Bool → String → String → Bool → TimeSeries
timeline family filename title unit filled metric aggregate log_scale = record {
  family = family;
  profile_row = none;
  filename = filename;
  title = title;
  unit = unit;
  filled = filled;
  metric = metric;
  aggregate = aggregate;
  tls_positive = false;
  log_scale = log_scale;
}

family_time_series : List TimeSeries
unfolding timeline
family_time_series =
    timeline Family.baseline "baseline-rps-timeline.svg" "Baseline achieved request rate" "rate"
      true "http_reqs" "sum" false
    ∷ timeline Family.baseline "baseline-tls-mean-timeline.svg"
        "Baseline TLS handshake time - Mean (per 1-second window)" "ms" false
        "http_req_tls_handshaking" "mean" true
    ∷ timeline Family.baseline "baseline-http-mean-timeline.svg"
        "Baseline HTTP response time - Mean (per 1-second window)" "ms" false "http_req_duration"
        "mean" true
    ∷ timeline Family.linear "linear-rps-timeline.svg" "High-pressure linear achieved request rate"
        "rate" true "http_reqs" "sum" false
    ∷ timeline Family.linear "linear-active-vus-timeline.svg" "High-pressure linear active VUs"
        "vus" true "vus" "max" false
    ∷ timeline Family.linear "linear-tcp-mean-timeline.svg"
        "High-pressure linear TCP connection time - Mean (per 1-second window)" "ms" false
        "http_req_connecting" "mean" true
    ∷ timeline Family.linear "linear-tls-mean-timeline.svg"
        "High-pressure linear TLS handshake time - Mean (per 1-second window)" "ms" false
        "http_req_tls_handshaking" "mean" true
    ∷ timeline Family.linear "linear-http-mean-timeline.svg"
        "High-pressure linear HTTP response time - Mean (per 1-second window)" "ms" false
        "http_req_duration" "mean" true
    ∷ []

-- The inner table of the race charts.
record RaceMetric : Type 0 where
  slug : String
  title : String
  unit : String
  filled : Bool
  metric : String
  aggregate : String
  log_scale : Bool

race_metric : String → String → String → Bool → String → String → Bool → RaceMetric
race_metric slug title unit filled metric aggregate log_scale = record {
  slug = slug;
  title = title;
  unit = unit;
  filled = filled;
  metric = metric;
  aggregate = aggregate;
  log_scale = log_scale;
}

race_metrics : List RaceMetric
unfolding race_metric
race_metrics =
    race_metric "rps" "achieved request rate" "rate" true "http_reqs" "sum" false
    ∷ race_metric "tcp-mean" "TCP connection time - Mean (per 1-second window)" "ms" false
        "http_req_connecting" "mean" true
    ∷ race_metric "tls-mean" "TLS handshake time - Mean (per 1-second window)" "ms" false
        "http_req_tls_handshaking" "mean" true
    ∷ race_metric "http-mean" "HTTP response time - Mean (per 1-second window)" "ms" false
        "http_req_duration" "mean" true
    ∷ []

race_timeline : Profile → RaceMetric → TimeSeries
race_timeline profile metric = record {
  family = Family.race;
  profile_row = some profile;
  filename = "race-" <> metric.slug <> "-" <> profile_slug profile <> "-timeline.svg";
  title = "Fixed-work race " <> profile_label profile <> " - " <> metric.title;
  unit = metric.unit;
  filled = metric.filled;
  metric = metric.metric;
  aggregate = metric.aggregate;
  tls_positive = false;
  log_scale = metric.log_scale;
}

-- TIME_SERIES
unfoldable pub time_series : List TimeSeries
unfolding family_time_series race_metrics race_timeline flat_map
time_series =
    family_time_series
    ++ flat_map (λ profile. map (race_timeline profile) race_metrics) (profile_rows Family.race)

-- An entry of BAR_METRICS.
pub record BarMetric : Type 0 where
  pub metric : String
  pub slug : String
  pub title : String
  pub unit : String
  pub rate : Bool
  pub tls_positive : Bool

abbrev http_bars : BarMetric
http_bars = record {
  metric = "http_req_duration";
  slug = "http";
  title = "HTTP response-time";
  unit = "ms";
  rate = false;
  tls_positive = false;
}

abbrev tls_bars : BarMetric
tls_bars = record {
  metric = "http_req_tls_handshaking";
  slug = "tls";
  title = "TLS handshake-time";
  unit = "ms";
  rate = false;
  tls_positive = true;
}

abbrev rps_bars : BarMetric
rps_bars = record {
  metric = "http_reqs";
  slug = "rps";
  title = "request-rate";
  unit = "rate";
  rate = true;
  tls_positive = false;
}

-- BAR_METRICS
bar_metrics : Family → List BarMetric
bar_metrics Family.baseline = http_bars ∷ tls_bars ∷ []
bar_metrics Family.linear = http_bars ∷ tls_bars ∷ []
bar_metrics Family.race = rps_bars ∷ http_bars ∷ tls_bars ∷ []

pub record BarChart : Type 0 where
  pub family : Family
  pub metric : String
  pub filename : String
  pub title : String
  pub unit : String
  pub rate : Bool
  pub tls_positive : Bool
  pub profile : Profile

bar_chart : Family → BarMetric → Profile → BarChart
bar_chart family m profile = record {
  family = family;
  metric = m.metric;
  filename =
      family_name family <> "-" <> m.slug <> "-" <> profile_slug profile <> "-percentiles.svg";
  title =
      family_label family <> " · " <> profile_label profile <> " - " <> m.title <> " percentiles";
  unit = m.unit;
  rate = m.rate;
  tls_positive = m.tls_positive;
  profile = profile;
}

-- BAR_CHARTS
unfoldable pub bar_charts : List BarChart
unfolding bar_metrics bar_chart flat_map
bar_charts =
    flat_map
      (λ family.
        flat_map (λ m. map (bar_chart family m) (profile_rows family)) (bar_metrics family))
      families

pub record FailureChart : Type 0 where
  pub family : Family
  pub filename : String
  pub title : String
  pub profile : Profile

failure_chart : Family → Profile → FailureChart
failure_chart family profile = record {
  family = family;
  filename = family_name family <> "-failure-rate-" <> profile_slug profile <> ".svg";
  title = family_label family <> " · " <> profile_label profile <> " - HTTP failure rate";
  profile = profile;
}

-- FAILURE_CHARTS
unfoldable pub failure_charts : List FailureChart
unfolding failure_chart flat_map
failure_charts = flat_map (λ family. map (failure_chart family) (profile_rows family)) families
