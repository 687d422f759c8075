-- ===== src/Bench/Scenario.antt =====
-- crates/bench/src/harness/scenario.rs, and `HttpVersion` of crates/bench/src/load/generator.rs: the
-- scenarios and their parameters. Durations are in seconds; `idle_connection_ratio` is an `f64` in hundredths.
use tuletorn.Common.{
  ℕ, ◌*◌, ◌%◌, ◌^◌, ◌||◌, Option, none, some, List, [], ◌∷◌, ◌++◌, if◌then◌else◌, length,
}
use tuletorn.Common.Bytes.{Bytes, codes, bytes_eq, to_ascii_lowercase}
use tuletorn.Common.Bytes.Text.{trim}
use tuletorn.Bench.Payloads.{PayloadSize, small_1kb, medium_64kb, all_payloads}

pub data HttpVersion : Type 0 where
  http_11 http_2 : HttpVersion

abbrev pub version_label : HttpVersion → Bytes
version_label http_11 = codes "HTTP/1.1"
version_label http_2 = codes "HTTP/2"

unfoldable pub parse_version : Bytes → Option HttpVersion
unfolding bytes_eq to_ascii_lowercase trim
parse_version text =
    let s = to_ascii_lowercase (trim text) in
    if bytes_eq s (codes "h1")
      || bytes_eq s (codes "http1")
      || bytes_eq s (codes "http1.1")
      || bytes_eq s (codes "1.1")
    then some http_11
    else if bytes_eq s (codes "h2") || bytes_eq s (codes "http2") || bytes_eq s (codes "2")
    then some http_2
    else none

pub data ScenarioKind : Type 0 where
  throughput connection_density route_churn pgo_delta : ScenarioKind

abbrev pub kind_label : ScenarioKind → Bytes
kind_label throughput = codes "throughput"
kind_label connection_density = codes "connection-density"
kind_label route_churn = codes "route-churn"
kind_label pgo_delta = codes "pgo-delta"

unfoldable pub parse_kind : Bytes → Option ScenarioKind
unfolding bytes_eq to_ascii_lowercase trim
parse_kind text =
    let s = to_ascii_lowercase (trim text) in
    if bytes_eq s (codes "throughput") || bytes_eq s (codes "1")
    then some throughput
    else if bytes_eq s (codes "connection-density")
        || bytes_eq s (codes "density")
        || bytes_eq s (codes "2")
    then some connection_density
    else if bytes_eq s (codes "route-churn") || bytes_eq s (codes "churn") || bytes_eq s (codes "3")
    then some route_churn
    else if bytes_eq s (codes "pgo-delta") || bytes_eq s (codes "pgo") || bytes_eq s (codes "5")
    then some pgo_delta
    else none

pub record ScenarioConfig : Type 0 where
  pub name : Bytes
  pub kind : ScenarioKind
  pub concurrencies : List ℕ
  pub payloads : List PayloadSize
  pub http_versions : List HttpVersion
  pub duration : ℕ
  pub target_rps : Option ℕ
  pub route_churn_rate_hz : ℕ
  pub idle_connection_ratio : ℕ

abbrev pub throughput_scenario : ScenarioConfig
throughput_scenario = record {
  name = codes "Maximum Throughput & Tail Latency Sweep";
  kind = throughput;
  concurrencies = 100 ∷ 1000 ∷ 5000 ∷ 10000 ∷ 25000 ∷ [];
  payloads = all_payloads;
  http_versions = http_11 ∷ http_2 ∷ [];
  duration = 30;
  target_rps = none;
  route_churn_rate_hz = 0;
  idle_connection_ratio = 0;
}

abbrev pub density_scenario : ScenarioConfig
density_scenario = record {
  name = codes "Connection Density & Memory Footprint (C10K-C50K)";
  kind = connection_density;
  concurrencies = 10000 ∷ 25000 ∷ 50000 ∷ [];
  payloads = small_1kb ∷ [];
  http_versions = http_11 ∷ [];
  duration = 60;
  target_rps = none;
  route_churn_rate_hz = 0;
  idle_connection_ratio = 95;
}

-- With the decimal text of the rate.
abbrev pub churn_scenario : (show : ℕ → Bytes) (churn_hz : ℕ) → ScenarioConfig
churn_scenario show churn_hz = record {
  name = codes "Route Churn & Tail Latency Jitter (" ++ (show churn_hz ++ codes " Hz)");
  kind = route_churn;
  concurrencies = 1000 ∷ [];
  payloads = small_1kb ∷ [];
  http_versions = http_11 ∷ [];
  duration = 30;
  target_rps = some 20000;
  route_churn_rate_hz = churn_hz;
  idle_connection_ratio = 0;
}

abbrev pub pgo_scenario : ScenarioConfig
pgo_scenario = record {
  name = codes "PGO Impact Delta";
  kind = pgo_delta;
  concurrencies = 100 ∷ 1000 ∷ 5000 ∷ [];
  payloads = small_1kb ∷ medium_64kb ∷ [];
  http_versions = http_11 ∷ [];
  duration = 30;
  target_rps = none;
  route_churn_rate_hz = 0;
  idle_connection_ratio = 0;
}

abbrev pub quick_scenario : ScenarioConfig
quick_scenario = record {
  name = codes "Quick Sweep";
  kind = throughput;
  concurrencies = 50 ∷ 200 ∷ [];
  payloads = small_1kb ∷ [];
  http_versions = http_11 ∷ [];
  duration = 5;
  target_rps = none;
  route_churn_rate_hz = 0;
  idle_connection_ratio = 0;
}

abbrev pub measurement_count : ScenarioConfig → ℕ
measurement_count s = length s.concurrencies * length s.payloads * length s.http_versions

-- The count is cast to a `u32`.
abbrev pub total_measurement_time : ScenarioConfig → ℕ
total_measurement_time s = s.duration * (measurement_count s % 2 ^ 32)
