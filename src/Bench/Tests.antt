-- ===== src/Bench/Tests.antt =====
-- Tests of the harness, and theorems about it at concrete inputs.
use tuletorn.Common.{ℕ, ◌≡◌, refl, Option, none, some, [], ◌∷◌, length}
use tuletorn.Common.Bytes.{strip_prefix, bytes_eq, to_ascii_lowercase, to_ascii_lowercase_byte}
use tuletorn.Common.Bytes.Text.{trim}
use tuletorn.Bench.Candidates.{
  Candidate, hyper, pingora, monoio, traefik, display_name, parse_candidate, total_warmup,
  default_warmup,
}
use tuletorn.Bench.Deployment.{delete, remove_candidate, traefik_manifest}
use tuletorn.Bench.Payloads.{
  PayloadSize, small_1kb, medium_64kb, large_1mb, payload_label, parse_payload, generate_payload,
}
use tuletorn.Bench.Runner.{Window, measure_all}
use tuletorn.Bench.Scenario.{
  HttpVersion, http_11, http_2, version_label, parse_version, ScenarioKind, kind_label, parse_kind,
  throughput_scenario, quick_scenario, measurement_count, total_measurement_time,
}

sized : length (generate_payload 61) ≡ 61
unfolding generate_payload
sized = refl

counted :
    (measurement_count throughput_scenario ≡ 30)
    × (total_measurement_time throughput_scenario ≡ 900)
counted = (refl, refl)

-- The labels of payloads and scenarios parse back.
payload_labels : (size : PayloadSize) → parse_payload (payload_label size) ≡ some size
unfolding parse_payload bytes_eq trim to_ascii_lowercase to_ascii_lowercase_byte
payload_labels small_1kb = refl
payload_labels medium_64kb = refl
payload_labels large_1mb = refl

kind_labels : (kind : ScenarioKind) → parse_kind (kind_label kind) ≡ some kind
unfolding parse_kind bytes_eq trim to_ascii_lowercase to_ascii_lowercase_byte
kind_labels ScenarioKind.throughput = refl
kind_labels ScenarioKind.connection_density = refl
kind_labels ScenarioKind.route_churn = refl
kind_labels ScenarioKind.pgo_delta = refl

-- The labels of the versions do not.
version_labels : (version : HttpVersion) → parse_version (version_label version) ≡ none
unfolding parse_version bytes_eq trim to_ascii_lowercase to_ascii_lowercase_byte
version_labels http_11 = refl
version_labels http_2 = refl

-- A window gives its connections.
abbrev connections : Window → Option ℕ
connections (version, payload, concurrency) = some concurrency

measured : measure_all connections quick_scenario ≡ some (50 ∷ 200 ∷ [])
unfolding measure_all
measured = refl

-- The display names of the candidates parse back.
display_names : (c : Candidate) → parse_candidate (display_name c) ≡ some c
unfolding parse_candidate bytes_eq strip_prefix trim to_ascii_lowercase to_ascii_lowercase_byte
display_names hyper = refl
display_names pingora = refl
display_names monoio = refl
display_names traefik = refl

warmed : total_warmup default_warmup traefik ≡ 23000
warmed = refl

removed : remove_candidate traefik ≡ delete traefik_manifest ∷ []
removed = refl
