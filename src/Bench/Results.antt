-- ===== src/Bench/Results.antt =====
-- crates/bench/src/metrics/latency.rs, `BenchmarkResult`: one measurement. `F` is the type of an `f64`
-- or `f32`.
use tuletorn.Common.{ℕ, Bool, ◌&&◌, ◌==◌}
use tuletorn.Common.Bytes.{Bytes}

pub record BenchmarkResult (F : Type 0) : Type 0 where
  pub candidate_name : Bytes
  pub scenario_name : Bytes
  pub concurrency : ℕ
  pub payload_bytes : ℕ
  pub http_version : Bytes
  pub total_requests : ℕ
  pub successful_requests : ℕ
  pub failed_requests : ℕ
  pub error_responses : ℕ
  pub bytes_received : ℕ
  pub duration_secs : F
  pub rps : F
  pub throughput_mib_s : F
  pub latency_p50_us : ℕ
  pub latency_p90_us : ℕ
  pub latency_p95_us : ℕ
  pub latency_p99_us : ℕ
  pub latency_p999_us : ℕ
  pub latency_p9999_us : ℕ
  pub latency_max_us : ℕ
  pub latency_mean_us : F
  pub latency_stdev_us : F
  pub co_corrected_p99_us : ℕ
  pub co_corrected_p999_us : ℕ
  pub cpu_usage_pct : F
  pub rss_memory_mb : F

-- Neither a transport failure nor an error response.
abbrev pub is_clean : {F : Type 0} → BenchmarkResult F → Bool
is_clean r = r.failed_requests == 0 && r.error_responses == 0
