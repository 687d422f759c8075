-- ===== src/Bench/Latency.antt =====
-- crates/bench/src/metrics/latency.rs: what the workers record, in the order in which the counters see
-- it, and its summary. The histograms are the crate `hdrhistogram`'s; a refresh drains the workers'
-- buffers into one. The counters are atomic and wrap at `2 ^ 64`.
pub mod Counted
mod Tests
use tuletorn.Common.{
  ℕ, ◌+◌, ◌*◌, ◌%◌, ◌^◌, Bool, Option, none, some, List, [], ◌∷◌, if◌then◌else◌, ltb, min, max,
}
use tuletorn.Common.Bytes.{Bytes}
use tuletorn.Bench.Results.{BenchmarkResult}

-- A histogram of the crate, with the type of its floats: `record_correct` is `none` for an error.
pub record Histogram (F : Type 0) : Type 1 where
  pub H : Type 0
  pub fresh : H
  pub saturating_record : ℕ → H → H
  pub record_correct : (value expected_interval : ℕ) → H → Option H
  pub value_at_percentile : F → H → ℕ
  pub max_value : H → ℕ
  pub mean : H → F
  pub stdev : H → F

-- What the summary computes with floats.
pub record Floats (F : Type 0) : Type 0 where
  pub of_u64 : ℕ → F
  pub div : F → F → F
  pub is_positive : F → Bool
  -- The percentiles 50, 90, 95, 99, 99.9 and 99.99
  pub p50 : F
  pub p90 : F
  pub p95 : F
  pub p99 : F
  pub p999 : F
  pub p9999 : F

abbrev pub lowest_us : ℕ
lowest_us = 1

abbrev pub highest_us : ℕ
highest_us = 60000000

abbrev pub u64 : ℕ → ℕ
u64 n = n % 2 ^ 64

-- `latency_us.clamp(LOWEST_US, HIGHEST_US)`
abbrev pub clamped : ℕ → ℕ
clamped latency_us = min (max latency_us lowest_us) highest_us

pub data Call : Type 0 where
  success : (latency_us bytes expected_interval_us : ℕ) → Call
  error_response : (latency_us expected_interval_us : ℕ) → Call
  failure : Call

module _ {F : Type 0} (g : Histogram F) where
  pub record LatencyRecorder : Type 0 where
    pub raw : g.H
    pub corrected : g.H
    pub successful : ℕ
    pub failed : ℕ
    pub error_responses : ℕ
    pub bytes : ℕ

  abbrev pub recorder_new : LatencyRecorder
  recorder_new = record {
    raw = g.fresh;
    corrected = g.fresh;
    successful = 0;
    failed = 0;
    error_responses = 0;
    bytes = 0;
  }

  -- A sample that cannot be corrected is kept as it is.
  abbrev pub correct : (value expected_interval_us : ℕ) → g.H → g.H
  correct value interval h =
      if ltb 0 interval
      then (elim (g.record_correct value interval h) [
        | none ↦ g.saturating_record value h
        | some h' ↦ h'
      ])
      else g.saturating_record value h

  abbrev pub record_success :
      (latency_us bytes expected_interval_us : ℕ) → LatencyRecorder → LatencyRecorder
  record_success latency_us bytes interval r = record {
    raw = g.saturating_record (clamped latency_us) r.raw;
    corrected = correct (clamped latency_us) interval r.corrected;
    successful = u64 (r.successful + 1);
    failed = r.failed;
    error_responses = r.error_responses;
    bytes = u64 (r.bytes + bytes);
  }

  abbrev pub record_error_response :
      (latency_us expected_interval_us : ℕ) → LatencyRecorder → LatencyRecorder
  record_error_response latency_us interval r =
      record_success latency_us 0 interval
        (record r { error_responses = u64 (r.error_responses + 1) })

  abbrev pub record_failure : LatencyRecorder → LatencyRecorder
  record_failure r = record r { failed = u64 (r.failed + 1) }

  abbrev pub apply_call : Call → LatencyRecorder → LatencyRecorder
  apply_call (success latency_us bytes interval) r = record_success latency_us bytes interval r
  apply_call (error_response latency_us interval) r = record_error_response latency_us interval r
  apply_call failure r = record_failure r

  abbrev pub apply_calls : List Call → LatencyRecorder → LatencyRecorder
  apply_calls [] r = r
  apply_calls (c ∷ cs) r = apply_calls cs (apply_call c r)

  abbrev pub completed : LatencyRecorder → ℕ
  completed r = u64 (r.successful + r.failed)

  module _ (f : Floats F) where
    -- `rps`, and the throughput, over the measured time.
    abbrev pub per_second : (amount duration_secs : F) → F
    per_second amount secs = if f.is_positive secs then f.div amount secs else f.of_u64 0

    unfoldable pub summarize :
        (candidate_name scenario_name : Bytes) (concurrency payload_bytes : ℕ)
        (http_version : Bytes) (duration_secs cpu_usage_pct rss_memory_mb : F)
        → LatencyRecorder
        → BenchmarkResult F
    summarize candidate scenario concurrency payload version secs cpu rss r = record {
      candidate_name = candidate;
      scenario_name = scenario;
      concurrency = concurrency;
      payload_bytes = payload;
      http_version = version;
      total_requests = u64 (r.successful + r.failed);
      successful_requests = r.successful;
      failed_requests = r.failed;
      error_responses = r.error_responses;
      bytes_received = r.bytes;
      duration_secs = secs;
      rps = per_second (f.of_u64 (u64 (r.successful + r.failed))) secs;
      throughput_mib_s =
          if f.is_positive secs
          then f.div (f.div (f.of_u64 r.bytes) secs) (f.of_u64 (1024 * 1024))
          else f.of_u64 0;
      latency_p50_us = g.value_at_percentile f.p50 r.raw;
      latency_p90_us = g.value_at_percentile f.p90 r.raw;
      latency_p95_us = g.value_at_percentile f.p95 r.raw;
      latency_p99_us = g.value_at_percentile f.p99 r.raw;
      latency_p999_us = g.value_at_percentile f.p999 r.raw;
      latency_p9999_us = g.value_at_percentile f.p9999 r.raw;
      latency_max_us = g.max_value r.raw;
      latency_mean_us = g.mean r.raw;
      latency_stdev_us = g.stdev r.raw;
      co_corrected_p99_us = g.value_at_percentile f.p99 r.corrected;
      co_corrected_p999_us = g.value_at_percentile f.p999 r.corrected;
      cpu_usage_pct = cpu;
      rss_memory_mb = rss;
    }
