-- ===== src/Bench/Latency/Tests.antt =====
-- Some calls, and the theorem about their summary. A histogram is the list of its samples.
use tuletorn.Common.{ℕ, ◌/◌, ltb, max, some, List, [], ◌∷◌, arith}
use tuletorn.Common.Bytes.{codes}
use tuletorn.Bench.Latency.{
  Histogram, Floats, Call, success, error_response, failure, recorder_new, apply_calls, summarize,
}
use tuletorn.Bench.Latency.Counted.{IsSummary, summarize-IsSummary}

abbrev largest : List ℕ → ℕ
largest [] = 0
largest (n ∷ ns) = max n (largest ns)

abbrev samples : Histogram ℕ
samples = record {
  H = List ℕ;
  fresh = [];
  saturating_record = λ v h. v ∷ h;
  record_correct = λ v i h. some (v ∷ h);
  value_at_percentile = λ p h. largest h;
  max_value = largest;
  mean = λ h. 0;
  stdev = λ h. 0;
}

abbrev whole : Floats ℕ
whole = record {
  of_u64 = λ n. n;
  div = λ a b. a / b;
  is_positive = λ a. ltb 0 a;
  p50 = 50;
  p90 = 90;
  p95 = 95;
  p99 = 99;
  p999 = 99;
  p9999 = 99;
}

abbrev calls : List Call
calls = success 100 5 0 ∷ error_response 200 0 ∷ failure ∷ []

summarize-IsSummary_example : IsSummary samples calls (
    summarize samples whole
      (codes "c")
      (codes "s")
      1
      1024
      (codes "HTTP/1.1")
      1
      0
      0
      (apply_calls samples calls (recorder_new samples)))
summarize-IsSummary_example =
    summarize-IsSummary samples whole (codes "c") (codes "s") (codes "HTTP/1.1") 1 1024 1 0 0 calls
      (omega arith)
