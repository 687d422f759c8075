-- ===== src/Bench/Csv/Tests.antt =====
-- A result whose names have commas and quotes.
use tuletorn.Common.{ℕ, ◌≡◌, refl, map, length, arith}
use tuletorn.Common.Bytes.{Bytes, codes}
use tuletorn.Bench.Csv.{csv_header, cells, escape, print_row, split_from, split_csv_row}
use tuletorn.Bench.Csv.Rows.{cell_text, IsPlain, split_csv_row-print_row}
use tuletorn.Bench.Results.{BenchmarkResult}

-- Every number is printed as one digit.
abbrev zero_text : ℕ → Bytes
zero_text n = codes "0"

abbrev zero_text-IsPlain : (n : ℕ) → IsPlain (zero_text n)
zero_text-IsPlain n = ((λ e. omega arith, λ e. omega arith), tt)

abbrev result : BenchmarkResult ℕ
result = record {
  candidate_name = codes "he said \"hi\"";
  scenario_name = codes "Throughput, full sweep";
  concurrency = 1000;
  payload_bytes = 1024;
  http_version = codes "HTTP/1.1";
  total_requests = 100;
  successful_requests = 98;
  failed_requests = 2;
  error_responses = 1;
  bytes_received = 102400;
  duration_secs = 10;
  rps = 10;
  throughput_mib_s = 0;
  latency_p50_us = 100;
  latency_p90_us = 200;
  latency_p95_us = 250;
  latency_p99_us = 300;
  latency_p999_us = 400;
  latency_p9999_us = 500;
  latency_max_us = 600;
  latency_mean_us = 150;
  latency_stdev_us = 25;
  co_corrected_p99_us = 350;
  co_corrected_p999_us = 450;
  cpu_usage_pct = 55;
  rss_memory_mb = 42;
}

-- The header has a name for every column.
columns : length (split_csv_row csv_header) ≡ length (cells zero_text zero_text zero_text result)
unfolding split_from
columns = refl

quoted : escape (codes "he said \"hi\"") ≡ codes "\"he said \"\"hi\"\"\""
unfolding escape
quoted = refl

split_csv_row-print_row_example :
    split_csv_row (print_row zero_text zero_text zero_text result)
    ≡ map cell_text (cells zero_text zero_text zero_text result)
split_csv_row-print_row_example =
    split_csv_row-print_row zero_text zero_text zero_text zero_text-IsPlain zero_text-IsPlain
      zero_text-IsPlain result
