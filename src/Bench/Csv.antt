-- ===== src/Bench/Csv.antt =====
-- crates/bench/src/report/csv.rs: the results as CSV, and the reader of a row with which its tests check
-- it. Numbers are printed by the standard library, here as an argument.
pub mod Rows
mod Tests
use tuletorn.Common.{
  ℕ, Bool, true, false, ◌||◌, ◌&&◌, not, List, [], ◌∷◌, ◌++◌, if◌then◌else◌, any, flat_map, ◌==◌,
}
use tuletorn.Common.Bytes.{Bytes, codes}
use tuletorn.Bench.Results.{BenchmarkResult}

abbrev pub csv_header : Bytes
csv_header =
    codes
      "candidate,scenario,concurrency,payload_bytes,http_version,total_requests,successful,failed,error_responses,bytes_received,duration_s,rps,throughput_mib_s,p50_us,p90_us,p95_us,p99_us,p999_us,p9999_us,max_us,mean_us,stdev_us,co_p99_us,co_p999_us,cpu_pct,rss_mb"

-- `field.replace('"', "\"\"")`
abbrev pub double_quotes : Bytes → Bytes
double_quotes [] = []
double_quotes (c ∷ s) = if c == b'"' then b'"' ∷ b'"' ∷ double_quotes s else c ∷ double_quotes s

abbrev pub is_special : Bytes → Bool
is_special field =
    any (λ c. c == b',') field || any (λ c. c == b'"') field || any (λ c. c == 10) field

unfoldable pub escape : Bytes → Bytes
escape field = if is_special field then b'"' ∷ (double_quotes field ++ b'"' ∷ []) else field

-- What a column prints: a text, which is escaped, or a number.
pub data Cell : Type 0 where
  text : Bytes → Cell
  number : Bytes → Cell

abbrev pub print_cell : Cell → Bytes
print_cell (text t) = escape t
print_cell (number n) = n

abbrev pub print_cells : List Cell → Bytes
print_cells [] = []
print_cells (c ∷ []) = print_cell c
print_cells (c ∷ d ∷ cs) = print_cell c ++ b',' ∷ print_cells (d ∷ cs)

-- `{}` for an integer, and `{:.2}` and `{:.4}` for a float.
module _ {F : Type 0} (show : ℕ → Bytes) (fixed_2 fixed_4 : F → Bytes) where
  abbrev pub cells : BenchmarkResult F → List Cell
  cells r =
      text r.candidate_name
      ∷ text r.scenario_name
      ∷ number (show r.concurrency)
      ∷ number (show r.payload_bytes)
      ∷ text r.http_version
      ∷ number (show r.total_requests)
      ∷ number (show r.successful_requests)
      ∷ number (show r.failed_requests)
      ∷ number (show r.error_responses)
      ∷ number (show r.bytes_received)
      ∷ number (fixed_4 r.duration_secs)
      ∷ number (fixed_2 r.rps)
      ∷ number (fixed_4 r.throughput_mib_s)
      ∷ number (show r.latency_p50_us)
      ∷ number (show r.latency_p90_us)
      ∷ number (show r.latency_p95_us)
      ∷ number (show r.latency_p99_us)
      ∷ number (show r.latency_p999_us)
      ∷ number (show r.latency_p9999_us)
      ∷ number (show r.latency_max_us)
      ∷ number (fixed_2 r.latency_mean_us)
      ∷ number (fixed_2 r.latency_stdev_us)
      ∷ number (show r.co_corrected_p99_us)
      ∷ number (show r.co_corrected_p999_us)
      ∷ number (fixed_2 r.cpu_usage_pct)
      ∷ number (fixed_2 r.rss_memory_mb)
      ∷ []

  unfoldable pub print_row : BenchmarkResult F → Bytes
  unfolding escape
  print_row r = print_cells (cells r)

  pub export_csv : List (BenchmarkResult F) → Bytes
  unfolding print_row
  export_csv results = csv_header ++ 10 ∷ flat_map (λ r. print_row r ++ 10 ∷ []) results

-- The reader: `current` is the field so far.
unfoldable pub split_from : (in_quotes : Bool) (current : Bytes) → Bytes → List Bytes
split_from in_quotes current [] = current ∷ []
split_from in_quotes current (c ∷ []) = elim (c == b'"') [
  | true ↦ current ∷ []
  | false ↦ elim (c == b',' && not in_quotes) [
    | true ↦ current ∷ [] ∷ []
    | false ↦ (current ++ c ∷ []) ∷ []
  ]
]
split_from in_quotes current (c ∷ d ∷ s) = elim (c == b'"') [
  | true ↦ elim (in_quotes && d == b'"') [
    | true ↦ split_from in_quotes (current ++ b'"' ∷ []) s
    | false ↦ split_from (not in_quotes) current (d ∷ s)
  ]
  | false ↦ elim (c == b',' && not in_quotes) [
    | true ↦ current ∷ split_from in_quotes [] (d ∷ s)
    | false ↦ split_from in_quotes (current ++ c ∷ []) (d ∷ s)
  ]
]

abbrev pub split_csv_row : Bytes → List Bytes
split_csv_row row = split_from false [] row
