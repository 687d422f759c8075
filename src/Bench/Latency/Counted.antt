-- ===== src/Bench/Latency/Counted.antt =====
-- The summary's counts against the calls that were made.
use tuletorn.Common.{
  ℕ, suc, ◌+◌, ◌^◌, ◌≡◌, ◌<◌, ◌↔◌, refl, ap, ◌∙◌, ltb, if◌then◌else◌, true, List, [], ◌∷◌, length,
  arith,
}
use tuletorn.Common.Bytes.{Bytes}
use tuletorn.Bench.Latency.{
  Histogram, Floats, Call, success, error_response, failure, clamped, LatencyRecorder, recorder_new,
  apply_call, apply_calls, summarize,
}
use tuletorn.Bench.Results.{BenchmarkResult, is_clean}

-- How many of the calls are failures, and how many error responses.
abbrev pub failures : List Call → ℕ
failures [] = 0
failures (failure ∷ cs) = suc (failures cs)
failures (success l b i ∷ cs) = failures cs
failures (error_response l i ∷ cs) = failures cs

abbrev pub errors : List Call → ℕ
errors [] = 0
errors (error_response l i ∷ cs) = suc (errors cs)
errors (success l b i ∷ cs) = errors cs
errors (failure ∷ cs) = errors cs

-- The calls that are no failures.
abbrev pub responses : List Call → ℕ
responses [] = 0
responses (success l b i ∷ cs) = suc (responses cs)
responses (error_response l i ∷ cs) = suc (responses cs)
responses (failure ∷ cs) = responses cs

-- The latency that is recorded: from a microsecond to a minute.
abbrev pub within : ℕ → ℕ
within l = if ltb l 1 then 1 else (if ltb 60000000 l then 60000000 else l)

clamped-within : (l : ℕ) → clamped l ≡ within l
clamped-within l = ground arith

module _ {F : Type 0} (g : Histogram F) where
  -- The histogram with the latency of every response, within the bounds.
  abbrev pub sampled : List Call → g.H → g.H
  sampled [] h = h
  sampled (success l b i ∷ cs) h = sampled cs (g.saturating_record (within l) h)
  sampled (error_response l i ∷ cs) h = sampled cs (g.saturating_record (within l) h)
  sampled (failure ∷ cs) h = sampled cs h

  abbrev Counts : List Call → LatencyRecorder g → LatencyRecorder g → Type 0
  Counts cs r r' =
      (r'.successful ≡ r.successful + responses cs)
      × (r'.failed ≡ r.failed + failures cs)
      × (r'.error_responses ≡ r.error_responses + errors cs)
      × (r'.raw ≡ sampled cs r.raw)

  counts_lem :
      (cs : List Call) (r : LatencyRecorder g)
      → r.successful + length cs < 2 ^ 64
      → r.failed + length cs < 2 ^ 64
      → r.error_responses + length cs < 2 ^ 64
      → Counts cs r (apply_calls g cs r)
  counts_lem [] r hs hf he = (omega arith, omega arith, omega arith, refl)
  counts_lem (success l b i ∷ cs) r hs hf he =
      let (a, f, e, h) =
        counts_lem cs (apply_call g (success l b i) r) (omega arith) (omega arith) (omega arith) in
      (omega arith, f, e, h ∙ ap (λ n. sampled cs (g.saturating_record n r.raw)) (clamped-within l))
  counts_lem (error_response l i ∷ cs) r hs hf he =
      let (a, f, e, h) =
        counts_lem cs (apply_call g (error_response l i) r) (omega arith) (omega arith)
          (omega arith) in
      (
        omega arith,
        f,
        omega arith,
        h ∙ ap (λ n. sampled cs (g.saturating_record n r.raw)) (clamped-within l),
      )
  counts_lem (failure ∷ cs) r hs hf he =
      let (a, f, e, h) =
        counts_lem cs (apply_call g failure r) (omega arith) (omega arith) (omega arith) in
      (a, omega arith, e, h)

all_calls : (cs : List Call) → responses cs + failures cs ≡ length cs
all_calls [] = refl
all_calls (success l b i ∷ cs) = omega (arith, all_calls cs)
all_calls (error_response l i ∷ cs) = omega (arith, all_calls cs)
all_calls (failure ∷ cs) = omega (arith, all_calls cs)

-- What a summary says of the calls since the start.
abbrev pub IsSummary : {F : Type 0} → Histogram F → List Call → BenchmarkResult F → Type 0
IsSummary g cs r =
    (r.total_requests ≡ length cs)
    × (r.successful_requests ≡ responses cs)
    × (r.failed_requests ≡ failures cs)
    × (r.error_responses ≡ errors cs)
    × ((is_clean r ≡ true) ↔ ((failures cs ≡ 0) × (errors cs ≡ 0)))
    × (r.latency_max_us ≡ g.max_value (sampled g cs g.fresh))

-- After fewer than `2 ^ 64` calls the summary has as many requests as there were calls: those that got a
-- response count as successful, also where the response is an error, which is counted besides, and the
-- failures as failed; it is clean when there was no failure and no error response. The largest latency is
-- that of a histogram with the latency of every response, raised to a microsecond where it is less and cut
-- to a minute where it is more, and with nothing of a failure.
pub summarize-IsSummary :
    {F : Type 0} (g : Histogram F) (f : Floats F) (candidate scenario version : Bytes)
    (concurrency payload : ℕ) (secs cpu rss : F) (cs : List Call)
    → length cs < 2 ^ 64
    → IsSummary g cs (
        summarize g f candidate scenario concurrency payload version secs cpu rss
          (apply_calls g cs (recorder_new g)))
unfolding summarize
summarize-IsSummary g f candidate scenario version concurrency payload secs cpu rss cs few =
    let (a, b, e, h) = counts_lem g cs (recorder_new g) (omega arith) (omega arith) (omega arith) in
    let total = all_calls cs in
    (omega arith, omega arith, omega arith, omega arith, ground arith, ap g.max_value h)
