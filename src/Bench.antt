-- ===== src/Bench.antt =====
-- crates/bench: the parts of the benchmark harness that compute, without the processes and sockets that
-- it drives.
pub mod Preflight
pub mod Results
pub mod Candidates
pub mod Csv
pub mod Dates
pub mod Deployment
pub mod Latency
pub mod Payloads
pub mod Scenario
pub mod Runner
pub mod Pairs
mod Tests
