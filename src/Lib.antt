-- ===== src/Lib.antt =====
-- Verification of the `lb` reverse proxy: its shared core, crates/core, its data planes,
-- crates/proxy-monoio, crates/proxy-hyper and crates/proxy-pingora, and parts of its benchmark, crates/bench.
--
-- The program is a reverse proxy with three data planes (Hyper, Pingora, Monoio) over one core crate.
-- A request's `Host` header and path select a route, the route's target group selects an upstream
-- endpoint, and the route's filters change headers and path on the way.
--
-- Files, and the code that they model:
--   Common      helpers; a `&str` is the list of its bytes
--   Target      crates/core/src/target.rs. `from_endpoints` and `select` keep their names; a group is
--               passed in and returned with its cursor advanced. `Weights` is `expand_weights`, whose
--               proof is in `Weights.Sums`, `Round`, `Settled` and `Cycle`.
--   Simd        crates/core/src/simd.rs, with each vector intrinsic as its effect on one lane
--   Http        the interface to the crate `http`: header names, values and maps, and in `Messages` URIs
--               and versions; `Listed` is a concrete instance of both
--   Filter      crates/core/src/filter.rs
--   RouteTable  crates/core/src/route_table.rs: `lookup` here, the patterns of a path in `Pattern`,
--               `RouteTableBuilder` in `Builder`; `SharedRouteTable` in `Shared`; `Model` is a concrete
--               router for the tests
--   Proxy       crates/core/src/proxy.rs
--   Gateway     crates/core/src/gateway.rs: the wire types here, `ClusterState::resolve` and EndpointSlices
--               in `Resolve`, `compile_filters` in `Filters`, `ClusterState::compile` in `Compile`, the
--               events of the two watches in `Watch`, `rebuild_loop` between them in `Rebuild` and
--               `Published`, `reconcile_once` in `Once`
--   Hash        crates/core/src/hash.rs: `FxHasher::write`, with little-endian words
--   Config      crates/core/src/config.rs, from the parsed configuration on
--   Pool        crates/proxy-monoio/src/pool.rs, with the time of a call as an argument
--   Http1       crates/proxy-monoio/src/http1.rs: `parse_request` and `parse_response` in `Parse`, the
--               heads that are written in `Write`; `Model` is a plain parser of heads for the tests
--   Server      crates/proxy-monoio/src/server.rs and http2.rs: buffers and targets here, the relay loops
--               in `Relay`, `relay_response` in `Response`, reading heads in `Connection`,
--               `serve_connection` in `Connection.Serve`, HTTP/2 sniffing and its replayed prefix in
--               `Preface`, `handle` of http2.rs in `Http2` as `h2_handle`; `Model` is a plain stream for
--               the tests
--   Plane       what the planes do alike to a request: header pipelines, `Host`, refusals
--   Hyper       crates/proxy-hyper/src/server.rs: `handle_request`, whose steps before the request is
--               sent are `prepare`
--   Pingora     crates/proxy-pingora/src/proxy_service.rs: headers here, the phases of `ProxyHttp` in
--               `Phases`
--   Bench       crates/bench: harness/preflight.rs in `Preflight`, harness/scenario.rs in `Scenario`,
--               harness/runner.rs in `Runner` and `Pairs`, load/payloads.rs in `Payloads`,
--               metrics/latency.rs in `Latency` and `Results`, report/csv.rs in `Csv`,
--               `format_iso8601` of metrics/hardware.rs in `Dates`, `Candidate` and
--               the warm-up of harness in `Candidates`, k8s/deployer.rs in `Deployment`. The benchmark
--               measures the planes from outside, and shares no code with them.
--
-- Parameters: `f64` arithmetic (`Target.Weights.Float`), the crates `memchr` (`Simd.Memchr`),
-- `http` (`Http.Http`) and `matchit` (`RouteTable.Trie.Matchit`, and `RouteTable.Prefix.Patterns` for
-- what its patterns match). Each is a record of operations with the behaviour that the code relies on.
-- `Http.Messages` has more of the crate `http`, and `Pingora.Headed` and `Pingora.Requests` are the
-- headers of the crate `pingora-http`. The Hyper plane takes its client's answer, and the HTTP/2 handler
-- of Monoio the three calls that open a connection and send, as functions.
-- The benchmark's histograms are `Bench.Latency.Histogram`, its floats `Bench.Latency.Floats`, and the
-- limits of the system `Bench.Preflight.Limits`, with `Sockets` for two products of floats.
-- `Http1.Platform` holds `httparse`, `memchr`, UTF-8 validation and the CPU. `Server.Stream` is a socket with
-- what the runtime does to the vector that is read into, whose length after a read is the runtime's,
-- and `Server.Connection.Serve.Worker` what a connection asks of its surroundings: the current route
-- table, the clock, and connecting. `Gateway` takes the decimal text of an integer as the argument
-- `show`, as the error responses of `Http1` do for a status, and parsed objects as given;
-- `Gateway.Compile.Values` is the order in which a `HashMap` gives its values.
--
-- Fuel: the loops over registers of `Simd` have the length of their input as fuel, and drop a whole
-- register each round; without fuel they fall back to the scalar routine, which treats the rest.
-- The loop over 8-byte chunks of `Hash` has the text's length, which `Hash.Words` shows to be enough.
-- `relay_exact` has a round for each byte that remains, of which it relays one at least. The other loops of
-- `Server` take their rounds as an argument; the theorems say how many are enough: 65537 for a request's
-- head, and one more than the bytes that the other side still sends for a response and its body.
-- The walk over the wildcard suffixes of a host has its length plus one, and drops a byte each round.
-- The search of `Bench.Preflight` has the largest number that it tries, which is more than the bounds are
-- apart, and the loop that fills a payload the payload's size.
--
-- A request of the Hyper and Pingora planes, and of an HTTP/2 connection, reads the table that is loaded
-- at that step; Pingora's phases may each read another one.
--
-- Not modelled: the cache of a parsed authority, UTF-8 validation, the watch streams and the length of
-- the timers of the reconciler, the cycle counter and the allocator registry of the core crate, the
-- accept loops, sockets and runtimes, HTTP/2 itself, the entry points, and of the benchmark crate the
-- load itself, the start of a candidate, the prose reports, and all else that drives processes. Of the
-- connections that share a pool, one runs at a time.
pub mod Common
pub mod Target
pub mod Simd
pub mod Http
pub mod Filter
pub mod RouteTable
pub mod Proxy
pub mod Pool
pub mod Gateway
pub mod Config
pub mod Hash
pub mod Http1
pub mod Server
pub mod Plane
pub mod Hyper
pub mod Pingora
pub mod Bench
