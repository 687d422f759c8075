-- ===== src/Bench/Preflight.antt =====
-- crates/bench/src/harness/preflight.rs: the limits of a system against a number of connections. What
-- the system says of its limits is an argument, and so are the two products of an `f64`; a `u64` wraps at
-- `2 ^ 64`. The texts that go with a check are left out.
pub mod Fits
pub mod Supported
mod Tests
use tuletorn.Common.{
  ℕ, zero, suc, ◌+◌, ◌-◌, ◌*◌, ◌/◌, ◌%◌, ◌^◌, Bool, true, false, Option, none, some, List, [], ◌∷◌,
  ◌++◌, if◌then◌else◌, leb, ltb, max, min, filter, ◌==◌,
}
use tuletorn.Common.Bytes.{Bytes, codes, is_empty}

pub data Severity : Type 0 where
  ok tight blocking : Severity

pub record Check : Type 0 where
  pub name : Bytes
  pub current : ℕ
  pub required : ℕ
  pub severity : Severity

abbrev pub u64 : ℕ → ℕ
u64 n = n % 2 ^ 64

abbrev pub severity_of : (current required : ℕ) → Severity
severity_of current required =
    if leb required current
    then ok
    else (if leb (u64 (required * 80)) (u64 (current * 100)) then tight else blocking)

abbrev pub check : (name : Bytes) (current required : ℕ) → Check
check name current required = record {
  name = name;
  current = current;
  required = required;
  severity = severity_of current required;
}

abbrev pub blocks : Severity → Bool
blocks blocking = true
blocks _ = false

abbrev pub is_blocking : Check → Bool
is_blocking c = blocks c.severity

-- `rlimit_nofile`, the sysctls by name, and `ephemeral_range`.
pub record Limits : Type 0 where
  pub open_files : ℕ
  pub maxfilesperproc : Option ℕ
  pub maxfiles : Option ℕ
  pub somaxconn : Option ℕ
  pub ephemeral_range : Option ℕ × Option ℕ
  pub msl_ms : Option ℕ

-- `(conn as f64 * (2.0 + upstream_multiplier * 2.0)) as u64`, and
-- `(conn as f64 * (1.0 + upstream_multiplier)) as u64`
pub record Sockets : Type 0 where
  pub total_sockets : ℕ → ℕ
  pub ephemeral_needed : ℕ → ℕ

-- The check of a limit that the system may not have.
abbrev pub check_some : (name : Bytes) → Option ℕ → (required : ℕ) → List Check
check_some name none required = []
check_some name (some current) required = check name current required ∷ []

abbrev pub clamp : (n low high : ℕ) → ℕ
clamp n low high = min (max n low) high

abbrev pub backlog_needed : (conn : ℕ) → ℕ
backlog_needed conn = clamp (conn / 8) 128 8192

abbrev pub available_ports : Option ℕ × Option ℕ → Option ℕ
available_ports (none, last) = none
available_ports (some first, none) = none
available_ports (some first, some last) = some (u64 ((last - first) + 1))

-- The headroom over the time that a port is held.
abbrev pub drain_headroom : (msl_ms : ℕ) → ℕ
drain_headroom msl_ms =
    let tw_seconds = u64 (msl_ms * 2) / 1000 in if tw_seconds == 0 then 60 else 60 / tw_seconds

abbrev pub drain_check : Option ℕ → List Check
drain_check none = []
drain_check (some msl_ms) =
    check (codes "TIME_WAIT drain (2*MSL, s)") (drain_headroom msl_ms) 2 ∷ []

-- The first check, and those of limits that not every system has.
unfoldable pub evaluate : Limits → Sockets → (concurrency : ℕ) → List Check
evaluate l s conn =
    check (codes "open files (ulimit -n)") l.open_files (u64 (u64 (conn * 2) + 1024))
    ∷ (check_some (codes "kern.maxfilesperproc") l.maxfilesperproc (u64 (u64 (conn * 2) + 1024))
        ++ (check_some (codes "kern.maxfiles") l.maxfiles (u64 (s.total_sockets conn + 8192))
            ++ (check_some (codes "kern.ipc.somaxconn") l.somaxconn (backlog_needed conn)
                ++ (check_some (codes "ephemeral port range") (available_ports l.ephemeral_range)
                      (u64 (s.ephemeral_needed conn + 4096))
                    ++ drain_check l.msl_ms))))

abbrev pub blocking_checks : List Check → List Check
blocking_checks checks = filter is_blocking checks

-- No check is in the way.
abbrev pub supports : Limits → Sockets → (concurrency : ℕ) → Bool
supports l s conn = is_empty (blocking_checks (evaluate l s conn))

-- Each round leaves less between the bounds, so their distance is fuel enough.
abbrev pub search : (fits : ℕ → Bool) → (fuel lo hi : ℕ) → ℕ
search fits zero lo hi = lo
search fits (suc fuel) lo hi =
    let mid = (lo + hi + 1) / 2 in
    elim (ltb lo hi) [
      | true ↦ elim (fits mid) [
        | true ↦ search fits fuel mid hi
        | false ↦ search fits fuel lo (mid - 1)
      ]
      | false ↦ lo
    ]

abbrev pub most : ℕ
most = 200000

unfoldable pub max_supported : Limits → Sockets → ℕ
unfolding evaluate
max_supported l s = if supports l s 1 then search (supports l s) most 1 most else 0
