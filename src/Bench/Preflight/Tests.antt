-- ===== src/Bench/Preflight/Tests.antt =====
-- A machine with a short backlog, and the theorem about it.
use tuletorn.Common.{◌*◌, ◌≡◌, refl, ◌⊎◌, none, some, false, arith}
use tuletorn.Bench.Preflight.{Limits, Sockets, supports, most, max_supported}
use tuletorn.Bench.Preflight.Fits.{IsMonotone}
use tuletorn.Bench.Preflight.Supported.{IsMost, max_supported-IsMost}

abbrev limits : Limits
limits = record {
  open_files = 65536;
  maxfilesperproc = none;
  maxfiles = none;
  somaxconn = some 128;
  ephemeral_range = (some 32768, some 60999);
  msl_ms = none;
}

abbrev doubled : Sockets
doubled = record { total_sockets = λ n. n * 4; ephemeral_needed = λ n. n * 2 }

-- The backlog of 128 is enough for 80 percent of an eighth of them.
supported : max_supported limits doubled ≡ 1287
unfolding max_supported
supported = refl

abbrev doubled-IsMonotone : IsMonotone doubled
doubled-IsMonotone = record {
  total_mono = λ a b h. omega arith;
  ephemeral_mono = λ a b h. omega arith;
  total_bound = omega arith;
  ephemeral_bound = omega arith;
}

max_supported-IsMost_example :
    ((max_supported limits doubled ≡ 0) × (supports limits doubled 1 ≡ false))
    ⊎ IsMost (supports limits doubled) most (max_supported limits doubled)
max_supported-IsMost_example = max_supported-IsMost limits doubled doubled-IsMonotone
