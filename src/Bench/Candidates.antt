-- ===== src/Bench/Candidates.antt =====
-- The proxies under test: crates/bench/src/harness/candidate.rs, `Candidate`, their warm-up of
-- harness/warmup.rs, and their manifests of k8s/deployer.rs.
use tuletorn.Common.{
  ℕ, ◌+◌, ◌/◌, ◌≡◌, max, Bool, true, false, ◌||◌, Option, none, some, List, [], ◌∷◌, if◌then◌else◌,
  arith,
}
use tuletorn.Common.Bytes.{Bytes, codes, bytes_eq, starts_with, strip_prefix, to_ascii_lowercase}
use tuletorn.Common.Bytes.Text.{trim}

pub data Candidate : Type 0 where
  hyper pingora monoio traefik : Candidate

abbrev pub binary_name : Candidate → Option Bytes
binary_name hyper = some (codes "lb-proxy-hyper")
binary_name pingora = some (codes "lb-proxy-pingora")
binary_name monoio = some (codes "lb-proxy-monoio")
binary_name traefik = none

abbrev pub display_name : Candidate → Bytes
display_name hyper = codes "lb-proxy-hyper"
display_name pingora = codes "lb-proxy-pingora"
display_name monoio = codes "lb-proxy-monoio"
display_name traefik = codes "traefik-v3.7.12"

abbrev pub default_port : Candidate → ℕ
default_port hyper = 18080
default_port pingora = 18081
default_port monoio = 18082
default_port traefik = 8000

abbrev pub is_go : Candidate → Bool
is_go traefik = true
is_go _ = false

abbrev pub rust_candidates : List Candidate
rust_candidates = hyper ∷ pingora ∷ monoio ∷ []

abbrev pub all_candidates : List Candidate
all_candidates = hyper ∷ pingora ∷ monoio ∷ traefik ∷ []

unfoldable pub parse_candidate : Bytes → Option Candidate
unfolding bytes_eq strip_prefix to_ascii_lowercase trim
parse_candidate text =
    let s = to_ascii_lowercase (trim text) in
    if bytes_eq s (codes "hyper") || bytes_eq s (codes "lb-proxy-hyper")
    then some hyper
    else if bytes_eq s (codes "pingora") || bytes_eq s (codes "lb-proxy-pingora")
    then some pingora
    else if bytes_eq s (codes "monoio") || bytes_eq s (codes "lb-proxy-monoio")
    then some monoio
    else if starts_with (codes "traefik") s
    then some traefik
    else none

-- Times are in milliseconds.
pub record WarmupProtocol : Type 0 where
  pub cold_start : ℕ
  pub traffic : ℕ
  pub gc_settle : ℕ

abbrev pub default_warmup : WarmupProtocol
default_warmup = record { cold_start = 3000; traffic = 15000; gc_settle = 5000 }

abbrev pub quick_warmup : WarmupProtocol
quick_warmup = record { cold_start = 500; traffic = 2000; gc_settle = 500 }

abbrev pub total_warmup : WarmupProtocol → Candidate → ℕ
total_warmup w c =
    let total = w.cold_start + w.traffic in if is_go c then total + w.gc_settle else total

pub data Phase : Type 0 where
  idle : (millis : ℕ) → Phase
  load : (concurrency millis : ℕ) → Phase

-- The phases of a warm-up whose load can be started.
abbrev pub warmup_phases : WarmupProtocol → Candidate → (target_concurrency : ℕ) → List Phase
warmup_phases w c target =
    idle w.cold_start
    ∷ load (max (target / 2) 1) w.traffic
    ∷ (if is_go c then idle w.gc_settle ∷ [] else [])

abbrev millis_of : Phase → ℕ
millis_of (idle millis) = millis
millis_of (load concurrency millis) = millis

abbrev time_of : List Phase → ℕ
time_of [] = 0
time_of (p ∷ ps) = millis_of p + time_of ps

-- A warm-up takes as long as `total` says.
pub time_of-warmup_phases :
    (w : WarmupProtocol) (c : Candidate) (target : ℕ)
    → time_of (warmup_phases w c target) ≡ total_warmup w c
time_of-warmup_phases w hyper target = omega arith
time_of-warmup_phases w pingora target = omega arith
time_of-warmup_phases w monoio target = omega arith
time_of-warmup_phases w traefik target = omega arith
