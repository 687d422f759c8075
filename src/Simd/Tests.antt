-- ===== src/Simd/Tests.antt =====
-- Tests of the byte primitives, and the theorems about them at concrete inputs.
use tuletorn.Common.{◌≡◌, refl, true, false, some, [], arith}
use tuletorn.Common.Bytes.{codes}
use tuletorn.Simd.{
  Memchr, position, host_without_port, eq_ignore_ascii_case, eq_ignore_ascii_case_scalar,
  lowercase_ascii_into, aarch64, x86_64,
}
use tuletorn.Simd.CaseFold.{eq_ignore_ascii_case-scalar}

abbrev by_position : Memchr
by_position = record { memchr = position; memchr_lem = λ b s. refl }

-- The vectors of the source's own tests.
port_stripping :
    (host_without_port by_position (codes "api.example.com:8443") ≡ codes "api.example.com")
    × (host_without_port by_position (codes "[::1]:8080") ≡ codes "[::1]")
    × (host_without_port by_position [] ≡ [])
unfolding host_without_port position
port_stripping = (refl, refl, refl)

case_folding :
    (eq_ignore_ascii_case x86_64 true (codes "X-Forwarded-For") (codes "x-forwarded-for") ≡ true)
    × (eq_ignore_ascii_case aarch64 false (codes "@") (codes "`") ≡ false)
    × (eq_ignore_ascii_case x86_64 false
          (codes "X-Forwarded-For: 10.0.0.1")
          (codes "x-forwarded-for: 10.0.0.2")
        ≡ false)
    × (lowercase_ascii_into x86_64 8 (codes "Host") ≡ some (codes "host"))
unfolding eq_ignore_ascii_case lowercase_ascii_into
case_folding = (refl, refl, refl, refl)

eq_ignore_ascii_case-scalar_example :
    eq_ignore_ascii_case x86_64 true (codes "Host") (codes "hOSt")
    ≡ eq_ignore_ascii_case_scalar (codes "Host") (codes "hOSt")
eq_ignore_ascii_case-scalar_example =
    eq_ignore_ascii_case-scalar x86_64 true (codes "Host") (codes "hOSt") (omega arith)
      (omega arith)
