-- ===== src/Bench/Preflight/Fits.antt =====
-- Fewer connections ask for less of every limit.
use tuletorn.Common.{
  ℕ, ◌+◌, ◌*◌, ◌^◌, ◌≡◌, ◌≤◌, refl, subst, true, false, Option, none, some, List, [], ◌∷◌, ◌++◌,
  arith,
}
use tuletorn.Common.Bytes.{Bytes, is_empty}
use tuletorn.Bench.Preflight.{
  Check, u64, blocks, severity_of, is_blocking, Limits, Sockets, check_some, drain_check, evaluate,
  blocking_checks, supports, most,
}

-- The check of the same limit for more connections.
abbrev pub IsBelow : List Check → List Check → Type 0
IsBelow [] [] = Unit
IsBelow [] (d ∷ ds) = ⊥
IsBelow (c ∷ cs) [] = ⊥
IsBelow (c ∷ cs) (d ∷ ds) =
    (c.current ≡ d.current)
    × (c.required ≤ d.required)
    × (d.required ≤ 2 ^ 50)
    × (c.severity ≡ severity_of c.current c.required)
    × (d.severity ≡ severity_of d.current d.required)
    × IsBelow cs ds

blocks_mono :
    (current r r' : ℕ)
    → r ≤ r'
    → r' ≤ 2 ^ 50
    → blocks (severity_of current r') ≡ false
    → blocks (severity_of current r) ≡ false
blocks_mono current r r' h bound e = ground arith

blocking_mono :
    (c d : Check)
    → c.current ≡ d.current
    → c.required ≤ d.required
    → d.required ≤ 2 ^ 50
    → c.severity ≡ severity_of c.current c.required
    → d.severity ≡ severity_of d.current d.required
    → is_blocking d ≡ false
    → is_blocking c ≡ false
blocking_mono c d same le bound sc sd h =
    rw (sc, same)
      (blocks_mono d.current c.required d.required le bound (subst (λ v. blocks v ≡ false) sd h))

clear_tail :
    (d : Check) (ds : List Check)
    → is_empty (blocking_checks (d ∷ ds)) ≡ true
    → (is_blocking d ≡ false) × (is_empty (blocking_checks ds) ≡ true)
clear_tail d ds h = ground arith

clear_head :
    (c : Check) (cs : List Check)
    → is_blocking c ≡ false
    → is_empty (blocking_checks cs) ≡ true
    → is_empty (blocking_checks (c ∷ cs)) ≡ true
clear_head c cs free h = ground arith

clear_mono :
    (cs ds : List Check)
    → IsBelow cs ds
    → is_empty (blocking_checks ds) ≡ true
    → is_empty (blocking_checks cs) ≡ true
clear_mono [] [] below h = refl
clear_mono [] (d ∷ ds) below h = refl
clear_mono (c ∷ cs) [] below h = absurd below
clear_mono (c ∷ cs) (d ∷ ds) (same, le, bound, sc, sd, below) h =
    let (free, rest) = clear_tail d ds h in
    clear_head c cs (blocking_mono c d same le bound sc sd free) (clear_mono cs ds below rest)

IsBelow-append :
    (cs ds cs' ds' : List Check) → IsBelow cs ds → IsBelow cs' ds' → IsBelow (cs ++ cs') (ds ++ ds')
IsBelow-append [] [] cs' ds' h h' = h'
IsBelow-append [] (d ∷ ds) cs' ds' h h' = absurd h
IsBelow-append (c ∷ cs) [] cs' ds' h h' = absurd h
IsBelow-append (c ∷ cs) (d ∷ ds) cs' ds' (same, le, bound, sc, sd, h) h' =
    (same, le, bound, sc, sd, IsBelow-append cs ds cs' ds' h h')

check_some-IsBelow :
    (name : Bytes) (limit : Option ℕ) (r r' : ℕ)
    → r ≤ r'
    → r' ≤ 2 ^ 50
    → IsBelow (check_some name limit r) (check_some name limit r')
check_some-IsBelow name none r r' le bound = tt
check_some-IsBelow name (some current) r r' le bound = (refl, le, bound, refl, refl, tt)

drain_check-IsBelow : (msl : Option ℕ) → IsBelow (drain_check msl) (drain_check msl)
drain_check-IsBelow none = tt
drain_check-IsBelow (some msl) = (refl, omega arith, omega arith, refl, refl, tt)

-- What the two products of an `f64` are relied on for: more connections need no fewer sockets, and up
-- to the most that is searched, their number is far below the end of a `u64`.
pub record IsMonotone (s : Sockets) : Type 0 where
  pub total_mono : (a b : ℕ) → a ≤ b → s.total_sockets a ≤ s.total_sockets b
  pub ephemeral_mono : (a b : ℕ) → a ≤ b → s.ephemeral_needed a ≤ s.ephemeral_needed b
  pub total_bound : s.total_sockets most ≤ 2 ^ 40
  pub ephemeral_bound : s.ephemeral_needed most ≤ 2 ^ 40

module _ (l : Limits) (s : Sockets) (mono : IsMonotone s) where
  evaluate-IsBelow : (a b : ℕ) → a ≤ b → b ≤ most → IsBelow (evaluate l s a) (evaluate l s b)
  unfolding evaluate
  evaluate-IsBelow a b le up =
      let files : u64 (u64 (a * 2) + 1024) ≤ u64 (u64 (b * 2) + 1024) = omega arith in
      let files_bound : u64 (u64 (b * 2) + 1024) ≤ 2 ^ 50 = omega arith in
      let total = mono.total_mono a b le in
      let total_up = mono.total_mono b most up in
      let total_bound = mono.total_bound in
      let ports = mono.ephemeral_mono a b le in
      let ports_up = mono.ephemeral_mono b most up in
      let ports_bound = mono.ephemeral_bound in
      (
        refl,
        files,
        files_bound,
        refl,
        refl,
        IsBelow-append _ _ _ _ (check_some-IsBelow _ l.maxfilesperproc _ _ files files_bound) (
            IsBelow-append _ _ _ _ (check_some-IsBelow _ l.maxfiles _ _ (omega arith) (omega arith))
              (IsBelow-append _ _ _ _
                (check_some-IsBelow _ l.somaxconn _ _ (ground arith) (ground arith))
                (IsBelow-append _ _ _ _ (check_some-IsBelow _ _ _ _ (omega arith) (omega arith))
                  (drain_check-IsBelow l.msl_ms)))),
      )

  pub supports_mono : (a b : ℕ) → a ≤ b → b ≤ most → supports l s b ≡ true → supports l s a ≡ true
  supports_mono a b le up h =
      clear_mono (evaluate l s a) (evaluate l s b) (evaluate-IsBelow a b le up) h
