-- ===== src/Server/Model.antt =====
-- A stream for the tests: bytes that wait to be read, and the bytes that were written.
use tuletorn.Common.{
  ◌-◌, max, ℕ, zero, suc, ◌≡◌, ◌≤◌, ◌<◌, refl, ap, subst, sym, inl, inr, ◌⊎◌, Bool, true, Option,
  none, some, [], ◌∷◌, ◌++◌, length, take, drop, arith,
}
use tuletorn.Common.Bytes.{Bytes}
use tuletorn.Common.Bytes.Parts.{take_and_rest, length-take}
use tuletorn.Server.{Stream}

pub record Pipe : Type 0 where
  pub incoming : Bytes
  pub outgoing : Bytes

abbrev pub read_pipe : (want : ℕ) → Pipe → Option Bytes × Pipe
read_pipe want s = (some (take want s.incoming), record s { incoming = drop want s.incoming })

-- The laws of a read, at what it gives.
abbrev Gives : (want : ℕ) → Pipe → Option Bytes × Pipe → Type 0
Gives want s (none, s') = Unit
Gives want s (some b, s') =
    (length b ≤ want)
    × (s.incoming ≡ b ++ s'.incoming)
    × ((0 < length b) ⊎ (want ≡ 0) ⊎ (s.incoming ≡ []))

gives_bytes : (want : ℕ) (t : Bytes) → (0 < length (take want t)) ⊎ (want ≡ 0) ⊎ (t ≡ [])
gives_bytes zero t = inr (inl refl)
gives_bytes (suc want) [] = inr (inr refl)
gives_bytes (suc want) (c ∷ t) = inl (omega arith)

read_pipe-Gives : (want : ℕ) (s : Pipe) → Gives want s (read_pipe want s)
read_pipe-Gives want s =
    let size = length-take want s.incoming in
    (ground arith, take_and_rest want s.incoming, gives_bytes want s.incoming)

pub read_pipe_lem :
    (want : ℕ) (s s' : Pipe) (b : Bytes)
    → read_pipe want s ≡ (some b, s')
    → (length b ≤ want) × (s.incoming ≡ b ++ s'.incoming)
read_pipe_lem want s s' b e =
    let (le, split, rest) : Gives want s (some b, s') =
      subst (Gives want s) e (read_pipe-Gives want s) in
    (le, split)

pub read_pipe_end :
    (want : ℕ) (s s' : Pipe) → read_pipe want s ≡ (some [], s') → 0 < want → s.incoming ≡ []
read_pipe_end want s s' e room =
    let (le, split, rest) : Gives want s (some [], s') =
      subst (Gives want s) e (read_pipe-Gives want s) in
    elim rest [
      | inl h ↦ absurd (omega arith)
      | inr (inl h) ↦ absurd (omega arith)
      | inr (inr h) ↦ h
    ]

abbrev pub write_pipe : Bytes → Pipe → Bool × Pipe
write_pipe b s = (true, record s { outgoing = s.outgoing ++ b })

pub write_pipe_lem :
    (b : Bytes) (s s' : Pipe) → write_pipe b s ≡ (true, s') → s'.outgoing ≡ s.outgoing ++ b
write_pipe_lem b s s' e = ap (λ w. w.1.outgoing) (sym e)

abbrev pub pipe : Stream Pipe
pipe = record {
  read = read_pipe;
  room = λ buf_len filled s. buf_len - filled;
  vec_len = λ buf_len end. max buf_len end;
  room_lem = λ buf_len filled s. omega arith;
  vec_len_lem = λ buf_len end. ground arith;
  write_all = write_pipe;
  pending = λ s. s.incoming;
  written = λ s. s.outgoing;
  read_lem = read_pipe_lem;
  read_end = read_pipe_end;
  write_all_lem = write_pipe_lem;
}
