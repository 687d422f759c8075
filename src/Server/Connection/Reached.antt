-- ===== src/Server/Connection/Reached.antt =====
-- The states that the outer loop of `serve_connection` reaches.
use tuletorn.Common.{refl, zero, suc, ℕ, ◌+◌, ◌≡◌, ◌≤◌, ◌<◌, ap, ◌∙◌, [], length, arith}
use tuletorn.Common.Bytes.{Bytes}
use tuletorn.Http.{Http}
use tuletorn.Http1.{Platform}
use tuletorn.RouteTable.Builder.{RouteAction}
use tuletorn.RouteTable.Trie.{Matchit}
use tuletorn.Server.{Stream}
use tuletorn.Server.Connection.{Connection, Turn, next, finished, http_2, failed, spent}
use tuletorn.Server.Buffer.{IsBuffer}
use tuletorn.Server.Connection.Kept.{IsNext, serve_one-IsNext}
use tuletorn.Server.Connection.Serve.{Worker, serve_one, serve_connection}

module _ (p : Platform) {S : Type 0} (io : Stream S) (show : ℕ → Bytes) (x : Http)
    (t : Matchit (RouteAction x)) (w : Worker S x t) (fuel : ℕ) where
  -- Rounds of the outer loop, each of which leads to another one.
  pub data Reaches (c : Connection S) : Connection S → Type 0 where
    here : Reaches c c
    after :
        (c' c'' : Connection S)
        → Reaches c c'
        → serve_one p io show x t w fuel c' ≡ next c''
        → Reaches c c''

  pub rounds : (c c' : Connection S) → Reaches c c' → ℕ
  rounds c _ here = 0
  rounds c _ (after c' c'' r e) = rounds c c' r + 1

  -- A connection that was just accepted.
  abbrev pub IsFresh : Connection S → Type 0
  IsFresh c = (c.buf ≡ []) × (c.buf_len ≡ 0) × (c.served ≡ 0)

  abbrev pub IsServing : (c : Connection S) → ℕ → Type 0
  IsServing c n = IsBuffer c.buf_len (length c.buf) × (c.served ≡ n) × (n < 100000)

  -- With enough rounds for the loop that reads a head, every state that a fresh connection reaches has
  -- counted its rounds, fewer than 100000 of them, and has a buffer whose filled part lies in the vector,
  -- whatever the lengths that the reads before left it with: a connection ends after at most 100000
  -- requests.
  pub reached-IsServing :
      (c c' : Connection S)
      → 65537 ≤ fuel
      → IsFresh c
      → (r : Reaches c c') → IsServing c' (rounds c c' r)
  unfolding rounds
  reached-IsServing c _ enough (empty_buf, no_len, none_served) here =
      (omega (arith, ap length empty_buf), none_served, omega arith)
  reached-IsServing c _ enough fresh (after c' c'' r e) =
      let (bounded, count, few) = reached-IsServing c c' enough fresh r in
      let (bounded', count', few') : IsNext p io show x t w (c'.served + 1) (next c'') =
        rw e at (serve_one-IsNext p io show x t w fuel c' enough bounded) in
      (bounded', count' ∙ ap (λ n. n + 1) count, omega arith)

  abbrev IsEnd : Turn S → Type 0
  IsEnd (next c) = ⊥
  IsEnd (finished d pool) = Unit
  IsEnd (http_2 buffered d) = Unit
  IsEnd failed = Unit
  IsEnd spent = Unit

  -- A round that is reached, and that leads to no other one.
  abbrev pub IsLast : (c : Connection S) → Turn S → Type 0
  IsLast c y =
      (c' : Connection S) × Reaches c c' × (serve_one p io show x t w fuel c' ≡ y) × IsEnd y

  serve_from-IsLast :
      (left : ℕ) (c c' : Connection S)
      → 65537 ≤ fuel
      → IsFresh c
      → (r : Reaches c c') → 100000 ≤ left + rounds c c' r
      → IsLast c (serve_connection p io show x t w left fuel c')
  unfolding rounds serve_connection
  serve_from-IsLast zero c c' enough fresh r many =
      let (bounded, count, few) = reached-IsServing c c' enough fresh r in absurd (omega arith)
  serve_from-IsLast (suc left) c c' enough fresh r many =
      from (serve_one p io show x t w fuel c') refl
        (λ c'' e. serve_from-IsLast left c c'' enough fresh (after c' c'' r e) (omega arith))
    where
      from :
          (y : Turn S)
          → serve_one p io show x t w fuel c' ≡ y
          → ((c'' : Connection S)
              → serve_one p io show x t w fuel c' ≡ next c''
              → IsLast c (serve_connection p io show x t w left fuel c''))
          → IsLast c (elim y as (λ _. Turn S) [
            | next c'' ↦ serve_connection p io show x t w left fuel c''
            | finished d pool ↦ finished d pool
            | http_2 buffered d ↦ http_2 buffered d
            | failed ↦ failed
            | spent ↦ spent
          ])
      from (next c'') e rest = rest c'' e
      from (finished d pool) e rest = (c', r, e, tt)
      from (http_2 buffered d) e rest = (c', r, e, tt)
      from failed e rest = (c', r, e, tt)
      from spent e rest = (c', r, e, tt)

  -- With enough rounds for the loop that reads a head, 100000 rounds are enough for the loop over the
  -- requests: a fresh connection ends as a round ends that it reaches and that no other one follows.
  pub serve_connection-IsLast :
      (c : Connection S)
      → 65537 ≤ fuel
      → IsFresh c
      → IsLast c (serve_connection p io show x t w 100000 fuel c)
  serve_connection-IsLast c enough fresh =
      serve_from-IsLast 100000 c c enough fresh here (omega arith)
