-- ===== src/Provider/Resilient/Streaming.antt =====
-- internal/provider/resilient.go: `ChatStream`, the goroutine that connects with retries and then
-- pipes the base provider's chunks. What the base stream and the contexts do is a script, indexed
-- by the attempt. `time.Sleep` between attempts is not cut short by the context.
pub mod Connect
pub mod Failures
use kenbun.Prelude.{
  ℕ, zero, suc, Option, none, some, List, [], ◌∷◌, ◌++◌, ℤ, pos, ltb_ℤ, if◌then◌else◌, map,
}
use kenbun.Provider.{ChatChunk}
use kenbun.Provider.Resilient.{ResilientProvider, Action, attempt, sleep, backoff, rounds}
use kenbun.Channels.{Send, put, report, deferred_closes}

-- What the `select` on a fresh base stream picks: the first chunk, with what `range` still gives
-- after the base context is cancelled; the end of the chunks; the error channel; the attempt's
-- context.
pub data First (X : Type 0) : Type 0 where
  begun : ChatChunk → List ChatChunk → First X
  ended : First X
  failed : Option X → First X
  expired : X → First X

pub record StreamScript (X : Type 0) : Type 0 where
  pub first : ℕ → First X
  -- `ctx.Err()` after attempt `i`
  pub ctx_err : ℕ → Option X

-- what the goroutine did on its side, and what it sends
abbrev pub Connection : Type 0 → Type 0
Connection X = List Action × List (Send X)

module _ {X : Type 0} where
  abbrev pub next_error : First X → Option X → Option X
  next_error (failed (some x)) last = some x
  next_error (expired x) last = some x
  next_error _ last = last

  -- the wait before the next attempt, if there is one
  unfoldable pub rest_before : ResilientProvider → ℕ → Connection X → Connection X
  unfolding backoff
  rest_before p i (actions, sends) =
      if ltb_ℤ (pos i) p.max_retries
      then (attempt i ∷ sleep (backoff p i) ∷ actions, sends)
      else (attempt i ∷ actions, sends)

  -- after an attempt that brought no chunk
  unfoldable pub go_on : ResilientProvider → ℕ → Option X → Connection X → Connection X
  unfolding rest_before
  go_on p i (some c) next = (attempt i ∷ [], report (some c) ∷ [])
  go_on p i none next = rest_before p i next

  unfoldable pub connect : ResilientProvider → ℕ → First X → Option X → Connection X → Connection X
  unfolding go_on
  connect p i (begun c rest) ctx_err next = (attempt i ∷ [], put c ∷ map put rest)
  connect p i ended ctx_err next = go_on p i ctx_err next
  connect p i (failed e) ctx_err next = go_on p i ctx_err next
  connect p i (expired x) ctx_err next = go_on p i ctx_err next

  -- The loop from attempt `i`, with `left` rounds to go and the last error so far.
  unfoldable pub connect_loop : ResilientProvider → StreamScript X → ℕ → ℕ → Option X → Connection X
  unfolding connect
  connect_loop p s zero i last = ([], report last ∷ [])
  connect_loop p s (suc left) i last =
      connect p i (s.first i) (s.ctx_err i)
        (connect_loop p s left (suc i) (next_error (s.first i) last))

  -- The whole goroutine, its deferred calls included.
  unfoldable pub resilient_stream : ResilientProvider → StreamScript X → Connection X
  unfolding connect_loop rounds
  resilient_stream p s =
      let (actions, sends) = connect_loop p s (rounds p.max_retries) 0 none in
      (actions, sends ++ deferred_closes)
