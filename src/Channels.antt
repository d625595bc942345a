-- ===== src/Channels.antt =====
-- The two channels of a stream (`ChatStream` of internal/provider): chunks pass hand to hand, since
-- `make(chan ChatChunk)` has no buffer, and the error channel holds one error. The goroutine that
-- fills them is a list of sends; what the handler's `select` picks is any trace of the step
-- relation.
pub mod Order
pub mod Signals
pub mod Handled
use kenbun.Prelude.{Bool, true, false, Option, none, some, List, [], ◌∷◌, ◌++◌, ◌≡◌, map}
use kenbun.Provider.{ChatChunk}
use kenbun.Exchange.{StreamEvent, chunk, closed, problem, cancelled}

-- What the goroutine does next. `report none` sends a nil error.
pub data Send (X : Type 0) : Type 0 where
  put : ChatChunk → Send X
  report : Option X → Send X
  close_errs : Send X
  close_chunks : Send X

pub record Pipe (X : Type 0) : Type 0 where
  pub todo : List (Send X)
  -- the buffer of the error channel
  pub held : Option (Option X)
  pub errs_closed : Bool
  pub chunks_closed : Bool

-- both channels fresh
unfoldable pub new_pipe : {X : Type 0} → List (Send X) → Pipe X
new_pipe sends = record { todo = sends; held = none; errs_closed = false; chunks_closed = false }

-- The deferred calls, the last one first.
abbrev pub deferred_closes : {X : Type 0} → List (Send X)
deferred_closes = close_errs ∷ close_chunks ∷ []

-- `Sees p es`: from `p` on, the handler's `select` may pick the events `es`. A receive from a
-- closed channel yields at once; where both channels are ready, either may be picked.
pub data Sees {X : Type 0} : Pipe X → List (StreamEvent X) → Type 0 where
  stop : {p : Pipe X} → Sees p []
  hand :
      {p : Pipe X} {es : List (StreamEvent X)} {rest : List (Send X)} (c : ChatChunk)
      → p.todo ≡ put c ∷ rest
      → Sees (record p { todo = rest }) es
      → Sees p (chunk c ∷ es)
  hold :
      {p : Pipe X} {es : List (StreamEvent X)} {rest : List (Send X)} (e : Option X)
      → p.todo ≡ report e ∷ rest
      → p.held ≡ none
      → Sees (record p { todo = rest; held = some e }) es
      → Sees p es
  end_errs :
      {p : Pipe X} {es : List (StreamEvent X)} {rest : List (Send X)}
      → p.todo ≡ close_errs ∷ rest
      → Sees (record p { todo = rest; errs_closed = true }) es
      → Sees p es
  end_chunks :
      {p : Pipe X} {es : List (StreamEvent X)} {rest : List (Send X)}
      → p.todo ≡ close_chunks ∷ rest
      → Sees (record p { todo = rest; chunks_closed = true }) es
      → Sees p es
  take_error :
      {p : Pipe X} {es : List (StreamEvent X)} (e : Option X)
      → p.held ≡ some e
      → Sees (record p { held = none }) es
      → Sees p (problem e ∷ es)
  take_nil :
      {p : Pipe X} {es : List (StreamEvent X)}
      → p.held ≡ none
      → p.errs_closed ≡ true
      → Sees p es
      → Sees p (problem none ∷ es)
  take_closed :
      {p : Pipe X} {es : List (StreamEvent X)}
      → p.chunks_closed ≡ true
      → Sees p es
      → Sees p (closed ∷ es)
  give_up : {p : Pipe X} {es : List (StreamEvent X)} → Sees p es → Sees p (cancelled ∷ es)
