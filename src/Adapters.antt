-- ===== src/Adapters.antt =====
-- internal/provider: the adapters of the providers' APIs. The client libraries, HTTP and JSON are
-- parameters; the records hold the fields that the source reads. An answer `none` is a panic.
pub mod Openai
pub mod Gemini
pub mod Ollama
pub mod Anthropic
pub mod Usage
pub mod Status
pub mod History
use kenbun.Prelude.{String, Option, none, some, List, [], ◌∷◌, ◌++◌}
use kenbun.Channels.{Send, report, close_errs, close_chunks, deferred_closes}

-- A stream of a client library: what it delivers, and then its end or an error.
pub record Source (X A : Type 0) : Type 0 where
  pub items : List A
  pub failure : Option X

module _ {X : Type 0} where
  -- the end of the goroutine's loop
  abbrev pub finish : Option X → List (Send X)
  finish none = deferred_closes
  finish (some x) = report (some x) ∷ deferred_closes

  -- A stream that fails before the goroutine starts: the error, and the channels closed in this
  -- order.
  abbrev pub refuse : X → List (Send X)
  refuse x = report (some x) ∷ close_chunks ∷ close_errs ∷ []
