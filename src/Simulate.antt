-- ===== src/Simulate.antt =====
-- scripts/simulate.go: the load generator. The random numbers and the answers of the gateway are
-- parameters; the goroutines of the requests, the timer and the signal are a step relation.
pub mod Waits
pub mod Icons
use kenbun.Prelude.{
  ℕ, zero, suc, ◌+◌, ◌*◌, ◌^◌, ◌<◌, String, Bool, true, false, Option, none, some, List, [], ◌∷◌,
  leb, ◌&&◌, if◌then◌else◌, ◌==◌,
}
use kenbun.Provider.{Message, ChatRequest, Outcome, ok, err}

abbrev pub model_names : List String
model_names = "gpt-4o" ∷ "claude-3-sonnet" ∷ "gemini-1.5-pro" ∷ []

abbrev pub prompt_texts : List String
prompt_texts =
    "What is Observation Haki?" ∷ "Explain Kafka in one sentence."
    ∷ "How do I scale a Go application?" ∷ "Tell me a joke about Redis." ∷ []

-- `xs[i]`, of a list and an index in its range
abbrev pub pick : List String → ℕ → String
pick [] i = ""
pick (x ∷ xs) zero = x
pick (x ∷ xs) (suc i) = pick xs i

-- what `rand` gives for a request: two indices, and whether the third number is below 0.3
pub record Draws : Type 0 where
  pub model : ℕ
  pub prompt : ℕ
  pub repeats : Bool

-- `nextDelay`, in nanoseconds, of a draw below 450
unfoldable pub next_delay : ℕ → ℕ
next_delay r = (r + 50) * 10 ^ 6

unfoldable pub choose_prompt : Draws → String
choose_prompt draws = if draws.repeats then pick prompt_texts 0 else pick prompt_texts draws.prompt

unfoldable pub payload : Draws → ChatRequest
unfolding choose_prompt
payload draws = record {
  model = pick model_names draws.model;
  messages = record { role = "user"; content = choose_prompt draws } ∷ [];
  stream = false;
}

-- the status of the answer, and whether its header says that the cache was hit
unfoldable pub status_icon : ℕ → Bool → String
status_icon code cache_hit =
    if leb 429 code && leb code 429
    then "⏳ (Rate Limited)"
    else if leb 500 code
    then "💥 (Provider Error)"
    else if cache_hit
    then "⚡ (Cache HIT)"
    else "✅"

-- A line that is printed for a request.
pub data Printed (X : Type 0) : Type 0 where
  failed : X → Printed X
  answered : String → String → ℕ → Printed X

-- `Do` of a request of a model, with whether the context is done: an error is then not printed.
unfoldable pub show : {X : Type 0} → String → Bool → Outcome X (ℕ × Bool) → Option (Printed X)
unfolding status_icon
show model true (err x) = none
show model false (err x) = some (failed x)
show model done (ok (code, cache_hit)) = some (answered (status_icon code cache_hit) model code)

-- the `for` loop, `wg.Wait` after it, and the end of `main`
pub data Stage : Type 0 where
  sending : Stage
  waiting : Stage
  stopped : Stage

-- `pending` is the count of the `WaitGroup`
pub record Simulator : Type 0 where
  pub stage : Stage
  pub fired : ℕ
  pub finished : ℕ
  pub pending : ℕ

abbrev pub idle : Simulator
idle = record { stage = sending; fired = 0; finished = 0; pending = 0 }

pub data Step : Simulator → Simulator → Type 0 where
  -- the timer: `wg.Add` and a goroutine
  fire :
      (f n p : ℕ)
      → Step
          (record { stage = sending; fired = f; finished = n; pending = p })
          (record { stage = sending; fired = suc f; finished = n; pending = suc p })
  -- a goroutine returns: `wg.Done`
  return_one :
      (g : Stage) (f n p : ℕ)
      → Step
          (record { stage = g; fired = f; finished = n; pending = suc p })
          (record { stage = g; fired = f; finished = suc n; pending = p })
  interrupt :
      (f n p : ℕ)
      → Step
          (record { stage = sending; fired = f; finished = n; pending = p })
          (record { stage = waiting; fired = f; finished = n; pending = p })
  -- `wg.Wait` returns
  stop :
      (f n : ℕ)
      → Step
          (record { stage = waiting; fired = f; finished = n; pending = 0 })
          (record { stage = stopped; fired = f; finished = n; pending = 0 })

pub data Reach : Simulator → Type 0 where
  launch : Reach idle
  later : {s t : Simulator} → Reach s → Step s t → Reach t
