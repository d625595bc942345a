-- ===== src/Adapters/Status.antt =====
-- internal/provider/ollama.go: the status of the answer, which only `Chat` reads.
use mathlib.Core.Path.{subst}
use kenbun.Prelude.{true, if◌then◌else◌, ℕ, String, ◌≡◌, sym, Bool, false, none, List, [], ◌∷◌}
use kenbun.Provider.{ok, err}
use kenbun.Exchange.{StreamEvent}
use kenbun.Channels.{Send, new_pipe, Sees}
use kenbun.Channels.Signals.{Calm, Flawless, Sees-no_error}
use kenbun.Adapters.{finish}
use kenbun.Adapters.Ollama.{Http, Line, is_ok, ollama_answer, ollama_loop, ollama_sends}

stops-Calm :
    {X : Type 0} (b : Bool) (later : List (Send X))
    → Calm later
    → Calm (if b then finish none else later)
stops-Calm true later c = tt
stops-Calm false later c = c

-- a plan that ends in good order sends no error
ollama_loop-Calm :
    {X B : Type 0} (h : Http X B) (lines : List Line) → Calm {X = X} (ollama_loop h lines none)
unfolding ollama_loop
ollama_loop-Calm h [] = tt
ollama_loop-Calm h (line ∷ rest) = stops-Calm line.done _ (ollama_loop-Calm h rest)

-- A status other than 200 is an error of `Chat`. `ChatStream` does not read it: if the body's lines
-- end without a decoding error, the handler sees no error, whatever its `select` picks.
pub ollama-status_ignored :
    {X B : Type 0} (h : Http X B) (model : String) (status : ℕ) (body : B)
    (es : List (StreamEvent X))
    → is_ok status ≡ false
    → (h.lines body).failure ≡ none
    → Sees (new_pipe (ollama_sends h (ok (status, body)))) es
    → (ollama_answer h model (ok (status, body)) ≡ err (h.status_error status)) × Flawless es
unfolding ollama_answer ollama_sends
ollama-status_ignored h model status body es bad ends sees =
    let source = h.lines body in
    let calm =
      subst (λ f. Calm (ollama_loop h source.items f)) (sym ends)
        (ollama_loop-Calm h source.items) in
    ((rw bad), Sees-no_error (ollama_loop h source.items source.failure) es calm sees)
