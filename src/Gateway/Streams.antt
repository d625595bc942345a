-- ===== src/Gateway/Streams.antt =====
-- What a stream shows the client, and what it leaves in the log.
use kenbun.Prelude.{ℕ, String, ◌≡◌, refl, sym, ap, ◌∙◌, some, List, [], ◌∷◌, ◌++◌, ℤ, pos, arith}
use kenbun.Float.{Float}
use kenbun.Provider.{ChatRequest}
use kenbun.Exchange.{Tenant, StreamEvent, chunk, closed, problem, streamed, Services, Clock, World}
use kenbun.Gateway.{write_log, stream_loop, handle_stream}
use kenbun.Provider.{ChatChunk}
use kenbun.Prelude.{map, ◌+◌, ◌<◌, ◌^◌, add_int, add_int_pos, All}
use kenbun.Float.{zero_float}
use kenbun.Health.{record_error}
use kenbun.Gateway.{stream_event}
use mathlib.Core.List.{append_assoc, append-nil}

abbrev pub contents : List ChatChunk → List String
contents cs = map (λ c. c.content) cs

-- a number of tokens that is not negative
abbrev pub count : ℤ → ℕ
count (pos n) = n
count _ = 0

abbrev pub prompt_total : List ChatChunk → ℕ
prompt_total [] = 0
prompt_total (c ∷ cs) = count c.prompt_tokens + prompt_total cs

abbrev pub completion_total : List ChatChunk → ℕ
completion_total [] = 0
completion_total (c ∷ cs) = count c.completion_tokens + completion_total cs

-- the token counts of a chunk are not negative
abbrev pub IsCounted : ChatChunk → Type 0
IsCounted c =
    (c.prompt_tokens ≡ pos (count c.prompt_tokens))
    × (c.completion_tokens ≡ pos (count c.completion_tokens))

-- the chunks, and then what comes after them
abbrev pub after_chunks :
    {X : Type 0} → List ChatChunk → List (StreamEvent X) → List (StreamEvent X)
after_chunks [] es = es
after_chunks (c ∷ cs) es = chunk c ∷ after_chunks cs es

module _ {F : Type 0} ⦃d : Float F⦄ {S B X P Y : Type 0} (s : Services S B X P Y) (t : Clock) where
  reloop :
      (p : P) (req : ChatRequest) (tenant : Tenant) (es : List (StreamEvent X)) (w : World F S)
      {a m b n : ℤ} {sent all : List String}
      → a ≡ m
      → b ≡ n
      → sent ≡ all
      → stream_loop s t p req tenant es a b sent w ≡ stream_loop s t p req tenant es m n all w
  reloop p req tenant es w x y z = cc

  loop_chunks :
      (p : P) (req : ChatRequest) (tenant : Tenant) (cs : List ChatChunk)
      (es : List (StreamEvent X)) (m n : ℕ) (sent : List String) (w : World F S)
      → All IsCounted cs
      → m + prompt_total cs < 2 ^ 63
      → n + completion_total cs < 2 ^ 63
      → stream_loop s t p req tenant (after_chunks cs es) (pos m) (pos n) sent w
        ≡ stream_loop s t p req tenant es
            (pos (m + prompt_total cs))
            (pos (n + completion_total cs))
            (sent ++ contents cs)
            w
  unfolding stream_loop
  loop_chunks p req tenant [] es m n sent w h a b =
      reloop p req tenant es w (ap pos (omega arith)) (ap pos (omega arith)) (sym (append-nil sent))
  loop_chunks p req tenant (c ∷ cs) es m n sent w ((x, y), h) a b =
      let i = count c.prompt_tokens in
      let j = count c.completion_tokens in
      reloop p req tenant (after_chunks cs es) w
        (ap (add_int (pos m)) x ∙ add_int_pos m i (omega arith))
        (ap (add_int (pos n)) y ∙ add_int_pos n j (omega arith)) refl
      ∙ loop_chunks p req tenant cs es (m + i) (n + j) (sent ++ (c.content ∷ [])) w h (omega arith)
          (omega arith)
      ∙ reloop p req tenant es w (ap pos (omega arith)) (ap pos (omega arith))
          (append_assoc sent (c.content ∷ []) (contents cs))

  -- A stream whose chunks end is shown to the client whole and in order, and logged once, with the
  -- sums of the tokens of its chunks and a cost of zero. The token counts are not negative and
  -- their sums do not overflow.
  pub stream-completed :
      (p : P) (req : ChatRequest) (tenant : Tenant) (cs : List ChatChunk)
      (es : List (StreamEvent X)) (w : World F S)
      → s.chat_stream p req ≡ after_chunks cs (closed ∷ es)
      → All IsCounted cs
      → prompt_total cs < 2 ^ 63
      → completion_total cs < 2 ^ 63
      → let event =
          stream_event {F = F} s t p req tenant
            (pos (prompt_total cs))
            (pos (completion_total cs)) in
        (handle_stream s t p req tenant w ≡ (write_log s t event w, streamed (contents cs)))
        × (event.cost_cents ≡ zero_float)
  unfolding handle_stream stream_loop stream_event
  stream-completed p req tenant cs es w e h a b = (
    ap (λ es. stream_loop s t p req tenant es (pos 0) (pos 0) [] w) e
        ∙ loop_chunks p req tenant cs (closed ∷ es) 0 0 [] w h (omega arith) (omega arith)
        ∙ reloop p req tenant (closed ∷ es) w (ap pos (omega arith)) (ap pos (omega arith)) refl,
    refl,
  )

  -- A stream that breaks off with an error has shown its chunks to the client, but is not logged,
  -- so its tokens are never charged; the monitor records one error of the provider.
  pub stream-broken :
      (p : P) (req : ChatRequest) (tenant : Tenant) (cs : List ChatChunk) (x : X)
      (es : List (StreamEvent X)) (w : World F S)
      → s.chat_stream p req ≡ after_chunks cs (problem (some x) ∷ es)
      → let (w', reply) = handle_stream s t p req tenant w in
        (reply ≡ streamed (contents cs))
        × (w'.log ≡ w.log)
        × (w'.monitor ≡ record_error t.replied (s.provider_name p) (pos 502) w.monitor)
  unfolding handle_stream stream_loop
  stream-broken p req tenant cs x es w e = rw e (go cs (pos 0) (pos 0) [])
    where
      go :
          (cs : List ChatChunk) (m n : ℤ) (sent : List String)
          → let (w', reply) =
              stream_loop s t p req tenant (after_chunks cs (problem (some x) ∷ es)) m n sent w in
            (reply ≡ streamed (sent ++ contents cs))
            × (w'.log ≡ w.log)
            × (w'.monitor ≡ record_error t.replied (s.provider_name p) (pos 502) w.monitor)
      go [] m n sent = (ap streamed (sym (append-nil sent)), refl, refl)
      go (c ∷ cs) m n sent =
          let (shown, log, monitor) =
            go cs (add_int m c.prompt_tokens) (add_int n c.completion_tokens)
              (sent ++ (c.content ∷ [])) in
          (shown ∙ ap streamed (append_assoc sent (c.content ∷ []) (contents cs)), log, monitor)
