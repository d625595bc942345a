-- ===== src/Adapters/Usage.antt =====
-- What the gateway counts and notices of the adapters' streams.
use mathlib.Core.Path.{subst, subst₂}
use kenbun.Prelude.{
  String, ◌≡◌, ◌⊎◌, inl, inr, refl, sym, ap, ◌∙◌, Option, none, some, List, [], ◌∷◌, ◌++◌, All, ℤ,
  pos, add_int, add_int_pos, arith,
}
use kenbun.Float.{Float}
use kenbun.Provider.{ChatRequest, ChatChunk, Outcome, ok, err}
use kenbun.Exchange.{StreamEvent, chunk, closed, problem, cancelled, Services, Clock, World, Tenant}
use kenbun.Gateway.{write_log, stream_event, stream_loop, handle_stream}
use kenbun.Channels.{new_pipe, Sees}
use kenbun.Channels.Order.{puts, shown, ClosesLast, Sees-in_order}
use kenbun.Adapters.{Source, finish}
use kenbun.Adapters.Openai.{Delta, openai_loop, openai_sends}

-- a chunk without token counts
abbrev pub Uncounted : ChatChunk → Type 0
Uncounted c = (c.prompt_tokens ≡ pos 0) × (c.completion_tokens ≡ pos 0)

All-left : {A : Type 0} (P : A → Type 0) (xs ys : List A) → All P (xs ++ ys) → All P xs
All-left P [] ys h = tt
All-left P (x ∷ xs) ys (h, hs) = (h, All-left P xs ys hs)

module _ {F : Type 0} ⦃d : Float F⦄ {S B X P Y : Type 0} (s : Services S B X P Y) (t : Clock) where
  -- nothing is logged, or a request without tokens
  abbrev pub AtMostEmpty :
      P → ChatRequest → Tenant → List (StreamEvent X) → ℤ → ℤ → List String → World F S → Type 0
  AtMostEmpty q req tenant es m n sent w =
      let after = (stream_loop s t q req tenant es m n sent w).0 in
      (after.log ≡ w.log)
      ⊎ (after.log ≡ w.log ++ (stream_event s t q req tenant (pos 0) (pos 0) ∷ []))

  stream_loop-Uncounted :
      (q : P) (req : ChatRequest) (tenant : Tenant) (es : List (StreamEvent X)) (sent : List String)
      (w : World F S)
      → All Uncounted (shown es)
      → AtMostEmpty q req tenant es (pos 0) (pos 0) sent w
  unfolding stream_loop write_log
  stream_loop-Uncounted q req tenant [] sent w h = inl refl
  stream_loop-Uncounted q req tenant (chunk c ∷ es) sent w ((a, b), h) =
      let zero_sum : add_int (pos 0) (pos 0) ≡ pos 0 = add_int_pos 0 0 (omega arith) in
      let m = ap (add_int (pos 0)) a ∙ zero_sum in
      let n = ap (add_int (pos 0)) b ∙ zero_sum in
      subst₂ (λ i j. AtMostEmpty q req tenant es i j (sent ++ (c.content ∷ [])) w) (sym m) (sym n)
        (stream_loop-Uncounted q req tenant es (sent ++ (c.content ∷ [])) w h)
  stream_loop-Uncounted q req tenant (closed ∷ es) sent w h = inr refl
  stream_loop-Uncounted q req tenant (problem none ∷ es) sent w h =
      stream_loop-Uncounted q req tenant es sent w h
  stream_loop-Uncounted q req tenant (problem (some x) ∷ es) sent w h = inl refl
  stream_loop-Uncounted q req tenant (cancelled ∷ es) sent w h = inl refl

finish-ClosesLast : {X : Type 0} (failure : Option X) → ClosesLast (finish failure)
finish-ClosesLast none = refl
finish-ClosesLast (some x) = refl

finish-puts : {X : Type 0} (failure : Option X) → puts (finish failure) ≡ []
finish-puts none = refl
finish-puts (some x) = refl

module _ {X : Type 0} where
  openai_loop-Uncounted :
      (items : List Delta) (failure : Option X)
      → ClosesLast (openai_loop items failure) × All Uncounted (puts (openai_loop items failure))
  unfolding openai_loop
  openai_loop-Uncounted [] failure =
      (finish-ClosesLast failure, subst (All Uncounted) (sym (finish-puts failure)) tt)
  openai_loop-Uncounted ([] ∷ rest) failure = openai_loop-Uncounted rest failure
  openai_loop-Uncounted (((content, reason) ∷ more) ∷ rest) failure =
      let (closes, none_counted) = openai_loop-Uncounted rest failure in
      (closes, ((refl, refl), none_counted))

  openai_sends-Uncounted :
      (o : Outcome X (Source X Delta))
      → ClosesLast (openai_sends o) × All Uncounted (puts (openai_sends o))
  unfolding openai_sends
  openai_sends-Uncounted (err x) = (refl, tt)
  openai_sends-Uncounted (ok source) = openai_loop-Uncounted source.items source.failure

module _ {F : Type 0} ⦃d : Float F⦄ {S B X P Y : Type 0} (s : Services S B X P Y) (t : Clock) where
  -- A stream of OpenAI, whatever it delivers and whatever the handler's `select` picks of it, adds
  -- to the log nothing, or one request with no tokens.
  pub openai-Uncounted :
      (o : Outcome X (Source X Delta)) (q : P) (req : ChatRequest) (tenant : Tenant)
      (es : List (StreamEvent X)) (w : World F S)
      → Sees (new_pipe (openai_sends o)) es
      → s.chat_stream q req ≡ es
      → let after = (handle_stream s t q req tenant w).0 in
        (after.log ≡ w.log)
        ⊎ (after.log ≡ w.log ++ (stream_event s t q req tenant (pos 0) (pos 0) ∷ []))
  unfolding handle_stream
  openai-Uncounted o q req tenant es w sees given =
      let (closes, uncounted) = openai_sends-Uncounted o in
      let (left, split, whole) = Sees-in_order (openai_sends o) es closes sees in
      subst (λ l. AtMostEmpty s t q req tenant l (pos 0) (pos 0) [] w) (sym given)
        (stream_loop-Uncounted s t q req tenant es [] w
          (All-left Uncounted (shown es) left (subst (All Uncounted) split uncounted)))
