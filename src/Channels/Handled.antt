-- ===== src/Channels/Handled.antt =====
-- What the gateway makes of a stream that shows no error.
use kenbun.Prelude.{◌≡◌, refl, ℤ, String, none, some, List, [], ◌∷◌}
use kenbun.Float.{Float}
use kenbun.Provider.{ChatRequest}
use kenbun.Exchange.{StreamEvent, chunk, closed, problem, cancelled, Services, Clock, World, Tenant}
use kenbun.Gateway.{write_log, stream_loop}
use kenbun.Channels.Signals.{Flawless}

module _ {F : Type 0} ⦃d : Float F⦄ {S B X P Y : Type 0} (s : Services S B X P Y) (t : Clock) where
  -- no error is recorded
  pub stream_loop-Flawless :
      (q : P) (req : ChatRequest) (tenant : Tenant) (es : List (StreamEvent X)) (m n : ℤ)
      (sent : List String) (w : World F S)
      → Flawless es
      → (stream_loop s t q req tenant es m n sent w).0.monitor ≡ w.monitor
  unfolding stream_loop write_log
  stream_loop-Flawless q req tenant [] m n sent w f = refl
  stream_loop-Flawless q req tenant (chunk c ∷ es) m n sent w f =
      stream_loop-Flawless q req tenant es _ _ _ w f
  stream_loop-Flawless q req tenant (closed ∷ es) m n sent w f = refl
  stream_loop-Flawless q req tenant (problem none ∷ es) m n sent w f =
      stream_loop-Flawless q req tenant es m n sent w f
  stream_loop-Flawless q req tenant (problem (some x) ∷ es) m n sent w f = absurd f
  stream_loop-Flawless q req tenant (cancelled ∷ es) m n sent w f = refl
