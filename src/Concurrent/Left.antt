-- ===== src/Concurrent/Left.antt =====
-- internal/router/handler.go: how many steps a request needs at most from a phase on.
use mathlib.Core.List.{Mem, mem-cons, mem-cons_self, not-mem-nil, head?}
use mathlib.Core.List.Perm
use mathlib.Core.Logic.Or
use native.Mathlib.Bridge.{le_prop}
use kenbun.Prelude.{
  ℕ, ◌+◌, ◌≤◌, String, ◌≡◌, refl, Bool, true, false, Option, none, some, List, [], ◌∷◌, ◌++◌,
  length, if◌then◌else◌, arith,
}
use kenbun.Float.{Float}
use kenbun.Selector.{best}
use kenbun.Selector.Sort.{IsSort}
use kenbun.Provider.{ChatRequest, Outcome, ok, err}
use kenbun.Exchange.{Clock, StreamEvent, Services, Tenant}
use kenbun.Concurrent.{
  Phase, arrived, unknown, loaded, known, asking, choosing, sending, reporting, broadcasting,
  saving, streaming, closing, finished, identified, looked_up, fetched, opened, parsed, admitted,
  replayed, routed_to,
}

-- the first element of a list that was only reordered
pub mem-best :
    {P : Type 0} (sort : (P → P → Bool) → List P → List P) (cmp : P → P → Bool) (l : List P) {p : P}
    → IsSort sort
    → best sort cmp l ≡ some p
    → Mem p l
unfolding best
mem-best sort cmp [] s e = cc
mem-best sort cmp (b ∷ l) {p} s e = Perm.subset (s.permutes cmp (b ∷ l)) p (go (sort cmp (b ∷ l)) e)
  where
    go : (l : List _) → head? l ≡ some p → Mem p l
    go [] e = cc
    go (x ∷ l) e = let same : x ≡ p = cc in rw same mem-cons_self

-- the steps that the loop of a stream has left for its events
abbrev pub stream_left : {Z : Type 0} → List (StreamEvent Z) → ℕ
stream_left [] = 0
stream_left (e ∷ es) = 2 + length es

pub stream_left-le : {Z : Type 0} (es : List (StreamEvent Z)) → stream_left es ≤ 1 + length es
stream_left-le [] = omega arith
stream_left-le (e ∷ es) = omega arith

module _ {S B X P Y : Type 0} (s : Services S B X P Y) where
  -- the events of the streams of some providers
  abbrev pub events_of : ChatRequest → List P → ℕ
  events_of req [] = 0
  events_of req (p ∷ ps) = length (s.chat_stream p req) + events_of req ps

  pub events_of-append :
      (req : ChatRequest) (ps : List P) (p : P)
      → events_of req (ps ++ p ∷ []) ≡ events_of req ps + length (s.chat_stream p req)
  events_of-append req [] p = omega arith
  events_of-append req (q ∷ ps) p = omega (arith, events_of-append req ps p)

  pub events_of-mem :
      (req : ChatRequest) (ps : List P) (p : P)
      → Mem p ps
      → length (s.chat_stream p req) ≤ events_of req ps
  events_of-mem req [] p m = absurd (not-mem-nil m)
  events_of-mem req (q ∷ ps) p m =
      Or.elim le_prop (mem-cons.0 m) (λ e. rw e (omega arith))
        (λ later. omega (arith, events_of-mem req ps p later))

  pub kept-events :
      (req : ChatRequest) (p : P) (kept : List P) (b : Bool)
      → events_of req (if b then kept ++ p ∷ [] else kept)
        ≤ length (s.chat_stream p req) + events_of req kept
  kept-events req p kept true = omega (arith, events_of-append req kept p)
  kept-events req p kept false = omega arith

  -- the steps that a body can need for its dispatch
  abbrev pub room : Option ChatRequest → ℕ
  room none = 0
  room (some req) = length s.providers + events_of req s.providers

  -- How many steps a request needs from a phase on, at most.
  unfoldable pub steps_left : {F : Type 0} → Phase F X B P Y → ℕ
  steps_left (arrived r) = 10 + room (s.decode_request r.body)
  steps_left (unknown hash body) = 9 + room (s.decode_request body)
  steps_left (loaded hash tenant body) = 8 + room (s.decode_request body)
  steps_left (known tenant body) = 7 + room (s.decode_request body)
  steps_left (asking tenant req key) = 6 + room (some req)
  steps_left (choosing tenant req key ps kept) =
      5 + length ps + events_of req ps + events_of req kept
  steps_left (sending p tenant req key) = 4
  steps_left (reporting event key bytes) = 3
  steps_left (broadcasting event key bytes) = 2
  steps_left (saving key bytes) = 1
  steps_left (streaming p req tenant es m n sent) = stream_left es
  steps_left (closing event sent) = 1
  steps_left (finished reply) = 0

module _ (F : Type 0) ⦃d : Float F⦄ {S B X P Y : Type 0} (s : Services S B X P Y) (t : Clock) where
  abbrev left : Phase F X B P Y → ℕ
  left = steps_left s

  pub identified-left :
      (body : Y) (found : Option Tenant)
      → left (identified s t body found) ≤ 7 + room s (s.decode_request body)
  unfolding steps_left identified
  identified-left body none = omega arith
  identified-left body (some tenant) = omega arith

  pub looked_up-left :
      (hash : String) (body : Y) (got : Option B)
      → left (looked_up s t hash body got) ≤ 9 + room s (s.decode_request body)
  unfolding steps_left looked_up
  looked_up-left hash body (some bytes) =
      omega (arith, identified-left body (s.decode_tenant bytes))
  looked_up-left hash body none = omega arith

  pub fetched-left :
      (hash : String) (body : Y) (o : Outcome X Tenant)
      → left (fetched s t hash body o) ≤ 8 + room s (s.decode_request body)
  unfolding steps_left fetched
  fetched-left hash body (err x) = omega arith
  fetched-left hash body (ok tenant) = omega arith

  pub opened-left :
      (tenant : Tenant) (req : ChatRequest) (b : Bool)
      → left (opened s t tenant req b) ≤ 6 + room s (some req)
  unfolding steps_left opened
  opened-left tenant req true = omega arith
  opened-left tenant req false = omega arith

  pub parsed-left :
      (tenant : Tenant) (o : Option ChatRequest) → left (parsed s t tenant o) ≤ 6 + room s o
  unfolding steps_left parsed
  parsed-left tenant none = omega arith
  parsed-left tenant (some req) = opened-left tenant req req.stream

  pub admitted-left :
      (tenant : Tenant) (body : Y) (b : Bool)
      → left (admitted s t tenant body b) ≤ 6 + room s (s.decode_request body)
  unfolding steps_left admitted
  admitted-left tenant body false = omega arith
  admitted-left tenant body true = parsed-left tenant (s.decode_request body)

  pub replayed-left :
      (tenant : Tenant) (req : ChatRequest) (key : String) (got : Option B)
      → left (replayed s t tenant req key got) ≤ 5 + room s (some req)
  unfolding steps_left replayed
  replayed-left tenant req key (some bytes) = omega arith
  replayed-left tenant req key none = omega arith

  pub routed_to-left :
      (tenant : Tenant) (req : ChatRequest) (key : String) (kept : List P) (chosen : Option P)
      (b : Bool)
      → ((p : P) → chosen ≡ some p → Mem p kept)
      → left (routed_to s t tenant req key chosen b) ≤ 4 + events_of s req kept
  unfolding steps_left routed_to
  routed_to-left tenant req key kept none b m = omega arith
  routed_to-left tenant req key kept (some p) true m =
      omega (arith, stream_left-le (s.chat_stream p req), events_of-mem s req kept p (m p refl))
  routed_to-left tenant req key kept (some p) false m = omega arith
