-- ===== src/Concurrent/Pending.antt =====
-- internal/router/handler.go: the requests of a tenant that are past the limiter and have no record
-- yet, and which steps can make a request one of them.
use kenbun.Prelude.{
  ℕ, ◌+◌, ◌≤◌, String, ◌≡◌, refl, Bool, true, false, Bool-cases, inl, inr, ◌&&◌, Option, none, some,
  List, [], ◌∷◌, ◌++◌, if◌then◌else◌, ◌==◌, arith,
}
use kenbun.Float.{Float}
use kenbun.Provider.{ChatRequest, Outcome, ok, err}
use kenbun.Exchange.{Clock, Services, Tenant}
use kenbun.Logging.{LogEvent}
use kenbun.Concurrent.{
  Phase, asking, choosing, sending, reporting, streaming, identified, looked_up, fetched, opened,
  parsed, admitted, replayed, routed_to,
}

abbrev pub tally : String → String → ℕ
tally q id = if id == q then 1 else 0

module _ {F : Type 0} where
  -- the records of a tenant
  abbrev pub records_of : String → List (LogEvent F) → ℕ
  records_of q [] = 0
  records_of q (event ∷ es) = tally q event.tenant_id + records_of q es

  pub records_of-append :
      (q : String) (es fs : List (LogEvent F))
      → records_of q (es ++ fs) ≡ records_of q es + records_of q fs
  records_of-append q [] fs = omega arith
  records_of-append q (event ∷ es) fs = omega (arith, records_of-append q es fs)

  -- whether the request of a tenant is past the limiter and has no record yet
  abbrev pub held_by : {X B P Y : Type 0} → String → Phase F X B P Y → ℕ
  held_by q (asking tenant req key) = tally q tenant.id
  held_by q (choosing tenant req key ps kept) = tally q tenant.id
  held_by q (sending p tenant req key) = tally q tenant.id
  held_by q (reporting event key bytes) = tally q event.tenant_id
  held_by q (streaming p req tenant es m n sent) = tally q tenant.id
  held_by q _ = 0

module _ (F : Type 0) ⦃d : Float F⦄ {S B X P Y : Type 0} (s : Services S B X P Y) (t : Clock)
    (q : String) where
  abbrev held : Phase F X B P Y → ℕ
  held = held_by q

  pub identified-pending : (body : Y) (found : Option Tenant) → held (identified s t body found) ≡ 0
  unfolding identified
  identified-pending body none = refl
  identified-pending body (some tenant) = refl

  pub looked_up-pending :
      (hash : String) (body : Y) (got : Option B) → held (looked_up s t hash body got) ≡ 0
  unfolding looked_up
  looked_up-pending hash body (some bytes) = identified-pending body (s.decode_tenant bytes)
  looked_up-pending hash body none = refl

  pub fetched-pending :
      (hash : String) (body : Y) (o : Outcome X Tenant) → held (fetched s t hash body o) ≡ 0
  unfolding fetched
  fetched-pending hash body (err x) = refl
  fetched-pending hash body (ok tenant) = refl

  pub opened-pending :
      (tenant : Tenant) (req : ChatRequest) (b : Bool)
      → held (opened s t tenant req b) ≡ tally q tenant.id
  unfolding opened
  opened-pending tenant req true = refl
  opened-pending tenant req false = refl

  pub parsed-pending :
      (tenant : Tenant) (o : Option ChatRequest) → held (parsed s t tenant o) ≤ tally q tenant.id
  unfolding parsed
  parsed-pending tenant none = omega arith
  parsed-pending tenant (some req) = omega (arith, opened-pending tenant req req.stream)

  pub admitted-pending :
      (tenant : Tenant) (body : Y) (b : Bool)
      → held (admitted s t tenant body b) ≤ (if (tenant.id == q) && b then 1 else 0)
  unfolding admitted
  admitted-pending tenant body false = omega arith
  admitted-pending tenant body true =
      let few = parsed-pending tenant (s.decode_request body) in
      elim (Bool-cases (tenant.id == q)) [
        | inl same ↦ rw same (rw same at few)
        | inr other ↦ rw other (rw other at few)
      ]

  pub replayed-pending :
      (tenant : Tenant) (req : ChatRequest) (key : String) (got : Option B)
      → held (replayed s t tenant req key got) ≤ tally q tenant.id
  unfolding replayed
  replayed-pending tenant req key (some bytes) = omega arith
  replayed-pending tenant req key none = omega arith

  pub routed_to-pending :
      (tenant : Tenant) (req : ChatRequest) (key : String) (chosen : Option P) (b : Bool)
      → held (routed_to s t tenant req key chosen b) ≤ tally q tenant.id
  unfolding routed_to
  routed_to-pending tenant req key none b = omega arith
  routed_to-pending tenant req key (some p) true = omega arith
  routed_to-pending tenant req key (some p) false = omega arith
