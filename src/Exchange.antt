-- ===== src/Exchange.antt =====
-- internal/router/handler.go, internal/db/db.go: the tenant, a request, its reply, and what a
-- request meets. Hashes, JSON, the database, the cache, the providers and `sort.Slice` are a record
-- of services; the clock readings of a request are another. What a request can change is the world:
-- the token buckets and the `EWMAMonitor`, the only implementations that there are, the cache, and
-- what was logged.
use kenbun.Prelude.{ℕ, ◌*◌, ◌^◌, String, Bool, Option, none, List, ℤ}
use kenbun.Health.{EwmaMonitor}
use kenbun.RateLimit.{TokenBucket}
use kenbun.Provider.{Message, ChatRequest, ChatResponse, ChatChunk, Outcome, ok, err}
use kenbun.Cache.{Cache}
use kenbun.Logging.{LogEvent}

pub record Tenant : Type 0 where
  pub id : String
  pub name : String
  pub api_key_hash : String
  pub rate_limit_rpm : ℤ
  pub budget_cents : ℤ
  pub spent_cents : ℤ
  pub provider_allowlist : List String
  pub is_active : Bool

-- What one turn of the stream's `select` picks: a chunk, the end of the chunks, what the error
-- channel gives (`none` is nil), the end of the request's context.
pub data StreamEvent (X : Type 0) : Type 0 where
  chunk : ChatChunk → StreamEvent X
  closed : StreamEvent X
  problem : Option X → StreamEvent X
  cancelled : StreamEvent X

-- What the client sees: an error with its code, a cached body, a fresh body, the contents of a
-- stream that is over, the contents so far of a stream whose handler waits, or the abort of a
-- handler that dereferences nil.
pub data Reply (B : Type 0) : Type 0 where
  refused : ℕ → String → Reply B
  hit : B → Reply B
  answered : B → Reply B
  streamed : List String → Reply B
  waiting : List String → Reply B
  aborted : Reply B

pub record HttpRequest (Y : Type 0) : Type 0 where
  pub api_key : String
  pub body : Y

-- The key of a tenant, by the hash of its API key, and the key of an answer, by the tenant, the
-- model and the messages: the formats of the source.
pub record Services (S B X P Y : Type 0) : Type 0 where
  pub cache : Cache S B X
  pub find_tenant : String → Outcome X Tenant
  pub tenant_key : String → String
  pub answer_key : String → String → List Message → String
  pub key_hash : String → String
  pub encode_tenant : Tenant → B
  -- `none` where the pointer stays nil
  pub decode_tenant : B → Option Tenant
  pub encode_response : ChatResponse → B
  pub decode_request : Y → Option ChatRequest
  pub providers : List P
  pub provider_name : P → String
  pub chat : P → ChatRequest → Outcome X ChatResponse
  pub chat_stream : P → ChatRequest → List (StreamEvent X)
  pub sort : (P → P → Bool) → List P → List P

pub record Clock : Type 0 where
  pub started : ℕ
  pub created : ℕ
  pub refilled : ℕ
  pub routed : ℕ
  pub replied : ℕ
  pub logged : ℕ

pub record World (F S : Type 0) : Type 0 where
  pub limiter : TokenBucket F
  pub monitor : EwmaMonitor F
  pub store : S
  -- the calls of `Log` and of `Broadcast`, the oldest first
  pub log : List (LogEvent F)
  pub broadcast : List (LogEvent F)

abbrev pub minutes : ℕ → ℕ
minutes n = n * 60 * 10 ^ 9

-- `cached, _ := Get(...)`, then `cached != nil`
abbrev pub present : {X B : Type 0} → Outcome X (Option B) → Option B
present (ok found) = found
present (err x) = none
