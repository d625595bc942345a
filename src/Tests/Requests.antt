-- ===== src/Tests/Requests.antt =====
-- Requests to the gateway at concrete inputs: a service with a map as its cache, and two providers.
use kenbun.Prelude.{
  quot, rem, if◌then◌else◌, ◌==◌, String, ◌≡◌, refl, true, false, Option, some, none, List, [], ◌∷◌,
  pos, arith,
}
use kenbun.Prelude.Map.{Map, lookup, insert}
use kenbun.Float.Fixed.{Fixed, fixed_float, Fixed-IsIeee}
use kenbun.Health.{call, new_monitor, record_error}
use kenbun.Selector.Sort.{insertion_sort, insertion_sort-IsSort}
use kenbun.RateLimit.{new_token_bucket, cap_tokens, grown}
use kenbun.Health.Traces.{run}
use kenbun.Provider.{ChatRequest, ChatResponse, ChatChunk, Outcome, ok, err}
use kenbun.Cache.{memory_cache, memory_get, memory_set}
use kenbun.Exchange.{
  Tenant, StreamEvent, closed, problem, hit, answered, streamed, HttpRequest, Services, Clock,
  World,
}
use kenbun.Gateway.{write_log, authenticate, stream_event, handle_stream, serve_chat, serve_http}
use kenbun.Gateway.Answers.{ServedFor, serve_http-answered}
use kenbun.Gateway.Streams.{stream-completed, stream-broken, after_chunks}
use kenbun.Gateway.Replay.{serve_chat-replayed, memory_cache-Remembers}
use kenbun.Tests.{names, seasoned, IsValid-seasoned}

abbrev pub acme : Tenant
acme = record {
  id = "acme";
  name = "Acme";
  api_key_hash = "secret";
  rate_limit_rpm = pos 60;
  budget_cents = pos 100;
  spent_cents = pos 40;
  provider_allowlist = [];
  is_active = true;
}

-- what is cached: a tenant or an answer
pub data Cached : Type 0 where
  of_tenant : Tenant → Cached
  of_answer : ChatResponse → Cached

abbrev decode : Cached → Option Tenant
decode (of_tenant tenant) = some tenant
decode (of_answer resp) = none

abbrev pub hello : ChatResponse
hello = record {
  content = "hello";
  model = "gpt-4o";
  provider = "gemini";
  prompt_tokens = pos 1000;
  completion_tokens = pos 2000;
}

abbrev pub piece : ChatChunk
piece = record {
  content = "hel";
  finish_reason = "";
  prompt_tokens = pos 3;
  completion_tokens = pos 1;
}

abbrev pub question : ChatRequest
question = record { model = "gpt-4o"; messages = []; stream = false }

abbrev pub Desk : Type 0
Desk = Services (Map Cached) Cached String String ChatRequest

-- the key "secret" is the tenant's; a stream breaks off at "openai" and ends at "gemini"
abbrev find : String → Outcome String Tenant
find hash = if hash == "secret" then ok acme else err "no rows"

abbrev events : String → List (StreamEvent String)
events p =
    after_chunks (piece ∷ piece ∷ [])
      ((if p == "gemini" then closed else problem (some "reset")) ∷ [])

abbrev pub desk : Desk
desk = record {
  cache = memory_cache;
  find_tenant = find;
  tenant_key = λ hash. hash;
  answer_key = λ id model messages. "answer";
  key_hash = λ key. key;
  encode_tenant = of_tenant;
  decode_tenant = decode;
  encode_response = of_answer;
  decode_request = λ body. some body;
  providers = names;
  provider_name = λ p. p;
  chat = λ p req. ok hello;
  chat_stream = λ p req. events p;
  sort = insertion_sort;
}

abbrev pub noon : Clock
noon = record {
  started = 100;
  created = 101;
  refilled = 102;
  routed = 103;
  replied = 104;
  logged = 105;
}

abbrev pub morning : World Fixed (Map Cached)
morning = record {
  limiter = new_token_bucket;
  monitor = seasoned;
  store = [];
  log = [];
  broadcast = [];
}

abbrev pub asked : HttpRequest ChatRequest
asked = record { api_key = "secret"; body = question }

abbrev pub stranger : HttpRequest ChatRequest
stranger = record { api_key = "guess"; body = question }

answers : (serve_http desk noon asked morning).1 ≡ answered (of_answer hello)
unfolding serve_http lookup insert memory_get memory_set cap_tokens grown new_token_bucket quot rem
    run call new_monitor insertion_sort
answers = refl

serve_http-answered_example :
    ServedFor desk noon
      (authenticate desk noon "secret" morning).1
      question
      (of_answer hello)
      morning
      (serve_http desk noon asked morning).0
serve_http-answered_example =
    serve_http-answered desk noon Fixed-IsIeee insertion_sort-IsSort asked morning IsValid-seasoned
      answers

stream-completed_example :
    let event = stream_event {F = Fixed} desk noon "gemini" question acme (pos 6) (pos 2) in
    (handle_stream desk noon "gemini" question acme morning
      ≡ (write_log desk noon event morning, streamed ("hel" ∷ "hel" ∷ [])))
    × (event.cost_cents ≡ 0)
stream-completed_example =
    stream-completed desk noon "gemini" question acme (piece ∷ piece ∷ []) [] morning refl
      ((refl, refl), ((refl, refl), tt)) (omega arith) (omega arith)

stream-broken_example :
    let (w', reply) = handle_stream desk noon "openai" question acme morning in
    (reply ≡ streamed ("hel" ∷ "hel" ∷ []))
    × (w'.log ≡ [])
    × (w'.monitor ≡ record_error 104 "openai" (pos 502) seasoned)
stream-broken_example =
    stream-broken desk noon "openai" question acme (piece ∷ piece ∷ []) "reset" [] morning refl

abbrev evening : Clock
evening = record noon { started = 900; created = 901; refilled = 902; routed = 903 }

-- the same gateway with its providers down
abbrev outage : Desk
outage = record desk { chat = λ p req. err "down" }

chat_answers : (serve_chat desk noon acme question false morning).1 ≡ answered (of_answer hello)
unfolding serve_chat lookup insert memory_get memory_set run call new_monitor insertion_sort
chat_answers = refl

serve_chat-replayed_example :
    let (w', reply) =
      serve_chat outage evening acme question false
        (record morning { store = (serve_chat desk noon acme question false morning).0.store }) in
    (reply ≡ hit (of_answer hello))
    × (w'.limiter ≡ new_token_bucket)
    × (w'.monitor ≡ seasoned)
    × (w'.log ≡ [])
serve_chat-replayed_example =
    serve_chat-replayed desk noon evening outage acme question morning
      (record morning { store = (serve_chat desk noon acme question false morning).0.store })
      memory_cache-Remembers refl refl chat_answers refl
