-- ===== src/Tests/Keys.antt =====
-- Two questions with one key in the cache of the gateway's answers.
use kenbun.Prelude.{◌≡◌, refl, false}
use kenbun.Prelude.Map.{lookup, insert}
use kenbun.Float.Fixed.{fixed_float}
use kenbun.Provider.{ChatRequest}
use kenbun.Selector.Sort.{insertion_sort}
use kenbun.Health.{call, new_monitor}
use kenbun.Health.Traces.{run}
use kenbun.Cache.{memory_get, memory_set}
use kenbun.Exchange.{hit, answered}
use kenbun.Gateway.{serve_chat}
use kenbun.Gateway.Replay.{memory_cache-Remembers}
use kenbun.Gateway.Keys.{cache_key, conversation, forged, asking_with, serve_chat-confused}
use kenbun.Tests.Requests.{Desk, desk, acme, noon, morning, hello, of_answer}

-- the digest is the text itself here
abbrev counter : Desk
counter = record desk { answer_key = cache_key (λ text. text) }

abbrev one_message : ChatRequest
one_message = asking_with "gpt-4o" (forged "system" "user" "Be kind." "Who are you?")

abbrev two_messages : ChatRequest
two_messages = asking_with "gpt-4o" (conversation "system" "user" "Be kind." "Who are you?")

answers_one :
    (serve_chat counter noon acme one_message false morning).1 ≡ answered (of_answer hello)
unfolding serve_chat lookup insert memory_get memory_set run call new_monitor insertion_sort
answers_one = refl

serve_chat-confused_example :
    (serve_chat counter noon acme two_messages false
      (serve_chat counter noon acme one_message false morning).0).1
    ≡ hit (of_answer hello)
serve_chat-confused_example =
    serve_chat-confused counter noon noon (λ text. text) acme "gpt-4o" "system" "user" "Be kind."
      "Who are you?" morning memory_cache-Remembers refl answers_one
