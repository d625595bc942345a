-- ===== src/Gateway/Keys.antt =====
-- internal/router/handler.go: the key of an answer, `cache:<tenant>:<model>:<digest>`, where the
-- digest (SHA-256 in hexadecimal, a parameter) is of the messages as Go's `%v` prints them: a slice
-- as `[a b]`, a struct as `{x y}`, a text as it is.
use Prim.Native.String.{◌++◌ as join}
use text.Mathlib.TextLemmas.{append_assoc}
use kenbun.Prelude.{String, List, [], ◌∷◌, false, ◌≡◌, refl}
use kenbun.Float.{Float}
use kenbun.Provider.{ChatRequest, Message}
use kenbun.Exchange.{Tenant, hit, answered, Services, Clock, World}
use kenbun.Gateway.{serve_chat}
use kenbun.Gateway.Replay.{Remembers, serve_chat-alike}

abbrev pub print_message : Message → String
print_message m = join "{" (join m.role (join " " (join m.content "}")))

-- the messages after the first, each behind a blank
abbrev pub print_more : List Message → String
print_more [] = "]"
print_more (m ∷ messages) = join " " (join (print_message m) (print_more messages))

abbrev pub print_messages : List Message → String
print_messages [] = "[]"
print_messages (m ∷ messages) = join "[" (join (print_message m) (print_more messages))

abbrev pub cache_key : (String → String) → String → String → List Message → String
cache_key digest id model messages =
    join "cache:" (join id (join ":" (join model (join ":" (digest (print_messages messages))))))

-- two messages of the roles, and one whose text contains what `%v` prints between the two
abbrev pub conversation : (role next first second : String) → List Message
conversation role next first second =
    record { role = role; content = first } ∷ record { role = next; content = second } ∷ []

abbrev pub forged : (role next first second : String) → List Message
forged role next first second =
    record {
      role = role;
      content = join first (join "}" (join " " (join "{" (join next (join " " second)))));
    }
    ∷ []

print_messages-alike :
    (role next first second : String)
    → print_messages (forged role next first second)
      ≡ print_messages (conversation role next first second)
print_messages-alike role next first second = simp (append_assoc) refl

-- a request that is no stream
abbrev pub asking_with : String → List Message → ChatRequest
asking_with model messages = record { model = model; messages = messages; stream = false }

module _ {F : Type 0} ⦃d : Float F⦄ {S B X P Y : Type 0} (s : Services S B X P Y) (t : Clock) where
  -- With the keys that the handler builds and a cache that remembers, after one message was
  -- answered whose text contains what `%v` prints between two messages, the tenant's request with
  -- those two messages is a cache hit with the answer to the one, whatever the digest is and
  -- whatever a provider would answer.
  pub serve_chat-confused :
      (later : Clock) (digest : String → String) (tenant : Tenant)
      (model role next first second : String) (w : World F S) {bytes : B}
      → Remembers s.cache
      → s.answer_key ≡ cache_key digest
      → (serve_chat s t tenant (asking_with model (forged role next first second)) false w).1
        ≡ answered bytes
      → (serve_chat s later tenant
          (asking_with model (conversation role next first second))
          false
          (serve_chat s t tenant (asking_with model (forged role next first second)) false w).0).1
        ≡ hit bytes
  serve_chat-confused later digest tenant model role next first second w remembers keys e =
      let one = forged role next first second in
      let two = conversation role next first second in
      let same : s.answer_key tenant.id model two ≡ s.answer_key tenant.id model one =
        rw (keys, print_messages-alike role next first second) refl in
      let after = (serve_chat s t tenant (asking_with model one) false w).0 in
      let (reply, limiter, monitor, log) =
        serve_chat-alike s t later s tenant (asking_with model one) (asking_with model two) w after
          remembers refl same e refl in
      reply
