-- ===== src/Main.antt =====
-- cmd/gateway/main.go: which cache and which providers the gateway is started with. The servers
-- that it connects to, the routes and the HTTP server are libraries.
pub mod Wiring
pub mod Startup
use kenbun.Prelude.{
  ℕ, String, Bool, true, false, Option, none, some, List, [], ◌∷◌, ℤ, pos, map, if◌then◌else◌, ◌==◌,
}
use kenbun.Provider.Resilient.{ResilientProvider, new_resilient_provider}
use kenbun.Adapters.Ollama.{ollama_host}
use kenbun.Config.{Config, Environment, or_else}

-- Which cache; the two-tier one on Redis.
pub data CacheChoice : Type 0 where
  memory : CacheChoice
  two_tier : CacheChoice

unfoldable pub choose_cache : List String → CacheChoice
choose_cache [] = memory
choose_cache (addr ∷ addrs) = if addr == "" then memory else two_tier

-- The base providers. `gemini` holds whether its client was made: without one it is a nil pointer
-- in an interface that is not nil.
pub data Base : Type 0 where
  mock : String → Base
  openai : String → Base
  anthropic : String → Base
  gemini : Bool → Base
  ollama : String → Base

-- `Name`
abbrev pub base_name : Base → String
base_name (mock name) = name
base_name (openai key) = "openai"
base_name (anthropic key) = "anthropic"
base_name (gemini made) = "gemini"
base_name (ollama host) = "ollama"

-- `os.Getenv`
abbrev pub getenv : Environment → String → String
getenv env key = or_else (env key) ""

unfoldable pub choose_openai : String → Base
choose_openai key = if key == "" then mock "openai" else openai key

unfoldable pub choose_anthropic : String → Base
choose_anthropic key = if key == "" then mock "anthropic" else anthropic key

-- whether an interface value is nil, of the values that a provider can be here
abbrev pub is_nil : Base → Bool
is_nil base = false

unfoldable pub choose_gemini : Bool → Base
choose_gemini made = if is_nil (gemini made) then mock "gemini" else gemini made

-- The four providers with their decorators. `make_gemini` is whether a client is made for a key.
unfoldable pub start_bases : (String → Bool) → Environment → Config → List Base
unfolding choose_openai choose_anthropic choose_gemini ollama_host
start_bases make_gemini env cfg =
    choose_openai (getenv env "OPENAI_API_KEY")
    ∷ choose_anthropic (getenv env "ANTHROPIC_API_KEY")
    ∷ choose_gemini (make_gemini cfg.gemini_api_key)
    ∷ ollama (ollama_host cfg.ollama_host)
    ∷ []

unfoldable pub start_providers : List Base → List ResilientProvider
unfolding new_resilient_provider
start_providers bases = map (λ b. new_resilient_provider (base_name b) (pos 2)) bases
