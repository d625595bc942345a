-- ===== src/Main/Wiring.antt =====
-- cmd/gateway/main.go: the names of the providers, and how long one of them can keep a request.
use kenbun.Prelude.{
  ◌≡◌, ◌≤◌, ◌*◌, refl, String, Bool, List, [], ◌∷◌, map, All, Bool-cases, inl, inr, ◌==◌, pos,
  arith,
}
use kenbun.Provider.Resilient.{ResilientProvider, Script, new_resilient_provider, chat}
use kenbun.Provider.Resilient.Attempts.{attempts, slept, chat_bounded}
use kenbun.Config.{Config, Environment}
use kenbun.Main.{
  Base, base_name, getenv, choose_openai, choose_anthropic, choose_gemini, start_bases,
  start_providers,
}

name-choose_openai : (key : String) → base_name (choose_openai key) ≡ "openai"
unfolding choose_openai
name-choose_openai key = elim (Bool-cases (key == "")) [ inl e ↦ rw e refl | inr e ↦ rw e refl ]

name-choose_anthropic : (key : String) → base_name (choose_anthropic key) ≡ "anthropic"
unfolding choose_anthropic
name-choose_anthropic key = elim (Bool-cases (key == "")) [ inl e ↦ rw e refl | inr e ↦ rw e refl ]

-- at most three attempts and 300 milliseconds between them
abbrev pub Quick : Type 0 → ResilientProvider → Type 0
Quick X p = (s : Script X) → (attempts (chat p s).1 ≤ 3) × (slept (chat p s).1 ≤ 3 * 100000000)

Quick-new : (X : Type 0) (name : String) → Quick X (new_resilient_provider name (pos 2))
unfolding new_resilient_provider
Quick-new X name s =
    chat_bounded (new_resilient_provider name (pos 2)) 2 refl (omega arith) (omega arith) s

Quick-map : (X : Type 0) (bases : List Base) → All (Quick X) (start_providers bases)
unfolding start_providers
Quick-map X [] = tt
Quick-map X (b ∷ bases) = (Quick-new X (base_name b), Quick-map X bases)

pub start_providers-names :
    (make_gemini : String → Bool) (env : Environment) (cfg : Config)
    → map (λ p. p.base_name) (start_providers (start_bases make_gemini env cfg))
      ≡ "openai" ∷ "anthropic" ∷ "gemini" ∷ "ollama" ∷ []
unfolding start_providers start_bases new_resilient_provider choose_gemini
start_providers-names make_gemini env cfg =
    rw
      (
        name-choose_openai (getenv env "OPENAI_API_KEY"),
        name-choose_anthropic (getenv env "ANTHROPIC_API_KEY"),
      )
      refl

-- Whatever keys are set, the providers are the same four names, each once, in this order; and each
-- of them, whatever its base does, tries a request at most three times and waits at most 300
-- milliseconds.
pub start_providers-Quick :
    (X : Type 0) (make_gemini : String → Bool) (env : Environment) (cfg : Config)
    → let providers = start_providers (start_bases make_gemini env cfg) in
      (map (λ p. p.base_name) providers ≡ "openai" ∷ "anthropic" ∷ "gemini" ∷ "ollama" ∷ [])
      × All (Quick X) providers
start_providers-Quick X make_gemini env cfg =
    (start_providers-names make_gemini env cfg, Quick-map X (start_bases make_gemini env cfg))
