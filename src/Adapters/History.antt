-- ===== src/Adapters/History.antt =====
-- internal/provider/gemini.go: what of a conversation reaches the provider.
use kenbun.Prelude.{String, ◌≡◌, ◌⊎◌, ap, some, List, [], ◌∷◌, ◌++◌, map, All, arith}
use kenbun.Provider.{Message}
use kenbun.Adapters.Gemini.{gemini_history, gemini_role, last_text}

-- Every message is sent to Gemini, in order: the history and then the last one. Each role in the
-- history is one of the two that Gemini has.
pub gemini_history_complete :
    (ms : List Message) {last : String}
    → last_text ms ≡ some last
    → (map (λ c. c.text) (gemini_history ms) ++ (last ∷ []) ≡ map (λ m. m.content) ms)
      × All (λ c. (c.role ≡ "user") ⊎ (c.role ≡ "model")) (gemini_history ms)
unfolding gemini_history last_text gemini_role
gemini_history_complete [] e = cc
gemini_history_complete (m ∷ []) e = (cc, tt)
gemini_history_complete (m ∷ n ∷ ms) e =
    let (texts, roles) = gemini_history_complete (n ∷ ms) e in
    (ap (λ l. m.content ∷ l) texts, ((ground arith), roles))
