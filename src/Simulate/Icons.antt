-- ===== src/Simulate/Icons.antt =====
-- scripts/simulate.go, internal/router/handler.go: what the simulator shows of a reply.
use kenbun.Prelude.{
  ℕ, ◌≡◌, refl, ◌↔◌, ◌<◌, ◌≢◌, String, Bool, Bool-cases, inl, inr, true, false, ◌&&◌, leb, arith,
}
use kenbun.Exchange.{Reply, refused, hit, answered, streamed, waiting, aborted}
use kenbun.Simulate.{status_icon}

-- the status of a reply; the abort of a handler is answered by the middleware that recovers
abbrev pub code_of : {B : Type 0} → Reply B → ℕ
code_of (refused code message) = code
code_of (hit bytes) = 200
code_of (answered bytes) = 200
code_of (streamed sent) = 200
code_of (waiting sent) = 200
code_of aborted = 500

-- `X-Cache: HIT`
abbrev pub is_hit : {B : Type 0} → Reply B → Bool
is_hit (hit bytes) = true
is_hit _ = false

abbrev pub icon_of : {B : Type 0} → Reply B → String
icon_of reply = status_icon (code_of reply) (is_hit reply)

abbrev IsOther : String → Type 0
IsOther icon = icon ≢ "✅"

icons-IsOther : IsOther "⏳ (Rate Limited)" × IsOther "💥 (Provider Error)" × IsOther "⚡ (Cache HIT)"
icons-IsOther = (λ e. cc, λ e. cc, λ e. cc)

status_icon-success :
    (code : ℕ) (cache_hit : Bool)
    → (status_icon code cache_hit ≡ "✅") ↔ ((cache_hit ≡ false) × (code ≢ 429) × (code < 500))
unfolding status_icon
status_icon-success code cache_hit =
    let (limited, broken, found) = icons-IsOther in
    elim (Bool-cases (leb 429 code && leb code 429)) [
      | inl same ↦ rw same (λ e. absurd (limited e), λ h. absurd (ground (arith, h.1)))
      | inr other ↦ rw other (elim (Bool-cases (leb 500 code)) [
        | inl high ↦ rw high (λ e. absurd (broken e), λ h. absurd (ground arith))
        | inr low ↦ rw low (elim (Bool-cases cache_hit) [
          | inl yes_hit ↦ rw yes_hit (λ e. absurd (found e), λ h. absurd (ground (arith, h.0)))
          | inr no_hit ↦ rw no_hit (λ e. (refl, λ e. ground arith, ground arith), λ h. refl)
        ])
      ])
    ]

-- An icon of success is shown for every reply that is neither a hit nor, by its status, 429 or an
-- error of the server: for a request that is refused for its key or its budget, too.
pub icon_of-success :
    {B : Type 0} (reply : Reply B)
    → (icon_of reply ≡ "✅")
      ↔ ((is_hit reply ≡ false) × (code_of reply ≢ 429) × (code_of reply < 500))
icon_of-success reply = status_icon-success (code_of reply) (is_hit reply)
