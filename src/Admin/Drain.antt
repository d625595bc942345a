-- ===== src/Admin/Drain.antt =====
-- What the admin token guards, and what failing a provider does to routing.
use kenbun.Prelude.{
  ℕ, String, ◌≡◌, ◌≢◌, ◌∙◌, ap, refl, ◌⊎◌, inl, inr, Bool, true, false, not, ◌&&◌, some, List,
  eq_iff, arith,
}
use kenbun.Float.{Float, IsIeee}
use kenbun.Health.{EwmaMonitor, Call, fail, call}
use kenbun.Health.Bounds.{IsValid, call-IsValid}
use kenbun.Health.Traces.{run, run-IsValid}
use kenbun.Health.Outage.{Lacks, is_success_of, fail-unhealthy}
use kenbun.Selector.{is_allowed, is_unhealthy, select}
use kenbun.Selector.Sort.{IsSort}
use kenbun.Selector.Registry.{eligible}
use kenbun.Selector.Choice.{select-some}
use kenbun.Admin.{Route, fail_provider, unauthorized, Repositories, is_authorized, admin}

and-false : (b : Bool) → (b && false) ≡ false
and-false true = refl
and-false false = refl

true-not-false : {b : Bool} → b ≡ true → b ≡ false → ⊥
true-not-false e f = cc

refused_tokens :
    (secret header query : String)
    → (secret ≡ "") ⊎ ((header ≢ secret) × (query ≢ secret))
    → is_authorized secret header query ≡ false
unfolding is_authorized
refused_tokens secret header query (inl e) = ground (arith, eq_iff secret "")
refused_tokens secret header query (inr (a, b)) =
    ground (arith, eq_iff header secret, eq_iff query secret)

module _ {F : Type 0} ⦃d : Float F⦄ {D X J : Type 0} (r : Repositories D X J) where
  -- If the secret is empty, or neither the header's token nor the query's is the secret, then every
  -- route answers as unauthorized and leaves the database and the monitor as they were.
  pub admin-guarded :
      (secret header query : String) (now : ℕ) (route : Route X) (db : D) (m : EwmaMonitor F)
      → (secret ≡ "") ⊎ ((header ≢ secret) × (query ≢ secret))
      → admin r secret header query now route db m ≡ (db, m, unauthorized)
  unfolding admin
  admin-guarded secret header query now route db m h = rw (refused_tokens secret header query h)

  module _ (laws : IsIeee F) {P : Type 0} (name : P → String) where
    module _ (sort : (P → P → Bool) → List P → List P) (s : IsSort sort) where
      -- From a valid monitor, once an authorized admin has failed a provider, the selector does not
      -- return it, whatever the monitor is told until then, until a success of the provider is
      -- recorded.
      pub admin-drains :
          (secret header query : String) (before now : ℕ) (db : D) (m : EwmaMonitor F) (p : P)
          (cs : List (ℕ × Call)) (ps : List P) (allowlist : List String)
          → IsValid m
          → is_authorized secret header query ≡ true
          → Lacks (is_success_of (name p)) cs
          → let (db', m', reply) =
              admin r secret header query before (fail_provider (name p)) db m in
            (select name sort now ps allowlist (run cs m')).1 ≢ some p
      unfolding admin eligible call
      admin-drains secret header query before now db m p cs ps allowlist v h lacks chosen =
          let failed = call before (fail (name p)) m in
          let picked : (select name sort now ps allowlist (run cs failed)).1 ≡ some p =
            rw h at chosen in
          let v' = run-IsValid laws cs failed (call-IsValid laws before (fail (name p)) m v) in
          let (there, fit, least) =
            select-some laws name sort s now ps allowlist (run cs failed) v' picked in
          let down = fail-unhealthy laws (name p) cs before now m v lacks in
          true-not-false fit (
            ap (λ st. is_allowed (name p) allowlist && not (is_unhealthy st)) down
            ∙ and-false (is_allowed (name p) allowlist))
