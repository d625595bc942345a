-- ===== src/Tests/Providers.antt =====
-- Runs of the resilient provider, the price and the two-tier cache at concrete inputs.
use mathlib.Core.Option.{some-injective, none-ne-some}
use mathlib.Core.Bool.{false≢true}
use kenbun.Prelude.{
  zero, suc, eq_iff, ◌⊎◌, inl, inr, Bool-cases, ◌==◌, ℕ, String, ◌≡◌, refl, sym, ◌∙◌, some, none,
  List, [], ◌∷◌, pos, arith, ◌≤◌, ◌+◌, ◌-◌, ◌*◌, ◌^◌, ap,
}
use kenbun.Prelude.Map.{Map, lookup, insert, lookup-insert_self, lookup-insert_ne}
use kenbun.Float.Fixed.{fixed_float}
use kenbun.Provider.{ChatResponse, Outcome, ok, err}
use kenbun.Provider.Resilient.{Script, ResilientProvider, after_retries, chat}
use kenbun.Provider.Resilient.Attempts.{attempts, slept, chat_bounded}
use kenbun.Provider.Resilient.Answers.{history, doubling, chat_first_ok, chat_all_failed}
use kenbun.Cache.{Local, Remote, TwoTier, two_tier_get, two_tier_set}
use kenbun.Cache.Coherence.{IsLocal, IsRemote, CacheCall, get, set, Held, Written, run, get-Written}

-- two retries, the first after 100 milliseconds
abbrev pub retrying : ResilientProvider
retrying = record { base_name = "openai"; max_retries = pos 2; retry_delay = 100000000 }

abbrev greeting : ChatResponse
greeting = record {
  content = "hi";
  model = "gpt-4o";
  provider = "openai";
  prompt_tokens = pos 3;
  completion_tokens = pos 5;
}

-- the first attempt fails, all others succeed
abbrev second : ℕ → Outcome String ChatResponse
second zero = err "down"
second (suc n) = ok greeting

abbrev flaky : Script String
flaky = record { outcome = second; ctx_err = λ i. none; waited = λ i. none }

abbrev dead : Script String
dead = record { outcome = λ i. err "down"; ctx_err = λ i. none; waited = λ i. none }

chat_first_ok_example : chat retrying flaky ≡ (ok greeting, doubling 100000000 0 1)
chat_first_ok_example =
    chat_first_ok retrying 2 refl flaky 1 greeting (omega arith) (omega arith) (omega arith)
      (("down", refl, refl, refl), tt) refl

chat_all_failed_example :
    chat retrying dead ≡ (err (after_retries "openai" (pos 2) (some "down")), history retrying 0 2)
chat_all_failed_example =
    chat_all_failed retrying 2 refl dead "down"
      (("down", refl, refl, refl), (("down", refl, refl, refl), tt)) refl refl

chat_bounded_example :
    (attempts (chat retrying dead).1 ≤ 2 + 1)
    × (slept (chat retrying dead).1 ≤ (2 ^ 2 - 1) * 100000000)
chat_bounded_example = chat_bounded retrying 2 refl (omega arith) (omega arith) dead

-- two tiers of maps that never lose an entry
abbrev near_map : Local (Map String) String
near_map = record { find = λ now k l. lookup k l; put = λ now k v ttl l. insert k v l }

abbrev far_map : Remote (Map String) String String
far_map = record { find = λ now k l. ok (lookup k l); put = λ now k v ttl l. (insert k v l, none) }

ok-injective : {X A : Type 0} {a b : A} → ◌≡◌ {A = Outcome X A} (ok a) (ok b) → a ≡ b
ok-injective e = cc

-- a map has a value for a key
abbrev Has : Map String → String → String → Type 0
Has m k v = lookup k m ≡ some v

insert-Has :
    (k j v w : String) (m : Map String) → Has (insert k v m) j w → ((k ≡ j) × (v ≡ w)) ⊎ Has m j w
insert-Has k j v w m h = elim (Bool-cases (k == j)) [
  | inl hit ↦
      let same = (eq_iff k j).0 hit in
      let here : lookup k (insert k v m) ≡ some w = ap (λ q. lookup q (insert k v m)) same ∙ h in
      inl (same, some-injective _ _ (sym (lookup-insert_self k v m) ∙ here))
  | inr miss ↦
      inr (sym (lookup-insert_ne k j v m (λ e. false≢true (sym miss ∙ (eq_iff k j).1 e))) ∙ h)
]

abbrev near_laws : IsLocal near_map
near_laws = record {
  Holds = Has;
  find-held = λ t k v l e. e;
  put-held = λ now k j v w ttl l h. insert-Has k j v w l h;
}

abbrev far_laws : IsRemote far_map
far_laws = record {
  Holds = Has;
  find-held = λ t k v r e. ok-injective e;
  put-held = λ now k j v w ttl r h. insert-Has k j v w r h;
}

abbrev empty_tiers : TwoTier (Map String) (Map String)
empty_tiers = record { l1 = []; redis = [] }

nothing-Held : (u : String) → ¬ Held near_map far_map near_laws far_laws "k" u empty_tiers
unfolding lookup
nothing-Held u (inl e) = absurd (none-ne-some u e)
nothing-Held u (inr e) = absurd (none-ne-some u e)

abbrev calls : List (CacheCall String)
calls = set 1 "k" "value" 9 ∷ get 2 "k" ∷ set 3 "j" "other" 9 ∷ []

found :
    (two_tier_get near_map far_map 4 "k" (run near_map far_map calls empty_tiers)).1
    ≡ ok (some "value")
unfolding two_tier_get two_tier_set run lookup insert
found = refl

get-Written_example : Written "k" "value" calls
get-Written_example =
    get-Written near_map far_map near_laws far_laws 4 "k" "value" calls empty_tiers nothing-Held
      found
