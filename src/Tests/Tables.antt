-- ===== src/Tests/Tables.antt =====
-- The table of tenants, the processor on it, and the limiter's sync, at concrete inputs.
use kenbun.Prelude.{
  ◌≡◌, refl, String, true, false, none, some, List, [], ◌∷◌, pos, if◌then◌else◌, ◌==◌, ◌+ℤ◌,
}
use kenbun.Prelude.Map.{lookup, insert}
use kenbun.Float.Fixed.{Fixed, fixed_float}
use kenbun.Provider.{ok}
use kenbun.Logging.{LogEvent}
use kenbun.Budget.{Event, message, tick, start}
use kenbun.Budget.Pending.{Distinct}
use kenbun.Budget.Ledger.{IsLedger, IsIteration}
use kenbun.Budget.Faults.{Unfailing}
use kenbun.Budget.Account.{Deal, owe_costs, Lossless, deal_all, account_of, costs_for}
use kenbun.Budget.Refines.{start-refines}
use kenbun.Postgres.{SqlErrors, Database, update_spend, create_tenant, get_tenant_by_api_key_hash}
use kenbun.Postgres.Charges.{spent_in, KnownIn, update_spend-IsLedger}
use kenbun.Postgres.Rows.{new_row, create_tenant-get}
use kenbun.RateLimit.{TokenBucket}
use kenbun.RateLimit.Sync.{Redis, usage_key, background_sync}
use kenbun.RateLimit.Sync.Counts.{IsRedis, bumped, background_sync-counts}
use kenbun.Tests.Requests.{acme}

abbrev pub errors : SqlErrors String
errors = record { no_rows = "no rows"; duplicate = "duplicate key"; out_of_range = "out of range" }

-- the next update fails
abbrev pub database : Database String
database = (acme ∷ [], some "down" ∷ [])

update_spend-IsLedger_example : IsLedger (update_spend errors) spent_in KnownIn
update_spend-IsLedger_example = update_spend-IsLedger errors

pub in_order : IsIteration {V = Fixed} (λ m. m)
in_order = record { same = λ q m. refl; once = λ m h. h }

-- a call of one cent and a half
abbrev pub logged : LogEvent Fixed
logged = record {
  request_id = "r";
  tenant_id = "acme";
  provider = "gemini";
  model = "gpt-4o";
  prompt_tokens = pos 1;
  completion_tokens = pos 1;
  cost_cents = 1500000;
  latency_ms = pos 1;
  status = pos 200;
  cached = false;
  timestamp = pos 0;
}

abbrev received : List (Event Fixed)
received = message (some logged) ∷ tick ∷ message none ∷ message (some logged) ∷ tick ∷ []

start-refines_example :
    let (m', db', returned) = start (update_spend errors) (λ m. m) received [] database in
    let account = account_of {F = Fixed} (update_spend errors) (λ m. m) spent_in KnownIn "acme" in
    (deals : List (Deal Fixed)) × (account (m', db') ≡ deal_all deals (account ([], database)))
    × (owe_costs deals ≡ costs_for "acme" received)
    × (Unfailing (update_spend errors) (λ m. m) "acme" received [] database → Lossless deals)
start-refines_example =
    start-refines (update_spend errors) (λ m. m) spent_in KnownIn (update_spend-IsLedger errors)
      in_order "acme" received [] database (acme, refl) tt

-- The first charge is lost with the failing update, the second is made: 40 cents become 41.
one_charge :
    spent_in "acme" (start {F = Fixed} (update_spend errors) (λ m. m) received [] database).1
    ≡ pos 41
unfolding start update_spend lookup insert ◌+ℤ◌
one_charge = refl

made :
    (create_tenant errors none "id" "New" "hash" (pos 60) (pos 1000) [] (acme ∷ [])).1
    ≡ ok (new_row "id" "New" "hash" (pos 60) (pos 1000) [])
unfolding create_tenant
made = refl

create_tenant-get_example :
    let t = new_row "id" "New" "hash" (pos 60) (pos 1000) [] in
    let rows = (create_tenant errors none "id" "New" "hash" (pos 60) (pos 1000) [] (acme ∷ [])).0 in
    (get_tenant_by_api_key_hash errors none "hash" rows ≡ ok t) × (t ≡ t)
create_tenant-get_example =
    create_tenant-get errors none "id" "New" "hash" (pos 60) (pos 1000) [] (acme ∷ []) "hash" made

-- Redis as its counters, which do not expire meanwhile
abbrev Counters : Type 0
Counters = String → Fixed

abbrev count_of : String → Counters → Fixed
count_of key r = r key

abbrev counters : Redis Counters Fixed
counters = record {
  incr_by_float = λ key x r.
      (λ q. if key == q then fixed_float.add (r q) x else r q, fixed_float.add (r key) x);
  expire = λ key seconds r. r;
}

counters-IsRedis : IsRedis counters count_of
counters-IsRedis = record { adds = λ key q x r. refl; keeps = λ key q seconds r. refl }

abbrev two_buckets : TokenBucket Fixed
two_buckets = record {
  buckets =
      ("a", record { tokens = 500000; last = 1 }) ∷ ("b", record { tokens = 0; last = 2 }) ∷ [];
}

both_once : Distinct two_buckets.buckets
unfolding lookup
both_once = (refl, (refl, tt))

background_sync-counts_example :
    let (tb', r') = background_sync counters (λ m. m) true two_buckets (λ q. 0) in
    (tb' ≡ two_buckets) × (count_of (usage_key "b") r' ≡ bumped (lookup "b" two_buckets.buckets) 0)
background_sync-counts_example =
    background_sync-counts counters count_of (λ m. m) counters-IsRedis in_order two_buckets (λ q. 0)
      "b" both_once
