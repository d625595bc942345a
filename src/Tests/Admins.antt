-- ===== src/Tests/Admins.antt =====
-- Runs of the admin handlers at concrete inputs.
use kenbun.Prelude.{pos, true, ℕ, String, ◌≡◌, ◌≢◌, refl, some, none, List, [], ◌∷◌}
use kenbun.Float.Fixed.{fixed_float, Fixed-IsIeee}
use kenbun.Health.{Call, error, success}
use kenbun.Health.Traces.{run}
use kenbun.Selector.{select}
use kenbun.Selector.Sort.{insertion_sort, insertion_sort-IsSort}
use kenbun.Provider.{ok, err}
use kenbun.Admin.{Repositories, fail_provider, is_authorized, admin}
use kenbun.Admin.Drain.{admin-drains}
use kenbun.Tests.{names, seasoned, IsValid-seasoned}

abbrev repositories : Repositories ℕ String String
repositories = record {
  get_all_tenants = λ db. ok [];
  create = λ name hash rpm budget allowlist db. (db, err "read only");
  analytics = none;
  key_hash = λ key. key;
}

leave : is_authorized "kb" "kb" "" ≡ true
unfolding is_authorized
leave = refl

abbrev later : List (ℕ × Call)
later = (10, error "gemini" (pos 500)) ∷ (11, success "openai" 900) ∷ []

admin-drains_example :
    let (db', m', reply) = admin repositories "kb" "kb" "" 9 (fail_provider "gemini") 0 seasoned in
    (select (λ (n : String). n) insertion_sort 12 names [] (run later m')).1 ≢ some "gemini"
admin-drains_example =
    admin-drains repositories Fixed-IsIeee (λ (n : String). n) insertion_sort insertion_sort-IsSort
      "kb" "kb" "" 9 12 0 seasoned "gemini" later names [] IsValid-seasoned leave (refl, (refl, tt))
