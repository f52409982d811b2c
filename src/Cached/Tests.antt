-- ===== src/Cached/Tests.antt =====
-- Reads and writes of one account over the in-memory store, and the theorems at a state that four steps
-- of a reader have reached: the account is cached, with no write waiting.
use mathlib.Core.Path.{subst}
use go_kickstart.Base.{
  Bool, ◌≡◌, refl, true, Option, none, some, List, [], ◌∷◌, arith, Text, txt, length, trim_space,
  str_eq, format_int, lookup, without, assign,
}
use go_kickstart.Memory.{
  Store, new, apply_opt, set, get, delete, validate_request, delete_expired, evict, remove,
  remove_key,
}
use go_kickstart.Memory.Interface.{memory_store}
use go_kickstart.Database.{
  Account, Result, ok, World, M, pure, ◌>>=◌, now, random_text, engine, statement, with_tx,
}
use go_kickstart.Database.Queries.{
  select_account_by_sub, update_email, update_account_email, delete_rows, delete_account,
  email_fits,
}
use go_kickstart.Cached.{
  Profile, profile_of, profile, Json, CacheState, new_cache_state, account_key, shard, cache_key,
  next_generation, Shared, get_json, set_json, look_up, fill, bump, drop_key, invalidate,
  cached_select_account_by_sub, cached_update_account_email, cached_delete_account, cached_with_tx,
}
use go_kickstart.Cached.Interleaving.{
  idle, System, Writes, Reach, start, later, look, miss, load, store, IsInitial,
}
use go_kickstart.Cached.Invariant.{Coherent}
use go_kickstart.Cached.Coherence.{Reach-Coherent, look_up_current}
use go_kickstart.Cached.Writes.{update_email-Writes}
use go_kickstart.Cached.Calls.{
  cached_with_tx_current, cached_update_account_email-read, cached_delete_account-read,
}

program : Unit {0}
unfolding new apply_opt set get delete validate_request delete_expired evict remove remove_key
    trim_space str_eq format_int lookup without assign now random_text engine statement with_tx
    select_account_by_sub update_email update_account_email delete_rows delete_account email_fits
    new_cache_state account_key shard cache_key next_generation get_json set_json look_up fill bump
    drop_key invalidate cached_select_account_by_sub cached_update_account_email
    cached_delete_account cached_with_tx
program = tt

-- A profile as a text of its own: the subject, the time, and then the email.
abbrev of_text : Text → Option Profile
of_text (sub ∷ created_at ∷ email) =
    some (record { sub = sub; email = email; created_at = created_at })
of_text _ = none

of_text_back :
    (p : Profile) (d : Text)
    → ◌≡◌ {A = Bool} true true
    → some (p.sub ∷ p.created_at ∷ p.email) ≡ some d
    → of_text d ≡ some p
of_text_back p d valid e = subst (λ d. of_text d ≡ some p) same refl
  where
    same : p.sub ∷ p.created_at ∷ p.email ≡ d
    same = cc

abbrev json : Json
json = record {
  marshal = λ p. some (p.sub ∷ p.created_at ∷ p.email);
  unmarshal = of_text;
  is_valid = λ s. true;
  unmarshal-marshal = of_text_back;
}

abbrev state : CacheState
state = new_cache_state (txt "P") (λ key. length key)

abbrev alice : Account
alice = record { sub = 1; email = txt "a@b"; created_at = 5; auth_id = txt "id-1" }

abbrev initial : System Store
initial = record {
  shared = record {
    world = record {
      tables = record {
        accounts = alice ∷ [];
        last_sub = 1;
        login_requests = [];
        email_changes = [];
        refresh_tokens = [];
        account_roles = [];
        roles = [];
        role_permissions = [];
        rate_limits = [];
      };
      clock = 0;
      delays = [];
      randoms = [];
      faults = [];
      sent = [];
    };
    store = new [];
    generations = λ k. 0;
  };
  pending = [];
  readers = λ i. idle;
}

nothing_yet : IsInitial memory_store json state initial
unfolding program
nothing_yet = record { unheld = λ k v h. cc; zeroed = λ k. refl; quiet = λ i. refl }

abbrev cached : (t : System Store) × Reach memory_store json state initial 4 t
unfolding program
cached = (
  _,
  later
      (later (later (later start (look 0 1 none refl)) (miss 0 1 0 refl))
        (load 0 1 0 alice _ refl refl refl))
      (store 0 1 0 (profile_of alice) none _ refl refl),
)

abbrev t : System Store
t = cached.0

-- The account is read from the cache.
look_up_current_example : profile 1 t.shared.world.tables ≡ some (profile_of alice)
unfolding program
look_up_current_example =
    look_up_current memory_store json state initial 4 t none 1 0 (profile_of alice)
      (look_up memory_store json state none (account_key 1) t.shared).1 (omega arith) nothing_yet
      cached.1 (λ h. h) refl

Reach-Coherent_example : Coherent memory_store json state 4 t
Reach-Coherent_example =
    Reach-Coherent memory_store json state initial 4 t (omega arith) nothing_yet cached.1

abbrev updated : Shared Store
updated = (cached_update_account_email memory_store json state none 1 (txt "c@d") t.shared).1

cached_update_account_email-read_example : ◌≡◌ {A = Text} (txt "c@d") (txt "c@d")
unfolding program
cached_update_account_email-read_example =
    cached_update_account_email-read memory_store json state initial 4 t 1 (txt "c@d") none none
      none none (record { sub = 1; email = txt "c@d"; created_at = 5 }) updated _ (omega arith)
      nothing_yet cached.1 (λ h. h) refl refl

abbrev deleted : Shared Store
deleted = (cached_delete_account memory_store json state none 1 t.shared).1

cached_delete_account-read_example : ¬ (
    cached_select_account_by_sub memory_store json state true none none none 1 deleted
    ≡ some (ok (profile_of alice), deleted))
unfolding program
cached_delete_account-read_example =
    cached_delete_account-read memory_store json state initial 4 t 1 none none none none
      (profile_of alice) deleted deleted (omega arith) nothing_yet cached.1 (λ h. h) refl

abbrev body : M (Unit {0} × List Text)
body = do u ← update_account_email 1 (txt "e@f"); pure (u, account_key 1 ∷ [])

abbrev ran : (Result (Unit {0} × List Text)) × World
ran = with_tx body t.shared.world

abbrev committed : Shared Store
committed = (cached_with_tx memory_store json state none (λ keys. keys) body t.shared).1

body-Writes : Writes (1 ∷ []) t.shared.world.tables ran.1.tables
unfolding program
body-Writes = update_email-Writes 1 (txt "e@f") t.shared.world.tables ran.1.tables refl

cached_with_tx_current_example :
    profile 1 ran.1.tables ≡ some (record { sub = 1; email = txt "e@f"; created_at = 5 })
unfolding program
cached_with_tx_current_example =
    cached_with_tx_current memory_store json state initial 4 t (1 ∷ []) body (λ keys. keys) none
      none none none 1 tt (account_key 1 ∷ []) ran.1
      (record { sub = 1; email = txt "e@f"; created_at = 5 }) committed _ (omega arith) nothing_yet
      cached.1 refl body-Writes refl (λ h. h) refl refl
