-- ===== src/Cached.antt =====
-- database/cached: reads of accounts through a cache. A cache holds an account under a key with the
-- generation of the key's shard, and a write moves the shard to its next generation. The JSON
-- encoding and the hash of the shards (`hash/maphash`) are parameters.
pub mod Keys
pub mod Interleaving
pub mod Stored
pub mod Invariant
pub mod Coherence
pub mod Writes
pub mod Fills
pub mod Reads
pub mod Calls
mod Tests
use go_kickstart.Base.{
  ℕ, suc, ◌+◌, ◌%◌, ◌^◌, ◌≡◌, Bool, true, false, Option, none, some, List, [], ◌∷◌, ◌++◌, ◌==◌, any,
  if◌then◌else◌, find, Text, txt, str_eq, format_int,
}
use go_kickstart.Cache.{CacheError, Context, live, ended, CacheStore}
use go_kickstart.Cache
use go_kickstart.Database.{
  Account, Tables, Error, failure, Result, ok, err, World, M, now, random_text, with_tx,
}
use go_kickstart.Database.Queries.{
  has_sub, select_account_by_sub, update_account_email, delete_account,
}

-- `database.Account`: a row without its authentication identity.
pub record Profile : Type 0 where
  pub sub : ℕ
  pub email : Text
  pub created_at : ℕ

abbrev pub profile_of : Account → Profile
profile_of a = record { sub = a.sub; email = a.email; created_at = a.created_at }

abbrev pub profile_in : Option Account → Option Profile
profile_in none = none
profile_in (some a) = some (profile_of a)

-- What the database says of an account.
abbrev pub profile : ℕ → Tables → Option Profile
profile sub t = profile_in (find (has_sub sub) t.accounts)

-- `json.Marshal` and `json.Unmarshal` of an account. `is_valid` is `utf8.ValidString`: an email that is
-- not valid UTF-8 is changed when it is written.
pub record Json : Type 0 where
  pub marshal : Profile → Option Text
  pub unmarshal : Text → Option Profile
  pub is_valid : Text → Bool
  pub unmarshal-marshal :
      (p : Profile) (d : Text) → is_valid p.email ≡ true → marshal p ≡ some d → unmarshal d ≡ some p

-- `cacheState` without the generations: its prefix, and `maphash.String` with its seed.
pub record CacheState : Type 0 where
  pub prefix : Text
  pub hash : Text → ℕ

-- `rand.Text` gives the prefix.
unfoldable pub new_cache_state : Text → (Text → ℕ) → CacheState
new_cache_state text hash = record { prefix = text ++ txt ":"; hash = hash }

unfoldable pub account_key : ℕ → Text
account_key sub = txt "db:account:" ++ format_int sub

-- `*Database` in a process, and what it shares with the rest: the database and the store. A shard has
-- a generation.
pub record Shared (S : Type 0) : Type 0 where
  pub world : World
  pub store : S
  pub generations : ℕ → ℕ

-- A context that is alive, or ended with an error.
abbrev pub context_of : Option ℕ → Context
context_of none = live
context_of (some e) = ended e

module _ (state : CacheState) where
  unfoldable pub shard : Text → ℕ
  shard key = state.hash key % 64

  unfoldable pub cache_key : Text → ℕ → Text
  cache_key key generation = state.prefix ++ (format_int generation ++ (txt ":" ++ key))

-- `shard.generation++` on a uint64
unfoldable pub next_generation : ℕ → (ℕ → ℕ) → ℕ → ℕ
next_generation k generations j = if j == k then (generations j + 1) % 2 ^ 64 else generations j

module _ {S : Type 0} (ops : CacheStore S) (json : Json) (state : CacheState) where
  -- A value that cannot be decoded is deleted.
  abbrev pub or_deleted : Option ℕ → Text → S → Option Profile → Option Profile × S
  or_deleted ctx key s (some value) = (some value, s)
  or_deleted ctx key s none = (none, (ops.delete (context_of ctx) key s).1)

  abbrev pub decoded : Option ℕ → Text → Cache.Result Text × S → Option Profile × S
  decoded ctx key (Cache.err e, s) = (none, s)
  decoded ctx key (Cache.ok data_, s) = or_deleted ctx key s (json.unmarshal data_)

  unfoldable pub get_json : Option ℕ → ℕ → Text → S → Option Profile × S
  get_json ctx time key s = decoded ctx key (ops.get (context_of ctx) time key s)

  abbrev pub stored : Option (Cache.Result (Unit {0}) × S) → Option S
  stored none = none
  stored (some r) = some r.1

  abbrev pub encoded : Option ℕ → ℕ → Text → S → Option Text → Option S
  encoded ctx time key s none = some s
  encoded ctx time key s (some data_) = stored (ops.set (context_of ctx) time key data_ s)

  unfoldable pub set_json : Option ℕ → ℕ → Text → Profile → S → Option S
  set_json ctx time key value s = encoded ctx time key s (json.marshal value)

  -- The part of `readThrough` under the first lock: the generation, and what the cache has.
  unfoldable pub look_up : Option ℕ → Text → Shared S → (ℕ × Option Profile) × Shared S
  unfolding get_json now
  look_up ctx key c =
      let generation = c.generations (shard state key) in
      let (value, s) = get_json ctx c.world.clock (cache_key state key generation) c.store in
      ((generation, value), record c { store = s; world = (now c.world).1 })

  abbrev pub with_store : World → Shared S → Option S → Option (Shared S)
  with_store w c none = none
  with_store w c (some s) = some (record c { store = s; world = w })

  -- The part under the second lock. `none` is a panic of the store.
  unfoldable pub fill : Option ℕ → Text → ℕ → Profile → Shared S → Option (Shared S)
  unfolding set_json now
  fill ctx key generation value c =
      if generation == c.generations (shard state key)
      then with_store (now c.world).1 c
          (set_json ctx c.world.clock (cache_key state key generation) value c.store)
      else some c

  -- The part of `invalidate` under the lock: the old key, and the next generation.
  unfoldable pub bump : Text → Shared S → Text × Shared S
  unfolding next_generation
  bump key c =
      let k = shard state key in
      (
        cache_key state key (c.generations k),
        record c { generations = next_generation k c.generations },
      )

  unfoldable pub drop_key : Option ℕ → Text → Shared S → Shared S
  drop_key ctx key c = record c { store = (ops.delete (context_of ctx) key c.store).1 }

  -- `invalidate`; `ctx` is its own context, of one second.
  unfoldable pub invalidate : Option ℕ → List Text → Shared S → Shared S
  unfolding bump drop_key
  invalidate ctx [] c = c
  invalidate ctx (key ∷ keys) c =
      let (old_key, c') = bump key c in invalidate ctx keys (drop_key ctx old_key c')

  -- A call of the database, on the shared world.
  abbrev pub run_on {ℓ} : {A : Type ℓ} → M A → Shared S → Result A × Shared S
  run_on m c = let (r, w) = m c.world in (r, record c { world = w })

  -- What follows a load.
  abbrev pub after_fill : Profile → Option (Shared S) → Option (Result Profile × Shared S)
  after_fill value none = none
  after_fill value (some c) = some (ok value, c)

  abbrev pub filled :
      Option ℕ → Text → ℕ → Result Account × Shared S → Option (Result Profile × Shared S)
  filled ctx key generation (err e, c) = some (err e, c)
  filled ctx key generation (ok row, c) =
      after_fill (profile_of row) (fill ctx key generation (profile_of row) c)

  abbrev pub without_row : Result Account × Shared S → Option (Result Profile × Shared S)
  without_row (err e, c) = some (err e, c)
  without_row (ok row, c) = some (ok (profile_of row), c)

  -- What follows the first lock, with the context as it is then.
  abbrev pub looked_up :
      Option ℕ → Option ℕ → ℕ → (ℕ × Option Profile) × Shared S → Option (Result Profile × Shared S)
  looked_up (some e) at_fill sub (found, c) = some (err (failure e), c)
  looked_up none at_fill sub ((generation, some value), c) = some (ok value, c)
  looked_up none at_fill sub ((generation, none), c) =
      filled at_fill (account_key sub) generation (run_on (select_account_by_sub sub) c)

  -- `SelectAccountBySub` by `readThrough`. The context is read three times, and may end in between.
  unfoldable pub cached_select_account_by_sub :
      Bool → Option ℕ → Option ℕ → Option ℕ → ℕ → Shared S → Option (Result Profile × Shared S)
  cached_select_account_by_sub cache_read at_look at_check at_fill sub c =
      if cache_read
      then looked_up at_check at_fill sub (look_up at_look (account_key sub) c)
      else without_row (run_on (select_account_by_sub sub) c)

  abbrev pub invalidated :
      Option ℕ → ℕ → Result (Unit {0}) × Shared S → Result (Unit {0}) × Shared S
  invalidated ctx sub (err e, c) = (err e, c)
  invalidated ctx sub (ok _, c) = (ok tt, invalidate ctx (account_key sub ∷ []) c)

  unfoldable pub cached_update_account_email :
      Option ℕ → ℕ → Text → Shared S → Result (Unit {0}) × Shared S
  cached_update_account_email ctx sub email c =
      invalidated ctx sub (run_on (update_account_email sub email) c)

  unfoldable pub cached_delete_account : Option ℕ → ℕ → Shared S → Result (Unit {0}) × Shared S
  cached_delete_account ctx sub c = invalidated ctx sub (run_on (delete_account sub) c)

  abbrev pub committed :
      {A : Type 0}
      → Option ℕ
      → (List Text → List Text)
      → Result (A × List Text) × Shared S
      → Result A × Shared S
  committed ctx order (err e, c) = (err e, c)
  committed ctx order (ok (a, pending), c) = (ok a, invalidate ctx (order pending) c)

  -- `WithTx`: the body gives the keys that its calls have put into `pending`, and `order` is the order
  -- in which the map is read.
  unfoldable pub cached_with_tx :
      {A : Type 0}
      → Option ℕ
      → (List Text → List Text)
      → M (A × List Text)
      → Shared S
      → Result A × Shared S
  cached_with_tx ctx order body c = committed ctx order (run_on (with_tx body) c)
