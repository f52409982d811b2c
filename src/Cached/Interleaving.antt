-- ===== src/Cached/Interleaving.antt =====
-- Requests that run at the same time over one `cached.Database`. A reader takes the steps of
-- `readThrough`: one under the first lock, the load, and one under the second lock. A writer commits,
-- and then invalidates each key in a step under the lock of its shard. The deletion of a key from the
-- store may happen at any time, and so may an expiry that another call brings about.
use go_kickstart.Base.{
  ℕ, suc, true, ◌≡◌, ◌⊎◌, Option, none, some, List, [], ◌∷◌, ◌++◌, ◌==◌, if◌then◌else◌, Text,
}
use go_kickstart.Cache.{CacheStore}
use go_kickstart.Database.{Account, Tables, ok, World}
use go_kickstart.Database.Queries.{select_account_by_sub}
use go_kickstart.Cached.{
  Profile, profile_of, profile, Json, CacheState, account_key, Shared, look_up, fill, bump,
  drop_key,
}

abbrev pub In : ℕ → List ℕ → Type 0
In n [] = ⊥
In n (x ∷ xs) = (x ≡ n) ⊎ In n xs

-- Where a reader stands, with its local variables.
pub data Pc : Type 0 where
  idle : Pc
  checking : (sub generation : ℕ) → Option Profile → Pc  -- after the first lock
  loading : (sub generation : ℕ) → Pc
  filling : (sub generation : ℕ) → Profile → Pc  -- before the second lock

-- `pending` has the accounts of writes that are committed and not yet invalidated.
pub record System (S : Type 0) : Type 0 where
  pub shared : Shared S
  pub pending : List ℕ
  pub readers : ℕ → Pc

abbrev pub put : ℕ → Pc → (ℕ → Pc) → ℕ → Pc
put i pc readers j = if j == i then pc else readers j

-- A commit that changes what the database says of the accounts in `subs`, and creates others.
abbrev pub Writes : List ℕ → Tables → Tables → Type 0
Writes subs t t' =
    (sub : ℕ) → In sub subs ⊎ ((profile sub t' ≡ profile sub t) ⊎ (profile sub t ≡ none))

module _ {S : Type 0} (ops : CacheStore S) (json : Json) (state : CacheState) where
  pub data Step (s : System S) : System S → Type 0 where
    -- the first lock
    look :
        (i sub : ℕ) (ctx : Option ℕ)
        → s.readers i ≡ idle
        → Step s (record s {
          shared = (look_up ops json state ctx (account_key sub) s.shared).1;
          readers =
              put i
                (checking sub
                  (look_up ops json state ctx (account_key sub) s.shared).0.0
                  (look_up ops json state ctx (account_key sub) s.shared).0.1)
                s.readers;
        })
    -- the context has ended, the value was found, or an error is returned
    leave : (i : ℕ) → Step s (record s { readers = put i idle s.readers })
    miss :
        (i sub generation : ℕ)
        → s.readers i ≡ checking sub generation none
        → Step s (record s { readers = put i (loading sub generation) s.readers })
    -- The row has an email of valid UTF-8, as those are that came out of the JSON of a request.
    load :
        (i sub generation : ℕ) (row : Account) (w : World)
        → s.readers i ≡ loading sub generation
        → json.is_valid row.email ≡ true
        → select_account_by_sub sub s.shared.world ≡ (ok row, w)
        → Step s (record s {
          shared = record s.shared { world = w };
          readers = put i (filling sub generation (profile_of row)) s.readers;
        })
    -- the second lock
    store :
        (i sub generation : ℕ) (value : Profile) (ctx : Option ℕ) (c : Shared S)
        → s.readers i ≡ filling sub generation value
        → fill ops json state ctx (account_key sub) generation value s.shared ≡ some c
        → Step s (record s { shared = c; readers = put i idle s.readers })
    commit :
        (subs : List ℕ) (w : World)
        → Writes subs s.shared.world.tables w.tables
        → Step s (record s { shared = record s.shared { world = w }; pending = subs ++ s.pending })
    invalidate_key :
        (sub : ℕ) (before after : List ℕ)
        → s.pending ≡ before ++ sub ∷ after
        → Step s (record s {
          shared = (bump ops json state (account_key sub) s.shared).1;
          pending = before ++ after;
        })
    drop :
        (key : Text) (ctx : Option ℕ)
        → Step s (record s { shared = drop_key ops json state ctx key s.shared })

  -- Nothing is cached, no generation has passed and nobody reads.
  pub record IsInitial (s : System S) : Type 0 where
    pub unheld : (k v : Text) → ¬ (ops.Holds s.shared.store k v)
    pub zeroed : (k : ℕ) → s.shared.generations k ≡ 0
    pub quiet : (i : ℕ) → s.readers i ≡ idle

  -- Reached in `n` steps.
  pub data Reach (s : System S) : ℕ → System S → Type 0 where
    start : Reach s 0 s
    later : {n : ℕ} {t u : System S} → Reach s n t → Step t u → Reach s (suc n) u
