-- ===== src/Cached/Fills.antt =====
-- What a reader caches under the second lock keeps the invariant.
use mathlib.Core.Path.{subst}
use go_kickstart.Base.{
  ℕ, suc, ◌≡◌, ◌∙◌, refl, sym, inl, inr, Bool, true, false, Option, none, some, ◌==◌, if◌then◌else◌,
  Text,
}
use go_kickstart.Cache.{CacheStore}
use go_kickstart.Database.{now}
use go_kickstart.Database.Laws.{tables-now}
use go_kickstart.Cached.{
  Profile, set_json, with_store, Json, CacheState, account_key, cache_key, Shared, fill,
}
use go_kickstart.Cached.Keys.{account_key-injective, cache_key-injective}
use go_kickstart.Cached.Stored.{set_json_keeps}
use go_kickstart.Cached.Invariant.{gen, Dated, IsRight, Coherent, Kept, Kept-tables, Coherent-put}
use go_kickstart.Cached.Interleaving.{idle, filling, System, put}

module _ {S : Type 0} (ops : CacheStore S) (json : Json) (state : CacheState) where
  same_profile : {p q : Profile} → ◌≡◌ {A = Option Profile} (some p) (some q) → p ≡ q
  same_profile h = cc

  same_shared : {c d : Shared S} → ◌≡◌ {A = Option (Shared S)} (some c) (some d) → c ≡ d
  same_shared h = cc

  -- A dated value may be cached.
  filled-Coherent :
      (n i sub generation : ℕ) (value : Profile) (ctx : Option ℕ) (s : System S) (filled : S)
      → Coherent ops json state n s
      → Dated ops json state s.shared.generations s.shared.world.tables s.pending sub generation
          value
      → json.is_valid value.email ≡ true
      → set_json ops json state ctx s.shared.world.clock
          (cache_key state (account_key sub) generation)
          value
          s.shared.store
        ≡ some filled
      → Coherent ops json state (suc n) (record s {
        shared = record s.shared { store = filled; world = (now s.shared.world).1 };
        readers = put i idle s.readers;
      })
  filled-Coherent n i sub generation value ctx s filled h dated valid set = record {
    bounded = rest.bounded;
    stored = λ other g d p held readable.
        elim (set_json_keeps ops json state ctx _ _ _ d value s.shared.store filled valid set
          held) [
            | inl old ↦ kept.dated other g p (h.stored other g d p old readable)
            | inr (same, new) ↦
                kept.dated other g p
                  (added other g p (cache_key-injective state _ _ _ _ same) (sym readable ∙ new))
          ];
    reading = rest.reading;
  }
    where
      kept :
          Kept ops json state s.shared.generations s.shared.world.tables s.pending
            s.shared.generations
            (now s.shared.world).1.tables
            s.pending
      kept = Kept-tables ops json state _ _ _ _ (sym (tables-now s.shared.world))

      rest : Coherent ops json state (suc n) (record s {
        shared = record s.shared { world = (now s.shared.world).1 };
        readers = put i idle s.readers;
      })
      rest =
          Coherent-put ops json state n s i idle
            (record s.shared { world = (now s.shared.world).1 }) h refl (tables-now s.shared.world)
            (λ k v held. held) tt

      added :
          (other g : ℕ) (p : Profile)
          → (g ≡ generation) × (account_key other ≡ account_key sub)
          → ◌≡◌ {A = Option Profile} (some p) (some value)
          → Dated ops json state s.shared.generations s.shared.world.tables s.pending other g p
      added other g p (same, keys) e =
          rw (same, account_key-injective other sub keys, same_profile e) dated

  -- Under the second lock a value is cached when its generation is still the shard's.
  pub fill-Coherent :
      (n i sub generation : ℕ) (value : Profile) (ctx : Option ℕ) (c : Shared S) (s : System S)
      → Coherent ops json state n s
      → s.readers i ≡ filling sub generation value
      → fill ops json state ctx (account_key sub) generation value s.shared ≡ some c
      → Coherent ops json state (suc n) (record s { shared = c; readers = put i idle s.readers })
  unfolding fill
  fill-Coherent n i sub generation value ctx c s h at e =
      guarded (generation == gen ops json state s.shared.generations sub) e
    where
      key : Text
      key = cache_key state (account_key sub) generation

      right :
          IsRight ops json state s.shared.generations s.shared.world.tables s.pending
            (filling sub generation value)
      right =
          subst (IsRight ops json state s.shared.generations s.shared.world.tables s.pending) at
            (h.reading i)

      after_set :
          (o : Option S)
          → set_json ops json state ctx s.shared.world.clock key value s.shared.store ≡ o
          → with_store ops json state (now s.shared.world).1 s.shared o ≡ some c
          → Coherent ops json state
              (suc n)
              (record s { shared = c; readers = put i idle s.readers })
      after_set none r e = cc
      after_set (some s') r e =
          subst
            (λ c.
              Coherent ops json state (suc n)
                (record s { shared = c; readers = put i idle s.readers }))
            (same_shared e) (filled-Coherent n i sub generation value ctx s s' h right.1 right.0 r)

      guarded :
          (b : Bool)
          → (if b
              then with_store ops json state
                  (now s.shared.world).1
                  s.shared
                  (set_json ops json state ctx s.shared.world.clock key value s.shared.store)
              else some s.shared)
            ≡ some c
          → Coherent ops json state
              (suc n)
              (record s { shared = c; readers = put i idle s.readers })
      guarded true e =
          after_set (set_json ops json state ctx s.shared.world.clock key value s.shared.store) refl
            e
      guarded false e =
          subst
            (λ c.
              Coherent ops json state (suc n)
                (record s { shared = c; readers = put i idle s.readers }))
            (same_shared e)
            (Coherent-put ops json state n s i idle s.shared h refl refl (λ k v held. held) tt)
