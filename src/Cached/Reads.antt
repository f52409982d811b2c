-- ===== src/Cached/Reads.antt =====
-- What a read through the cache finds, and what it finds after a commit and its invalidations.
use mathlib.Core.Path.{subst}
use go_kickstart.Base.{
  ℕ, suc, ◌^◌, ◌<◌, ◌≡◌, ◌∙◌, refl, sym, ap, true, Option, none, some, List, [], ◌∷◌, ◌++◌, Text,
}
use go_kickstart.Cache.{CacheStore}
use go_kickstart.Database.{Account, Result, ok, err, World}
use go_kickstart.Database.Queries.{select_account_by_sub}
use go_kickstart.Database.Laws.{tables-now}
use go_kickstart.Cached.{
  Profile, profile_of, profile, Json, CacheState, account_key, Shared, look_up, fill, invalidate,
  looked_up, filled, after_fill, bump, drop_key, cached_select_account_by_sub,
}
use go_kickstart.Cached.Interleaving.{
  In, Writes, System, commit, invalidate_key, drop, IsInitial, Reach, later,
}
use go_kickstart.Cached.Coherence.{load_right, look_up_current}

-- The steps that a commit of the accounts in the list takes after the commit itself.
abbrev pub steps_after : ℕ → List ℕ → ℕ
steps_after n [] = n
steps_after n (sub ∷ subs) = steps_after (suc (suc n)) subs

abbrev pub account_keys : List ℕ → List Text
account_keys [] = []
account_keys (sub ∷ subs) = account_key sub ∷ account_keys subs

module _ {S : Type 0} (ops : CacheStore S) (json : Json) (state : CacheState) where
  tables-look_up :
      (ctx : Option ℕ) (key : Text) (c : Shared S)
      → (look_up ops json state ctx key c).1.world.tables ≡ c.world.tables
  unfolding look_up
  tables-look_up ctx key c = tables-now c.world

  -- The read of an account in a state in which no change of it waits.
  read_current :
      (s : System S) (n : ℕ) (t : System S) (at_look at_check at_fill : Option ℕ) (sub : ℕ)
      (p : Profile) (c : Shared S)
      → n < 2 ^ 64
      → IsInitial ops json state s
      → Reach ops json state s n t
      → ¬ In sub t.pending
      → cached_select_account_by_sub ops json state true at_look at_check at_fill sub t.shared
        ≡ some (ok p, c)
      → profile sub t.shared.world.tables ≡ some p
  unfolding cached_select_account_by_sub
  read_current s n t at_look at_check at_fill sub p c few h r settled e =
      found at_check (look_up ops json state at_look (account_key sub) t.shared) refl e
    where
      same_value :
          {q : Profile} {d : Shared S}
          → ◌≡◌ {A = Option (Result Profile × Shared S)} (some (ok q, d)) (some (ok p, c))
          → q ≡ p
      same_value e = cc

      cached_row :
          (q : Profile) (o : Option (Shared S))
          → after_fill ops json state q o ≡ some (ok p, c)
          → q ≡ p
      cached_row q none e = cc
      cached_row q (some d) e = same_value e

      loaded :
          (g : ℕ) (d : Shared S) (row : Result Account × World)
          → d.world.tables ≡ t.shared.world.tables
          → select_account_by_sub sub d.world ≡ row
          → filled ops json state at_fill (account_key sub) g (row.0, record d { world = row.1 })
            ≡ some (ok p, c)
          → profile sub t.shared.world.tables ≡ some p
      loaded g d (err e', w) tables q e = cc
      loaded g d (ok row, w) tables q e =
          ap (profile sub) (sym tables)
          ∙ (load_right ops json state sub row d.world w q).0
          ∙ ap some (
              cached_row (profile_of row)
                (fill ops json state at_fill (account_key sub) g (profile_of row) _) e)

      found :
          (at_check : Option ℕ) (o : (ℕ × Option Profile) × Shared S)
          → look_up ops json state at_look (account_key sub) t.shared ≡ o
          → looked_up ops json state at_check at_fill sub o ≡ some (ok p, c)
          → profile sub t.shared.world.tables ≡ some p
      found (some e') o q e = cc
      found none ((g, some value), d) q e =
          look_up_current ops json state s n t at_look sub g value d few h r settled q
          ∙ ap some (same_value e)
      found none ((g, none), d) q e =
          loaded g d (select_account_by_sub sub d.world)
            (sym (ap (λ o. o.1.world.tables) q) ∙ tables-look_up at_look (account_key sub) t.shared)
            refl e

  Reach-invalidate :
      (ctx : Option ℕ) (subs rest : List ℕ) (s : System S) (n : ℕ) (t : System S)
      → Reach ops json state s n t
      → t.pending ≡ subs ++ rest
      → Reach ops json state s (steps_after n subs) (record t {
        shared = invalidate ops json state ctx (account_keys subs) t.shared;
        pending = rest;
      })
  unfolding invalidate
  Reach-invalidate ctx [] rest s n t r e =
      subst (λ pending. Reach ops json state s n (record t { pending = pending })) e r
  Reach-invalidate ctx (sub ∷ subs) rest s n t r e =
      Reach-invalidate ctx subs rest s (suc (suc n)) _
        (later (later r (invalidate_key sub [] (subs ++ rest) e)) (drop _ ctx)) refl

  -- A commit that changes the accounts of a list, with the invalidation of each, leaves none of them
  -- waiting.
  Reach-commit :
      (ctx : Option ℕ) (subs : List ℕ) (w : World) (s : System S) (n : ℕ) (t : System S)
      → Reach ops json state s n t
      → Writes subs t.shared.world.tables w.tables
      → Reach ops json state s (steps_after (suc n) subs) (record t {
        shared = invalidate ops json state ctx (account_keys subs) (record t.shared { world = w });
      })
  Reach-commit ctx subs w s n t r writes =
      Reach-invalidate ctx subs t.pending s (suc n) _ (later r (commit subs w writes)) refl

  world-invalidate :
      (ctx : Option ℕ) (keys : List Text) (c : Shared S)
      → (invalidate ops json state ctx keys c).world ≡ c.world
  unfolding invalidate bump drop_key
  world-invalidate ctx [] c = refl
  world-invalidate ctx (key ∷ keys) c = world-invalidate ctx keys _

  -- What a read finds after a commit and its invalidations.
  pub read_after :
      (ctx : Option ℕ) (subs : List ℕ) (w : World) (s : System S) (n : ℕ) (t : System S)
      (at_look at_check at_fill : Option ℕ) (sub : ℕ) (p : Profile) (d : Shared S)
      → steps_after (suc n) subs < 2 ^ 64
      → IsInitial ops json state s
      → Reach ops json state s n t
      → Writes subs t.shared.world.tables w.tables
      → ¬ In sub t.pending
      → cached_select_account_by_sub ops json state true at_look at_check at_fill sub
          (invalidate ops json state ctx (account_keys subs) (record t.shared { world = w }))
        ≡ some (ok p, d)
      → profile sub w.tables ≡ some p
  read_after ctx subs w s n t at_look at_check at_fill sub p d few h r writes settled e =
      ap (λ w. profile sub w.tables)
        (sym (world-invalidate ctx (account_keys subs) (record t.shared { world = w })))
      ∙ read_current s (steps_after (suc n) subs) _ at_look at_check at_fill sub p d few h
          (Reach-commit ctx subs w s n t r writes) settled e
