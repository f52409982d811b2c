-- ===== src/Cached/Coherence.antt =====
-- The steps of the interleaved requests and the invariant.
use mathlib.Core.Path.{subst}
use go_kickstart.Base.{
  true, ℕ, suc, ◌^◌, ◌≤◌, ◌<◌, ◌≡◌, refl, sym, ap, inl, inr, Option, some, List, ◌∷◌, ◌++◌, arith,
  find, Text,
}
use go_kickstart.Cache.{CacheStore}
use go_kickstart.Database.{Account, ok, World}
use go_kickstart.Database.Queries.{has_sub, one, select_account_by_sub}
use go_kickstart.Database.Laws.{statement_ok, one_ok, tables-now}
use go_kickstart.Cached.{
  Profile, profile_of, profile_in, profile, Json, CacheState, account_key, shard, cache_key,
  next_generation, Shared, context_of, look_up, bump, drop_key,
}
use go_kickstart.Cached.Fills.{fill-Coherent}
use go_kickstart.Cached.Stored.{get_json_keeps, get_json_found}
use go_kickstart.Cached.Invariant.{
  gen, Dated, IsRight, Coherent, Kept, Kept-IsRight, Kept-tables, Kept-commit, Kept-invalidate,
  bumped, Coherent-Kept, Coherent-put,
}
use go_kickstart.Cached.Interleaving.{
  In, idle, checking, loading, filling, System, put, Writes, Step, look, leave, miss, load, store,
  commit, invalidate_key, drop, IsInitial, Reach, start, later,
}

module _ {S : Type 0} (ops : CacheStore S) (json : Json) (state : CacheState) where
  -- What a load finds is what the database says.
  pub load_right :
      (sub : ℕ) (row : Account) (w w' : World)
      → select_account_by_sub sub w ≡ (ok row, w')
      → (profile sub w.tables ≡ some (profile_of row)) × (w'.tables ≡ w.tables)
  unfolding select_account_by_sub
  load_right sub row w w' h =
      let (found, same) =
        one_ok (find (has_sub sub) w.tables.accounts) w.tables w'.tables row
          (statement_ok (λ t. one (find (has_sub sub) t.accounts) t) row w w' h) in
      (ap profile_in found, same)

  -- What a look-up found belongs to the shard's generation.
  look_Dated :
      (n : ℕ) (s : System S) (sub g : ℕ) (ctx : Option ℕ) (p : Profile) (c : Shared S)
      → Coherent ops json state n s
      → look_up ops json state ctx (account_key sub) s.shared ≡ ((g, some p), c)
      → Dated ops json state s.shared.generations s.shared.world.tables s.pending sub g p
        × (g ≡ gen ops json state s.shared.generations sub)
  unfolding look_up
  look_Dated n s sub g ctx p c h e =
      let (d, (held, readable)) =
        get_json_found ops json state ctx s.shared.world.clock
          (cache_key state (account_key sub) (gen ops json state s.shared.generations sub))
          s.shared.store p (ap (λ r. r.0.1) e) in
      let here = sym (ap (λ r. r.0.0) e) in
      (
        subst
            (λ g. Dated ops json state s.shared.generations s.shared.world.tables s.pending sub g p)
            (sym here) (h.stored sub _ d p held readable),
        here,
      )

  look-Coherent :
      (n i sub : ℕ) (s : System S) (ctx : Option ℕ)
      → Coherent ops json state n s
      → Coherent ops json state (suc n) (record s {
        shared = (look_up ops json state ctx (account_key sub) s.shared).1;
        readers =
            put i
              (checking sub
                (look_up ops json state ctx (account_key sub) s.shared).0.0
                (look_up ops json state ctx (account_key sub) s.shared).0.1)
              s.readers;
      })
  unfolding look_up
  look-Coherent n i sub s ctx h =
      Coherent-put ops json state n s i _ _ h refl (tables-now _)
        (λ k v. get_json_keeps ops json state ctx _ _ k v s.shared.store) (omega arith)

  load-Coherent :
      (n i sub generation : ℕ) (row : Account) (w : World) (s : System S)
      → Coherent ops json state n s
      → s.readers i ≡ loading sub generation
      → json.is_valid row.email ≡ true
      → select_account_by_sub sub s.shared.world ≡ (ok row, w)
      → Coherent ops json state (suc n) (record s {
        shared = record s.shared { world = w };
        readers = put i (filling sub generation (profile_of row)) s.readers;
      })
  load-Coherent n i sub generation row w s h at valid e =
      let (found, same) = load_right sub row s.shared.world w e in
      Coherent-put ops json state n s i _ _ h refl same (λ k v held. held)
        (
          valid,
          record {
            past =
                subst (IsRight ops json state s.shared.generations s.shared.world.tables s.pending)
                  at (h.reading i);
            current = λ _. inr found;
          },
        )

  commit-Coherent :
      (n : ℕ) (subs : List ℕ) (w : World) (s : System S)
      → Coherent ops json state n s
      → Writes subs s.shared.world.tables w.tables
      → Coherent ops json state
          (suc n)
          (record s { shared = record s.shared { world = w }; pending = subs ++ s.pending })
  commit-Coherent n subs w s h writes =
      let kept =
        Kept-commit ops json state s.shared.generations s.shared.world.tables w.tables subs
          s.pending writes in
      Coherent-Kept ops json state n (suc n) s _ h (λ k. omega (arith, h.bounded k)) kept
        (λ k v held. held)
        (λ j. Kept-IsRight ops json state _ _ _ _ _ _ kept (s.readers j) (h.reading j))

  invalidate-Coherent :
      (n sub : ℕ) (before after : List ℕ) (s : System S)
      → Coherent ops json state n s
      → suc n < 2 ^ 64
      → s.pending ≡ before ++ sub ∷ after
      → Coherent ops json state (suc n) (record s {
        shared = (bump ops json state (account_key sub) s.shared).1;
        pending = before ++ after;
      })
  unfolding bump
  invalidate-Coherent n sub before after s h few e =
      let k = shard state (account_key sub) in
      let kept =
        Kept-invalidate ops json state s.shared.generations s.shared.world.tables n sub before after
          h.bounded few in
      let kept' =
        subst
          (λ pending.
            Kept ops json state s.shared.generations s.shared.world.tables pending
              (next_generation k s.shared.generations) s.shared.world.tables (before ++ after))
          (sym e) kept in
      Coherent-Kept ops json state n (suc n) s _ h (bounded k) kept' (λ k v held. held)
        (λ j. Kept-IsRight ops json state _ _ _ _ _ _ kept' (s.readers j) (h.reading j))
    where
      bounded : (k j : ℕ) → next_generation k s.shared.generations j ≤ suc n
      bounded k j = elim (bumped ops json state k j n s.shared.generations (h.bounded j) few) [
        | inl (same, e) ↦ omega (arith, e, h.bounded j)
        | inr (others, e) ↦ omega (arith, e, h.bounded j)
      ]

  drop-Coherent :
      (n : ℕ) (key : Text) (ctx : Option ℕ) (s : System S)
      → Coherent ops json state n s
      → Coherent ops json state
          (suc n)
          (record s { shared = drop_key ops json state ctx key s.shared })
  unfolding drop_key
  drop-Coherent n key ctx s h =
      Coherent-Kept ops json state n (suc n) s _ h (λ k. omega (arith, h.bounded k))
        (Kept-tables ops json state _ _ _ _ refl)
        (λ k v. ops.delete_keeps (context_of ctx) key k v s.shared.store) h.reading

  Step-Coherent :
      (n : ℕ) (s t : System S)
      → suc n < 2 ^ 64
      → Coherent ops json state n s
      → Step ops json state s t
      → Coherent ops json state (suc n) t
  Step-Coherent n s t few h (look i sub ctx at) = look-Coherent n i sub s ctx h
  Step-Coherent n s t few h (leave i) =
      Coherent-put ops json state n s i idle s.shared h refl refl (λ k v held. held) tt
  Step-Coherent n s t few h (miss i sub g at) =
      Coherent-put ops json state n s i (loading sub g) s.shared h refl refl (λ k v held. held)
        (subst (IsRight ops json state s.shared.generations s.shared.world.tables s.pending) at
          (h.reading i))
  Step-Coherent n s t few h (load i sub g row w at valid e) =
      load-Coherent n i sub g row w s h at valid e
  Step-Coherent n s t few h (store i sub g p ctx c at e) =
      fill-Coherent ops json state n i sub g p ctx c s h at e
  Step-Coherent n s t few h (commit subs w writes) = commit-Coherent n subs w s h writes
  Step-Coherent n s t few h (invalidate_key sub before after e) =
      invalidate-Coherent n sub before after s h few e
  Step-Coherent n s t few h (drop key ctx) = drop-Coherent n key ctx s h

  Initial-Coherent : (s : System S) → IsInitial ops json state s → Coherent ops json state 0 s
  Initial-Coherent s h = record {
    bounded = λ k. rw (h.zeroed k) (omega arith);
    stored = λ sub g d p held readable. absurd (h.unheld _ d held);
    reading = λ i. rw (h.quiet i) tt;
  }

  -- Concurrent requests that load only emails of valid UTF-8, in fewer than 2^64 steps from a store
  -- that holds nothing, keep the invariant: what the store has under a key of the current generation
  -- of its shard, and what a reader is about to cache under it, is what the database says of the
  -- account, unless a commit of that account has not yet been followed by its invalidation.
  pub Reach-Coherent :
      (s : System S) (n : ℕ) (t : System S)
      → n < 2 ^ 64
      → IsInitial ops json state s
      → Reach ops json state s n t
      → Coherent ops json state n t
  Reach-Coherent s n t few h start = Initial-Coherent s h
  Reach-Coherent s n t few h (later r step) =
      Step-Coherent _ _ t few (Reach-Coherent s _ _ (omega (arith, few)) h r) step

  -- In a state that concurrent requests that load only emails of valid UTF-8 have reached, an
  -- account that a look-up under the first lock finds in the cache is what the database says at that
  -- moment, when no committed change of the account still waits to be invalidated.
  pub look_up_current :
      (s : System S) (n : ℕ) (t : System S) (ctx : Option ℕ) (sub g : ℕ) (p : Profile)
      (c : Shared S)
      → n < 2 ^ 64
      → IsInitial ops json state s
      → Reach ops json state s n t
      → ¬ In sub t.pending
      → look_up ops json state ctx (account_key sub) t.shared ≡ ((g, some p), c)
      → profile sub t.shared.world.tables ≡ some p
  look_up_current s n t ctx sub g p c few h r settled e =
      let (dated, here) = look_Dated n t sub g ctx p c (Reach-Coherent s n t few h r) e in
      elim (dated.current here) [ inl waits ↦ absurd (settled waits) | inr same ↦ same ]
