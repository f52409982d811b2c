-- ===== src/Cached/Calls.antt =====
-- The calls of `cached.Database`, one after another, in a state that concurrent requests have reached.
use mathlib.Core.Path.{subst}
use go_kickstart.Base.{
  ℕ, suc, ◌+◌, ◌^◌, ◌<◌, ◌≡◌, ◌∙◌, refl, sym, ap, true, Option, none, some, List, [], ◌∷◌, arith,
  Text,
}
use go_kickstart.Cache.{CacheStore}
use go_kickstart.Database.{Result, ok, err, World, M, with_tx}
use go_kickstart.Database.Queries.{update_email, update_account_email, delete_rows, delete_account}
use go_kickstart.Database.Laws.{statement_ok}
use go_kickstart.Cached.{
  Profile, profile, Json, CacheState, account_key, Shared, invalidate, run_on, invalidated,
  committed, cached_select_account_by_sub, cached_update_account_email, cached_delete_account,
  cached_with_tx,
}
use go_kickstart.Cached.Interleaving.{In, Writes, System, IsInitial, Reach}
use go_kickstart.Cached.Writes.{
  update_email-Writes, update_email-profile, delete_rows-profile, delete_rows-Writes,
}
use go_kickstart.Cached.Reads.{steps_after, account_keys, read_after}

module _ {S : Type 0} (ops : CacheStore S) (json : Json) (state : CacheState) where
  -- After `WithTx` has returned without an error, in a state that concurrent requests that load only
  -- emails of valid UTF-8 have reached in fewer steps than the generations can count, a read through
  -- the cache of an account no other change of which waits returns an error or what the database
  -- says of the account, when the transaction changed no accounts but those whose keys its calls
  -- asked to invalidate.
  pub cached_with_tx_current :
      {A : Type 0} (s : System S) (n : ℕ) (t : System S) (subs : List ℕ) (body : M (A × List Text))
      (order : List Text → List Text) (ctx at_look at_check at_fill : Option ℕ) (sub : ℕ) (a : A)
      (keys : List Text) (w : World) (p : Profile) (c d : Shared S)
      → steps_after (suc n) subs < 2 ^ 64
      → IsInitial ops json state s
      → Reach ops json state s n t
      → with_tx body t.shared.world ≡ (ok (a, keys), w)
      → Writes subs t.shared.world.tables w.tables
      → order keys ≡ account_keys subs
      → ¬ In sub t.pending
      → cached_with_tx ops json state ctx order body t.shared ≡ (ok a, c)
      → cached_select_account_by_sub ops json state true at_look at_check at_fill sub c
        ≡ some (ok p, d)
      → profile sub w.tables ≡ some p
  unfolding cached_with_tx
  cached_with_tx_current {A = A} s n t subs body order ctx at_look at_check at_fill sub a keys w p c
        d few h r ran writes ordered settled e read =
      read_after ops json state ctx subs w s n t at_look at_check at_fill sub p d few h r writes
        settled
        (subst
          (λ c.
            cached_select_account_by_sub ops json state true at_look at_check at_fill sub c
            ≡ some (ok p, d))
          (sym (ap (λ o. o.1) after)) read)
    where
      done_with : (res : Result (A × List Text) × World) → Result A × Shared S
      done_with res = committed ops json state ctx order (res.0, record t.shared { world = res.1 })

      after :
          ◌≡◌ {A = Result A × Shared S}
            (
              ok a,
              invalidate ops json state ctx (account_keys subs) (record t.shared { world = w }),
            )
            (ok a, c)
      after =
          ap (λ keys. (ok a, invalidate ops json state ctx keys (record t.shared { world = w })))
            (sym ordered)
          ∙ sym (ap done_with ran)
          ∙ e

  -- A write by itself that succeeded is a call of the database and an invalidation.
  invalidated_ok :
      (call : M (Unit {0})) (sub : ℕ) (ctx : Option ℕ) (c d : Shared S)
      → invalidated ops json state ctx sub (run_on ops json state call c) ≡ (ok tt, d)
      → (w : World) × ((call c.world ≡ (ok tt, w))
          × (d ≡ invalidate ops json state ctx (account_key sub ∷ []) (record c { world = w })))
  invalidated_ok call sub ctx c d e = split (call c.world) refl e
    where
      split :
          (res : Result (Unit {0}) × World)
          → call c.world ≡ res
          → invalidated ops json state ctx sub (res.0, record c { world = res.1 }) ≡ (ok tt, d)
          → (w : World) × ((call c.world ≡ (ok tt, w))
              × (d ≡ invalidate ops json state ctx (account_key sub ∷ []) (record c { world = w })))
      split (err e', w) q e = cc
      split (ok u, w) q e = (w, (q, sym (ap (λ o. o.1) e)))

  -- A read through the cache that follows an email change which has succeeded, in a state that
  -- concurrent requests that load only emails of valid UTF-8 have reached, returns the new email or
  -- an error, when no other change of the account still waits to be invalidated.
  pub cached_update_account_email-read :
      (s : System S) (n : ℕ) (t : System S) (sub : ℕ) (email : Text)
      (ctx at_look at_check at_fill : Option ℕ) (p : Profile) (c d : Shared S)
      → n + 3 < 2 ^ 64
      → IsInitial ops json state s
      → Reach ops json state s n t
      → ¬ In sub t.pending
      → cached_update_account_email ops json state ctx sub email t.shared ≡ (ok tt, c)
      → cached_select_account_by_sub ops json state true at_look at_check at_fill sub c
        ≡ some (ok p, d)
      → p.email ≡ email
  unfolding cached_update_account_email update_account_email
  cached_update_account_email-read s n t sub email ctx at_look at_check at_fill p c d few h r
        settled e read =
      let (w, (ran, is)) = invalidated_ok (update_account_email sub email) sub ctx t.shared c e in
      let written = statement_ok (update_email sub email) tt t.shared.world w ran in
      update_email-profile sub email t.shared.world.tables w.tables p written (
        read_after ops json state ctx (sub ∷ []) w s n t at_look at_check at_fill sub p d
          (omega (arith, few)) h r (update_email-Writes sub email _ _ written) settled
          (subst
            (λ c.
              cached_select_account_by_sub ops json state true at_look at_check at_fill sub c
              ≡ some (ok p, d))
            is read))

  -- A read through the cache that follows the deletion of an account, in a state that concurrent
  -- requests that load only emails of valid UTF-8 have reached, never returns the account, when no
  -- other change of it still waits to be invalidated.
  pub cached_delete_account-read :
      (s : System S) (n : ℕ) (t : System S) (sub : ℕ) (ctx at_look at_check at_fill : Option ℕ)
      (p : Profile) (c d : Shared S)
      → n + 3 < 2 ^ 64
      → IsInitial ops json state s
      → Reach ops json state s n t
      → ¬ In sub t.pending
      → cached_delete_account ops json state ctx sub t.shared ≡ (ok tt, c)
      → ¬ (
          cached_select_account_by_sub ops json state true at_look at_check at_fill sub c
          ≡ some (ok p, d))
  unfolding cached_delete_account delete_account
  cached_delete_account-read s n t sub ctx at_look at_check at_fill p c d few h r settled e read =
      let (w, (ran, is)) = invalidated_ok (delete_account sub) sub ctx t.shared c e in
      let written = statement_ok (delete_rows sub) tt t.shared.world w ran in
      let seen =
        read_after ops json state ctx (sub ∷ []) w s n t at_look at_check at_fill sub p d
          (omega (arith, few)) h r (delete_rows-Writes sub _ _ written) settled
          (subst
            (λ c.
              cached_select_account_by_sub ops json state true at_look at_check at_fill sub c
              ≡ some (ok p, d))
            is read) in
      none_seen (sym (delete_rows-profile sub _ _ written) ∙ seen)
    where
      none_seen : ¬ (◌≡◌ {A = Option Profile} none (some p))
      none_seen e = cc
