-- ===== src/Database/Atomic.antt =====
-- Calls that change nothing when they fail, with a rule for each way to build one.
use go_kickstart.Base.{◌≡◌, refl, sym, ap, ◌∙◌, Bool, true, false, if◌then◌else◌}
use go_kickstart.Database.{
  Tables, Error, not_found, email_unavailable, invalid_token, expired_token, invalid_identity,
  failure, Result, ok, err, World, M, and_then, commit_rows, statement, engine, with_tx, renamed,
}
use go_kickstart.Database.Laws.{with_tx_err, tables-engine}

-- If `r` failed, the tables are still `t`.
pub record Atomic {ℓ} {A : Type ℓ} (t : Tables) (r : Result A × World) : Type ℓ where
  pub at : (e : Error) (w : World) → r ≡ (err e, w) → w.tables ≡ t

module _ {ℓ} {A : Type ℓ} (t : Tables) where
  pub Atomic-ok : (a : A) (w : World) → Atomic t (ok a, w)
  Atomic-ok a w = record { at = λ e w' h. absurd (impossible h) }
    where
      impossible : {e : Error} {w' : World} → ¬ (◌≡◌ {A = Result A × World} (ok a, w) (err e, w'))
      impossible h = cc

  -- A call that leaves the tables alone in every case.
  pub Atomic-reads : (r : Result A × World) → r.1.tables ≡ t → Atomic t r
  Atomic-reads r p = record { at = λ e w h. rw h at p }

  pub Atomic-if :
      (b : Bool) (m k : M A) (w : World)
      → (b ≡ true → Atomic t (m w))
      → (b ≡ false → Atomic t (k w))
      → Atomic t ((if b then m else k) w)
  Atomic-if true m k w hm hk = hm refl
  Atomic-if false m k w hm hk = hk refl

  pub Atomic-tx : (body : M A) (w : World) → w.tables ≡ t → Atomic t (with_tx body w)
  Atomic-tx body w p = record { at = λ e w' h. with_tx_err body e w w' h ∙ p }

module _ {ℓ κ} {A : Type ℓ} {B : Type κ} (t : Tables) where
  -- A call that leaves the tables alone, and then one that is atomic.
  pub Atomic-bind :
      (r : Result A × World) (f : A → M B)
      → r.1.tables ≡ t
      → ((a : A) (w : World) → w.tables ≡ t → Atomic t (f a w))
      → Atomic t (and_then r f)
  Atomic-bind (ok a, w) f p k = k a w p
  Atomic-bind (err e, w) f p k = Atomic-reads t (err e, w) p

module _ {ℓ} {A : Type ℓ} where
  pub tables-renamed : (e : Error) (r : Result A × World) → (renamed e r).1 ≡ r.1
  tables-renamed e (ok x, w) = refl
  tables-renamed e (err not_found, w) = refl
  tables-renamed e (err email_unavailable, w) = refl
  tables-renamed e (err invalid_token, w) = refl
  tables-renamed e (err expired_token, w) = refl
  tables-renamed e (err invalid_identity, w) = refl
  tables-renamed e (err (failure n), w) = refl

  -- A query that returns the tables as they are.
  tables-commit_rows :
      (t : Tables) (r : Result (A × Tables)) (w : World)
      → w.tables ≡ t
      → ((a : A) (t' : Tables) → r ≡ ok (a, t') → t' ≡ t)
      → (commit_rows r w).1.tables ≡ t
  tables-commit_rows t (ok (a, t')) w p k = k a t' refl
  tables-commit_rows t (err e) w p k = p

  after_engine :
      (f : Tables → Result (A × Tables)) (t : Tables) (r : Result (Unit {0}) × World)
      → r.1.tables ≡ t
      → ((a : A) (t' : Tables) → f t ≡ ok (a, t') → t' ≡ t)
      → (and_then r (λ _ w. commit_rows (f w.tables) w)).1.tables ≡ t
  after_engine f t (ok u, w) p k =
      tables-commit_rows t (f w.tables) w p (λ a t' h. k a t' (ap f (sym p) ∙ h))
  after_engine f t (err e, w) p k = p

  pub tables-statement :
      (f : Tables → Result (A × Tables)) (w : World)
      → ((a : A) (t' : Tables) → f w.tables ≡ ok (a, t') → t' ≡ w.tables)
      → (statement f w).1.tables ≡ w.tables
  unfolding statement
  tables-statement f w k = after_engine f w.tables (engine w) (tables-engine w) k
