-- ===== src/Database/Ensures.antt =====
-- Postconditions of calls that succeed, with a rule for each way to build a call.
use mathlib.Core.Path.{subst, subst₂}
use go_kickstart.Base.{◌≡◌, refl, sym, ap, Bool, true, false, if◌then◌else◌}
use go_kickstart.Database.{
  Tables, Error, Result, ok, err, World, M, and_then, statement, with_tx, renamed,
}
use go_kickstart.Database.Laws.{statement_ok, with_tx_ok, renamed_ok}

-- If `r` succeeded, its value and the world after it satisfy `P`.
pub record Ensures {ℓ κ} {A : Type ℓ} (P : A → World → Type κ) (r : Result A × World)
    : Type (ℓ ⊔ κ) where
  pub at : (a : A) (w : World) → r ≡ (ok a, w) → P a w

module _ {ℓ κ} {A : Type ℓ} (P : A → World → Type κ) where
  pub Ensures-ok : (a : A) (w : World) → P a w → Ensures P (ok a, w)
  Ensures-ok a w p = record {
    at = λ b w' h.
        subst₂ P (cc (ap (λ (r : Result A × World). r.0) h)) (ap (λ (r : Result A × World). r.1) h)
          p;
  }

  pub Ensures-err : (e : Error) (w : World) → Ensures P (err e, w)
  Ensures-err e w = record { at = λ b w' h. absurd (impossible h) }
    where
      impossible : {b : A} {w' : World} → ¬ (◌≡◌ {A = Result A × World} (err e, w) (ok b, w'))
      impossible h = cc

  pub Ensures-if :
      (b : Bool) (m k : M A) (w : World)
      → (b ≡ true → Ensures P (m w))
      → (b ≡ false → Ensures P (k w))
      → Ensures P ((if b then m else k) w)
  Ensures-if true m k w hm hk = hm refl
  Ensures-if false m k w hm hk = hk refl

module _ {ℓ κ μ ν} {A : Type ℓ} {B : Type κ} (Q : A → World → Type μ) (P : B → World → Type ν) where
  pub Ensures-bind :
      (r : Result A × World) (f : A → M B)
      → Ensures Q r
      → ((a : A) (w : World) → Q a w → Ensures P (f a w))
      → Ensures P (and_then r f)
  Ensures-bind (ok a, w) f q k = k a w (q.at a w refl)
  Ensures-bind (err e, w) f q k = Ensures-err P e w

module _ {ℓ μ ν} {A : Type ℓ} (Q : A → World → Type μ) (P : A → World → Type ν) where
  pub Ensures-imp :
      (r : Result A × World)
      → Ensures Q r
      → ((a : A) (w : World) → Q a w → Ensures P (ok a, w))
      → Ensures P r
  Ensures-imp (ok a, w) q k = k a w (q.at a w refl)
  Ensures-imp (err e, w) q k = Ensures-err P e w

module _ {ℓ} {A : Type ℓ} where
  -- A call that reads.
  pub Ensures-reads :
      (t : Tables) (r : Result A × World) → r.1.tables ≡ t → Ensures (λ _ w. w.tables ≡ t) r
  Ensures-reads t r p = record { at = λ a w h. rw h at p }

  pub Ensures-statement :
      (f : Tables → Result (A × Tables)) (w : World)
      → Ensures (λ a w'. f w.tables ≡ ok (a, w'.tables)) (statement f w)
  Ensures-statement f w = record { at = λ a w' h. statement_ok f a w w' h }

  pub Ensures-renamed {κ} :
      (P : A → World → Type κ) (e : Error) (r : Result A × World)
      → Ensures P r
      → Ensures P (renamed e r)
  Ensures-renamed P e r p = record { at = λ a w h. p.at a w (renamed_ok e r a w h) }

  pub Ensures-tx {κ} :
      (P : A → Tables → Type κ) (body : M A) (w : World)
      → ((v : World) → v.tables ≡ w.tables → Ensures (λ a w'. P a w'.tables) (body v))
      → Ensures (λ a w'. P a w'.tables) (with_tx body w)
  Ensures-tx P body w k = record {
    at = λ a w' h.
        let c = with_tx_ok body a w w' h in
        subst (P a) (sym c.final) ((k c.begun c.start).at a c.ended c.ran);
  }

  -- The same, where the body starts at the same time.
  pub Ensures-tx_clock {κ} :
      (P : A → Tables → Type κ) (body : M A) (w : World)
      → ((v : World)
          → v.tables ≡ w.tables
          → v.clock ≡ w.clock
          → Ensures (λ a w'. P a w'.tables) (body v))
      → Ensures (λ a w'. P a w'.tables) (with_tx body w)
  Ensures-tx_clock P body w k = record {
    at = λ a w' h.
        let c = with_tx_ok body a w w' h in
        subst (P a) (sym c.final) ((k c.begun c.start c.clock).at a c.ended c.ran);
  }
