-- ===== src/Handlers/Outcome.antt =====
-- What a part of a handler leaves: a rule for each way to build one.
use mathlib.Core.Path.{subst}
use go_kickstart.Base.{◌≡◌, refl, Bool, true, false, if◌then◌else◌}
use go_kickstart.Database.{Error, Result, ok, err, World}
use go_kickstart.Handlers.{H, Step, go, stop, Reply, step_then, attempted}

module _ {ℓ} {A : Type ℓ} (Q : A → World → Type 0) (P : Reply → World → Type 0) where
  -- `Q` where the part goes on, and `P` where it ends the request.
  abbrev pub Outcome : Step A × World → Type 0
  Outcome (go a, w) = Q a w
  Outcome (stop reply, w) = P reply w

  pub Outcome-if :
      (b : Bool) (m k : H A) (w : World)
      → (b ≡ true → Outcome (m w))
      → (b ≡ false → Outcome (k w))
      → Outcome ((if b then m else k) w)
  Outcome-if true m k w x y = x refl
  Outcome-if false m k w x y = y refl

  pub Outcome-attempted {κ} :
      {B : Type κ} (r : Result B × World) (failed : Error → H A) (f : B → H A)
      → ((e : Error) (w : World) → r ≡ (err e, w) → Outcome (failed e w))
      → ((b : B) (w : World) → r ≡ (ok b, w) → Outcome (f b w))
      → Outcome (attempted r failed f)
  Outcome-attempted (ok b, w) failed f x y = y b w refl
  Outcome-attempted (err e, w) failed f x y = x e w refl

  pub Outcome-at :
      (r : Step A × World)
      → Outcome r
      → (reply : Reply) (w : World) → r ≡ (stop reply, w)
      → P reply w
  Outcome-at r x reply w h = subst Outcome h x

module _ {ℓ κ} {A : Type ℓ} {B : Type κ} (Q : A → World → Type 0) (Q' : B → World → Type 0)
    (P : Reply → World → Type 0) where
  pub Outcome-then :
      (r : Step A × World) (f : A → H B)
      → Outcome Q P r
      → ((a : A) (w : World) → Q a w → Outcome Q' P (f a w))
      → Outcome Q' P (step_then r f)
  Outcome-then (go a, w) f x k = k a w x
  Outcome-then (stop reply, w) f x k = x

module _ {ℓ} {A : Type ℓ} (Q Q' : A → World → Type 0) (P : Reply → World → Type 0) where
  pub Outcome-imp :
      (r : Step A × World) → ((a : A) (w : World) → Q a w → Q' a w) → Outcome Q P r → Outcome Q' P r
  Outcome-imp (go a, w) k x = k a w x
  Outcome-imp (stop reply, w) k x = x
