-- ===== src/Base/Lists.antt =====
-- Lists measured by native numbers, with Boolean tests in place of decisions.
use Prim.Native.Nat.{ℕ, zero, suc, ◌+◌}
use mathlib.Core.Path.{◌≡◌, refl, subst}
use mathlib.Core.Bool.{Bool, false, ◌||◌}
use mathlib.Core.Option.{Option, none, some}
use mathlib.Core.Logic.{◌⊎◌, inl, inr}
use mathlib.Core.List.{List, [], ◌∷◌, ◌++◌}
use native.Mathlib.Omega.{arith}
use go_kickstart.Base.Tests.{Bool-cases, if◌then◌else◌}

module _ {ℓ} {A : Type ℓ} where
  abbrev pub length : List A → ℕ
  length [] = 0
  length (x ∷ xs) = suc (length xs)

  abbrev pub drop : ℕ → List A → List A
  drop zero xs = xs
  drop (suc n) [] = []
  drop (suc n) (x ∷ xs) = drop n xs

  abbrev pub take : ℕ → List A → List A
  take zero xs = []
  take (suc n) [] = []
  take (suc n) (x ∷ xs) = x ∷ take n xs

  -- the first element that passes the test
  abbrev pub find : (A → Bool) → List A → Option A
  find p [] = none
  find p (x ∷ xs) = if p x then some x else find p xs

  -- the elements that fail the test
  abbrev pub remove_all : (A → Bool) → List A → List A
  remove_all p [] = []
  remove_all p (x ∷ xs) = let rest = remove_all p xs in if p x then rest else x ∷ rest

  abbrev pub any : (A → Bool) → List A → Bool
  any p [] = false
  any p (x ∷ xs) = p x || any p xs

  pub find-remove_all : (p : A → Bool) (xs : List A) → find p (remove_all p xs) ≡ none
  find-remove_all p [] = refl
  find-remove_all p (x ∷ xs) = elim (Bool-cases (p x)) [
    | inl h ↦ rw (h, find-remove_all p xs)
    | inr h ↦ rw (h, h, find-remove_all p xs)
  ]

  pub any-remove_all : (p : A → Bool) (xs : List A) → any p (remove_all p xs) ≡ false
  any-remove_all p [] = refl
  any-remove_all p (x ∷ xs) = elim (Bool-cases (p x)) [
    | inl h ↦ rw (h, any-remove_all p xs)
    | inr h ↦ rw (h, h, any-remove_all p xs)
  ]

  pub length-append : (xs ys : List A) → length (xs ++ ys) ≡ length xs + length ys
  length-append [] ys = omega arith
  length-append (x ∷ xs) ys = omega (arith, length-append xs ys)

-- A predicate of every element, by recursion.
abbrev pub All {ℓ κ} : {A : Type ℓ} → (A → Type κ) → List A → Type κ
All P [] = Unit
All P (x ∷ xs) = P x × All P xs

pub All-append {ℓ κ} :
    {A : Type ℓ} (P : A → Type κ) (xs ys : List A) → All P xs → All P ys → All P (xs ++ ys)
All-append P [] ys hx hy = hy
All-append P (x ∷ xs) ys hx hy = (hx.0, All-append P xs ys hx.1 hy)

pub All-imp {ℓ κ ι} :
    {A : Type ℓ} (P : A → Type κ) (Q : A → Type ι) (xs : List A)
    → ((x : A) → P x → Q x)
    → All P xs
    → All Q xs
All-imp P Q [] f h = tt
All-imp P Q (x ∷ xs) f h = (f x h.0, All-imp P Q xs f h.1)

-- The places of an element.
abbrev pub Member : {A : Type 0} → A → List A → Type 0
Member x [] = ⊥
Member x (y ∷ ys) = (y ≡ x) ⊎ Member x ys

pub All-find {ℓ κ} :
    {A : Type ℓ} (P : A → Type κ) (p : A → Bool) (xs : List A) (e : A)
    → All P xs
    → find p xs ≡ some e
    → P e
All-find P p [] e h f = cc
All-find P p (x ∷ xs) e h f = elim (Bool-cases (p x)) [
  | inl here ↦ subst P (cc (rw here at f)) h.0
  | inr there ↦ All-find P p xs e h.1 (rw there at f)
]
