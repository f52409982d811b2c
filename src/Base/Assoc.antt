-- ===== src/Base/Assoc.antt =====
-- Go maps with string keys, as association lists.
use Prim.Native.Nat.{suc}
use mathlib.Core.Path.{◌≡◌, refl}
use mathlib.Core.Logic.{inl, inr}
use mathlib.Core.Option.{Option, none, some}
use mathlib.Core.List.{List, [], ◌∷◌}
use native.Mathlib.Omega.{arith}
use go_kickstart.Base.Tests.{if◌then◌else◌, Bool-cases}
use go_kickstart.Base.Lists.{length}
use go_kickstart.Base.Strings.{Text, str_eq, str_eq_iff}

module _ {ℓ} {V : Type ℓ} where
  -- `m[k]`
  unfoldable pub lookup : Text → List (Text × V) → Option V
  lookup k [] = none
  lookup k ((j, v) ∷ m) = if str_eq j k then some v else lookup k m

  -- `delete(m, k)`
  unfoldable pub without : Text → List (Text × V) → List (Text × V)
  without k [] = []
  without k ((j, v) ∷ m) = let rest = without k m in if str_eq j k then rest else (j, v) ∷ rest

  -- `m[k] = v`
  unfoldable pub assign : Text → V → List (Text × V) → List (Text × V)
  unfolding without
  assign k v m = (k, v) ∷ without k m

  -- No key stands twice.
  abbrev pub Distinct : List (Text × V) → Type ℓ
  Distinct [] = Unit
  Distinct ((k, v) ∷ m) = (lookup k m ≡ none) × Distinct m

  pub lookup-without :
      (k j : Text) (m : List (Text × V))
      → lookup j (without k m) ≡ (if str_eq k j then none else lookup j m)
  unfolding lookup without
  lookup-without k j [] = ground arith
  lookup-without k j ((i, v) ∷ m) =
      ground (arith, lookup-without k j m, str_eq_iff i k, str_eq_iff i j, str_eq_iff k j)

  pub lookup-assign :
      (k j : Text) (v : V) (m : List (Text × V))
      → lookup j (assign k v m) ≡ (if str_eq k j then some v else lookup j m)
  unfolding lookup assign
  lookup-assign k j v m = ground (arith, lookup-without k j m)

  pub without_absent : (k : Text) (m : List (Text × V)) → lookup k m ≡ none → without k m ≡ m
  unfolding lookup without
  without_absent k [] h = refl
  without_absent k ((j, v) ∷ m) h = ground (arith, without_absent k m)

  pub Distinct-without : (k : Text) (m : List (Text × V)) → Distinct m → Distinct (without k m)
  unfolding without
  Distinct-without k [] d = tt
  Distinct-without k ((j, v) ∷ m) d = elim (Bool-cases (str_eq j k)) [
    | inl e ↦ rw e (Distinct-without k m d.1)
    | inr e ↦ rw e (ground (arith, lookup-without k j m), Distinct-without k m d.1)
  ]

  pub length-without :
      (k : Text) (v : V) (m : List (Text × V))
      → Distinct m
      → lookup k m ≡ some v
      → suc (length (without k m)) ≡ length m
  unfolding lookup without
  length-without k v [] d h = cc
  length-without k v ((j, w) ∷ m) d h =
      ground (arith, length-without k v m d.1, without_absent k m, str_eq_iff j k)
