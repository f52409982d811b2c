-- ===== src/Cache.antt =====
-- cache/cache.go: the errors of a cache, and the contexts that its operations take.
use go_kickstart.Base.{ℕ, ◌≡◌, ◌⊎◌, Option, some, Text}

-- `context_error` is what `ctx.Err()` returned: cancellation or a deadline.
pub data CacheError : Type 0 where
  nil_context invalid_key not_found too_large is_closed : CacheError
  context_error : ℕ → CacheError

pub data Result {ℓ} (A : Type ℓ) : Type ℓ where
  ok : A → Result A
  err : CacheError → Result A

-- A context as an operation sees it: nil, alive, or ended with an error.
pub data Context : Type 0 where
  absent live : Context
  ended : ℕ → Context

-- `Store`, with what its clients may rely on: `Holds s k v` says that `s` may answer `v` for `k`. An
-- operation takes the time that `time.Now()` tells it, and `none` is a panic.
pub record CacheStore (S : Type 0) : Type 1 where
  pub set : Context → ℕ → Text → Text → S → Option (Result (Unit {0}) × S)
  pub get : Context → ℕ → Text → S → Result Text × S
  pub delete : Context → Text → S → Result (Unit {0}) × S
  pub Holds : S → Text → Text → Type 0
  pub get_found :
      (ctx : Context) (now : ℕ) (k v : Text) (s s' : S) → get ctx now k s ≡ (ok v, s') → Holds s k v
  pub get_keeps :
      (ctx : Context) (now : ℕ) (k j w : Text) (s : S) → Holds (get ctx now k s).1 j w → Holds s j w
  pub set_keeps :
      (ctx : Context) (now : ℕ) (k v j w : Text) (s s' : S) (r : Result (Unit {0}))
      → set ctx now k v s ≡ some (r, s')
      → Holds s' j w
      → Holds s j w ⊎ ((j ≡ k) × (w ≡ v))
  pub delete_keeps :
      (ctx : Context) (k j w : Text) (s : S) → Holds (delete ctx k s).1 j w → Holds s j w
