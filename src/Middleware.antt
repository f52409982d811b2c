-- ===== src/Middleware.antt =====
-- middleware/authentication.go: the gates before a handler.
pub mod Gates
use go_kickstart.Base.{
  ℕ, zero, suc, ◌+◌, Bool, true, false, not, ◌&&◌, ◌||◌, Option, none, some, List, [], ◌∷◌, leb,
  ◌==◌, if◌then◌else◌, map, Text, txt, str_eq, trim_space, space_at, drop, length, ◌-◌, parse_int,
  ℤ, pos, negsuc,
}
use go_kickstart.Database.{
  Error, not_found, email_unavailable, invalid_token, expired_token, invalid_identity, failure,
  Result, World,
}
use go_kickstart.Database.Sessions.{account_has_permission}
use go_kickstart.Auth.{Authenticator, Claims, verify, subject_text}
use go_kickstart.Handlers.{H, write_status, attempt, ◌>>=◌, go_on}

pub record Identity : Type 0 where
  pub claims : Claims
  pub sub : ℕ

-- `strings.Fields`: the runs of bytes between spaces.
word_then : Text → List Text → List Text
word_then [] rest = rest
word_then (c ∷ s) rest = (c ∷ s) ∷ rest

-- The word that `s` starts with, and the words after it. A space has a width in bytes.
split_fields : ℕ → Text → Text × List Text
split_fields zero s = ([], [])
split_fields (suc fuel) [] = ([], [])
split_fields (suc fuel) (c ∷ s) =
    let width = space_at (c ∷ s) in
    let (word, rest) = split_fields fuel (drop (width - 1) s) in
    if width == 0 then (c ∷ word, rest) else ([], word_then word rest)

unfoldable pub fields : Text → List Text
unfolding split_fields word_then
fields s = let (word, rest) = split_fields (length s) s in word_then word rest

lower : ℕ → ℕ
lower c = if leb 65 c && leb c 90 then c + 32 else c

-- `strings.EqualFold` with a text of ASCII letters other than k and s.
unfoldable pub equal_fold : Text → Text → Bool
unfolding lower
equal_fold s t = str_eq (map lower s) (map lower t)

-- The token of an Authorization header.
bearer_of : List Text → Option Text
unfolding equal_fold
bearer_of [] = none
bearer_of (scheme ∷ []) = none
bearer_of (scheme ∷ token ∷ []) =
    if not (equal_fold scheme (txt "Bearer")) || str_eq token [] then none else some token
bearer_of (scheme ∷ token ∷ _ ∷ _) = none

unfoldable pub bearer_token : Text → Option Text
unfolding bearer_of fields
bearer_token header = bearer_of (fields (trim_space header))

verify_failed {ℓ} : {A : Type ℓ} → Error → H A
verify_failed invalid_token = write_status 401 (txt "err.verify_bearer")
verify_failed expired_token = write_status 401 (txt "err.verify_bearer")
verify_failed not_found = write_status 500 (txt "err.verify_bearer")
verify_failed email_unavailable = write_status 500 (txt "err.verify_bearer")
verify_failed invalid_identity = write_status 500 (txt "err.verify_bearer")
verify_failed (failure n) = write_status 500 (txt "err.verify_bearer")

-- `err != nil || sub <= 0`
positive_sub {ℓ} : {A : Type ℓ} → Option ℤ → (ℕ → H A) → H A
positive_sub none next = write_status 401 (txt "err.invalid_subject")
positive_sub (some (pos zero)) next = write_status 401 (txt "err.invalid_subject")
positive_sub (some (pos (suc n))) next = next (suc n)
positive_sub (some (negsuc n)) next = write_status 401 (txt "err.invalid_subject")

-- What follows once the claims are verified.
unfoldable pub identify {ℓ} : {A : Type ℓ} → Claims → (Identity → H A) → H A
unfolding positive_sub
identify claims next =
    if str_eq claims.sub []
    then write_status 401 (txt "err.missing_identity")
    else positive_sub (parse_int claims.sub) (λ sub. next (record { claims = claims; sub = sub }))

with_bearer {ℓ} : {A : Type ℓ} → Authenticator → Option Text → (Identity → H A) → H A
unfolding identify verify_failed
with_bearer a none next = write_status 401 (txt "err.missing_bearer")
with_bearer a (some token) next =
    attempt (verify a token) verify_failed (λ claims. identify claims next)

-- `AuthenticateBearer`, on the Authorization header.
unfoldable pub authenticate_bearer {ℓ} :
    {A : Type ℓ} → Authenticator → Text → (Identity → H A) → H A
unfolding with_bearer bearer_token
authenticate_bearer a header next = with_bearer a (bearer_token header) next

-- `RequirePermission`, on the identity in the request's context.
unfoldable pub require_permission {ℓ} :
    {A : Type ℓ} → Text → (Identity → H A) → Option Identity → H A
require_permission permission next none = write_status 401 (txt "err.missing_identity")
require_permission permission next (some identity) =
    attempt (account_has_permission identity.sub permission)
      (λ _. write_status 500 (txt "err.check_role_permission"))
      λ allowed. if allowed then next identity else write_status 403 (txt "err.permission_denied")
