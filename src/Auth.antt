-- ===== src/Auth.antt =====
-- auth/authenticator.go and auth/claims.go. The JWT library and SHA-256 are parameters: `Tokener`,
-- and `hash` for `hashRefreshToken`. `secrets.RandStr` and `database.NewAuthID` read the world's
-- random source.
pub mod Rotation
pub mod Refresh
pub mod Verify
pub mod Revocation
pub mod Atomic
pub mod Tests
use go_kickstart.Base.{
  ℕ, zero, suc, ◌+◌, ◌/◌, Bool, true, false, not, ◌&&◌, ◌||◌, Option, none, some, List, [], ◌∷◌,
  ltb, leb, ◌==◌, if◌then◌else◌, Text, str_eq, trim_space, parse_int, format_int, ℤ, pos, negsuc,
  is_pos, pos_part, leb_ℤ,
}
use go_kickstart.Database.{
  RefreshToken, Error, not_found, invalid_token, expired_token, invalid_identity, failure, Result,
  ok, err, World, M, pure, raise, lift, ◌>>=◌, ◌>>◌, second, now, unix_now, random_text,
  new_auth_id, with_tx, not_found_as,
}
use go_kickstart.Database.Queries.{
  select_account_auth_id, lock_account_auth_id, set_account_auth_id,
}
use go_kickstart.Database.Sessions.{
  insert_refresh_token, select_refresh_token_by_hash, consume_refresh_token_by_hash,
  delete_refresh_token_by_hash, delete_refresh_tokens_by_sub, select_account_roles_by_sub,
}

pub record Claims : Type 0 where
  pub auth_id : Text
  pub sub : Text
  pub roles : List Text
  pub exp : ℤ

-- The methods of `*Claims`; `none` is the nil pointer.
unfoldable pub expires_at : Option Claims → ℤ
expires_at none = pos 0
expires_at (some c) = c.exp

unfoldable pub set_expires_at : ℤ → Option Claims → Option Claims
set_expires_at exp none = none
set_expires_at exp (some c) = some (record c { exp = exp })

unfoldable pub subject_text : Option Claims → Text
subject_text none = []
subject_text (some c) = c.sub

-- `goauth.Token`
pub record Token : Type 0 where
  pub value : Text
  pub expires_at : ℤ

pub data JwtError : Type 0 where
  jwt_invalid jwt_expired : JwtError
  jwt_other : ℕ → JwtError

pub data Verified : Type 0 where
  accepted : Option Claims → Verified
  refused : JwtError → Verified

-- `jwt.Tokener`: signing at a time sets the claims' expiry and gives the token, or fails.
pub record Tokener : Type 0 where
  pub sign : ℕ → Claims → Result (Text × Claims)
  pub verify : ℕ → Text → Verified

-- `Authenticator`, with the hash of refresh tokens; `refresh_ttl` is in nanoseconds.
pub record Authenticator : Type 0 where
  pub tokener : Tokener
  pub hash : Text → Text
  pub refresh_ttl : ℕ

-- `jwt.NewHS256Tokener` is the argument `make`.
unfoldable pub new_authenticator :
    (Text → ℤ → Result Tokener) → (Text → Text) → Bool → Text → ℤ → ℤ → Result Authenticator
new_authenticator make hash has_database secret access_ttl refresh_ttl =
    let short = not (leb_ℤ (pos second) access_ttl) || not (leb_ℤ (pos second) refresh_ttl) in
    if not has_database
    then err (failure 0)
    else if short
    then err (failure 0)
    else elim (make secret access_ttl) [
      | ok t ↦ ok (record { tokener = t; hash = hash; refresh_ttl = pos_part refresh_ttl })
      | err e ↦ err e
    ]

positive : Option ℤ → Result ℕ
positive none = err invalid_identity
positive (some (pos zero)) = err invalid_identity
positive (some (pos (suc n))) = ok (suc n)
positive (some (negsuc n)) = err invalid_identity

-- The account number of an identity.
unfoldable pub subject : Option Claims → Result ℕ
unfolding positive subject_text
subject identity =
    if str_eq (trim_space (subject_text identity)) []
    then err invalid_identity
    else positive (parse_int (subject_text identity))

-- `expiresAt != 0 && time.Now().UTC().Unix() >= expiresAt`: the clock is read for a token with an
-- expiry only.
unfoldable pub expired_now : ℕ → M Bool
expired_now expiry =
    if expiry == 0 then pure false else (do time ← unix_now; pure (leb expiry time))

-- Any error of `subject` is an invalid token to `Verify`.
abbrev pub as_invalid_token {ℓ} : {A : Type ℓ} → Result A → Result A
as_invalid_token (ok x) = ok x
as_invalid_token (err e) = err invalid_token

-- `if IsErrNotFound(err) { return nil }`, or the rest.
abbrev pub if_present {ℓ} :
    {A : Type ℓ} → Result A × World → M (Unit {0}) → Result (Unit {0}) × World
if_present (ok x, w) m = m w
if_present (err not_found, w) m = (ok tt, w)
if_present (err e, w) m = (err e, w)

module _ (a : Authenticator) where
  pub sign_at : Claims → M (Text × Claims)
  sign_at claims = do t ← now; lift (a.tokener.sign t claims)

  -- `if a.refreshTTL > 0 { … }`
  pub refresh_expiry : M ℕ
  refresh_expiry =
      if ltb 0 a.refresh_ttl then (do t ← now; pure ((t + a.refresh_ttl) / second)) else pure 0

  unfoldable pub sign_session : ℕ → Text → M (Token × Token)
  unfolding sign_at refresh_expiry
  sign_session sub auth_id = do
    roles ← select_account_roles_by_sub sub
    (access_token, claims) ←
        sign_at (record { auth_id = auth_id; sub = format_int sub; roles = roles; exp = pos 0 })
    refresh_token ← random_text
    refresh_expires_at ← refresh_expiry
    insert_refresh_token (a.hash refresh_token) sub auth_id refresh_expires_at
    pure (
      record { value = access_token; expires_at = claims.exp },
      record { value = refresh_token; expires_at = pos refresh_expires_at },
    )

  unfoldable pub issue_locked : ℕ → M (Token × Token)
  issue_locked sub = do
    auth_id ← not_found_as invalid_identity (lock_account_auth_id sub)
    if str_eq auth_id [] then raise invalid_identity else sign_session sub auth_id

  unfoldable pub issue : Option Claims → M (Token × Token)
  issue identity = do sub ← lift (subject identity); with_tx (issue_locked sub)

  -- The body of the transaction of `Refresh`, with the row that was read before it.
  unfoldable pub rotate : Text → RefreshToken → M (Token × Token)
  rotate token_hash saved = do
    auth_id ← not_found_as invalid_token (lock_account_auth_id saved.sub)
    if str_eq auth_id [] || not (str_eq saved.auth_id auth_id) then raise invalid_token else do
      consumed ← not_found_as invalid_token (consume_refresh_token_by_hash token_hash)
      if not (consumed.sub == saved.sub) || not (str_eq consumed.auth_id auth_id)
          then raise invalid_token
          else do
            late ← expired_now consumed.expires_at
            if late then raise expired_token else sign_session saved.sub auth_id

  unfoldable pub refresh : Text → M (Token × Token)
  refresh refresh_token =
      let token = trim_space refresh_token in
      if str_eq token [] then raise invalid_token else do
        saved ← not_found_as invalid_token (select_refresh_token_by_hash (a.hash token))
        late ← expired_now saved.expires_at
        if late then raise expired_token else with_tx (rotate (a.hash token) saved)

  -- The claims of a verified token are checked against the account.
  unfoldable pub check_claims : Verified → M Claims
  check_claims (refused jwt_invalid) = raise invalid_token
  check_claims (refused jwt_expired) = raise expired_token
  check_claims (refused (jwt_other n)) = raise (failure n)
  check_claims (accepted none) = raise invalid_token
  check_claims (accepted (some claims)) =
      if str_eq claims.auth_id [] || not (is_pos claims.exp) then raise invalid_token else do
        sub ← lift (as_invalid_token (subject (some claims)))
        auth_id ← not_found_as invalid_token (select_account_auth_id sub)
        if str_eq auth_id claims.auth_id then pure claims else raise invalid_token

  unfoldable pub verify : Text → M Claims
  verify access_token = do t ← now; check_claims (a.tokener.verify t access_token)

  unfoldable pub revoke : Text → M (Unit {0})
  revoke refresh_token =
      let token = trim_space refresh_token in
      if str_eq token [] then raise invalid_token else delete_refresh_token_by_hash (a.hash token)

-- The transaction of `RevokeAll`: an account that is gone has nothing to revoke.
unfoldable pub revoke_locked : ℕ → Text → M (Unit {0})
revoke_locked sub auth_id w =
    if_present (lock_account_auth_id sub w)
      (do set_account_auth_id sub auth_id; delete_refresh_tokens_by_sub sub)

unfoldable pub revoke_all : Option Claims → M (Unit {0})
revoke_all identity = do
  sub ← lift (subject identity)
  auth_id ← new_auth_id
  with_tx (revoke_locked sub auth_id)
