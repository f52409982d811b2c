-- ===== src/Middleware/Gates.antt =====
-- What passes the middleware of middleware/authentication.go.
use go_kickstart.Base.{
  ℕ, zero, suc, ◌≡◌, ◌∙◌, ◌⊎◌, inl, inr, refl, sym, ap, Bool, true, false, not, ◌||◌, Option, none,
  some, [], if◌then◌else◌, find, Text, str_eq, parse_int, ℤ, pos, negsuc, is_pos,
}
use go_kickstart.Database.{
  Tables, Error, not_found, email_unavailable, invalid_token, expired_token, invalid_identity,
  failure, Result, ok, err, World, M, and_then, now, lift, raise, not_found_as,
}
use go_kickstart.Database.Queries.{has_sub, auth_id_of, select_account_auth_id}
use go_kickstart.Database.Sessions.{account_has_permission, permitted}
use go_kickstart.Database.Atomic.{tables-statement, tables-renamed}
use go_kickstart.Database.Laws.{tables-now, auth_id_of_ok, statement_ok, same_tables, same_value}
use go_kickstart.Auth.{
  Authenticator, Claims, Verified, accepted, refused, jwt_invalid, jwt_expired, jwt_other, subject,
  as_invalid_token, check_claims, verify,
}
use go_kickstart.Auth.Verify.{Current, verify-Current}
use go_kickstart.Handlers.{H, Step, stop, Reply, attempted}
use go_kickstart.Middleware.{
  Identity, identify, positive_sub, with_bearer, verify_failed, authenticate_bearer, bearer_token,
  require_permission,
}

module _ {ℓ κ} {A : Type ℓ} {B : Type κ} where
  tables-and_then :
      (t : Tables) (r : Result A × World) (f : A → M B)
      → r.1.tables ≡ t
      → ((a : A) (w : World) → w.tables ≡ t → (f a w).1.tables ≡ t)
      → (and_then r f).1.tables ≡ t
  tables-and_then t (ok a, w) f p k = k a w p
  tables-and_then t (err e, w) f p k = p

tables-if {ℓ} :
    {A : Type ℓ} (t : Tables) (b : Bool) (m k : M A) (w : World)
    → (m w).1.tables ≡ t
    → (k w).1.tables ≡ t
    → ((if b then m else k) w).1.tables ≡ t
tables-if t true m k w p q = p
tables-if t false m k w p q = q

tables-select_id :
    (e : Error) (sub : ℕ) (w : World)
    → (not_found_as e (select_account_auth_id sub) w).1.tables ≡ w.tables
unfolding select_account_auth_id
tables-select_id e sub w =
    ap (λ (v : World). v.tables) (tables-renamed e (select_account_auth_id sub w))
    ∙ tables-statement (λ t. auth_id_of (find (has_sub sub) t.accounts) t) w
        (λ x t' q. (auth_id_of_ok (find (has_sub sub) w.tables.accounts) w.tables t' x q).1)

tables-check_claims :
    (a : Authenticator) (v : Verified) (w : World) → (check_claims a v w).1.tables ≡ w.tables
unfolding check_claims
tables-check_claims a (refused jwt_invalid) w = refl
tables-check_claims a (refused jwt_expired) w = refl
tables-check_claims a (refused (jwt_other n)) w = refl
tables-check_claims a (accepted none) w = refl
tables-check_claims a (accepted (some c)) w =
    tables-if w.tables (str_eq c.auth_id [] || not (is_pos c.exp)) (raise invalid_token) _ w refl (
      tables-and_then w.tables (lift (as_invalid_token (subject (some c))) w) _ refl λ sub w₁ p.
        tables-and_then w.tables (not_found_as invalid_token (select_account_auth_id sub) w₁) _
          (tables-select_id invalid_token sub w₁ ∙ p)
          λ x w₂ q.
            tables-if w.tables (str_eq x c.auth_id) (λ w. (ok c, w)) (raise invalid_token) w₂ q q)

tables-verify : (a : Authenticator) (s : Text) (w : World) → (verify a s w).1.tables ≡ w.tables
unfolding verify
tables-verify a s w =
    tables-and_then w.tables (now w) _ (tables-now w)
      λ t w₁ p. tables-check_claims a (a.tokener.verify t s) w₁ ∙ p

-- The request ends here, or the handler runs for an identity with `P`, on the same tables.
pub data Gate (P : Identity → Type 0) (t : Tables) (next : Identity → H (Unit {0}))
    : Step (Unit {0}) × World → Type 0 where
  held :
      (reply : Reply) (w : World)
      → w.tables ≡ t
      → (reply.status ≡ 401) ⊎ ((reply.status ≡ 403) ⊎ (reply.status ≡ 500))
      → Gate P t next (stop reply, w)
  let_in :
      (identity : Identity) (w : World)
      → w.tables ≡ t
      → P identity
      → Gate P t next (next identity w)

module _ (P Q : Identity → Type 0) (t : Tables) (next next' : Identity → H (Unit {0})) where
  pub Gate-then :
      (r : Step (Unit {0}) × World)
      → Gate P t next r
      → ((identity : Identity) (w : World)
          → w.tables ≡ t
          → P identity
          → Gate Q t next' (next identity w))
      → Gate Q t next' r
  Gate-then _ (held reply w p s) k = held reply w p s
  Gate-then _ (let_in identity w p x) k = k identity w p x

-- An identity that was verified.
pub record IsVerified (a : Authenticator) (time : ℕ) (header : Text) (t : Tables)
    (identity : Identity) : Type 0 where
  pub token : Text
  pub given : bearer_token header ≡ some token
  pub current : Current (a.tokener.verify time token) identity.claims t
  pub named : parse_int identity.claims.sub ≡ some (pos identity.sub)

module _ (t : Tables) (next : Identity → H (Unit {0})) (P : Identity → Type 0) where
  failed-Gate : (e : Error) (w : World) → w.tables ≡ t → Gate P t next (verify_failed e w)
  unfolding verify_failed
  failed-Gate invalid_token w p = held _ w p (inl refl)
  failed-Gate expired_token w p = held _ w p (inl refl)
  failed-Gate not_found w p = held _ w p (inr (inr refl))
  failed-Gate email_unavailable w p = held _ w p (inr (inr refl))
  failed-Gate invalid_identity w p = held _ w p (inr (inr refl))
  failed-Gate (failure n) w p = held _ w p (inr (inr refl))

  named-Gate :
      (claims : Claims) (o : Option ℤ) (w : World)
      → w.tables ≡ t
      → ((n : ℕ) → o ≡ some (pos n) → P (record { claims = claims; sub = n }))
      → Gate P t next (positive_sub o (λ sub. next (record { claims = claims; sub = sub })) w)
  unfolding positive_sub
  named-Gate claims none w p k = held _ w p (inl refl)
  named-Gate claims (some (pos zero)) w p k = held _ w p (inl refl)
  named-Gate claims (some (pos (suc n))) w p k = let_in _ w p (k (suc n) refl)
  named-Gate claims (some (negsuc n)) w p k = held _ w p (inl refl)

  if-Gate :
      (b : Bool) (m k : H (Unit {0})) (w : World)
      → (b ≡ true → Gate P t next (m w))
      → (b ≡ false → Gate P t next (k w))
      → Gate P t next ((if b then m else k) w)
  if-Gate true m k w x y = x refl
  if-Gate false m k w x y = y refl

  attempted-Gate {ℓ} :
      {B : Type ℓ} (r : Result B × World) (failed : Error → H (Unit {0})) (f : B → H (Unit {0}))
      → ((e : Error) (w : World) → r ≡ (err e, w) → Gate P t next (failed e w))
      → ((b : B) (w : World) → r ≡ (ok b, w) → Gate P t next (f b w))
      → Gate P t next (attempted r failed f)
  attempted-Gate (ok b, w) failed f x y = y b w refl
  attempted-Gate (err e, w) failed f x y = x e w refl

  identify-Gate :
      (claims : Claims) (w : World)
      → w.tables ≡ t
      → ((n : ℕ) → parse_int claims.sub ≡ some (pos n) → P (record { claims = claims; sub = n }))
      → Gate P t next (identify claims next w)
  unfolding identify
  identify-Gate claims w p k =
      if-Gate (str_eq claims.sub []) _ _ w (λ _. held _ w p (inl refl))
        (λ _. named-Gate claims (parse_int claims.sub) w p k)

left_tables {ℓ} :
    {A : Type ℓ} (t : Tables) (r : Result A × World) (x : Result A) (w : World)
    → r.1.tables ≡ t
    → r ≡ (x, w)
    → w.tables ≡ t
left_tables t r x w p h = rw h at p

bearer-Gate :
    (a : Authenticator) (header : Text) (o : Option Text) (next : Identity → H (Unit {0}))
    (w : World)
    → bearer_token header ≡ o
    → Gate (IsVerified a w.clock header w.tables) w.tables next (with_bearer a o next w)
unfolding with_bearer
bearer-Gate a header none next w given = held _ w refl (inl refl)
bearer-Gate a header (some token) next w given =
    attempted-Gate w.tables next _ (verify a token w) _ _
      (λ e w' h.
        failed-Gate w.tables next _ e w' (left_tables w.tables _ _ w' (tables-verify a token w) h))
      λ claims w' h.
        identify-Gate w.tables next _ claims w'
          (left_tables w.tables _ _ w' (tables-verify a token w) h)
          λ n q. record {
            token = token;
            given = given;
            current = verify-Current a token w w' claims h;
            named = q;
          }

-- `AuthenticateBearer` either ends the request with a reply of status 401, 403 or 500 and leaves the
-- tables alone, or runs the handler on the same tables with an identity that was verified: the header
-- has a bearer token, `verify` accepts it for the claims of the identity, and their subject is its
-- account number.
pub authenticate_bearer-Gate :
    (a : Authenticator) (header : Text) (next : Identity → H (Unit {0})) (w : World)
    → Gate
        (IsVerified a w.clock header w.tables)
        w.tables
        next
        (authenticate_bearer a header next w)
unfolding authenticate_bearer
authenticate_bearer-Gate a header next w = bearer-Gate a header (bearer_token header) next w refl

permitted_here :
    (sub : ℕ) (permission : Text) (w w' : World) (b : Bool)
    → account_has_permission sub permission w ≡ (ok b, w')
    → (b ≡ permitted sub permission w.tables) × (w'.tables ≡ w.tables)
unfolding account_has_permission
permitted_here sub permission w w' b h =
    let q = statement_ok (λ t. ok (permitted sub permission t, t)) b w w' h in
    (sym (ap (λ (p : Bool × Tables). p.0) (same_value q)), sym (same_tables q))

tables-account_has_permission :
    (sub : ℕ) (permission : Text) (w : World)
    → (account_has_permission sub permission w).1.tables ≡ w.tables
unfolding account_has_permission
tables-account_has_permission sub permission w =
    tables-statement (λ t. ok (permitted sub permission t, t)) w (λ b t' q. sym (same_tables q))

-- `RequirePermission`, on an identity in the context, either ends the request with a reply of status
-- 401, 403 or 500 and leaves the tables alone, or runs the handler on the same tables with this
-- identity, whose account has a role with the permission.
pub require_permission-Gate :
    (permission : Text) (next : Identity → H (Unit {0})) (identity : Identity) (w : World)
    → Gate
        (λ i. (i ≡ identity) × (permitted i.sub permission w.tables ≡ true))
        w.tables
        next
        (require_permission permission next (some identity) w)
unfolding require_permission
require_permission-Gate permission next identity w =
    attempted-Gate w.tables next _ (account_has_permission identity.sub permission w) _ _
      (λ e w' h.
        held _ w'
          (left_tables w.tables _ _ w' (tables-account_has_permission identity.sub permission w) h)
          (inr (inr refl)))
      λ b w' h.
        let (same, kept) = permitted_here identity.sub permission w w' b h in
        if-Gate w.tables next _ b _ _ w' (λ yes. let_in identity w' kept (refl, sym same ∙ yes))
          (λ _. held _ w' kept (inr (inl refl)))
