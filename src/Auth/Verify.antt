-- ===== src/Auth/Verify.antt =====
-- `Verify` of auth/authenticator.go: which access tokens are accepted.
use mathlib.Core.Path.{subst₂}
use go_kickstart.Base.{
  ◌≡◌, refl, true, false, ◌||◌, not, none, some, Text, ℕ, find, str_eq, str_eq_iff, [], arith,
  is_pos,
}
use go_kickstart.Database.{
  Tables, Error, invalid_token, expired_token, failure, Result, err, ok, World, lift, not_found_as,
  now,
}
use go_kickstart.Database.Queries.{has_sub, auth_id_of, select_account_auth_id}
use go_kickstart.Database.Ensures.{
  Ensures, Ensures-ok, Ensures-err, Ensures-if, Ensures-bind, Ensures-statement, Ensures-renamed,
  Ensures-imp,
}
use go_kickstart.Database.Laws.{auth_id_of_ok}
use go_kickstart.Auth.{
  Authenticator, Claims, Verified, accepted, refused, jwt_invalid, jwt_expired, jwt_other, subject,
  check_claims, verify, as_invalid_token,
}
use go_kickstart.Auth.Rotation.{IdentityOf, neither}

-- The claims are those of the account's current identity.
pub record Current (v : Verified) (c : Claims) (t : Tables) : Type 0 where
  pub origin : v ≡ accepted (some c)
  pub identified : str_eq c.auth_id [] ≡ false
  pub dated : is_pos c.exp ≡ true
  pub sub : ℕ
  pub named : subject (some c) ≡ ok sub
  pub current : IdentityOf sub c.auth_id t

as_invalid_ok : (r : Result ℕ) (n : ℕ) → as_invalid_token r ≡ ok n → r ≡ ok n
as_invalid_ok (ok m) n h = h
as_invalid_ok (err e) n h = cc

select_id-Ensures :
    (e : Error) (sub : ℕ) (w : World)
    → Ensures
        (λ x w'. IdentityOf sub x w.tables × (w'.tables ≡ w.tables))
        (not_found_as e (select_account_auth_id sub) w)
unfolding select_account_auth_id
select_id-Ensures e sub w = Ensures-renamed _ e _ (
    Ensures-imp _ _ _ (Ensures-statement (λ t. auth_id_of (find (has_sub sub) t.accounts) t) w)
      λ x w' q.
        Ensures-ok _ x w'
          (auth_id_of_ok (find (has_sub sub) w.tables.accounts) w.tables w'.tables x q))

pub lift-Ensures {ℓ} :
    {A : Type ℓ} (r : Result A) (w : World) → Ensures (λ x w'. (r ≡ ok x) × (w' ≡ w)) (lift r w)
lift-Ensures (ok x) w = Ensures-ok _ x w (refl, refl)
lift-Ensures (err e) w = Ensures-err _ e w

check-Ensures :
    (a : Authenticator) (v : Verified) (w : World)
    → Ensures (λ c w'. Current v c w.tables) (check_claims a v w)
unfolding check_claims
check-Ensures a (refused jwt_invalid) w = Ensures-err _ invalid_token w
check-Ensures a (refused jwt_expired) w = Ensures-err _ expired_token w
check-Ensures a (refused (jwt_other n)) w = Ensures-err _ (failure n) w
check-Ensures a (accepted none) w = Ensures-err _ invalid_token w
check-Ensures a (accepted (some c)) w =
    Ensures-if _ (str_eq c.auth_id [] || not (is_pos c.exp)) _ _ w
      (λ _. Ensures-err _ invalid_token w)
      λ good.
        Ensures-bind _ _ _ _ (lift-Ensures (as_invalid_token (subject (some c))) w)
          λ sub w₁ (n, t₁).
            Ensures-bind _ _ _ _ (select_id-Ensures invalid_token sub w₁) λ x w₂ (cur, t₂).
              Ensures-if _ (str_eq x c.auth_id) _ _ w₂
                (λ same. Ensures-ok _ c w₂ (
                  let (id, date) = neither (str_eq c.auth_id []) (is_pos c.exp) good in
                  record {
                    origin = refl;
                    identified = id;
                    dated = date;
                    sub = sub;
                    named = as_invalid_ok (subject (some c)) sub n;
                    current =
                        subst₂ (λ y (v : World). IdentityOf sub y v.tables)
                          ((str_eq_iff x c.auth_id).0 same) t₁ cur;
                  }))
                (λ _. Ensures-err _ invalid_token w₂)

now-Ensures : (w : World) → Ensures (λ t w'. (t ≡ w.clock) × (w'.tables ≡ w.tables)) (now w)
unfolding now
now-Ensures w = record { at = λ t w' h. ground arith }

-- `Verify` accepts an access token only when the JWT library accepts it at the time of the call, with
-- claims that have an expiry, a positive account number as the subject, and an authentication
-- identity that is not empty and that this account has at that moment.
pub verify-Current :
    (a : Authenticator) (s : Text) (w w' : World) (c : Claims)
    → verify a s w ≡ (ok c, w')
    → Current (a.tokener.verify w.clock s) c w.tables
unfolding verify
verify-Current a s w w' c =
    (Ensures-bind _ (λ c _. Current (a.tokener.verify w.clock s) c w.tables) _ _ (now-Ensures w)
        λ t w₁ (p, q).
          Ensures-imp _ _ _ (check-Ensures a (a.tokener.verify t s) w₁) λ d w₂ r.
            Ensures-ok _ d w₂ (subst₂ (λ t b. Current (a.tokener.verify t s) d b) p q r)).at
      c w'
