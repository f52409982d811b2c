-- ===== src/Auth/Revocation.antt =====
-- `RevokeAll` of auth/authenticator.go.
use mathlib.Core.Path.{subst, subst₂}
use go_kickstart.Base.{
  ℕ, ◌≡◌, ◌∙◌, refl, sym, ap, inl, inr, false, Option, some, List, [], ◌∷◌, Text, find, remove_all,
  any, any-remove_all, Bool-cases, arith,
}
use go_kickstart.Database.{
  Account, Tables, Error, not_found, email_unavailable, invalid_token, expired_token,
  invalid_identity, failure, Result, err, ok, World, M, lift, statement, and_then, engine,
  commit_rows, random_text, new_auth_id,
}
use go_kickstart.Database.Queries.{
  has_sub, of_sub, auth_id_of, lock_account_auth_id, set_account_auth_id, replace_auth_id,
  update_where, done, constraint_failed,
}
use go_kickstart.Database.Sessions.{delete_refresh_tokens_by_sub}
use go_kickstart.Database.Ensures.{
  Ensures, Ensures-ok, Ensures-err, Ensures-bind, Ensures-statement, Ensures-tx, Ensures-imp,
}
use go_kickstart.Database.Laws.{tables-engine, same_tables, same_value, auth_id_of_ok}
use go_kickstart.Auth.{
  Authenticator, Claims, subject, if_present, revoke_all, revoke_locked, verify,
}
use go_kickstart.Auth.Rotation.{IdentityOf}
use go_kickstart.Auth.Refresh.{guarded_ok}
use go_kickstart.Auth.Verify.{lift-Ensures, verify-Current}

-- The account's identity is now `x`, and it has no refresh token.
pub record Ended (sub : ℕ) (x : Text) (t t' : Tables) : Type 0 where
  pub accounts :
      t'.accounts
      ≡ update_where (has_sub sub) (λ (a : Account). record a { auth_id = x }) t.accounts
  pub tokens : t'.refresh_tokens ≡ remove_all (of_sub sub) t.refresh_tokens

abbrev Missing {ℓ} : {A : Type ℓ} → Result A × World → Type ℓ
Missing {A = A} r = ◌≡◌ {A = Result A} r.0 (err not_found)

module _ {ℓ} {A : Type ℓ} (P : Unit {0} → World → Type 0) where
  Ensures-present :
      (r : Result A × World) (m : M (Unit {0}))
      → ¬ (Missing r)
      → ((x : A) (w : World) → r ≡ (ok x, w) → Ensures P (m w))
      → Ensures P (if_present r m)
  Ensures-present (ok x, w) m present k = k x w refl
  Ensures-present (err not_found, w) m present k = absurd (present refl)
  Ensures-present (err email_unavailable, w) m present k = Ensures-err P email_unavailable w
  Ensures-present (err invalid_token, w) m present k = Ensures-err P invalid_token w
  Ensures-present (err expired_token, w) m present k = Ensures-err P expired_token w
  Ensures-present (err invalid_identity, w) m present k = Ensures-err P invalid_identity w
  Ensures-present (err (failure n), w) m present k = Ensures-err P (failure n) w

engine_present : (w : World) → ¬ (Missing (engine w))
unfolding engine
engine_present w = ground arith

commit_present :
    (g : Result (Text × Tables)) (w : World) (y : Text) (t : Tables)
    → g ≡ ok (y, t)
    → ¬ (Missing (commit_rows g w))
commit_present (ok (z, t')) w y t h miss = cc
commit_present (err e) w y t h miss = cc

same_error {ℓ κ} :
    {A : Type ℓ} {B : Type κ} {e : Error}
    → ◌≡◌ {A = Result A} (err e) (err not_found)
    → ◌≡◌ {A = Result B} (err e) (err not_found)
same_error h = ap err cc

after_engine :
    (f : Tables → Result (Text × Tables)) (t : Tables) (r : Result (Unit {0}) × World)
    → r.1.tables ≡ t
    → ¬ (Missing r)
    → (y : Text) → f t ≡ ok (y, t)
    → ¬ (Missing (and_then r (λ _ v. commit_rows (f v.tables) v)))
after_engine f t (ok u, w) p there y q miss = commit_present (f w.tables) w y t (ap f p ∙ q) miss
after_engine f t (err e, w) p there y q miss = there (same_error miss)

lock_present :
    (sub : ℕ) (w : World) (acc : Account)
    → find (has_sub sub) w.tables.accounts ≡ some acc
    → ¬ (Missing (lock_account_auth_id sub w))
unfolding lock_account_auth_id statement
lock_present sub w acc there =
    after_engine (λ t. auth_id_of (find (has_sub sub) t.accounts) t) w.tables (engine w)
      (tables-engine w) (engine_present w) acc.auth_id (rw there)

find-update_where :
    (sub : ℕ) (x : Text) (rows : List Account) (acc : Account)
    → find (has_sub sub) rows ≡ some acc
    → find
        (has_sub sub)
        (update_where (has_sub sub) (λ (a : Account). record a { auth_id = x }) rows)
      ≡ some (record acc { auth_id = x })
find-update_where sub x [] acc h = cc
find-update_where sub x (r ∷ rs) acc h = elim (Bool-cases (has_sub sub r)) [
  | inl p ↦ ground (arith, p, h)
  | inr p ↦ ground (arith, p, h, find-update_where sub x rs acc)
]

replaced_ok :
    (sub : ℕ) (x : Text) (t t' : Tables)
    → replace_auth_id sub x t ≡ ok (tt, t')
    → t' ≡ record t {
      accounts = update_where (has_sub sub) (λ (a : Account). record a { auth_id = x }) t.accounts;
    }
unfolding replace_auth_id
replaced_ok sub x t t' h = (guarded_ok _ (failure constraint_failed) _ t' h).1

lock_kept :
    (sub : ℕ) (w w₁ : World) (y : Text)
    → lock_account_auth_id sub w ≡ (ok y, w₁)
    → w₁.tables ≡ w.tables
unfolding lock_account_auth_id
lock_kept sub w w₁ y h =
    (auth_id_of_ok (find (has_sub sub) w.tables.accounts) w.tables w₁.tables y
      ((Ensures-statement (λ t. auth_id_of (find (has_sub sub) t.accounts) t) w).at y w₁ h)).1

ended :
    (sub : ℕ) (x : Text) (t t₁ t₂ t₃ : Tables)
    → t₁ ≡ t
    → t₂ ≡ record t₁ {
      accounts = update_where (has_sub sub) (λ (a : Account). record a { auth_id = x }) t₁.accounts;
    }
    → record t₂ { refresh_tokens = remove_all (of_sub sub) t₂.refresh_tokens } ≡ t₃
    → Ended sub x t t₃
ended sub x t t₁ t₂ t₃ p q r = record {
  accounts =
      ap (λ (t : Tables). t.accounts) (sym r)
      ∙ ap (λ (t : Tables). t.accounts) q
      ∙ ap
          (λ (t : Tables).
            update_where (has_sub sub) (λ (a : Account). record a { auth_id = x }) t.accounts)
          p;
  tokens =
      ap (λ (t : Tables). t.refresh_tokens) (sym r)
      ∙ ap (λ (t : Tables). remove_all (of_sub sub) t.refresh_tokens)
          (q
            ∙ ap
                (λ (t : Tables). record t {
                  accounts =
                      update_where (has_sub sub) (λ (a : Account). record a { auth_id = x })
                        t.accounts;
                })
                p);
}

locked-Ensures :
    (sub : ℕ) (x : Text) (w : World) (acc : Account)
    → find (has_sub sub) w.tables.accounts ≡ some acc
    → Ensures (λ _ w'. Ended sub x w.tables w'.tables) (revoke_locked sub x w)
unfolding revoke_locked set_account_auth_id delete_refresh_tokens_by_sub
locked-Ensures sub x w acc there =
    Ensures-present _ (lock_account_auth_id sub w) _ (lock_present sub w acc there) λ y w₁ locked.
      Ensures-bind _ _ _ _ (Ensures-statement (replace_auth_id sub x) w₁) λ _ w₂ set.
        Ensures-imp _ _ _
          (Ensures-statement
            (λ t. done (record t { refresh_tokens = remove_all (of_sub sub) t.refresh_tokens })) w₂)
          λ u w₃ gone. Ensures-ok _ u w₃ (
            ended sub x w.tables w₁.tables w₂.tables w₃.tables (lock_kept sub w w₁ y locked)
              (replaced_ok sub x w₁.tables w₂.tables set) (same_tables gone))

drawn-Ensures :
    (w : World)
    → Ensures (λ x w'. (w.randoms ≡ some x ∷ w'.randoms) × (w'.tables ≡ w.tables)) (random_text w)
unfolding random_text
drawn-Ensures w = record { at = λ t w' h. ground arith }

-- After `RevokeAll`.
pub record RevokedAll (sub : ℕ) (w : World) (t : Tables) : Type 0 where
  pub fresh : Text
  pub others : List (Option Text)
  pub drawn : w.randoms ≡ some fresh ∷ others
  pub none_left : any (of_sub sub) t.refresh_tokens ≡ false
  pub identity : IdentityOf sub fresh t

identity_ended :
    (sub : ℕ) (x : Text) (t t' : Tables) (acc : Account)
    → find (has_sub sub) t.accounts ≡ some acc
    → Ended sub x t t'
    → IdentityOf sub x t'
identity_ended sub x t t' acc there e =
    rw (e.accounts, find-update_where sub x t.accounts acc there)

none_ended :
    (sub : ℕ) (x : Text) (t t' : Tables)
    → Ended sub x t t'
    → any (of_sub sub) t'.refresh_tokens ≡ false
none_ended sub x t t' e =
    ap (any (of_sub sub)) e.tokens ∙ any-remove_all (of_sub sub) t.refresh_tokens

pub revoke_all-Ensures :
    (c : Option Claims) (sub : ℕ) (acc : Account) (w : World)
    → subject c ≡ ok sub
    → find (has_sub sub) w.tables.accounts ≡ some acc
    → Ensures (λ _ w'. RevokedAll sub w w'.tables) (revoke_all c w)
unfolding revoke_all new_auth_id
revoke_all-Ensures c sub acc w who there =
    Ensures-bind _ _ (lift (subject c) w) _ (lift-Ensures (subject c) w) λ s w₁ (p, same).
      Ensures-bind _ _ _ _ (drawn-Ensures w₁) λ x w₂ (d, t₂).
        Ensures-tx (λ _ t. RevokedAll sub w t) (revoke_locked s x) w₂
          λ v t₃.
            let kept = t₃ ∙ t₂ ∙ ap (λ (v : World). v.tables) same in
            let found = ap (λ (t : Tables). find (has_sub sub) t.accounts) kept ∙ there in
            let mine = same_value (sym p ∙ who) in
            Ensures-imp _ _ _
              (locked-Ensures s x v acc (ap (λ n. find (has_sub n) v.tables.accounts) mine ∙ found))
              λ u w₃ e. Ensures-ok _ u w₃ (
                let e' = subst (λ n. Ended n x v.tables w₃.tables) mine e in
                record {
                  fresh = x;
                  others = w₂.randoms;
                  drawn = ap (λ (v : World). v.randoms) (sym same) ∙ d;
                  none_left = none_ended sub x v.tables w₃.tables e';
                  identity = identity_ended sub x v.tables w₃.tables acc found e';
                })

-- `RevokeAll` on an account that exists leaves it without a refresh token and gives it the identity
-- that the random source answered.
pub revoke_all-RevokedAll :
    (c : Option Claims) (sub : ℕ) (acc : Account) (w w' : World)
    → subject c ≡ ok sub
    → find (has_sub sub) w.tables.accounts ≡ some acc
    → revoke_all c w ≡ (ok tt, w')
    → RevokedAll sub w w'.tables
revoke_all-RevokedAll c sub acc w w' who there = (revoke_all-Ensures c sub acc w who there).at tt w'

same_identity :
    (o : Option Account) (t : Tables) (x y : Text)
    → auth_id_of o t ≡ ok (x, t)
    → auth_id_of o t ≡ ok (y, t)
    → x ≡ y
same_identity o t x y p q = ap (λ (r : Text × Tables). r.0) (same_value (sym p ∙ q))

-- After `RevokeAll` on an account that exists, and as long as the tables stay so, an access token of
-- this account is accepted only if it carries the identity that the random source answered to
-- `RevokeAll`; a token issued before with another identity is refused.
pub revoke_all-verify :
    (a : Authenticator) (c : Option Claims) (sub : ℕ) (acc : Account) (w w' v v' : World) (s : Text)
    (d : Claims)
    → subject c ≡ ok sub
    → find (has_sub sub) w.tables.accounts ≡ some acc
    → revoke_all c w ≡ (ok tt, w')
    → v.tables ≡ w'.tables
    → verify a s v ≡ (ok d, v')
    → subject (some d) ≡ ok sub
    → (rest : List (Option Text)) × (w.randoms ≡ some d.auth_id ∷ rest)
revoke_all-verify a c sub acc w w' v v' s d who there ended same accepts mine =
    let r = revoke_all-RevokedAll c sub acc w w' who there ended in
    let k = verify-Current a s v v' d accepts in
    let now_is =
      subst₂ (λ n t. IdentityOf n d.auth_id t) (same_value (sym k.named ∙ mine)) same k.current in
    let equal =
      same_identity (find (has_sub sub) w'.tables.accounts) w'.tables r.fresh d.auth_id r.identity
        now_is in
    (r.others, r.drawn ∙ ap (λ x. some x ∷ r.others) equal)
