-- ===== src/Auth/Rotation.antt =====
-- What a session that was issued or refreshed leaves in the tables.
use mathlib.Core.Path.{subst}
use go_kickstart.Base.{
  ℕ, ◌≡◌, sym, ap, ◌∙◌, Bool, true, false, not, ◌||◌, some, List, [], arith, ◌==◌, find, Text,
  str_eq, pos, ◌/◌, format_int,
}
use go_kickstart.Database.{
  RefreshToken, Tables, Error, invalid_token, expired_token, Result, ok, World, not_found_as, now,
  unix_now, random_text, second,
}
use go_kickstart.Database.Queries.{lock_account_auth_id, has_sub, has_hash, auth_id_of, one}
use go_kickstart.Database.Sessions.{
  insert_token, insert_refresh_token, consume_refresh_token_by_hash, select_account_roles_by_sub,
  roles_of, without_token,
}
use go_kickstart.Database.Ensures.{
  Ensures, Ensures-ok, Ensures-err, Ensures-if, Ensures-bind, Ensures-reads, Ensures-statement,
  Ensures-renamed, Ensures-imp,
}
use go_kickstart.Database.Laws.{tables-random_text, same_tables, one_ok, auth_id_of_ok}
use go_kickstart.Auth.{
  Authenticator, Claims, sign_at, refresh_expiry, sign_session, rotate, expired_now,
}

tables_of {ℓ} :
    {A : Type ℓ} {r : Result A × World} {a : A} {w' : World} (t : Tables)
    → r.1.tables ≡ t
    → r ≡ (ok a, w')
    → w'.tables ≡ t
tables_of t p h = rw h at p

-- A new session is one new row, and nothing else.
pub record Signed (a : Authenticator) (sub : ℕ) (auth_id : Text) (refresh_token : Text)
    (t t' : Tables) : Type 0 where
  pub expiry : ℕ
  pub created : ℕ
  pub inserted : insert_token (a.hash refresh_token) sub auth_id expiry created t ≡ ok (tt, t')

abbrev session_claims : ℕ → Text → List Text → Claims
session_claims sub auth_id roles = record {
  auth_id = auth_id;
  sub = format_int sub;
  roles = roles;
  exp = pos 0;
}

module _ (a : Authenticator) where
  tables-sign_at : (c : Claims) (w : World) → (sign_at a c w).1.tables ≡ w.tables
  unfolding sign_at now
  tables-sign_at c w = ground arith

  tables-refresh_expiry : (w : World) → (refresh_expiry a w).1.tables ≡ w.tables
  unfolding refresh_expiry now
  tables-refresh_expiry w = ground arith

  pub sign_session-Ensures :
      (sub : ℕ) (auth_id : Text) (w : World)
      → Ensures
          (λ p w'. Signed a sub auth_id p.1.value w.tables w'.tables)
          (sign_session a sub auth_id w)
  unfolding sign_session select_account_roles_by_sub insert_refresh_token
  sign_session-Ensures sub auth_id w =
      Ensures-bind _ _ _ _ (Ensures-statement (λ t. ok (roles_of sub t.account_roles, t)) w)
        λ roles w₁ q₁.
          Ensures-bind _ _ _ _
            (Ensures-reads w.tables (sign_at a (session_claims sub auth_id roles) w₁)
              (tables-sign_at (session_claims sub auth_id roles) w₁ ∙ sym (same_tables q₁)))
            λ signed w₂ q₂.
              Ensures-bind _ _ _ _
                (Ensures-reads w.tables (random_text w₂) (tables-random_text w₂ ∙ q₂))
                λ token w₃ q₃.
                  Ensures-bind _ _ _ _
                    (Ensures-reads w.tables (refresh_expiry a w₃) (tables-refresh_expiry w₃ ∙ q₃))
                    λ expiry w₄ q₄.
                      Ensures-bind _ _ _ _
                        (Ensures-statement
                          (insert_token (a.hash token) sub auth_id expiry (w₄.clock / second)) w₄)
                        λ _ w₅ q₅. Ensures-ok _ _ w₅ (record {
                          expiry = expiry;
                          created = w₄.clock / second;
                          inserted = rw q₄ at q₅;
                        })

pub both_hold : (x y : Bool) → (not x || not y) ≡ false → (x ≡ true) × (y ≡ true)
both_hold x y h = ground arith

pub neither : (x y : Bool) → (x || not y) ≡ false → (x ≡ false) × (y ≡ true)
neither x y h = ground arith

-- Whether `x` is the current identity of an account.
abbrev pub IdentityOf : ℕ → Text → Tables → Type 0
IdentityOf sub x t = auth_id_of (find (has_sub sub) t.accounts) t ≡ ok (x, t)

pub lock-Ensures :
    (e : Error) (sub : ℕ) (w : World)
    → Ensures
        (λ x w'. IdentityOf sub x w.tables × (w'.tables ≡ w.tables))
        (not_found_as e (lock_account_auth_id sub) w)
unfolding lock_account_auth_id
lock-Ensures e sub w = Ensures-renamed _ e _ (
    Ensures-imp _ _ _ (Ensures-statement (λ t. auth_id_of (find (has_sub sub) t.accounts) t) w)
      λ x w' q.
        Ensures-ok _ x w'
          (auth_id_of_ok (find (has_sub sub) w.tables.accounts) w.tables w'.tables x q))

pub consume-Ensures :
    (e : Error) (h : Text) (w : World)
    → Ensures
        (λ row w'.
          (find (has_hash h) w.tables.refresh_tokens ≡ some row)
          × (w'.tables ≡ without_token h w.tables))
        (not_found_as e (consume_refresh_token_by_hash h) w)
unfolding consume_refresh_token_by_hash
consume-Ensures e h w = Ensures-renamed _ e _ (
    Ensures-imp _ _ _
      (Ensures-statement (λ t. one (find (has_hash h) t.refresh_tokens) (without_token h t)) w)
      λ x w' q. Ensures-ok _ x w' (
        one_ok (find (has_hash h) w.tables.refresh_tokens) (without_token h w.tables) w'.tables x
          q))

pub tables-expired_now : (n : ℕ) (w : World) → (expired_now n w).1.tables ≡ w.tables
unfolding expired_now unix_now now
tables-expired_now n w = ground arith

-- A rotation takes the row of the token away and adds the row of the new one.
pub record Rotated (a : Authenticator) (h : Text) (saved : RefreshToken) (refresh_token : Text)
    (t t' : Tables) : Type 0 where
  pub auth_id : Text
  pub current : IdentityOf saved.sub auth_id t
  pub present : str_eq auth_id [] ≡ false
  pub unchanged : str_eq saved.auth_id auth_id ≡ true
  pub consumed : RefreshToken
  pub found : find (has_hash h) t.refresh_tokens ≡ some consumed
  pub owner : (consumed.sub == saved.sub) ≡ true
  pub identity : str_eq consumed.auth_id auth_id ≡ true
  pub session : Signed a saved.sub auth_id refresh_token (without_token h t) t'

pub rotate-Ensures :
    (a : Authenticator) (h : Text) (saved : RefreshToken) (w : World)
    → Ensures (λ p w'. Rotated a h saved p.1.value w.tables w'.tables) (rotate a h saved w)
unfolding rotate
rotate-Ensures a h saved w =
    Ensures-bind _ _ _ _ (lock-Ensures invalid_token saved.sub w) λ auth_id w₁ (cur, t₁).
      Ensures-if _ (str_eq auth_id [] || not (str_eq saved.auth_id auth_id)) _ _ w₁
        (λ _. Ensures-err _ invalid_token w₁)
        λ good. Ensures-bind _ _ _ _ (consume-Ensures invalid_token h w₁) λ row w₂ (fd, t₂).
          Ensures-if _ (not (row.sub == saved.sub) || not (str_eq row.auth_id auth_id)) _ _ w₂
            (λ _. Ensures-err _ invalid_token w₂)
            λ own.
              Ensures-bind _ _ _ _
                (Ensures-reads w₂.tables (expired_now row.expires_at w₂)
                  (tables-expired_now row.expires_at w₂))
                λ late w₃ t₃.
                  Ensures-if _ late _ _ w₃ (λ _. Ensures-err _ expired_token w₃)
                    λ fresh.
                      Ensures-imp _ _ _ (sign_session-Ensures a saved.sub auth_id w₃) λ p w₄ s.
                        Ensures-ok _ p w₄ (
                          let (x, y) =
                            both_hold (row.sub == saved.sub) (str_eq row.auth_id auth_id) own in
                          let (nonempty, kept) =
                            neither (str_eq auth_id []) (str_eq saved.auth_id auth_id) good in
                          record {
                            auth_id = auth_id;
                            current = cur;
                            present = nonempty;
                            unchanged = kept;
                            consumed = row;
                            found =
                                ap (λ (t : Tables). find (has_hash h) t.refresh_tokens) (sym t₁)
                                ∙ fd;
                            owner = x;
                            identity = y;
                            session =
                                subst (λ t. Signed a saved.sub auth_id p.1.value t w₄.tables)
                                  (t₃ ∙ t₂ ∙ ap (without_token h) t₁) s;
                          })
