-- ===== src/Auth/Atomic.antt =====
-- The errors of the session calls of auth/authenticator.go.
use go_kickstart.Base.{◌≡◌, ◌∙◌, refl, ap, Option, Text, find, str_eq, [], trim_space}
use go_kickstart.Database.{
  Error, invalid_token, expired_token, err, World, lift, not_found_as, new_auth_id, random_text,
}
use go_kickstart.Database.Queries.{has_hash, one}
use go_kickstart.Database.Sessions.{select_refresh_token_by_hash}
use go_kickstart.Database.Atomic.{
  Atomic, Atomic-reads, Atomic-if, Atomic-tx, Atomic-bind, tables-renamed, tables-statement,
}
use go_kickstart.Database.Laws.{tables-random_text, one_ok}
use go_kickstart.Auth.{
  Authenticator, Claims, subject, issue, issue_locked, refresh, rotate, expired_now, revoke_all,
  revoke_locked,
}
use go_kickstart.Auth.Rotation.{tables-expired_now}

pub issue-Atomic :
    (a : Authenticator) (c : Option Claims) (w : World) → Atomic w.tables (issue a c w)
unfolding issue
issue-Atomic a c w =
    Atomic-bind w.tables (lift (subject c) w) _ refl
      λ sub w₁ p. Atomic-tx w.tables (issue_locked a sub) w₁ p

tables-select :
    (e : Error) (h : Text) (w : World)
    → (not_found_as e (select_refresh_token_by_hash h) w).1.tables ≡ w.tables
unfolding select_refresh_token_by_hash
tables-select e h w =
    ap (λ (v : World). v.tables) (tables-renamed e (select_refresh_token_by_hash h w))
    ∙ tables-statement (λ t. one (find (has_hash h) t.refresh_tokens) t) w
        (λ x t' q. (one_ok (find (has_hash h) w.tables.refresh_tokens) w.tables t' x q).1)

pub refresh-Atomic : (a : Authenticator) (s : Text) (w : World) → Atomic w.tables (refresh a s w)
unfolding refresh
refresh-Atomic a s w =
    Atomic-if w.tables (str_eq (trim_space s) []) _ _ w
      (λ _. Atomic-reads w.tables (err invalid_token, w) refl)
      λ _.
        Atomic-bind w.tables
          (not_found_as invalid_token (select_refresh_token_by_hash (a.hash (trim_space s))) w) _
          (tables-select invalid_token (a.hash (trim_space s)) w)
          λ saved w₁ t₁.
            Atomic-bind w.tables (expired_now saved.expires_at w₁) _
              (tables-expired_now saved.expires_at w₁ ∙ t₁)
              λ late w₂ t₂.
                Atomic-if w.tables late _ _ w₂
                  (λ _. Atomic-reads w.tables (err expired_token, w₂) t₂)
                  λ _. Atomic-tx w.tables (rotate a (a.hash (trim_space s)) saved) w₂ t₂

pub revoke_all-Atomic : (c : Option Claims) (w : World) → Atomic w.tables (revoke_all c w)
unfolding revoke_all new_auth_id
revoke_all-Atomic c w = Atomic-bind w.tables (lift (subject c) w) _ refl λ sub w₁ p.
    Atomic-bind w.tables (random_text w₁) _ (tables-random_text w₁ ∙ p)
      λ x w₂ q. Atomic-tx w.tables (revoke_locked sub x) w₂ q

-- `Issue`, `Refresh` and `RevokeAll` leave the tables as they were whenever they return an error,
-- wherever in the call the error arises.
pub errors_leave_tables :
    (a : Authenticator) (c : Option Claims) (s : Text) (w w' : World) (e : Error)
    → (issue a c w ≡ (err e, w') → w'.tables ≡ w.tables)
      × (refresh a s w ≡ (err e, w') → w'.tables ≡ w.tables)
      × (revoke_all c w ≡ (err e, w') → w'.tables ≡ w.tables)
errors_leave_tables a c s w w' e =
    ((issue-Atomic a c w).at e w', (refresh-Atomic a s w).at e w', (revoke_all-Atomic c w).at e w')
