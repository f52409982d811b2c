-- ===== src/Auth/Tests.antt =====
-- The sessions of one account on concrete tables.
use go_kickstart.Base.{
  ◌*◌, ◌++◌, ◌≡◌, refl, Bool, true, false, Option, none, some, List, [], ◌∷◌, Text, txt, pos,
  str_eq, parse_int, format_int, trim_space,
}
use go_kickstart.Database.{
  Account, RefreshToken, Tables, invalid_token, failure, Result, ok, err, World, second, now,
  unix_now, random_text, new_auth_id, engine, statement, with_tx,
}
use go_kickstart.Database.Queries.{
  lock_account_auth_id, select_account_auth_id, set_account_auth_id, replace_auth_id,
}
use go_kickstart.Database.Sessions.{
  insert_token, insert_refresh_token, select_refresh_token_by_hash, consume_refresh_token_by_hash,
  delete_refresh_tokens_by_sub, select_account_roles_by_sub,
}
use go_kickstart.Auth.{
  Authenticator, Claims, Token, Verified, accepted, subject, sign_session, issue_locked, issue,
  rotate, refresh, expired_now, check_claims, verify, revoke_locked, revoke_all, subject_text,
}
use go_kickstart.Auth.Atomic.{errors_leave_tables}
use go_kickstart.Auth.Refresh.{refresh-once}
use go_kickstart.Auth.Verify.{verify-Current, Current}
use go_kickstart.Auth.Revocation.{revoke_all-RevokedAll, RevokedAll, revoke_all-verify}

program : Unit {0}
unfolding subject_text subject str_eq parse_int format_int trim_space now unix_now random_text
    new_auth_id engine statement with_tx lock_account_auth_id select_account_auth_id
    set_account_auth_id replace_auth_id insert_token insert_refresh_token
    select_refresh_token_by_hash consume_refresh_token_by_hash delete_refresh_tokens_by_sub
    select_account_roles_by_sub sign_session issue_locked issue rotate refresh expired_now
    check_claims verify revoke_locked revoke_all
program = tt

abbrev claims : Claims
claims = record { auth_id = txt "id-1"; sub = txt "1"; roles = []; exp = pos 900 }

abbrev new_claims : Claims
new_claims = record { auth_id = txt "id-2"; sub = txt "1"; roles = []; exp = pos 900 }

abbrev a : Authenticator
a = record {
  tokener = record {
    sign = λ t c. ok (txt "jwt", record c { exp = pos 900 });
    verify = λ t s. if_new (str_eq s (txt "new"));
  };
  hash = λ s. txt "#" ++ s;
  refresh_ttl = 100 * second;
}
  where
    if_new : Bool → Verified
    if_new true = accepted (some new_claims)
    if_new false = accepted (some claims)

abbrev alice : Account
alice = record { sub = 1; email = txt "a@b"; created_at = 5; auth_id = txt "id-1" }

abbrev row : RefreshToken
row = record {
  token_hash = txt "#old";
  sub = 1;
  auth_id = txt "id-1";
  expires_at = 0;
  created_at = 5;
}

abbrev tables : Tables
tables = record {
  accounts = alice ∷ [];
  last_sub = 1;
  login_requests = [];
  email_changes = [];
  refresh_tokens = row ∷ [];
  account_roles = [];
  roles = [];
  role_permissions = [];
  rate_limits = [];
}

abbrev w : World
w = record {
  tables = tables;
  clock = 7 * second;
  delays = [];
  randoms = some (txt "id-2") ∷ [];
  faults = [];
  sent = [];
}

abbrev session : Token × Token
session = (
  record { value = txt "jwt"; expires_at = pos 900 },
  record { value = txt "id-2"; expires_at = pos 107 },
)

abbrev after {ℓ} : {A : Type ℓ} → Result A × World → World
after r = r.1

refreshed : refresh a (txt " old") w ≡ (ok session, after (refresh a (txt " old") w))
unfolding program
refreshed = refl

-- The second use of the same token.
refused_again : (refresh a (txt "old") (after (refresh a (txt " old") w))).0 ≡ err invalid_token
unfolding program
refused_again = refl

refresh-once_example :
    refresh a (txt " old") (after (refresh a (txt " old") w))
    ≡ (err invalid_token, after (refresh a (txt " old") w))
unfolding program
refresh-once_example =
    refresh-once a (txt " old") w (after (refresh a (txt " old") w))
      (after (refresh a (txt " old") w)) session refreshed (λ h. absurd (clash h)) refl refl
  where
    clash : ¬ (txt "#id-2" ≡ txt "#old")
    clash h = cc

-- The access token of the account is accepted before, and refused after, a call of `revoke_all`.
accepted_before : verify a (txt "jwt") w ≡ (ok claims, w)
unfolding program
accepted_before = refl

revoked : revoke_all (some claims) w ≡ (ok tt, after (revoke_all (some claims) w))
unfolding program
revoked = refl

refused_after : (verify a (txt "jwt") (after (revoke_all (some claims) w))).0 ≡ err invalid_token
unfolding program
refused_after = refl

accepted_after :
    verify a (txt "new") (after (revoke_all (some claims) w))
    ≡ (ok new_claims, after (revoke_all (some claims) w))
unfolding program
accepted_after = refl

verify-Current_example : Current (a.tokener.verify w.clock (txt "jwt")) claims w.tables
verify-Current_example = verify-Current a (txt "jwt") w w claims accepted_before

revoke_all-RevokedAll_example : RevokedAll 1 w (after (revoke_all (some claims) w)).tables
unfolding program
revoke_all-RevokedAll_example =
    revoke_all-RevokedAll (some claims) 1 alice w (after (revoke_all (some claims) w)) refl refl
      revoked

revoke_all-verify_example :
    (rest : List (Option Text)) × (w.randoms ≡ some new_claims.auth_id ∷ rest)
unfolding program
revoke_all-verify_example =
    revoke_all-verify a (some claims) 1 alice w (after (revoke_all (some claims) w))
      (after (revoke_all (some claims) w)) (after (revoke_all (some claims) w)) (txt "new")
      new_claims refl refl revoked refl accepted_after refl

abbrev faulty : World
faulty = record w { faults = none ∷ none ∷ some 3 ∷ [] }

fails : (refresh a (txt "old") faulty).0 ≡ err (failure 3)
unfolding program
fails = refl

errors_leave_tables_example :
    (issue a (some claims) faulty ≡ (err (failure 3), after (refresh a (txt "old") faulty))
      → (after (refresh a (txt "old") faulty)).tables ≡ faulty.tables)
    × (refresh a (txt "old") faulty ≡ (err (failure 3), after (refresh a (txt "old") faulty))
        → (after (refresh a (txt "old") faulty)).tables ≡ faulty.tables)
    × (revoke_all (some claims) faulty ≡ (err (failure 3), after (refresh a (txt "old") faulty))
        → (after (refresh a (txt "old") faulty)).tables ≡ faulty.tables)
unfolding program
errors_leave_tables_example =
    errors_leave_tables a (some claims) (txt "old") faulty (after (refresh a (txt "old") faulty))
      (failure 3)
