-- ===== src/Database/Tests.antt =====
-- Rate limits and verification codes on concrete tables.
use go_kickstart.Base.{ℕ, ◌≡◌, refl, arith, [], ◌∷◌, min, length, txt, str_eq, true}
use go_kickstart.Database.{
  AccountLoginRequest, AccountEmailChangeRequest, not_found, Result, ok, err, World, engine,
  statement,
}
use go_kickstart.Database.Challenges.{
  matches_login, matches_change, take_login, take_change, consume_account_login_request,
  consume_account_email_change_request, delete_batch, delete_expired_rate_limits, charge,
  upsert_bucket, retry_after, take_rate_limit,
}
use go_kickstart.Database.Codes.{consume_login-once, consume_change-once}
use go_kickstart.Database.RateLimits.{takes, passed, takes-passed}

program : Unit {0}
unfolding str_eq engine statement take_login take_change consume_account_login_request
    consume_account_email_change_request delete_batch delete_expired_rate_limits charge
    upsert_bucket retry_after take_rate_limit takes passed
program = tt

abbrev login : AccountLoginRequest
login = record { email = txt "a"; otp_hash = txt "7"; expires_at = 60 }

abbrev change : AccountEmailChangeRequest
change = record { sub = 1; email = txt "b"; otp_hash = txt "7"; expires_at = 60 }

abbrev w : World
w = record {
  tables = record {
    accounts = [];
    last_sub = 0;
    login_requests = login ∷ [];
    email_changes = change ∷ [];
    refresh_tokens = [];
    account_roles = [];
    roles = [];
    role_permissions = [];
    rate_limits = [];
  };
  clock = 0;
  delays = [];
  randoms = [];
  faults = [];
  sent = [];
}

abbrev after {ℓ} : {A : Type ℓ} → Result A × World → World
after r = r.1

-- Two requests pass, the third waits for the end of the window.
delays :
    takes (txt "s") (txt "k") 10 2 (5 ∷ 6 ∷ 9 ∷ []) w
    ≡ (ok (0 ∷ 0 ∷ 6 ∷ []), after (takes (txt "s") (txt "k") 10 2 (5 ∷ 6 ∷ 9 ∷ []) w))
unfolding program
delays = refl

takes-passed_example : passed (0 ∷ 0 ∷ 6 ∷ []) ≡ min (length {A = ℕ} (5 ∷ 6 ∷ 9 ∷ [])) 2
unfolding program
takes-passed_example =
    takes-passed (txt "s") (txt "k") 10 2 5 (6 ∷ 9 ∷ []) w
      (after (takes (txt "s") (txt "k") 10 2 (5 ∷ 6 ∷ 9 ∷ []) w)) (0 ∷ 0 ∷ 6 ∷ []) (omega arith)
      (omega arith) refl (omega arith, (omega arith, tt)) delays

taken_login :
    consume_account_login_request (txt "a") (txt "7") 5 w
    ≡ (ok login, after (consume_account_login_request (txt "a") (txt "7") 5 w))
unfolding program
taken_login = refl

consume_login-once_example :
    (matches_login (txt "a") (txt "7") 5 login ≡ true)
    × (consume_account_login_request
          (txt "a")
          (txt "7")
          8
          (after (consume_account_login_request (txt "a") (txt "7") 5 w))
        ≡ (err not_found, after (consume_account_login_request (txt "a") (txt "7") 5 w)))
unfolding program
consume_login-once_example =
    consume_login-once (txt "a") (txt "7") 5 8 w
      (after (consume_account_login_request (txt "a") (txt "7") 5 w))
      (after (consume_account_login_request (txt "a") (txt "7") 5 w)) login taken_login
      (omega arith) refl refl

taken_change :
    consume_account_email_change_request 1 (txt "7") 5 w
    ≡ (ok change, after (consume_account_email_change_request 1 (txt "7") 5 w))
unfolding program
taken_change = refl

consume_change-once_example :
    (matches_change 1 (txt "7") 5 change ≡ true)
    × (consume_account_email_change_request 1
          (txt "7")
          8
          (after (consume_account_email_change_request 1 (txt "7") 5 w))
        ≡ (err not_found, after (consume_account_email_change_request 1 (txt "7") 5 w)))
unfolding program
consume_change-once_example =
    consume_change-once 1 (txt "7") 5 8 w
      (after (consume_account_email_change_request 1 (txt "7") 5 w))
      (after (consume_account_email_change_request 1 (txt "7") 5 w)) change taken_change
      (omega arith) refl refl
