-- ===== src/Database/Mysql/Tests.antt =====
-- The methods of MySQL on concrete tables.
use go_kickstart.Base.{◌≡◌, refl, inr, true, false, [], ◌∷◌, find, txt, str_eq, pos}
use go_kickstart.Database.{
  AccountLoginRequest, RefreshToken, RateLimit, not_found, ok, err, World, engine, statement,
  with_tx,
}
use go_kickstart.Database.Queries.{one, has_hash}
use go_kickstart.Database.Sessions.{without_token}
use go_kickstart.Database.Challenges.{
  take_login, take_change, delete_batch, delete_expired_rate_limits, charge, upsert_bucket,
  retry_after, take_rate_limit,
}
use go_kickstart.Database.Mysql.{
  mysql_with_tx, mysql_charge, mysql_consume_refresh_token_by_hash,
  mysql_consume_account_login_request, mysql_consume_account_email_change_request,
  mysql_upsert_bucket, mysql_take_rate_limit,
}
use go_kickstart.Database.Mysql.Equivalence.{Implements, mysql_consume-Implements}
use go_kickstart.Database.Mysql.Limits.{Took, take_rate_limits-Took}

program : Unit {0}
unfolding str_eq engine statement with_tx take_login take_change delete_batch
    delete_expired_rate_limits charge upsert_bucket retry_after take_rate_limit mysql_with_tx
    mysql_charge mysql_consume_refresh_token_by_hash mysql_consume_account_login_request
    mysql_consume_account_email_change_request mysql_upsert_bucket mysql_take_rate_limit
program = tt

abbrev login : AccountLoginRequest
login = record { email = txt "a"; otp_hash = txt "7"; expires_at = 60 }

abbrev token : RefreshToken
token = record { token_hash = txt "t"; sub = 1; auth_id = txt "i"; expires_at = 0; created_at = 0 }

abbrev bucket : RateLimit
bucket = record {
  scope = txt "s";
  bucket_key = txt "k";
  started_at = 0;
  max_requests = 1;
  requests = 1;
  expires_at = 50;
}

abbrev w : World
w = record {
  tables = record {
    accounts = [];
    last_sub = 0;
    login_requests = login ∷ [];
    email_changes = [];
    refresh_tokens = token ∷ [];
    account_roles = [];
    roles = [];
    role_permissions = [];
    rate_limits = bucket ∷ [];
  };
  clock = 0;
  delays = [];
  randoms = [];
  faults = [];
  sent = [];
}

consumes_once :
    (mysql_consume_account_login_request str_eq false
      (txt "a")
      (txt "7")
      30
      (mysql_consume_account_login_request str_eq false (txt "a") (txt "7") 30 w).1).0
    ≡ err not_found
unfolding program
consumes_once = refl

-- The second request in the window waits for its end.
waits : (mysql_take_rate_limit str_eq false (txt "s") (txt "k") 20 (pos 60) (pos 9) w).0 ≡ ok 30
unfolding program
waits = refl

mysql_consume-Implements_example :
    Implements
      (λ t. one (find (has_hash (txt "t")) t.refresh_tokens) (without_token (txt "t") t))
      (mysql_consume_refresh_token_by_hash str_eq true (txt "t"))
      w
    × (Implements
          (take_login (txt "a") (txt "7") 30)
          (mysql_consume_account_login_request str_eq true (txt "a") (txt "7") 30)
          w
        × Implements
            (take_change 1 (txt "7") 30)
            (mysql_consume_account_email_change_request str_eq true 1 (txt "7") 30)
            w)
mysql_consume-Implements_example =
    mysql_consume-Implements true str_eq (txt "t") (txt "a") 1 (txt "7") 30 w refl (tt, tt) tt

take_rate_limits-Took_example :
    Took
      (txt "s")
      (txt "k")
      20
      (pos 60)
      (pos 9)
      w
      30
      (mysql_take_rate_limit str_eq false (txt "s") (txt "k") 20 (pos 60) (pos 9) w).1
unfolding program
take_rate_limits-Took_example =
    take_rate_limits-Took str_eq false (txt "s") (txt "k") 20 (pos 60) (pos 9) w
      (mysql_take_rate_limit str_eq false (txt "s") (txt "k") 20 (pos 60) (pos 9) w).1 30 refl
      (inr refl)
