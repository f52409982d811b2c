-- ===== src/Handlers/Tests.antt =====
-- A login, a refresh and a change of email on concrete tables.
use go_kickstart.Base.{
  space_at, has_prefix, ◌⊎◌, true, false, ◌*◌, ◌≡◌, refl, none, some, [], ◌∷◌, ◌++◌, Text, txt, pos,
  trim_space, str_eq, parse_int, format_int,
}
use go_kickstart.Database.{
  Tables, ok, World, second, now, unix_now, random_text, new_auth_id, engine, statement, with_tx,
  role_default,
}
use go_kickstart.Database.Queries.{
  is_digest, email_fits, insert_account, ensure_account_by_email, lock_account_auth_id,
  select_account_auth_id,
}
use go_kickstart.Database.Sessions.{
  insert_token, insert_refresh_token, select_refresh_token_by_hash, consume_refresh_token_by_hash,
  select_account_roles_by_sub, assign_role, assign_role_to_account,
}
use go_kickstart.Database.Challenges.{
  put_login, upsert_account_login_request, take_login, consume_account_login_request, delete_batch,
  delete_expired_rate_limits, charge, upsert_bucket, retry_after, take_rate_limit,
}
use go_kickstart.Auth.{
  accepted, subject_text, subject, sign_session, issue_locked, issue, rotate, refresh, expired_now,
  check_claims, verify,
}
use go_kickstart.Middleware.{authenticate_bearer}
use go_kickstart.Middleware.Gates.{Gate, IsVerified, authenticate_bearer-Gate}
use go_kickstart.Handlers.{
  Handler, Reply, Body, session, Step, go, stop, message, clock_now, unix_clock, normalize_email,
  decode_body, allow_otp_request, allow_otp_issuance, allow_otp_verification, sign_otp, send_otp,
  expires_in, new_session_response,
}
use go_kickstart.Handlers.Transactions.{finalize_login}
use go_kickstart.Handlers.Session.{
  save_login, login_failed, refresh_failed, write_session, login_or_create_account,
  verify_authentication_code, refresh_session,
}
use go_kickstart.Handlers.Replies.{CodeKnown, verify_authentication_code-Finished}
use go_kickstart.Handlers.Codes.{Usable, login_or_create_account-Usable}
use go_kickstart.Handlers.Account.{
  request_email_change, confirm_email_change, email_change_route, email_change_confirm_route,
}
use go_kickstart.Handlers.Prefix.{
  trim_slashes, clean_rooted, has_blank, IsLiteral, normalize_root_prefix,
  normalize_root_prefix-IsLiteral,
}
use go_kickstart.Handlers.Routing.{
  route_path, RoutingErrorWriter, status_error, write_header_through, write_all,
  write_all-write_header,
}
use go_kickstart.Handlers.Routes.{MayChangeEmail, email_change_routes-Gate}

program : Unit {0}
unfolding trim_space str_eq parse_int format_int now unix_now random_text new_auth_id engine
    statement with_tx is_digest email_fits insert_account ensure_account_by_email
    lock_account_auth_id select_account_auth_id insert_token insert_refresh_token
    select_refresh_token_by_hash consume_refresh_token_by_hash select_account_roles_by_sub
    assign_role assign_role_to_account put_login upsert_account_login_request take_login
    consume_account_login_request delete_batch delete_expired_rate_limits charge upsert_bucket
    retry_after take_rate_limit subject_text subject sign_session issue_locked issue rotate refresh
    expired_now check_claims verify clock_now unix_clock normalize_email decode_body
    allow_otp_request allow_otp_issuance allow_otp_verification sign_otp send_otp expires_in
    new_session_response finalize_login save_login login_failed refresh_failed write_session
    login_or_create_account verify_authentication_code refresh_session
program = tt

-- 64 hexadecimal digits.
abbrev digest : Text
digest = txt "0123456789abcdef0123456789abcdef0123456789abcdef0123456789abcdef"

abbrev h : Handler
h = record {
  authenticator = record {
    tokener = record {
      sign = λ t c. ok (txt "jwt", record c { exp = pos 900 });
      verify = λ t s. accepted none;
    };
    hash = λ s. txt "#" ++ s;
    refresh_ttl = 100 * second;
  };
  strict_parser = λ s. some s;
  mail_from = txt "app";
  sign = λ purpose identity code. digest;
}

abbrev tables : Tables
tables = record {
  accounts = [];
  last_sub = 0;
  login_requests = record { email = txt "a"; otp_hash = digest; expires_at = 60 } ∷ [];
  email_changes = [];
  refresh_tokens = [];
  account_roles = [];
  roles = role_default ∷ [];
  role_permissions = [];
  rate_limits = [];
}

abbrev w : World
w = record {
  tables = tables;
  clock = 7 * second;
  delays = [];
  randoms = some (txt "x") ∷ some (txt "y") ∷ [];
  faults = [];
  sent = [];
}

abbrev after {ℓ} : {A : Type ℓ} → Step A × World → World
after r = r.1

abbrev reply_of : Step (Unit {0}) → Reply
reply_of (go _) = record { status = 0; retry_after = none; body = message [] }
reply_of (stop reply) = reply

asked : login_or_create_account h (some (txt "b")) w ≡ (
  stop (record { status = 204; retry_after = none; body = Body.empty }),
  after (login_or_create_account h (some (txt "b")) w),
)
unfolding program
asked = refl

login_or_create_account-Usable_example :
    Usable h (txt "b") w (after (login_or_create_account h (some (txt "b")) w))
unfolding program
login_or_create_account-Usable_example =
    login_or_create_account-Usable h (txt "b") w
      (after (login_or_create_account h (some (txt "b")) w))
      (record { status = 204; retry_after = none; body = Body.empty }) asked refl

abbrev given : Reply
given = record {
  status = 200;
  retry_after = none;
  body = session (record {
    access_token = txt "jwt";
    refresh_token = txt "y";
    expires_in = pos 893;
    refresh_token_expires_in = pos 100;
  });
}

logged_in :
    verify_authentication_code h (some (txt "a", txt "7")) w
    ≡ (stop given, after (verify_authentication_code h (some (txt "a", txt "7")) w))
unfolding program
logged_in = refl

verify_authentication_code-Finished_example :
    CodeKnown (txt "a") digest w.clock w.tables.login_requests
unfolding program
verify_authentication_code-Finished_example =
    verify_authentication_code-Finished h (txt "a") (txt "7") w
      (after (verify_authentication_code h (some (txt "a", txt "7")) w)) given logged_in refl

abbrev unknown : Reply
unknown = record { status = 401; retry_after = none; body = message (txt "err.refresh_session") }

authenticate_bearer-Gate_example :
    Gate
      (IsVerified h.authenticator w.clock (txt "Bearer t") w.tables)
      w.tables
      (λ i. confirm_email_change h (some i) none)
      (authenticate_bearer h.authenticator
        (txt "Bearer t")
        (λ i. confirm_email_change h (some i) none)
        w)
authenticate_bearer-Gate_example =
    authenticate_bearer-Gate h.authenticator (txt "Bearer t")
      (λ i. confirm_email_change h (some i) none) w

email_change_routes-Gate_example :
    Gate
      (MayChangeEmail h w.clock (txt "Bearer t") w.tables)
      w.tables
      (λ i. request_email_change h (some i) (some (txt "b")))
      (email_change_route h (txt "Bearer t") (some (txt "b")) w)
    × Gate
        (MayChangeEmail h w.clock (txt "Bearer t") w.tables)
        w.tables
        (λ i. confirm_email_change h (some i) (some (txt "b")))
        (email_change_confirm_route h (txt "Bearer t") (some (txt "b")) w)
email_change_routes-Gate_example = email_change_routes-Gate h (txt "Bearer t") (some (txt "b")) w

abbrev fresh : RoutingErrorWriter
fresh = record { events = []; pattern = []; replaced = false }

write_all-write_header_example :
    ((write_all (txt "not found" ∷ []) (write_header_through 404 fresh)).events
      ≡ status_error 404 (txt "err.route_not_found") ∷ [])
    × ((write_all (txt "not found" ∷ []) (write_header_through 405 fresh)).events
        ≡ status_error 405 (txt "err.method_not_allowed") ∷ [])
write_all-write_header_example = write_all-write_header (txt "not found" ∷ []) fresh refl refl

refuses_dots : normalize_root_prefix (txt "/app/../admin") ≡ none
unfolding trim_space has_prefix str_eq trim_slashes clean_rooted has_blank normalize_root_prefix
refuses_dots = refl

normalizes : normalize_root_prefix (txt " app/v1// ") ≡ some (txt "/app/v1")
unfolding trim_space space_at has_prefix str_eq trim_slashes clean_rooted has_blank
    normalize_root_prefix
normalizes = refl

normalize_root_prefix-IsLiteral_example :
    ((txt "/app/v1" ≡ []) ⊎ IsLiteral (txt "/app/v1"))
    × (has_prefix (route_path (txt "/app/v1") (txt "auth")) (txt "/") ≡ true)
normalize_root_prefix-IsLiteral_example =
    normalize_root_prefix-IsLiteral (txt " app/v1// ") (txt "/app/v1") (txt "auth") normalizes
