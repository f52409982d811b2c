-- ===== src/Handlers/Session.antt =====
-- handlers/auth.go
use go_kickstart.Base.{
  ℕ, ◌+◌, ◌/◌, Option, some, [], if◌then◌else◌, Text, txt, str_eq, trim_space, format_int, pos,
}
use go_kickstart.Database.{
  Error, not_found, invalid_token, expired_token, email_unavailable, invalid_identity, failure,
  random_text, with_tx, second,
}
use go_kickstart.Database.Challenges.{upsert_account_login_request}
use go_kickstart.Auth.{Claims, Token, issue, refresh}
use go_kickstart.Handlers.Transactions.{finalize_login}
use go_kickstart.Handlers.{
  clock_now, unix_clock, Handler, H, session, write_status, write_header, write_json, attempt,
  decode_body, normalize_email, allow_otp_issuance, allow_otp_verification, sign_otp, send_otp,
  otp_lifetime, purpose_login, new_session_response, ◌>>=◌, ◌>>◌, go_on,
}

unfoldable pub save_login : Text → Text → ℕ → H (Unit {0})
save_login email code_hash expires_at =
    attempt (upsert_account_login_request email code_hash expires_at)
      (λ _. write_status 500 (txt "err.save_login")) λ _. go_on tt

-- The reply to a login transaction that failed.
unfoldable pub login_failed : Error → H ℕ
login_failed not_found = write_status 401 (txt "err.invalid_login_otp")
login_failed email_unavailable = write_status 500 (txt "err.finalize_login")
login_failed invalid_token = write_status 500 (txt "err.finalize_login")
login_failed expired_token = write_status 500 (txt "err.finalize_login")
login_failed invalid_identity = write_status 500 (txt "err.finalize_login")
login_failed (failure n) = write_status 500 (txt "err.finalize_login")

unfoldable pub refresh_failed : Error → H (Token × Token)
refresh_failed invalid_token = write_status 401 (txt "err.refresh_session")
refresh_failed expired_token = write_status 401 (txt "err.refresh_session")
refresh_failed not_found = write_status 500 (txt "err.refresh_session")
refresh_failed email_unavailable = write_status 500 (txt "err.refresh_session")
refresh_failed invalid_identity = write_status 500 (txt "err.refresh_session")
refresh_failed (failure n) = write_status 500 (txt "err.refresh_session")

abbrev pub subject_claims : ℕ → Claims
subject_claims sub = record { auth_id = []; sub = format_int sub; roles = []; exp = pos 0 }

-- The last step of a login and of a refresh.
unfoldable pub write_session : Token × Token → H (Unit {0})
unfolding unix_clock
write_session p = do time ← unix_clock; write_json 200 (session (new_session_response p.0 p.1 time))

module _ (h : Handler) where
  unfoldable pub login_or_create_account : Option Text → H (Unit {0})
  unfolding clock_now
  login_or_create_account req = do
    address ← decode_body (txt "err.invalid_login_body") req
    let email = normalize_email h address
    if str_eq email [] then write_status 400 (txt "err.invalid_login_email") else do
      allow_otp_issuance purpose_login email
      code ← attempt random_text (λ _. write_status 500 (txt "err.generate_login_otp")) go_on
      time ← clock_now
      save_login email (sign_otp h purpose_login email code) ((time + otp_lifetime) / second)
      send_otp h email code purpose_login
      write_header 204

  -- The body has the email and the code.
  unfoldable pub verify_authentication_code : Option (Text × Text) → H (Unit {0})
  verify_authentication_code req = do
    (address, code) ← decode_body (txt "err.invalid_verify_body") req
    let email = normalize_email h address
    if str_eq email [] then write_status 400 (txt "err.invalid_verify_email") else do
      allow_otp_verification purpose_login email
      sub ←
          attempt (with_tx (finalize_login email (sign_otp h purpose_login email code)))
            login_failed go_on
      tokens ←
          attempt (issue h.authenticator (some (subject_claims sub)))
            (λ _. write_status 500 (txt "err.issue_tokens")) go_on
      write_session tokens

  unfoldable pub refresh_session : Option Text → H (Unit {0})
  refresh_session req = do
    given ← decode_body (txt "err.invalid_refresh_body") req
    let token = trim_space given
    if str_eq token [] then write_status 400 (txt "err.missing_refresh") else do
      tokens ← attempt (refresh h.authenticator token) refresh_failed go_on
      write_session tokens
