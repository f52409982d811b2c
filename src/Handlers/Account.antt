-- ===== src/Handlers/Account.antt =====
-- handlers/account.go. The identity is what the middleware left in the request's context.
use go_kickstart.Base.{
  ℕ, ◌+◌, ◌/◌, Option, none, some, [], if◌then◌else◌, Text, txt, str_eq, format_int,
}
use go_kickstart.Database.{
  Account, Error, not_found, email_unavailable, invalid_token, expired_token, invalid_identity,
  failure, random_text, with_tx, second, permission_change_email,
}
use go_kickstart.Database.Queries.{select_account_by_sub, delete_account}
use go_kickstart.Database.Challenges.{upsert_account_email_change_request}
use go_kickstart.Auth.{revoke_all}
use go_kickstart.Middleware.{Identity, authenticate_bearer, require_permission}
use go_kickstart.Handlers.Transactions.{confirm_change}
use go_kickstart.Handlers.{
  Handler, H, account, write_status, write_header, write_json, attempt, clock_now, decode_body,
  normalize_email, allow_otp_issuance, allow_otp_verification, sign_otp, send_otp, otp_lifetime,
  purpose_email_change, ◌>>=◌, ◌>>◌, go_on,
}

unfoldable pub require_identity : Option Identity → H Identity
require_identity none = write_status 500 (txt "err.missing_account_subject")
require_identity (some identity) = go_on identity

unfoldable pub account_failed : Error → H Account
account_failed not_found = write_status 404 (txt "err.account_not_found")
account_failed email_unavailable = write_status 500 (txt "err.select_account")
account_failed invalid_token = write_status 500 (txt "err.select_account")
account_failed expired_token = write_status 500 (txt "err.select_account")
account_failed invalid_identity = write_status 500 (txt "err.select_account")
account_failed (failure n) = write_status 500 (txt "err.select_account")

unfoldable pub load_account : ℕ → H Account
unfolding account_failed
load_account sub = attempt (select_account_by_sub sub) account_failed go_on

unfoldable pub get_account : Option Identity → H (Unit {0})
get_account context = do
  identity ← require_identity context
  row ← load_account identity.sub
  write_json 200 (account row.email row.created_at)

unfoldable pub delete_account_request : Option Identity → H (Unit {0})
delete_account_request context = do
  identity ← require_identity context
  attempt (revoke_all (some identity.claims)) (λ _. write_status 500 (txt "err.revoke_sessions"))
      go_on
  attempt (delete_account identity.sub) (λ _. write_status 500 (txt "err.delete_account")) go_on
  write_header 204

unfoldable pub confirm_failed : Error → H (Unit {0})
confirm_failed email_unavailable = write_status 409 (txt "err.email_unavailable")
confirm_failed not_found = write_status 401 (txt "err.invalid_email_change_otp")
confirm_failed invalid_token = write_status 500 (txt "err.confirm_email_change")
confirm_failed expired_token = write_status 500 (txt "err.confirm_email_change")
confirm_failed invalid_identity = write_status 500 (txt "err.confirm_email_change")
confirm_failed (failure n) = write_status 500 (txt "err.confirm_email_change")

module _ (h : Handler) where
  unfoldable pub request_email_change : Option Identity → Option Text → H (Unit {0})
  unfolding clock_now
  request_email_change context req = do
    identity ← require_identity context
    address ← decode_body (txt "err.invalid_email_change_body") req
    let new_email = normalize_email h address
    if str_eq new_email [] then write_status 400 (txt "err.invalid_email_change") else do
      row ← load_account identity.sub
      if str_eq row.email new_email then write_status 400 (txt "err.email_change_same") else do
        allow_otp_issuance purpose_email_change (format_int identity.sub)
        code ←
            attempt random_text (λ _. write_status 500 (txt "err.generate_email_change_otp")) go_on
        time ← clock_now
        attempt
            (upsert_account_email_change_request identity.sub new_email
              (sign_otp h purpose_email_change (format_int identity.sub) code)
              ((time + otp_lifetime) / second))
            (λ _. write_status 500 (txt "err.save_email_change")) go_on
        send_otp h new_email code purpose_email_change
        write_header 204

  unfoldable pub confirm_email_change : Option Identity → Option Text → H (Unit {0})
  confirm_email_change context req = do
    identity ← require_identity context
    code ← decode_body (txt "err.invalid_email_confirm_body") req
    allow_otp_verification purpose_email_change (format_int identity.sub)
    attempt
        (with_tx (
          confirm_change identity.sub
            (sign_otp h purpose_email_change (format_int identity.sub) code)))
        confirm_failed go_on
    write_header 204

  -- The handlers of the routes, behind the middleware, from the Authorization header and the body.
  unfoldable pub authenticated : Text → (Option Identity → H (Unit {0})) → H (Unit {0})
  authenticated header next =
      authenticate_bearer h.authenticator header (λ identity. next (some identity))

  unfoldable pub can_change_email : Text → (Option Identity → H (Unit {0})) → H (Unit {0})
  unfolding authenticated
  can_change_email header next =
      authenticated header
        (require_permission permission_change_email (λ identity. next (some identity)))

  unfoldable pub get_account_route : Text → H (Unit {0})
  unfolding authenticated
  get_account_route header = authenticated header get_account

  unfoldable pub delete_account_route : Text → H (Unit {0})
  unfolding authenticated
  delete_account_route header = authenticated header delete_account_request

  unfoldable pub email_change_route : Text → Option Text → H (Unit {0})
  unfolding can_change_email
  email_change_route header req =
      can_change_email header (λ context. request_email_change context req)

  unfoldable pub email_change_confirm_route : Text → Option Text → H (Unit {0})
  unfolding can_change_email
  email_change_confirm_route header req =
      can_change_email header (λ context. confirm_email_change context req)
