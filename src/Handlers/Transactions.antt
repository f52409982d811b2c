-- ===== src/Handlers/Transactions.antt =====
-- The transactions of handlers/auth.go and handlers/account.go.
use go_kickstart.Base.{ℕ, Text}
use go_kickstart.Database.{M, pure, ◌>>=◌, ◌>>◌, unix_now, role_default}
use go_kickstart.Database.Queries.{ensure_account_by_email, update_account_email}
use go_kickstart.Database.Sessions.{assign_role_to_account}
use go_kickstart.Database.Challenges.{
  consume_account_login_request, consume_account_email_change_request,
}

-- A login takes its code, and makes the account if there is none.
unfoldable pub finalize_login : Text → Text → M ℕ
finalize_login email code_hash = do
  time ← unix_now
  _ ← consume_account_login_request email code_hash time
  created_at ← unix_now
  sub ← ensure_account_by_email email created_at
  assign_role_to_account sub role_default
  pure sub

unfoldable pub confirm_change : ℕ → Text → M (Unit {0})
confirm_change sub code_hash = do
  time ← unix_now
  saved ← consume_account_email_change_request sub code_hash time
  update_account_email sub saved.email
