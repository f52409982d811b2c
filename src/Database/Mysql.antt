-- ===== src/Database/Mysql.antt =====
-- database/mysql/queries: the methods that are written in Go over several statements, since MySQL has no
-- RETURNING. The others are one statement each. How a column of texts is compared is the collation of
-- the server, a parameter.
pub mod Keyed
pub mod Equivalence
pub mod Limits
mod Tests
use go_kickstart.Base.{
  ℕ, ◌+◌, Bool, true, false, not, ◌&&◌, ◌||◌, Option, none, some, List, [], ◌∷◌, ltb, leb, ◌==◌,
  if◌then◌else◌, find, remove_all, Text, ℤ, is_pos, pos_part,
}
use go_kickstart.Database.{
  AccountLoginRequest, AccountEmailChangeRequest, RefreshToken, RateLimit, Tables, failure, Result,
  ok, err, M, pure, raise, ◌>>=◌, ◌>>◌, statement, with_tx,
}
use go_kickstart.Database.Queries.{one, done}
use go_kickstart.Database.Challenges.{
  change_of, first_charge, delete_expired_rate_limits, retry_after,
}

-- `withTx`: the body alone, if the querier belongs to a transaction.
unfoldable pub mysql_with_tx {ℓ} : {A : Type ℓ} → Bool → M A → M A
mysql_with_tx true body = body
mysql_with_tx false body = with_tx body

-- The assignments of the upsert, one after another: each reads the row as those before have left it.
abbrev pub set_requests : ℕ → RateLimit → RateLimit
set_requests time r = record r {
  requests =
      if leb r.expires_at time
      then 1
      else if leb r.requests r.max_requests
      then r.requests + 1
      else r.requests;
}

abbrev pub set_max_requests : ℕ → ℕ → RateLimit → RateLimit
set_max_requests time max_requests r = record r {
  max_requests = if leb r.expires_at time then max_requests else r.max_requests;
}

abbrev pub set_started_at : ℕ → RateLimit → RateLimit
set_started_at time r = record r {
  started_at = if leb r.expires_at time then time else r.started_at;
}

abbrev pub set_expires_at : ℕ → ℕ → RateLimit → RateLimit
set_expires_at time expires_at r = record r {
  expires_at = if leb r.expires_at time then expires_at else r.expires_at;
}

unfoldable pub mysql_charge : ℕ → ℕ → ℕ → RateLimit → RateLimit
mysql_charge time expires_at max_requests r =
    set_expires_at time expires_at
      (set_started_at time (set_max_requests time max_requests (set_requests time r)))

abbrev pub mysql_charged : Text → Text → ℕ → ℕ → ℕ → Option RateLimit → RateLimit
mysql_charged scope key time expires_at max_requests none =
    first_charge scope key time expires_at max_requests
mysql_charged scope key time expires_at max_requests (some r) =
    mysql_charge time expires_at max_requests r

module _ (same : Text → Text → Bool) where
  abbrev pub same_hash : Text → RefreshToken → Bool
  same_hash h r = same r.token_hash h

  unfoldable pub mysql_consume_refresh_token_by_hash : Bool → Text → M RefreshToken
  mysql_consume_refresh_token_by_hash in_tx token_hash = mysql_with_tx in_tx (do
    saved ← statement (λ t. one (find (same_hash token_hash) t.refresh_tokens) t)
    statement (λ t.
        done
          (record t { refresh_tokens = remove_all (same_hash saved.token_hash) t.refresh_tokens }))
    pure saved)

  abbrev pub saved_login : Text → Text → ℕ → AccountLoginRequest → Bool
  saved_login email otp_hash time r =
      same r.email email && same r.otp_hash otp_hash && ltb time r.expires_at

  unfoldable pub mysql_consume_account_login_request :
      Bool → Text → Text → ℕ → M AccountLoginRequest
  mysql_consume_account_login_request in_tx email otp_hash time = mysql_with_tx in_tx (do
    saved ← statement (λ t. one (find (saved_login email otp_hash time) t.login_requests) t)
    statement (λ t. done (record t {
      login_requests =
          remove_all (λ (r : AccountLoginRequest). same r.email saved.email) t.login_requests;
    }))
    pure saved)

  abbrev pub saved_change : ℕ → Text → ℕ → AccountEmailChangeRequest → Bool
  saved_change sub otp_hash time r =
      r.sub == sub && same r.otp_hash otp_hash && ltb time r.expires_at

  unfoldable pub mysql_consume_account_email_change_request :
      Bool → ℕ → Text → ℕ → M AccountEmailChangeRequest
  mysql_consume_account_email_change_request in_tx sub otp_hash time = mysql_with_tx in_tx (do
    saved ← statement (λ t. one (find (saved_change sub otp_hash time) t.email_changes) t)
    statement
        (λ t. done (record t { email_changes = remove_all (change_of saved.sub) t.email_changes }))
    pure saved)

  abbrev pub same_row : Text → Text → RateLimit → Bool
  same_row scope key r = same r.scope scope && same r.bucket_key key

  -- INSERT with ON DUPLICATE KEY UPDATE. The clean-up before it, `DELETE … ORDER BY expires_at LIMIT 100`,
  -- deletes the rows that the subquery on SQLite selects, as a scope and a key have one row; ties are
  -- broken by the order of the rows. The time and the window are as in `take_rate_limit`.
  unfoldable pub mysql_upsert_bucket : Text → Text → ℕ → ℕ → ℕ → Tables → Result (Unit {0} × Tables)
  mysql_upsert_bucket scope key time expires_at max_requests t =
      let row =
        mysql_charged scope key time expires_at max_requests
          (find (same_row scope key) t.rate_limits) in
      done (record t { rate_limits = row ∷ remove_all (same_row scope key) t.rate_limits })

  unfoldable pub mysql_take_rate_limit : Bool → Text → Text → ℕ → ℤ → ℤ → M ℕ
  unfolding retry_after
  mysql_take_rate_limit in_tx scope key time window_seconds max_requests =
      if not (is_pos window_seconds) || not (is_pos max_requests) then raise (failure 0) else do
        delete_expired_rate_limits time
        mysql_with_tx in_tx (do
          statement (
              mysql_upsert_bucket scope key time (time + pos_part window_seconds)
                (pos_part max_requests))
          row ← statement (λ t. one (find (same_row scope key) t.rate_limits) t)
          pure (retry_after time row))
