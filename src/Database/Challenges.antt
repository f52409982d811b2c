-- ===== src/Database/Challenges.antt =====
-- database/sqlite/queries: pending verification codes, rate limits and the removal of what expired.
use go_kickstart.Base.{
  ℕ, ◌+◌, ◌-◌, Bool, not, ◌&&◌, ◌||◌, Option, none, some, List, [], ◌∷◌, ltb, leb, ◌==◌,
  if◌then◌else◌, find, remove_all, any, take, Text, str_eq, ℤ, is_pos, pos_part,
}
use go_kickstart.Database.{
  AccountLoginRequest, AccountEmailChangeRequest, RefreshToken, RateLimit, Tables, failure, Result,
  ok, err, M, pure, raise, ◌>>=◌, ◌>>◌, statement,
}
use go_kickstart.Database.Queries.{constraint_failed, one, done, has_sub, is_digest, email_fits}

abbrev pub login_of : Text → AccountLoginRequest → Bool
login_of email r = str_eq r.email email

-- INSERT with ON CONFLICT(email) DO UPDATE
unfoldable pub put_login : Text → Text → ℕ → Tables → Result (Unit {0} × Tables)
put_login email otp_hash expires_at t =
    if email_fits email && is_digest otp_hash
    then done (record t {
      login_requests =
          record { email = email; otp_hash = otp_hash; expires_at = expires_at }
          ∷ remove_all (login_of email) t.login_requests;
    })
    else err (failure constraint_failed)

unfoldable pub upsert_account_login_request : Text → Text → ℕ → M (Unit {0})
upsert_account_login_request email otp_hash expires_at =
    statement (put_login email otp_hash expires_at)

-- A request with this code that has not expired.
abbrev pub matches_login : Text → Text → ℕ → AccountLoginRequest → Bool
matches_login email otp_hash time r =
    str_eq r.email email && str_eq r.otp_hash otp_hash && ltb time r.expires_at

-- `DELETE … WHERE … RETURNING`
unfoldable pub take_login : Text → Text → ℕ → Tables → Result (AccountLoginRequest × Tables)
take_login email otp_hash time t =
    one (find (matches_login email otp_hash time) t.login_requests) (record t {
      login_requests = remove_all (matches_login email otp_hash time) t.login_requests;
    })

unfoldable pub consume_account_login_request : Text → Text → ℕ → M AccountLoginRequest
consume_account_login_request email otp_hash time = statement (take_login email otp_hash time)

unfoldable pub delete_account_login_request : Text → M (Unit {0})
delete_account_login_request email =
    statement
      (λ t. done (record t { login_requests = remove_all (login_of email) t.login_requests }))

abbrev pub change_of : ℕ → AccountEmailChangeRequest → Bool
change_of sub r = r.sub == sub

-- The request belongs to an account.
unfoldable pub put_change : ℕ → Text → Text → ℕ → Tables → Result (Unit {0} × Tables)
put_change sub email otp_hash expires_at t =
    if email_fits email && is_digest otp_hash && any (has_sub sub) t.accounts
    then done (record t {
      email_changes =
          record { sub = sub; email = email; otp_hash = otp_hash; expires_at = expires_at }
          ∷ remove_all (change_of sub) t.email_changes;
    })
    else err (failure constraint_failed)

unfoldable pub upsert_account_email_change_request : ℕ → Text → Text → ℕ → M (Unit {0})
upsert_account_email_change_request sub email otp_hash expires_at =
    statement (put_change sub email otp_hash expires_at)

abbrev pub matches_change : ℕ → Text → ℕ → AccountEmailChangeRequest → Bool
matches_change sub otp_hash time r =
    r.sub == sub && str_eq r.otp_hash otp_hash && ltb time r.expires_at

unfoldable pub take_change : ℕ → Text → ℕ → Tables → Result (AccountEmailChangeRequest × Tables)
take_change sub otp_hash time t =
    one (find (matches_change sub otp_hash time) t.email_changes)
      (record t { email_changes = remove_all (matches_change sub otp_hash time) t.email_changes })

unfoldable pub consume_account_email_change_request : ℕ → Text → ℕ → M AccountEmailChangeRequest
consume_account_email_change_request sub otp_hash time = statement (take_change sub otp_hash time)

unfoldable pub delete_account_email_change_request : ℕ → M (Unit {0})
delete_account_email_change_request sub =
    statement (λ t. done (record t { email_changes = remove_all (change_of sub) t.email_changes }))

module _ {ℓ} {A : Type ℓ} (expiry : A → ℕ) where
  insert_by_expiry : A → List A → List A
  insert_by_expiry a [] = a ∷ []
  insert_by_expiry a (x ∷ xs) =
      if ltb (expiry x) (expiry a) then x ∷ insert_by_expiry a xs else a ∷ x ∷ xs

  expired_rows : (A → Bool) → List A → List A
  expired_rows p [] = []
  expired_rows p (x ∷ xs) =
      let rest = expired_rows p xs in if p x then insert_by_expiry x rest else rest

  -- `DELETE … WHERE p AND key IN (SELECT key … WHERE p ORDER BY expires_at LIMIT n)`
  unfoldable pub delete_batch : ℕ → (A → Bool) → (A → A → Bool) → List A → List A
  unfolding expired_rows insert_by_expiry
  delete_batch n p same_key rows =
      let victims = take n (expired_rows p rows) in
      remove_all (λ x. p x && any (same_key x) victims) rows

abbrev pub same_bucket : RateLimit → RateLimit → Bool
same_bucket a b = str_eq a.scope b.scope && str_eq a.bucket_key b.bucket_key

unfoldable pub delete_expired_rate_limits : ℕ → M (Unit {0})
delete_expired_rate_limits time = statement (λ t. done (record t {
  rate_limits =
      delete_batch (λ (r : RateLimit). r.expires_at) 100 (λ r. leb r.expires_at time) same_bucket
        t.rate_limits;
}))

abbrev pub in_bucket : Text → Text → RateLimit → Bool
in_bucket scope key r = str_eq r.scope scope && str_eq r.bucket_key key

-- The CASE expressions of the upsert: a window that is over starts anew; else the count grows up to
-- one more than the limit.
unfoldable pub charge : ℕ → ℕ → ℕ → RateLimit → RateLimit
charge time expires_at max_requests r =
    if leb r.expires_at time
    then record r {
      requests = 1;
      max_requests = max_requests;
      started_at = time;
      expires_at = expires_at;
    }
    else if leb r.requests r.max_requests
    then record r { requests = r.requests + 1 }
    else r

abbrev pub first_charge : Text → Text → ℕ → ℕ → ℕ → RateLimit
first_charge scope key time expires_at max_requests = record {
  scope = scope;
  bucket_key = key;
  started_at = time;
  max_requests = max_requests;
  requests = 1;
  expires_at = expires_at;
}

abbrev pub charged : Text → Text → ℕ → ℕ → ℕ → Option RateLimit → RateLimit
charged scope key time expires_at max_requests none =
    first_charge scope key time expires_at max_requests
charged scope key time expires_at max_requests (some r) = charge time expires_at max_requests r

-- INSERT with ON CONFLICT (scope, bucket_key) DO UPDATE, RETURNING the row.
unfoldable pub upsert_bucket : Text → Text → ℕ → ℕ → ℕ → Tables → Result (RateLimit × Tables)
upsert_bucket scope key time expires_at max_requests t =
    let row =
      charged scope key time expires_at max_requests (find (in_bucket scope key) t.rate_limits) in
    ok (row, record t { rate_limits = row ∷ remove_all (in_bucket scope key) t.rate_limits })

-- The delay that a row returned by the upsert asks for.
unfoldable pub retry_after : ℕ → RateLimit → ℕ
retry_after time row = if ltb row.max_requests row.requests then row.expires_at - time else 0

-- The window and the limit are int64; an argument that is not positive is refused. The sum of the time
-- and the window stays below 2^63: the callers pass windows of 60 and of 600 seconds.
unfoldable pub take_rate_limit : Text → Text → ℕ → ℤ → ℤ → M ℕ
unfolding retry_after
take_rate_limit scope key time window_seconds max_requests =
    if not (is_pos window_seconds) || not (is_pos max_requests) then raise (failure 0) else do
      delete_expired_rate_limits time
      row ←
          statement
            (upsert_bucket scope key time (time + pos_part window_seconds) (pos_part max_requests))
      pure (retry_after time row)

-- `errors.Join` of two results: the first error is kept, and both run.
abbrev pub join : Result (Unit {0}) → Result (Unit {0}) → Result (Unit {0})
join (ok _) r = r
join (err e) r = err e

abbrev pub both : M (Unit {0}) → M (Unit {0}) → M (Unit {0})
both m k w = let (r, w') = m w in let (r', w'') = k w' in (join r r', w'')

unfoldable pub delete_expired_records : ℕ → M (Unit {0})
delete_expired_records time =
    both
      (statement (λ t. done (record t {
        login_requests =
            delete_batch (λ (r : AccountLoginRequest). r.expires_at) 1000
              (λ r. leb r.expires_at time) (λ a b. str_eq a.email b.email) t.login_requests;
      })))
      (both
        (statement (λ t. done (record t {
          email_changes =
              delete_batch (λ (r : AccountEmailChangeRequest). r.expires_at) 1000
                (λ r. leb r.expires_at time) (λ a b. a.sub == b.sub) t.email_changes;
        })))
        (both
          (statement (λ t. done (record t {
            refresh_tokens =
                delete_batch (λ (r : RefreshToken). r.expires_at) 1000
                  (λ r. not (r.expires_at == 0) && leb r.expires_at time)
                  (λ a b. str_eq a.token_hash b.token_hash) t.refresh_tokens;
          })))
          (delete_expired_rate_limits time)))
