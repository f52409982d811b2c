-- ===== src/Handlers/Replies.antt =====
-- What the replies of handlers/auth.go tell about the tables.
use mathlib.Core.Path.{subst}
use go_kickstart.Base.{
  ◌≤◌, ℕ, ◌/◌, ◌≡◌, ◌∙◌, ◌⊎◌, inl, inr, refl, sym, ap, some, List, [], arith, find, Text, txt,
  str_eq, trim_space, ◌++◌,
}
use go_kickstart.Database.{
  AccountLoginRequest, Tables, Error, not_found, invalid_token, expired_token, email_unavailable,
  invalid_identity, failure, World, with_tx, unix_now, now, second,
}
use go_kickstart.Database.Challenges.{matches_login, take_login, consume_account_login_request}
use go_kickstart.Database.Ensures.{Ensures, Ensures-bind, Ensures-statement, Ensures-tx_clock}
use go_kickstart.Database.Laws.{one_ok, tables-now}
use go_kickstart.Auth.{Token, issue}
use go_kickstart.Auth.Refresh.{Refreshed}
use go_kickstart.Handlers.{
  Handler, Reply, session, stop, decode_body, normalize_email, allow_otp_verification, sign_otp,
  new_session_response, unix_clock, write_status, go_on, purpose_login,
}
use go_kickstart.Handlers.Transactions.{finalize_login}
use go_kickstart.Handlers.Session.{
  write_session, verify_authentication_code, login_failed, subject_claims,
}
use go_kickstart.Handlers.Limits.{Later, allow_otp_request-Outcome}
use go_kickstart.Handlers.Outcome.{Outcome, Outcome-if, Outcome-attempted, Outcome-at, Outcome-then}

-- A refresh that was answered with a session.
pub record Renewed (h : Handler) (token : Text) (t : Tables) (reply : Reply) (t' : Tables)
    : Type 0 where
  pub tokens : Token × Token
  pub time : ℕ
  pub status : reply.status ≡ 200
  pub answer : reply.body ≡ session (new_session_response tokens.0 tokens.1 time)
  pub refreshed : Refreshed h.authenticator (trim_space token) tokens.1.value t t'

write_session-Outcome :
    (P : Reply → World → Type 0) (p : Token × Token) (w : World)
    → ((time : ℕ) (reply : Reply) (w' : World)
        → reply.status ≡ 200
        → reply.body ≡ session (new_session_response p.0 p.1 time)
        → w'.tables ≡ w.tables
        → P reply w')
    → Outcome (λ _ _. Unit {0}) P (write_session p w)
unfolding write_session unix_clock
write_session-Outcome P p w k = k (w.clock / second) _ _ refl refl (tables-now w)

-- A session, or nothing done.
abbrev pub RefreshReply : Handler → Text → World → Reply → World → Type 0
RefreshReply h token w reply w' = Renewed h token w.tables reply w'.tables ⊎ (w'.tables ≡ w.tables)

-- A login code that the tables held and that had not expired at some time from `clock` on.
pub record CodeKnown (email code_hash : Text) (clock : ℕ) (rows : List AccountLoginRequest)
    : Type 0 where
  pub time : ℕ
  pub since : clock / second ≤ time
  pub request : AccountLoginRequest
  pub found : find (matches_login email code_hash time) rows ≡ some request

unix_now-Ensures :
    (w : World) → Ensures (λ t w'. (t ≡ w.clock / second) × (w'.tables ≡ w.tables)) (unix_now w)
unfolding unix_now now
unix_now-Ensures w = record { at = λ t w' h. ground arith }

seconds_mono : (c d : ℕ) → c ≤ d → c / second ≤ d / second
seconds_mono c d h = omega (arith, h)

finalize_login-Ensures :
    (email code_hash : Text) (w : World) (clock : ℕ) (rows : List AccountLoginRequest)
    → w.tables.login_requests ≡ rows
    → clock ≤ w.clock
    → Ensures (λ _ _. CodeKnown email code_hash clock rows) (finalize_login email code_hash w)
unfolding finalize_login consume_account_login_request take_login
finalize_login-Ensures email code_hash w clock rows same late =
    Ensures-bind _ _ _ _ (unix_now-Ensures w) λ time w₁ (t, p).
      Ensures-bind _ _ _ _ (Ensures-statement (take_login email code_hash time) w₁) λ request w₂ q.
        record {
          at = λ _ _ _. record {
            time = time;
            since = subst (λ n. clock / second ≤ n) (sym t) (seconds_mono clock w.clock late);
            request = request;
            found =
                ap (find (matches_login email code_hash time))
                  (sym same ∙ ap (λ (t : Tables). t.login_requests) (sym p))
                ∙ (one_ok (find (matches_login email code_hash time) w₁.tables.login_requests) _
                    w₂.tables request q).0;
          };
        }

abbrev Finished : Text → Text → World → Reply → World → Type 0
Finished email code_hash w reply w' =
    reply.status ≡ 200 → CodeKnown email code_hash w.clock w.tables.login_requests

not_finished : (n : ℕ) → (n ≡ 500) ⊎ ((n ≡ 429) ⊎ ((n ≡ 400) ⊎ (n ≡ 401))) → ¬ (n ≡ 200)
not_finished n h e = ground arith

login_failed-Outcome :
    (Q : ℕ → World → Type 0) (P : Reply → World → Type 0) (e : Error) (w : World)
    → ((reply : Reply)
        → (reply.status ≡ 500)
          ⊎ ((reply.status ≡ 429) ⊎ ((reply.status ≡ 400) ⊎ (reply.status ≡ 401)))
        → P reply w)
    → Outcome Q P (login_failed e w)
unfolding login_failed
login_failed-Outcome Q P not_found w k = k _ (inr (inr (inr refl)))
login_failed-Outcome Q P email_unavailable w k = k _ (inl refl)
login_failed-Outcome Q P invalid_token w k = k _ (inl refl)
login_failed-Outcome Q P expired_token w k = k _ (inl refl)
login_failed-Outcome Q P invalid_identity w k = k _ (inl refl)
login_failed-Outcome Q P (failure n) w k = k _ (inl refl)

verify-Outcome :
    (h : Handler) (address code : Text) (w : World)
    → Outcome
        (λ _ _. Unit {0})
        (Finished
          (normalize_email h address)
          (sign_otp h purpose_login (normalize_email h address) code)
          w)
        (verify_authentication_code h (some (address, code)) w)
unfolding verify_authentication_code decode_body allow_otp_verification
verify-Outcome h address code w =
    let email = normalize_email h address in
    let code_hash = sign_otp h purpose_login email code in
    let P = Finished email code_hash w in
    Outcome-if _ P (str_eq email []) _ _ w
      (λ _ st. absurd (not_finished _ (inr (inr (inl refl))) st))
      λ _.
        Outcome-then (λ _ w'. Later w w') _ P _ _
          (allow_otp_request-Outcome P (purpose_login ++ txt ".verify") email 5 600 w
            (λ reply w' l st. absurd (not_finished reply.status (limited l) st)))
          λ _ w₁ kept.
            Outcome-then (λ _ _. CodeKnown email code_hash w.clock w.tables.login_requests) _ P _ _
              (Outcome-attempted _ P (with_tx (finalize_login email code_hash) w₁) login_failed
                go_on
                (λ e w' q.
                  login_failed-Outcome _ P e w'
                    (λ reply l st. absurd (not_finished reply.status l st)))
                (λ sub w' q.
                  (Ensures-tx_clock
                      (λ _ _. CodeKnown email code_hash w.clock w.tables.login_requests)
                      (finalize_login email code_hash) w₁
                      (λ v t c.
                        finalize_login-Ensures email code_hash v w.clock w.tables.login_requests
                          (ap (λ (t : Tables). t.login_requests) t ∙ kept.0)
                          (subst (λ n. w.clock ≤ n) (sym c) kept.1.later))).at
                    sub w' q))
              λ sub w₂ known.
                Outcome-then (λ _ _. Unit {0}) _ P _ _
                  (Outcome-attempted _ P (issue h.authenticator (some (subject_claims sub)) w₂)
                    (λ _. write_status 500 (txt "err.issue_tokens")) go_on
                    (λ e w' q st. absurd (not_finished _ (inl refl) st)) (λ p w' q. tt))
                  λ p w₃ _. write_session-Outcome P p w₃ (λ time reply w' a b c st. known)
  where
    limited : {n : ℕ} → (n ≡ 500) ⊎ (n ≡ 429) → (n ≡ 500) ⊎ ((n ≡ 429) ⊎ ((n ≡ 400) ⊎ (n ≡ 401)))
    limited (inl x) = inl x
    limited (inr x) = inr (inl x)

-- A login is answered with a session only for a known code: if the reply to an email and a code has
-- status 200, then among the login requests at the arrival of the request was one of the normalized
-- email with the signature of this code that had not expired then.
pub verify_authentication_code-Finished :
    (h : Handler) (address code : Text) (w w' : World) (reply : Reply)
    → verify_authentication_code h (some (address, code)) w ≡ (stop reply, w')
    → reply.status ≡ 200
    → CodeKnown
        (normalize_email h address)
        (sign_otp h purpose_login (normalize_email h address) code)
        w.clock
        w.tables.login_requests
verify_authentication_code-Finished h address code w w' reply ran status =
    Outcome-at (λ _ _. Unit {0})
      (Finished (normalize_email h address)
        (sign_otp h purpose_login (normalize_email h address) code) w)
      _ (verify-Outcome h address code w) reply w' ran status
