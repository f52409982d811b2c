-- ===== src/Handlers/Codes.antt =====
-- `LoginOrCreateAccount` of handlers/auth.go, step by step.
use mathlib.Core.Path.{subst}
use go_kickstart.Base.{
  ℕ, ◌≤◌, Option, none, List, ◌+◌, ◌/◌, ◌≡◌, ◌∙◌, ◌⊎◌, inl, inr, refl, sym, ap, Bool, true, false,
  ◌&&◌, some, [], ◌∷◌, arith, if◌then◌else◌, find, remove_all, Text, txt, str_eq, str_eq_refl, ◌++◌,
}
use go_kickstart.Database.{
  Mail, Tables, Error, failure, Result, ok, err, World, statement, now, random_text, engine, second,
}
use go_kickstart.Database.Queries.{done, email_fits, is_digest, constraint_failed}
use go_kickstart.Database.Challenges.{login_of, put_login, upsert_account_login_request}
use go_kickstart.Database.Laws.{
  statement_ok, tables-engine, same_tables, Outside, outside, outside-engine, outside-statement,
}
use go_kickstart.Handlers.{
  Handler, Reply, stop, decode_body, normalize_email, allow_otp_issuance, sign_otp, send_otp,
  clock_now, write_status, go_on, otp_mail, purpose_login, otp_lifetime,
}
use go_kickstart.Handlers.Session.{save_login, login_or_create_account}
use go_kickstart.Handlers.Outcome.{
  Outcome, Outcome-if, Outcome-attempted, Outcome-at, Outcome-then, Outcome-imp,
}
use go_kickstart.Handlers.Limits.{
  Limited, Later, Waited, Waited-trans, Waited-outside, now-Waited, allow_otp_request-Outcome,
}

-- The login request of this email has this code.
abbrev pub Saved : Text → Text → ℕ → Tables → Type 0
Saved email code_hash expires_at t =
    find (login_of email) t.login_requests
    ≡ some (record { email = email; otp_hash = code_hash; expires_at = expires_at })

put_guard :
    (b : Bool) (e : Error) (t t' : Tables) (u : Unit {0})
    → (if b then done t else err e) ≡ ok (u, t')
    → t ≡ t'
put_guard true e t t' u h = same_tables h
put_guard false e t t' u h = cc

put_login-Saved :
    (email code_hash : Text) (expires_at : ℕ) (t t' : Tables) (u : Unit {0})
    → put_login email code_hash expires_at t ≡ ok (u, t')
    → Saved email code_hash expires_at t'
unfolding put_login
put_login-Saved email code_hash expires_at t t' u h =
    ap (λ (t : Tables). find (login_of email) t.login_requests)
      (sym
        (put_guard (email_fits email && is_digest code_hash) (failure constraint_failed) _ t' u h))
    ∙ first
  where
    first :
        find (login_of email) (
          record { email = email; otp_hash = code_hash; expires_at = expires_at }
          ∷ remove_all (login_of email) t.login_requests)
        ≡ some (record { email = email; otp_hash = code_hash; expires_at = expires_at })
    first = rw (str_eq_refl email)

save_login-Outcome :
    (P : Reply → World → Type 0) (email code_hash : Text) (expires_at : ℕ) (w : World)
    → ((reply : Reply) (w' : World) → reply.status ≡ 500 → P reply w')
    → Outcome
        (λ _ w'. Saved email code_hash expires_at w'.tables × (outside w' ≡ outside w))
        P
        (save_login email code_hash expires_at w)
unfolding save_login upsert_account_login_request
save_login-Outcome P email code_hash expires_at w k =
    Outcome-attempted _ P (statement (put_login email code_hash expires_at) w) _ _
      (λ e w' h. k _ w' refl)
      λ u w' h. (
        put_login-Saved email code_hash expires_at w.tables w'.tables u
            (statement_ok (put_login email code_hash expires_at) u w w' h),
        ap (λ (r : Result (Unit {0}) × World). outside r.1) (sym h)
            ∙ outside-statement (put_login email code_hash expires_at) w,
      )

-- The message was sent, and nothing else has changed but the faults ahead.
pub record Mailed (mail : Mail) (w w' : World) : Type 0 where
  pub kept : w'.tables ≡ w.tables
  pub took : w'.sent ≡ mail ∷ w.sent
  pub at_once : w'.clock ≡ w.clock

send_otp-Outcome :
    (P : Reply → World → Type 0) (h : Handler) (to code purpose : Text) (w : World)
    → ((reply : Reply) (w' : World) → reply.status ≡ 502 → P reply w')
    → Outcome (λ _ w'. Mailed (otp_mail h to code purpose) w w') P (send_otp h to code purpose w)
unfolding send_otp
send_otp-Outcome P h to code purpose w k =
    Outcome-attempted _ P (engine w) _ _ (λ e w' q. k _ w' refl)
      λ u w' q.
        let same : outside w' ≡ outside w =
          ap (λ (r : Result (Unit {0}) × World). outside r.1) (sym q) ∙ outside-engine w in
        record {
          kept = ap (λ (r : Result (Unit {0}) × World). r.1.tables) (sym q) ∙ tables-engine w;
          took = ap (λ (o : Outside). otp_mail h to code purpose ∷ o.1.0) same;
          at_once = ap (λ (o : Outside). o.0) same;
        }

allow_otp_issuance-Outcome :
    (P : Reply → World → Type 0) (purpose key : Text) (w : World)
    → ((reply : Reply) (w' : World) → Limited reply → P reply w')
    → Outcome (λ _ w'. Waited w w') P (allow_otp_issuance purpose key w)
unfolding allow_otp_issuance
allow_otp_issuance-Outcome P purpose key w k =
    Outcome-then (λ _ w'. Later w w') _ P _ _
      (allow_otp_request-Outcome P (purpose ++ txt ".issue.minute") key 1 60 w k)
      λ _ w₁ first.
        Outcome-imp (λ _ w'. Later w₁ w') _ P _ (λ _ w' then_. Waited-trans w w₁ w' first.1 then_.1)
          (allow_otp_request-Outcome P (purpose ++ txt ".issue.window") key 5 600 w₁ k)

-- A text that was drawn.
pub record Drew (text : Text) (w w' : World) : Type 0 where
  pub head : w.randoms ≡ some text ∷ w'.randoms
  pub silent : w'.sent ≡ w.sent
  pub at_once : w'.clock ≡ w.clock

random_text-Drew : (w w' : World) (text : Text) → random_text w ≡ (ok text, w') → Drew text w w'
unfolding random_text
random_text-Drew w w' text h = by w.randoms refl h
  where
    by :
        (rs : List (Option Text))
        → w.randoms ≡ rs
        → random_text (record w { randoms = rs }) ≡ (ok text, w')
        → Drew text w w'
    by [] q h = cc
    by (none ∷ rs) q h = cc
    by (some t ∷ rs) q h = record {
      head = q ∙ ground (arith, h);
      silent = ap (λ (r : Result Text × World). r.1.sent) (sym h);
      at_once = ap (λ (r : Result Text × World). r.1.clock) (sym h);
    }

-- One message was sent, with a drawn code whose signature the tables have for this email.
pub record Usable (h : Handler) (email : Text) (w w' : World) : Type 0 where
  pub code : Text
  pub undrawn : List (Option Text)
  pub drawn : w.randoms ≡ some code ∷ undrawn
  pub mailed : w'.sent ≡ otp_mail h email code purpose_login ∷ w.sent
  pub made_at : ℕ
  pub after_arrival : w.clock ≤ made_at
  pub before_reply : made_at ≤ w'.clock
  pub saved :
      Saved email
        (sign_otp h purpose_login email code)
        ((made_at + otp_lifetime) / second)
        w'.tables

abbrev LoginReply : Handler → Text → World → Reply → World → Type 0
LoginReply h email w reply w' = reply.status ≡ 204 → Usable h email w w'

not_204 : (n : ℕ) → ((n ≡ 500) ⊎ (n ≡ 429)) ⊎ ((n ≡ 400) ⊎ (n ≡ 502)) → ¬ (n ≡ 204)
not_204 n h e = ground arith

-- The steps put together: the limit until `w₁`, the code until `w₂`, the clock, the request until `w₃`
-- and the message until `w₄`.
issued-Usable :
    (h : Handler) (email code : Text) (w w₁ w₂ w₃ w₄ : World)
    → Waited w w₁
    → Drew code w₁ w₂
    → Saved email
        (sign_otp h purpose_login email code)
        ((w₂.clock + otp_lifetime) / second)
        w₃.tables
    → outside w₃ ≡ outside (now w₂).1
    → Mailed (otp_mail h email code purpose_login) w₃ w₄
    → Usable h email w w₄
issued-Usable h email code w w₁ w₂ w₃ w₄ limited drew saved wrote sent =
    let ticked =
      Waited-trans w₂ (now w₂).1 w₃ (now-Waited w₂) (Waited-outside (now w₂).1 w₃ wrote) in
    record {
      code = code;
      undrawn = w₂.randoms;
      drawn = sym limited.undrawn ∙ drew.head;
      mailed =
          sent.took
          ∙ ap (λ l. otp_mail h email code purpose_login ∷ l)
              (ticked.quiet ∙ drew.silent ∙ limited.quiet);
      made_at = w₂.clock;
      after_arrival = omega (arith, limited.later, drew.at_once);
      before_reply = omega (arith, ticked.later, sent.at_once);
      saved =
          subst
            (Saved email (sign_otp h purpose_login email code) ((w₂.clock + otp_lifetime) / second))
            (sym sent.kept) saved;
    }

login-Outcome :
    (h : Handler) (address : Text) (w : World)
    → Outcome
        (λ _ _. Unit {0})
        (LoginReply h (normalize_email h address) w)
        (login_or_create_account h (some address) w)
unfolding login_or_create_account decode_body clock_now
login-Outcome h address w =
    let email = normalize_email h address in
    let P = LoginReply h email w in
    let none_ : (reply : Reply) (w' : World)
        → ((reply.status ≡ 500) ⊎ (reply.status ≡ 429))
          ⊎ ((reply.status ≡ 400) ⊎ (reply.status ≡ 502))
        → P reply w' =
      λ reply w' l st. absurd (not_204 reply.status l st) in
    Outcome-if _ P (str_eq email []) _ _ w (λ _ st. absurd (not_204 _ (inr (inl refl)) st))
      λ _.
        Outcome-then (λ _ w₁. Waited w w₁) _ P _ _
          (allow_otp_issuance-Outcome P purpose_login email w
            (λ reply w' l. none_ reply w' (inl l)))
          λ _ w₁ limited.
            Outcome-then (λ code w₂. Drew code w₁ w₂) _ P _ _
              (Outcome-attempted (λ code w₂. Drew code w₁ w₂) P (random_text w₁)
                (λ _. write_status 500 (txt "err.generate_login_otp")) go_on
                (λ e w' q st. absurd (not_204 _ (inl (inl refl)) st))
                (λ code w' q. random_text-Drew w₁ w' code q))
              λ code w₂ drew.
                let code_hash = sign_otp h purpose_login email code in
                let expires_at = (w₂.clock + otp_lifetime) / second in
                Outcome-then
                  (λ _ w₃.
                    Saved email code_hash expires_at w₃.tables × (outside w₃ ≡ outside (now w₂).1))
                  _ P _ _
                  (save_login-Outcome P email code_hash expires_at (now w₂).1
                    (λ reply w' l. none_ reply w' (inl (inl l))))
                  λ _ w₃ saved.
                    Outcome-then (λ _ w₄. Mailed (otp_mail h email code purpose_login) w₃ w₄) _ P _
                      _
                      (send_otp-Outcome P h email code purpose_login w₃
                        (λ reply w' l. none_ reply w' (inr (inr l))))
                      λ _ w₄ sent st.
                        issued-Usable h email code w w₁ w₂ w₃ w₄ limited drew saved.0 saved.1 sent

-- When the reply to a request for a login code has status 204, exactly one message was sent, to the
-- normalized email, with the code that the random source answered; the tables have a login request
-- of this email whose hash is the signature of this code; and the request expires at the end of the
-- lifetime of a code, counted in whole seconds from a moment between the arrival of the request and
-- the reply.
pub login_or_create_account-Usable :
    (h : Handler) (address : Text) (w w' : World) (reply : Reply)
    → login_or_create_account h (some address) w ≡ (stop reply, w')
    → reply.status ≡ 204
    → Usable h (normalize_email h address) w w'
login_or_create_account-Usable h address w w' reply ran status =
    Outcome-at (λ _ _. Unit {0}) (LoginReply h (normalize_email h address) w)
      (login_or_create_account h (some address) w) (login-Outcome h address w) reply w' ran status
