-- ===== src/Database/Mysql/Equivalence.antt =====
-- What the methods of MySQL over several statements do, against the single statements of SQLite.
use mathlib.Core.Path.{subst}
use go_kickstart.Base.{
  ℕ, ◌≡◌, refl, sym, ap, ◌∙◌, Bool, true, false, Option, none, some, [], arith, ◌==◌, find,
  remove_all, Text, str_eq, str_eq_iff,
}
use go_kickstart.Database.{
  AccountLoginRequest, AccountEmailChangeRequest, RateLimit, Tables, Error, Result, ok, err, World,
  M, pure, ◌>>=◌, ◌>>◌, statement, and_then, engine, roll_back, with_tx, commit_rows,
}
use go_kickstart.Database.Laws.{
  bind_ok, one_ok, statement_ok, statement_err, statement_runs, engine_ok, with_tx_ok, with_tx_err,
  same_tables, same_value,
}
use go_kickstart.Database.Queries.{one, done, has_hash}
use go_kickstart.Database.Sessions.{without_token}
use go_kickstart.Database.Challenges.{
  matches_login, take_login, login_of, matches_change, take_change, change_of, charge,
}
use go_kickstart.Database.Mysql.Keyed.{Keyed, remove_all-Keyed}
use go_kickstart.Database.RateLimits.{find-holds}
use go_kickstart.Database.Mysql.{
  mysql_with_tx, mysql_charge, mysql_consume_refresh_token_by_hash,
  mysql_consume_account_login_request, mysql_consume_account_email_change_request,
}

-- The assignments in their order leave what the CASE expressions of SQLite compute at once.
pub charge-mysql_charge :
    (time expires_at max_requests : ℕ) (r : RateLimit)
    → mysql_charge time expires_at max_requests r ≡ charge time expires_at max_requests r
unfolding mysql_charge charge
charge-mysql_charge time expires_at max_requests r = ground arith

-- A body that succeeded in a transaction, or in the caller's.
pub tx_body :
    {A : Type 0} (in_tx : Bool) (body : M A) (a : A) (w w' : World)
    → mysql_with_tx in_tx body w ≡ (ok a, w')
    → (u : World) × (v : World) × ((u.tables ≡ w.tables)
        × ((body u ≡ (ok a, v)) × (w'.tables ≡ v.tables)))
unfolding mysql_with_tx
tx_body true body a w w' h = (w, w', (refl, (h, refl)))
tx_body false body a w w' h =
    let c = with_tx_ok body a w w' h in (c.begun, c.ended, (c.start, (c.ran, c.final)))

-- To read a row and then write what is left without it.
read_then_write :
    {A : Type 0} (read : Tables → Option A) (rest : A → Tables → Tables) (a : A) (w w' : World)
    → (do saved ← statement (λ t. one (read t) t); statement (λ t. done (rest saved t)); pure saved)
        w
      ≡ (ok a, w')
    → (read w.tables ≡ some a) × (w'.tables ≡ rest a w.tables)
read_then_write {A = A} read rest a w w' h =
    let b =
      bind_ok (statement (λ t. one (read t) t))
        (λ saved. statement (λ t. done (rest saved t)) >>= λ _. pure saved) a w w' h in
    let (found, same) =
      one_ok (read w.tables) w.tables b.between.tables b.value
        (statement_ok (λ t. one (read t) t) b.value w b.between b.first) in
    let c =
      bind_ok (statement (λ t. done (rest b.value t))) (λ _. pure b.value) a b.between w' b.rest in
    let written =
      same_tables (statement_ok (λ t. done (rest b.value t)) c.value b.between c.between c.first) in
    let is : b.value ≡ a = same_value (ap (λ o. o.0) c.rest) in
    (
      found ∙ ap some is,
      sym (ap (λ o. o.1.tables) c.rest)
          ∙ sym written
          ∙ ap (λ t. rest b.value t) same
          ∙ ap (λ x. rest x w.tables) is,
    )

-- The statement after the read fails, or the read has.
failed_after {ℓ} :
    {A : Type 0} {B : Type ℓ} (write : A → Tables → Result (B × Tables)) (t : Tables)
    (r : Result A × World) (e : Error) (w' : World)
    → r.1.tables ≡ t
    → and_then r (λ saved. statement (write saved) >>= λ _. pure saved) ≡ (err e, w')
    → w'.tables ≡ t
failed_after {B = B} write t (err e', v) e w' p h = ground (arith, h, p)
failed_after {B = B} write t (ok a, v) e w' p h = by (statement (write a) v) refl h
  where
    by :
        (s : Result B × World)
        → statement (write a) v ≡ s
        → and_then s (λ _. pure a) ≡ (err e, w')
        → w'.tables ≡ t
    by (ok b, u) q h = cc
    by (err e', u) q h =
        ap (λ (o : Result _ × World). o.1.tables) (sym h) ∙ statement_err (write a) e' v u q ∙ p

tables-read :
    {A : Type 0} (read : Tables → Option A) (w : World)
    → (statement (λ t. one (read t) t) w).1.tables ≡ w.tables
tables-read {A} read w = by (statement (λ t. one (read t) t) w) refl
  where
    by : (r : Result A × World) → statement (λ t. one (read t) t) w ≡ r → r.1.tables ≡ w.tables
    by (ok a, v) q =
        (one_ok (read w.tables) w.tables v.tables a (statement_ok (λ t. one (read t) t) a w v q)).1
    by (err e, v) q = statement_err (λ t. one (read t) t) e w v q

-- The result without the tables.
abbrev pub result_of : {A : Type 0} → Result (A × Tables) → Result A
result_of (ok (a, t)) = ok a
result_of (err e) = err e

-- A call does what a single statement says, or fails and leaves the tables; and where the engine has no
-- fault it answers what the statement answers.
pub record Implements {A : Type 0} (f : Tables → Result (A × Tables)) (m : M A) (w : World)
    : Type 0 where
  pub on_ok : (a : A) (w' : World) → m w ≡ (ok a, w') → f w.tables ≡ ok (a, w'.tables)
  pub on_err : (e : Error) (w' : World) → m w ≡ (err e, w') → w'.tables ≡ w.tables
  pub answers : w.faults ≡ [] → (m w).0 ≡ result_of (f w.tables)

module _ {A : Type 0} where
  -- The end of a transaction keeps the answer of its body.
  ended :
      (t : Tables) (r : Result A × World)
      → r.1.faults ≡ []
      → (roll_back t (and_then r (λ a. engine >>= λ _. pure a))).0 ≡ r.0
  ended t (ok a, v) h = rw (engine_ok v h) refl
  ended t (err e, v) h = refl

  tx_answers :
      (in_tx : Bool) (body : M A) (w : World)
      → w.faults ≡ []
      → (body w).1.faults ≡ []
      → (mysql_with_tx in_tx body w).0 ≡ (body w).0
  unfolding mysql_with_tx with_tx
  tx_answers true body w h k = refl
  tx_answers false body w h k = rw (engine_ok w h) (ended w.tables (body w) k)

  -- A call that leaves the tables where it fails does so in a transaction too.
  tx_fails :
      (in_tx : Bool) (body : M A) (e : Error) (w w' : World)
      → ((v : World) → body w ≡ (err e, v) → v.tables ≡ w.tables)
      → mysql_with_tx in_tx body w ≡ (err e, w')
      → w'.tables ≡ w.tables
  unfolding mysql_with_tx
  tx_fails true body e w w' k h = k w' h
  tx_fails false body e w w' k h = with_tx_err body e w w' h

  module _ (read : Tables → Option A) (rest : A → Tables → Tables) where
    abbrev read_written : M A
    read_written = do
      saved ← statement (λ t. one (read t) t)
      statement (λ t. done (rest saved t))
      pure saved

    -- With no faults ahead the row is found or not.
    found_written :
        (o : Option A) (left : Tables) (w : World)
        → w.faults ≡ []
        → ◌≡◌ {A = Result A}
            (and_then
              (commit_rows (one o w.tables) w)
              (λ saved. statement (λ t. done (rest saved t)) >>= λ _. pure saved)).0
            (result_of (one o left))
          × ((and_then
                (commit_rows (one o w.tables) w)
                (λ saved. statement (λ t. done (rest saved t)) >>= λ _. pure saved)).1.faults
              ≡ [])
    found_written none left w h = (refl, h)
    found_written (some a) left w h = rw (statement_runs (λ t. done (rest a t)) w h) (refl, h)

    read_written-runs :
        (left : Tables) (w : World)
        → w.faults ≡ []
        → ((read_written w).0 ≡ result_of (one (read w.tables) left))
          × ((read_written w).1.faults ≡ [])
    read_written-runs left w h =
        rw (statement_runs (λ t. one (read t) t) w h) (found_written (read w.tables) left w h)

Implements-read_then_write :
    {A : Type 0} (in_tx : Bool) (read : Tables → Option A) (rest : A → Tables → Tables)
    (left : Tables → Tables) (w : World)
    → ((t : Tables) (a : A) → t ≡ w.tables → read t ≡ some a → rest a t ≡ left t)
    → Implements (λ t. one (read t) (left t)) (mysql_with_tx in_tx (read_written read rest)) w
Implements-read_then_write {A} in_tx read rest left w same = record {
  on_ok = λ a w' h.
      let (u, v, (before, (ran, after))) = tx_body in_tx (read_written read rest) a w w' h in
      let (found, wrote) = read_then_write read rest a u v ran in
      let here = ap read (sym before) ∙ found in
      ap (λ o. one o (left w.tables)) here
      ∙ ap (λ t. ok (a, t)) (sym (after ∙ wrote ∙ same u.tables a before found ∙ ap left before));
  on_err = λ e w' h.
      tx_fails in_tx (read_written read rest) e w w'
        (λ v k.
          failed_after (λ saved t. done (rest saved t)) w.tables (statement (λ t. one (read t) t) w)
            e v (tables-read read w) k)
        h;
  answers = λ h.
      let (answer, sound) = read_written-runs read rest (left w.tables) w h in
      tx_answers in_tx (read_written read rest) w h sound ∙ answer;
}

pub str_eq-sym : (s t : Text) → str_eq s t ≡ false → str_eq t s ≡ false
str_eq-sym s t h = ground (arith, h, str_eq_iff s t, str_eq_iff t s)

pub ==-sym : (m n : ℕ) → (m == n) ≡ false → (n == m) ≡ false
==-sym m n h = ground (arith, h)

consume_token-Implements :
    (in_tx : Bool) (token_hash : Text) (w : World)
    → Implements
        (λ t. one (find (has_hash token_hash) t.refresh_tokens) (without_token token_hash t))
        (mysql_consume_refresh_token_by_hash str_eq in_tx token_hash)
        w
unfolding mysql_consume_refresh_token_by_hash
consume_token-Implements in_tx token_hash w =
    Implements-read_then_write in_tx (λ t. find (has_hash token_hash) t.refresh_tokens)
      (λ saved. without_token saved.token_hash) (without_token token_hash) w
      (λ t a e found.
        ap (λ h. without_token h t)
          ((str_eq_iff a.token_hash token_hash).0
            (find-holds (has_hash token_hash) t.refresh_tokens a found)))

login_email :
    (email otp_hash : Text) (time : ℕ) (r x : AccountLoginRequest)
    → matches_login email otp_hash time r ≡ true
    → matches_login email otp_hash time x ≡ true
    → str_eq x.email r.email ≡ true
login_email email otp_hash time r x h k =
    ground
      (arith, h, k, str_eq_iff r.email email, str_eq_iff x.email email, str_eq_iff x.email r.email)

consume_login-Implements :
    (in_tx : Bool) (email otp_hash : Text) (time : ℕ) (w : World)
    → Keyed
        (λ x y. str_eq x.email y.email)
        (λ x y. str_eq-sym x.email y.email)
        w.tables.login_requests
    → Implements
        (take_login email otp_hash time)
        (mysql_consume_account_login_request str_eq in_tx email otp_hash time)
        w
unfolding mysql_consume_account_login_request take_login
consume_login-Implements in_tx email otp_hash time w keyed =
    Implements-read_then_write in_tx
      (λ t. find (matches_login email otp_hash time) t.login_requests)
      (λ saved t. record t { login_requests = remove_all (login_of saved.email) t.login_requests })
      (λ t. record t {
        login_requests = remove_all (matches_login email otp_hash time) t.login_requests;
      })
      w
      (λ t a e found.
        ap (λ rows. record t { login_requests = rows })
          (remove_all-Keyed (λ x y. str_eq x.email y.email) (λ x y. str_eq-sym x.email y.email)
            (matches_login email otp_hash time) a t.login_requests
            (subst
              (λ t.
                Keyed (λ x y. str_eq x.email y.email) (λ x y. str_eq-sym x.email y.email)
                  t.login_requests)
              (sym e) keyed)
            (λ x.
              login_email email otp_hash time a x
                (find-holds (matches_login email otp_hash time) t.login_requests a found))
            found))

change_account :
    (sub : ℕ) (otp_hash : Text) (time : ℕ) (r x : AccountEmailChangeRequest)
    → matches_change sub otp_hash time r ≡ true
    → matches_change sub otp_hash time x ≡ true
    → (x.sub == r.sub) ≡ true
change_account sub otp_hash time r x h k = ground (arith, h, k)

consume_change-Implements :
    (in_tx : Bool) (sub : ℕ) (otp_hash : Text) (time : ℕ) (w : World)
    → Keyed (λ x y. x.sub == y.sub) (λ x y. ==-sym x.sub y.sub) w.tables.email_changes
    → Implements
        (take_change sub otp_hash time)
        (mysql_consume_account_email_change_request str_eq in_tx sub otp_hash time)
        w
unfolding mysql_consume_account_email_change_request take_change
consume_change-Implements in_tx sub otp_hash time w keyed =
    Implements-read_then_write in_tx (λ t. find (matches_change sub otp_hash time) t.email_changes)
      (λ saved t. record t { email_changes = remove_all (change_of saved.sub) t.email_changes })
      (λ t. record t {
        email_changes = remove_all (matches_change sub otp_hash time) t.email_changes;
      })
      w
      (λ t a e found.
        ap (λ rows. record t { email_changes = rows })
          (remove_all-Keyed (λ x y. x.sub == y.sub) (λ x y. ==-sym x.sub y.sub)
            (matches_change sub otp_hash time) a t.email_changes
            (subst (λ t. Keyed (λ x y. x.sub == y.sub) (λ x y. ==-sym x.sub y.sub) t.email_changes)
              (sym e) keyed)
            (λ x.
              change_account sub otp_hash time a x
                (find-holds (matches_change sub otp_hash time) t.email_changes a found))
            found))

-- On a server that compares texts byte by byte, the methods that consume a refresh token, a login
-- code and the code of an email change do on MySQL, over their statements, in the transaction of a
-- caller or in their own, what the single statement of SQLite does: each returns the row and leaves
-- the tables of that statement, or fails and leaves the tables as they were; and when the engine has
-- no fault its answer, a row or that there is none, is the one of that statement. For the two codes
-- this is stated when no two pending requests have the same email or account.
pub mysql_consume-Implements :
    (in_tx : Bool) (same : Text → Text → Bool) (token_hash email : Text) (sub : ℕ) (otp_hash : Text)
    (time : ℕ) (w : World)
    → same ≡ str_eq
    → Keyed
        (λ x y. str_eq x.email y.email)
        (λ x y. str_eq-sym x.email y.email)
        w.tables.login_requests
    → Keyed (λ x y. x.sub == y.sub) (λ x y. ==-sym x.sub y.sub) w.tables.email_changes
    → Implements
        (λ t. one (find (has_hash token_hash) t.refresh_tokens) (without_token token_hash t))
        (mysql_consume_refresh_token_by_hash same in_tx token_hash)
        w
      × (Implements
            (take_login email otp_hash time)
            (mysql_consume_account_login_request same in_tx email otp_hash time)
            w
          × Implements
              (take_change sub otp_hash time)
              (mysql_consume_account_email_change_request same in_tx sub otp_hash time)
              w)
mysql_consume-Implements in_tx same token_hash email sub otp_hash time w bytes logins changes =
    subst
      (λ same.
        Implements
          (λ t. one (find (has_hash token_hash) t.refresh_tokens) (without_token token_hash t))
          (mysql_consume_refresh_token_by_hash same in_tx token_hash) w
        × (Implements (take_login email otp_hash time)
              (mysql_consume_account_login_request same in_tx email otp_hash time) w
            × Implements (take_change sub otp_hash time)
                (mysql_consume_account_email_change_request same in_tx sub otp_hash time) w))
      (sym bytes)
      (
        consume_token-Implements in_tx token_hash w,
        (
          consume_login-Implements in_tx email otp_hash time w logins,
          consume_change-Implements in_tx sub otp_hash time w changes,
        ),
      )
