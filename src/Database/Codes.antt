-- ===== src/Database/Codes.antt =====
-- The verification codes of database/sqlite/queries.
use go_kickstart.Base.{
  ℕ, ◌≤◌, ◌≡◌, ◌∙◌, refl, sym, inl, inr, Bool, true, false, none, List, [], ◌∷◌, arith, Bool-cases,
  find, remove_all, Text,
}
use go_kickstart.Database.{
  AccountLoginRequest, AccountEmailChangeRequest, not_found, ok, err, World,
}
use go_kickstart.Database.Challenges.{
  matches_login, take_login, consume_account_login_request, matches_change, take_change,
  consume_account_email_change_request,
}
use go_kickstart.Database.Laws.{statement_ok, statement_runs, one_ok}
use go_kickstart.Database.RateLimits.{find-holds}

module _ {ℓ} {A : Type ℓ} (p q : A → Bool) (implied : (x : A) → q x ≡ true → p x ≡ true) where
  pub find-implied : (xs : List A) → find q (remove_all p xs) ≡ none
  find-implied [] = refl
  find-implied (x ∷ xs) = elim (Bool-cases (p x)) [
    | inl h ↦ rw (h, find-implied xs)
    | inr h ↦ elim (Bool-cases (q x)) [
      | inl k ↦ absurd (clash (sym (implied x k) ∙ h))
      | inr k ↦ rw (h, k, find-implied xs)
    ]
  ]
    where
      clash : ¬ (true ≡ false)
      clash h = cc

later_login :
    (email h : Text) (time time' : ℕ)
    → time ≤ time'
    → (r : AccountLoginRequest) → matches_login email h time' r ≡ true
    → matches_login email h time r ≡ true
later_login email h time time' le r m = ground (arith, m, le)

later_change :
    (sub : ℕ) (h : Text) (time time' : ℕ)
    → time ≤ time'
    → (r : AccountEmailChangeRequest) → matches_change sub h time' r ≡ true
    → matches_change sub h time r ≡ true
later_change sub h time time' le r m = ground (arith, m, le)

-- A login code that was taken had been asked for with this email, was not expired, and is refused as
-- unknown when it is presented again at the same time or later, on the same tables, when the engine
-- has no fault.
pub consume_login-once :
    (email h : Text) (time time' : ℕ) (w w' v : World) (row : AccountLoginRequest)
    → consume_account_login_request email h time w ≡ (ok row, w')
    → time ≤ time'
    → v.tables ≡ w'.tables
    → v.faults ≡ []
    → (matches_login email h time row ≡ true)
      × (consume_account_login_request email h time' v ≡ (err not_found, v))
unfolding consume_account_login_request take_login
consume_login-once email h time time' w w' v row taken le same calm =
    let (found, left) =
      one_ok (find (matches_login email h time) w.tables.login_requests) _ w'.tables row
        (statement_ok (take_login email h time) row w w' taken) in
    (
      find-holds (matches_login email h time) w.tables.login_requests row found,
      rw (
        statement_runs (take_login email h time') v calm,
        same,
        left,
        find-implied (matches_login email h time) (matches_login email h time')
            (later_login email h time time' le) w.tables.login_requests,
      ),
    )

-- The same for the code of an email change.
pub consume_change-once :
    (sub : ℕ) (h : Text) (time time' : ℕ) (w w' v : World) (row : AccountEmailChangeRequest)
    → consume_account_email_change_request sub h time w ≡ (ok row, w')
    → time ≤ time'
    → v.tables ≡ w'.tables
    → v.faults ≡ []
    → (matches_change sub h time row ≡ true)
      × (consume_account_email_change_request sub h time' v ≡ (err not_found, v))
unfolding consume_account_email_change_request take_change
consume_change-once sub h time time' w w' v row taken le same calm =
    let (found, left) =
      one_ok (find (matches_change sub h time) w.tables.email_changes) _ w'.tables row
        (statement_ok (take_change sub h time) row w w' taken) in
    (
      find-holds (matches_change sub h time) w.tables.email_changes row found,
      rw (
        statement_runs (take_change sub h time') v calm,
        same,
        left,
        find-implied (matches_change sub h time) (matches_change sub h time')
            (later_change sub h time time' le) w.tables.email_changes,
      ),
    )
