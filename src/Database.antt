-- ===== src/Database.antt =====
-- The database layer: the rows and tables of database/sqlite/migrations, the world in which a
-- statement runs, and transactions (database/sqlite/sqlite.go, database/models.go,
-- database/errors.go). The engine is not under the repository: that a statement runs as a whole or
-- fails with no effect, that a transaction which is rolled back or fails to commit leaves no trace,
-- and which statements fail for reasons of their own (`faults`), are the model's assumptions.
pub mod Queries
pub mod Sessions
pub mod Challenges
pub mod Laws
pub mod Ensures
pub mod Atomic
pub mod RateLimits
pub mod Codes
pub mod Mysql
pub mod Tests
use go_kickstart.Base.{
  ℕ, zero, suc, ◌+◌, ◌/◌, ◌^◌, Bool, true, false, Option, none, some, List, [], ◌∷◌, Text, txt,
  if◌then◌else◌,
}

-- `database.Account`, with the authentication identity of its row.
pub record Account : Type 0 where
  pub sub : ℕ
  pub email : Text
  pub created_at : ℕ
  pub auth_id : Text

pub record AccountLoginRequest : Type 0 where
  pub email : Text
  pub otp_hash : Text
  pub expires_at : ℕ

pub record AccountEmailChangeRequest : Type 0 where
  pub sub : ℕ
  pub email : Text
  pub otp_hash : Text
  pub expires_at : ℕ

pub record RefreshToken : Type 0 where
  pub token_hash : Text
  pub sub : ℕ
  pub auth_id : Text
  pub expires_at : ℕ
  pub created_at : ℕ

-- A row of `rate_limits`.
pub record RateLimit : Type 0 where
  pub scope : Text
  pub bucket_key : Text
  pub started_at : ℕ
  pub max_requests : ℕ
  pub requests : ℕ
  pub expires_at : ℕ

abbrev pub permission_change_email : Text
permission_change_email = txt "perm.change_email"

abbrev pub role_default : Text
role_default = txt "role.default"

pub record Tables : Type 0 where
  pub accounts : List Account
  pub last_sub : ℕ
  pub login_requests : List AccountLoginRequest
  pub email_changes : List AccountEmailChangeRequest
  pub refresh_tokens : List RefreshToken
  pub account_roles : List (ℕ × Text)
  pub roles : List Text
  pub role_permissions : List (Text × Text)
  pub rate_limits : List RateLimit

-- The errors that the layers tell apart; `failure` is any other.
pub data Error : Type 0 where
  not_found email_unavailable : Error
  invalid_token expired_token invalid_identity : Error
  failure : ℕ → Error

pub data Result {ℓ} (A : Type ℓ) : Type ℓ where
  ok : A → Result A
  err : Error → Result A

-- A message that the mailer was handed: the keys of the texts of its subject and its body, and what is
-- put into them. The texts themselves are translations.
pub record Mail : Type 0 where
  pub sender : Text
  pub recipient : Text
  pub subject_key : Text
  pub body_key : Text
  pub code : Text
  pub minutes : ℕ

-- `clock` is the time in nanoseconds that the next reading shows, and `delays` how far it moves after
-- each reading. `randoms` are the answers of the random source and `faults` those of the engine and
-- the network: `some n` is a failure before a statement, a begin or a commit takes effect. `sent` has the
-- messages that the mailer took, the last one first.
pub record World : Type 0 where
  pub tables : Tables
  pub clock : ℕ
  pub delays : List ℕ
  pub randoms : List (Option Text)
  pub faults : List (Option ℕ)
  pub sent : List Mail

-- What a call does: its result, and the world after it, also where it fails.
abbrev pub M {ℓ} : Type ℓ → Type ℓ
M A = World → Result A × World

module _ {ℓ} {A : Type ℓ} where
  abbrev pub pure : A → M A
  pure a w = (ok a, w)

  abbrev pub raise : Error → M A
  raise e w = (err e, w)

  abbrev pub lift : Result A → M A
  lift r w = (r, w)

infixl 5 ◌>>=◌ ◌>>◌
module _ {ℓ κ} {A : Type ℓ} {B : Type κ} where
  abbrev pub and_then : Result A × World → (A → M B) → Result B × World
  and_then (ok a, w) f = f a w
  and_then (err e, w) f = (err e, w)

  abbrev pub ◌>>=◌ : M A → (A → M B) → M B
  ◌>>=◌ m f w = and_then (m w) f

abbrev pub ◌>>◌ {ℓ} : {B : Type ℓ} → M (Unit {0}) → M B → M B
m >> k = m >>= λ _. k

abbrev pub second : ℕ
second = 10 ^ 9

-- `time.Now()`, in nanoseconds.
unfoldable pub now : M ℕ
now w = elim w.delays [
  | [] ↦ (ok w.clock, w)
  | d ∷ ds ↦ (ok w.clock, record w { clock = w.clock + d; delays = ds })
]

-- `time.Now().Unix()`
unfoldable pub unix_now : M ℕ
unfolding now
unix_now = do t ← now; pure (t / second)

-- `secrets.RandStr`, whose error has no number of its own.
unfoldable pub random_text : M Text
random_text w = elim w.randoms [
  | [] ↦ (err (failure 0), w)
  | none ∷ rs ↦ (err (failure 0), record w { randoms = rs })
  | some t ∷ rs ↦ (ok t, record w { randoms = rs })
]

-- `database.NewAuthID`
unfoldable pub new_auth_id : M Text
unfolding random_text
new_auth_id = random_text

-- The engine's answer before it acts.
unfoldable pub engine : M (Unit {0})
engine w = elim w.faults [
  | [] ↦ (ok tt, w)
  | none ∷ fs ↦ (ok tt, record w { faults = fs })
  | some n ∷ fs ↦ (err (failure n), record w { faults = fs })
]

module _ {ℓ} {A : Type ℓ} where
  abbrev pub commit_rows : Result (A × Tables) → M A
  commit_rows (ok (a, t)) w = (ok a, record w { tables = t })
  commit_rows (err e) w = (err e, w)

  -- One statement on the tables, which changes nothing if it fails.
  unfoldable pub statement : (Tables → Result (A × Tables)) → M A
  unfolding engine
  statement f = do engine; λ w. commit_rows (f w.tables) w

  abbrev pub roll_back : Tables → Result A × World → Result A × World
  roll_back before (ok a, w) = (ok a, w)
  roll_back before (err e, w) = (err e, record w { tables = before })

  -- `WithTx`: begin, the body, and commit; `defer tx.Rollback()` undoes what is not committed.
  unfoldable pub with_tx : M A → M A
  unfolding engine
  with_tx body = do engine; λ w. roll_back w.tables ((do a ← body; engine; pure a) w)

  -- `if a.db.IsErrNotFound(err) { return e }` after a call.
  abbrev pub renamed : Error → Result A × World → Result A × World
  renamed e (ok a, w) = (ok a, w)
  renamed e (err not_found, w) = (err e, w)
  renamed e (err email_unavailable, w) = (err email_unavailable, w)
  renamed e (err invalid_token, w) = (err invalid_token, w)
  renamed e (err expired_token, w) = (err expired_token, w)
  renamed e (err invalid_identity, w) = (err invalid_identity, w)
  renamed e (err (failure n), w) = (err (failure n), w)

  abbrev pub not_found_as : Error → M A → M A
  not_found_as e m w = renamed e (m w)
