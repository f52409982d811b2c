-- ===== src/Database/Laws.antt =====
-- What can be concluded from the outcome of a call, a statement or a transaction.
use go_kickstart.Base.{◌≡◌, refl, sym, ap, ◌∙◌, Option, none, some, List, [], ◌∷◌, arith}
use go_kickstart.Base.{Text, ℕ}
use go_kickstart.Database.Queries.{one, auth_id_of}
use go_kickstart.Database.{
  Account, Tables, Error, not_found, email_unavailable, invalid_token, expired_token,
  invalid_identity, failure, Result, ok, err, World, M, pure, ◌>>=◌, ◌>>◌, and_then, engine,
  commit_rows, statement, roll_back, with_tx, renamed, Mail, now, unix_now, random_text,
}

-- A sequence that succeeded.
pub record Bound {ℓ κ} {A : Type ℓ} {B : Type κ} (r : Result A × World) (f : A → M B) (b : B)
    (w' : World) : Type (ℓ ⊔ κ) where
  pub value : A
  pub between : World
  pub first : r ≡ (ok value, between)
  pub rest : f value between ≡ (ok b, w')

module _ {ℓ κ} {A : Type ℓ} {B : Type κ} where
  and_then_ok :
      (r : Result A × World) (f : A → M B) (b : B) (w' : World)
      → and_then r f ≡ (ok b, w')
      → Bound r f b w'
  and_then_ok (ok a, w) f b w' h = record { value = a; between = w; first = refl; rest = h }
  and_then_ok (err e, w) f b w' h = cc

  pub bind_ok :
      (m : M A) (f : A → M B) (b : B) (w w' : World) → (m >>= f) w ≡ (ok b, w') → Bound (m w) f b w'
  bind_ok m f b w w' h = and_then_ok (m w) f b w' h

pub same_tables {ℓ} :
    {A : Type ℓ} {x y : A} {t t' : Tables}
    → ◌≡◌ {A = Result (A × Tables)} (ok (x, t)) (ok (y, t'))
    → t ≡ t'
same_tables h = ground arith

pub same_value {ℓ} : {A : Type ℓ} {x y : A} → ◌≡◌ {A = Result A} (ok x) (ok y) → x ≡ y
same_value h = cc

pub auth_id_of_ok :
    (o : Option Account) (t t' : Tables) (x : Text)
    → auth_id_of o t ≡ ok (x, t')
    → (auth_id_of o t ≡ ok (x, t)) × (t' ≡ t)
auth_id_of_ok none t t' x h = cc
auth_id_of_ok (some a) t t' x h = ground arith

pub one_ok {ℓ} :
    {A : Type ℓ} (o : Option A) (t t' : Tables) (x : A)
    → one o t ≡ ok (x, t')
    → (o ≡ some x) × (t' ≡ t)
one_ok none t t' x h = cc
one_ok (some a) t t' x h = ground arith

pub tables-engine : (w : World) → (engine w).1.tables ≡ w.tables
unfolding engine
tables-engine w = ground arith

pub clock-engine : (w : World) → (engine w).1.clock ≡ w.clock
unfolding engine
clock-engine w = ground arith

-- What is outside of the database: the clock, the mail and the random source.
abbrev pub Outside : Type 0
Outside = ℕ × (List Mail × List (Option Text))

abbrev pub outside : World → Outside
outside w = (w.clock, (w.sent, w.randoms))

pub outside-engine : (w : World) → outside (engine w).1 ≡ outside w
unfolding engine
outside-engine w = by w.faults
  where
    by : (fs : List (Option ℕ)) → outside (engine (record w { faults = fs })).1 ≡ outside w
    by [] = refl
    by (none ∷ fs) = refl
    by (some n ∷ fs) = refl

outside-commit_rows {ℓ} :
    {A : Type ℓ} (r : Result (A × Tables)) (w : World) → outside (commit_rows r w).1 ≡ outside w
outside-commit_rows (ok p) w = refl
outside-commit_rows (err e) w = refl

outside-after_engine {ℓ} :
    {A : Type ℓ} (f : Tables → Result (A × Tables)) (c : Outside) (r : Result (Unit {0}) × World)
    → outside r.1 ≡ c
    → outside (and_then r (λ _ w. commit_rows (f w.tables) w)).1 ≡ c
outside-after_engine f c (ok u, w) p = outside-commit_rows (f w.tables) w ∙ p
outside-after_engine f c (err e, w) p = p

-- A statement takes no reading of the clock, sends nothing and draws nothing.
pub outside-statement {ℓ} :
    {A : Type ℓ} (f : Tables → Result (A × Tables)) (w : World)
    → outside (statement f w).1 ≡ outside w
unfolding statement
outside-statement f w = outside-after_engine f (outside w) (engine w) (outside-engine w)

pub engine_ok : (w : World) → w.faults ≡ [] → engine w ≡ (ok tt, w)
unfolding engine
engine_ok w h = ground (arith, h)

module _ {ℓ} {A : Type ℓ} where
  commit_rows_ok :
      (r : Result (A × Tables)) (a : A) (w w' : World)
      → commit_rows r w ≡ (ok a, w')
      → r ≡ ok (a, w'.tables)
  commit_rows_ok (ok (b, t)) a w w' h = ground arith
  commit_rows_ok (err e) a w w' h = cc

  commit_rows_err :
      (r : Result (A × Tables)) (e : Error) (w w' : World)
      → commit_rows r w ≡ (err e, w')
      → w'.tables ≡ w.tables
  commit_rows_err (ok (b, t)) e w w' h = cc
  commit_rows_err (err e') e w w' h = ground arith

  after_engine_ok :
      (f : Tables → Result (A × Tables)) (t : Tables) (r : Result (Unit {0}) × World) (a : A)
      (w' : World)
      → r.1.tables ≡ t
      → and_then r (λ _ w. commit_rows (f w.tables) w) ≡ (ok a, w')
      → f t ≡ ok (a, w'.tables)
  after_engine_ok f t (ok u, w) a w' p h = rw (← p) (commit_rows_ok (f w.tables) a w w' h)
  after_engine_ok f t (err e, w) a w' p h = cc

  after_engine_err :
      (f : Tables → Result (A × Tables)) (t : Tables) (r : Result (Unit {0}) × World) (e : Error)
      (w' : World)
      → r.1.tables ≡ t
      → and_then r (λ _ w. commit_rows (f w.tables) w) ≡ (err e, w')
      → w'.tables ≡ t
  after_engine_err f t (ok u, w) e w' p h = commit_rows_err (f w.tables) e w w' h ∙ p
  after_engine_err f t (err e', w) e w' p h = ground arith

  -- A statement that succeeded did what it says to the tables.
  pub statement_ok :
      (f : Tables → Result (A × Tables)) (a : A) (w w' : World)
      → statement f w ≡ (ok a, w')
      → f w.tables ≡ ok (a, w'.tables)
  unfolding statement
  statement_ok f a w w' h = after_engine_ok f w.tables (engine w) a w' (tables-engine w) h

  -- One that failed changed nothing.
  pub statement_err :
      (f : Tables → Result (A × Tables)) (e : Error) (w w' : World)
      → statement f w ≡ (err e, w')
      → w'.tables ≡ w.tables
  unfolding statement
  statement_err f e w w' h = after_engine_err f w.tables (engine w) e w' (tables-engine w) h

  -- With no faults ahead the statement decides alone.
  pub statement_runs :
      (f : Tables → Result (A × Tables)) (w : World)
      → w.faults ≡ []
      → statement f w ≡ commit_rows (f w.tables) w
  unfolding statement
  statement_runs f w h = rw (engine_ok w h)

  rolled_err :
      (t : Tables) (r : Result A × World) (e : Error) (w' : World)
      → roll_back t r ≡ (err e, w')
      → w'.tables ≡ t
  rolled_err t (ok a, w) e w' h = cc
  rolled_err t (err e', w) e w' h = ground arith

  rolled_ok :
      (t : Tables) (r : Result A × World) (a : A) (w' : World)
      → roll_back t r ≡ (ok a, w')
      → r ≡ (ok a, w')
  rolled_ok t (ok b, w) a w' h = h
  rolled_ok t (err e', w) a w' h = cc

  begun_err :
      (t : Tables) (r : Result (Unit {0}) × World) (m : M A) (e : Error) (w' : World)
      → r.1.tables ≡ t
      → and_then r (λ _ w. roll_back w.tables (m w)) ≡ (err e, w')
      → w'.tables ≡ t
  begun_err t (ok u, w) m e w' p h = rolled_err w.tables (m w) e w' h ∙ p
  begun_err t (err e', w) m e w' p h = ground arith

  -- A transaction that failed changed nothing.
  pub with_tx_err :
      (body : M A) (e : Error) (w w' : World) → with_tx body w ≡ (err e, w') → w'.tables ≡ w.tables
  unfolding with_tx
  with_tx_err body e w w' h =
      begun_err w.tables (engine w) (do a ← body; engine; pure a) e w' (tables-engine w) h

-- A transaction that committed.
pub record Committed {ℓ} {A : Type ℓ} (body : M A) (a : A) (w w' : World) : Type ℓ where
  pub begun : World
  pub ended : World
  pub start : begun.tables ≡ w.tables
  pub clock : begun.clock ≡ w.clock
  pub ran : body begun ≡ (ok a, ended)
  pub final : w'.tables ≡ ended.tables

module _ {ℓ} {A : Type ℓ} where
  committed :
      (r : Result (Unit {0}) × World) (a : A) (b : A) (w w' : World)
      → r.1.tables ≡ w.tables
      → and_then r (λ _. pure b) ≡ (ok a, w')
      → (b ≡ a) × (w'.tables ≡ w.tables)
  committed (ok u, w₁) a b w w' p h = ground arith
  committed (err e, w₁) a b w w' p h = cc

  pub with_tx_ok :
      (body : M A) (a : A) (w w' : World) → with_tx body w ≡ (ok a, w') → Committed body a w w'
  unfolding with_tx
  with_tx_ok body a w w' h =
      let b =
        and_then_ok (engine w) (λ _ v. roll_back v.tables ((do x ← body; engine; pure x) v)) a w'
          h in
      let inner =
        rolled_ok b.between.tables ((do x ← body; engine; pure x) b.between) a w' b.rest in
      let c = and_then_ok (body b.between) (λ x. engine >>= λ _. pure x) a w' inner in
      let (same, kept) =
        committed (engine c.between) a c.value c.between w' (tables-engine c.between) c.rest in
      record {
        begun = b.between;
        ended = c.between;
        start = sym (ap (λ (r : Result (Unit {0}) × World). r.1.tables) b.first) ∙ tables-engine w;
        clock = sym (ap (λ (r : Result (Unit {0}) × World). r.1.clock) b.first) ∙ clock-engine w;
        ran = c.first ∙ rw same;
        final = kept;
      }

  -- `not_found` alone is renamed.
  pub renamed_ok :
      (e : Error) (r : Result A × World) (a : A) (w' : World)
      → renamed e r ≡ (ok a, w')
      → r ≡ (ok a, w')
  renamed_ok e (ok x, w) a w' h = h
  renamed_ok e (err not_found, w) a w' h = cc
  renamed_ok e (err email_unavailable, w) a w' h = cc
  renamed_ok e (err invalid_token, w) a w' h = cc
  renamed_ok e (err expired_token, w) a w' h = cc
  renamed_ok e (err invalid_identity, w) a w' h = cc
  renamed_ok e (err (failure n), w) a w' h = cc

pub tables-now : (w : World) → (now w).1.tables ≡ w.tables
unfolding now
tables-now w = ground arith

pub tables-unix_now : (w : World) → (unix_now w).1.tables ≡ w.tables
unfolding unix_now
tables-unix_now w = ground arith

pub tables-random_text : (w : World) → (random_text w).1.tables ≡ w.tables
unfolding random_text
tables-random_text w = ground arith
