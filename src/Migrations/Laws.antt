-- ===== src/Migrations/Laws.antt =====
-- What can be concluded from the outcome of a call of the server.
use mathlib.Core.Path.{subst}
use go_kickstart.Base.{ℕ, ◌≡◌, refl, sym, ap, ◌∙◌, Option, none, some, List, [], ◌∷◌, ℤ, Text, txt}
use go_kickstart.Migrations.{
  Result, ok, err, Server, Files, ensure_migration_table, bootstrapped, M, and_then, pure, ◌>>◌,
  ◌>>=◌, answered, statement, undone, in_tx, coalesce, get_schema_migration_version,
  set_schema_migration_version,
}

-- A sequence that succeeded.
pub record Bound {ℓ κ} {Schema : Type 0} {A : Type ℓ} {B : Type κ} (r : Result A × Server Schema)
    (f : A → M Schema B) (b : B) (s' : Server Schema) : Type (ℓ ⊔ κ) where
  pub value : A
  pub between : Server Schema
  pub first : r ≡ (ok value, between)
  pub rest : f value between ≡ (ok b, s')

-- The schema and the bookkeeping rows are the same.
pub record SameRows {Schema : Type 0} (s s' : Server Schema) : Type 0 where
  pub schema : s'.schema ≡ s.schema
  pub version : s'.version ≡ s.version
  pub mark : s'.mark ≡ s.mark

module _ {Schema : Type 0} where
  pub SameRows-refl : (s : Server Schema) → SameRows s s
  SameRows-refl s = record { schema = refl; version = refl; mark = refl }

  pub SameRows-trans : (s t u : Server Schema) → SameRows s t → SameRows t u → SameRows s u
  SameRows-trans s t u a b = record {
    schema = b.schema ∙ a.schema;
    version = b.version ∙ a.version;
    mark = b.mark ∙ a.mark;
  }

module _ {ℓ κ} {Schema : Type 0} {A : Type ℓ} {B : Type κ} where
  pub bind_ok :
      (r : Result A × Server Schema) (f : A → M Schema B) (b : B) (s' : Server Schema)
      → and_then r f ≡ (ok b, s')
      → Bound r f b s'
  bind_ok (ok a, s) f b s' h = record { value = a; between = s; first = refl; rest = h }
  bind_ok (err e, s) f b s' h = cc

module _ {Schema : Type 0} where
  answered-SameRows : (s : Server Schema) (fs : List (Option ℕ)) → SameRows s (answered s fs).1
  answered-SameRows s [] = SameRows-refl s
  answered-SameRows s (none ∷ fs) = record { schema = refl; version = refl; mark = refl }
  answered-SameRows s (some n ∷ fs) = record { schema = refl; version = refl; mark = refl }

  pub statement-SameRows : (s : Server Schema) → SameRows s (statement s).1
  unfolding statement
  statement-SameRows s = answered-SameRows s s.faults

  -- Without faults to come a statement succeeds.
  pub statement_ok : (s : Server Schema) → s.faults ≡ [] → statement s ≡ (ok tt, s)
  unfolding statement
  statement_ok s h = ap (answered s) h

  pub after_statement :
      (s t : Server Schema) (r : Result (Unit {0})) → statement s ≡ (r, t) → SameRows s t
  after_statement s t r h = subst (SameRows s) (ap (λ o. o.1) h) (statement-SameRows s)

  pub get_version_ok :
      (s s' : Server Schema) (v : ℤ)
      → get_schema_migration_version s ≡ (ok v, s')
      → (v ≡ coalesce s.version) × SameRows s s'
  unfolding get_schema_migration_version
  get_version_ok s s' v h =
      let b = bind_ok (statement s) (λ _ s. (ok (coalesce s.version), s)) v s' h in
      let rows = after_statement s b.between (ok b.value) b.first in
      let same = ap (λ o. o.1) b.rest in
      (
        sym (ok_value (ap (λ o. o.0) b.rest)) ∙ ap coalesce rows.version,
        subst (SameRows s) same rows,
      )
    where
      ok_value : {x : ℤ} → ok x ≡ ok v → x ≡ v
      ok_value h = cc

  pub set_version_ok :
      (v : ℤ) (s s' : Server Schema)
      → set_schema_migration_version v s ≡ (ok tt, s')
      → (s'.schema ≡ s.schema) × ((s'.version ≡ some v) × (s'.mark ≡ s.mark))
  unfolding set_schema_migration_version
  set_version_ok v s s' h =
      let b = bind_ok (statement s) (λ _ s. (ok tt, record s { version = some v })) tt s' h in
      let rows = after_statement s b.between (ok b.value) b.first in
      let same = ap (λ o. o.1) b.rest in
      (
        sym (ap (λ o. o.schema) same) ∙ rows.schema,
        (sym (ap (λ o. o.version) same), sym (ap (λ o. o.mark) same) ∙ rows.mark),
      )

-- A read of the bookkeeping: a statement, and a value of the rows.
pub record Reads {Schema : Type 0} {A : Type 0} (value : Server Schema → A) (s : Server Schema)
    (o : Result A × Server Schema) : Type 0 where
  pub rows : SameRows s o.1
  pub read : (a : A) → o.0 ≡ ok a → a ≡ value o.1

module _ {Schema : Type 0} {A : Type 0} where
  pub statement-Reads :
      (value : Server Schema → A) (s : Server Schema)
      → Reads value s (and_then (statement s) (λ _ t. (ok (value t), t)))
  statement-Reads value s = at (statement s) (statement-SameRows s)
    where
      at :
          (o : Result (Unit {0}) × Server Schema)
          → SameRows s o.1
          → Reads value s (and_then o (λ _ t. (ok (value t), t)))
      at (err e, t) rows = record { rows = rows; read = λ a h. cc }
      at (ok u, t) rows = record { rows = rows; read = λ a h. cc }

module _ {Schema : Type 0} where
  pub ensure-SameRows :
      (fs : Files) (s : Server Schema) → SameRows s (ensure_migration_table fs s).1
  unfolding ensure_migration_table
  ensure-SameRows fs s = from (fs.read_file (txt "migrations/20260503000_schema_migrations.sql"))
    where
      from : (o : Option Text) → SameRows s (bootstrapped o s).1
      from none = SameRows-refl s
      from (some schema) = statement-SameRows s

-- How a transaction ends: with the rows that its body leaves, or with those it found.
abbrev pub TxOutcome :
    {Schema : Type 0} {A : Type 0} → M Schema A → Server Schema → Result A × Server Schema → Type 0
TxOutcome {Schema = Schema} {A = A} body s (ok a, s') =
    (t : Server Schema) × (u : Server Schema) × (SameRows s t
      × ((body t ≡ (ok a, u)) × SameRows u s'))
TxOutcome body s (err e, s') = SameRows s s'

module _ {Schema : Type 0} {A : Type 0} where
  pub in_tx-TxOutcome : (body : M Schema A) (s : Server Schema) → TxOutcome body s (in_tx body s)
  unfolding in_tx
  in_tx-TxOutcome body s = begun (statement s) (statement-SameRows s)
    where
      whole : M Schema A
      whole = do a ← body; statement; pure a

      ended :
          (t : Server Schema) (o : Result A × Server Schema)
          → SameRows s t
          → whole t ≡ o
          → TxOutcome body s (undone t o)
      ended t (err e, s') rows h = (record {
        schema = rows.schema;
        version = rows.version;
        mark = rows.mark;
      })
      ended t (ok a, s') rows h =
          let first = bind_ok (body t) (λ a. statement >>= λ _. pure a) a s' h in
          let second = bind_ok (statement first.between) (λ _. pure first.value) a s' first.rest in
          let after =
            subst (SameRows first.between) (ap (λ o. o.1) second.rest)
              (after_statement first.between second.between (ok second.value) second.first) in
          (
            t,
            first.between,
            (rows, (first.first ∙ ap (λ r. (r, first.between)) (ap (λ o. o.0) second.rest), after)),
          )

      begun :
          (o : Result (Unit {0}) × Server Schema)
          → SameRows s o.1
          → TxOutcome body s (and_then o (λ _ t. undone t (whole t)))
      begun (err e, t) rows = rows
      begun (ok u, t) rows = ended t (whole t) rows refl
