-- ===== src/Migrations/Mysql.antt =====
-- database/mysql/migrations.go: a statement of MySQL that changes the schema commits by itself, so each
-- migration is run between two transactions on the bookkeeping, the first of which leaves a mark.
use go_kickstart.Base.{
  ℕ, ◌≡◌, Bool, true, false, not, ◌&&◌, ◌==◌, Option, none, some, List, [], ◌∷◌, if◌then◌else◌, ℤ,
  pos, leb_ℤ, Text,
}
use go_kickstart.Migrations.{
  Failure, incomplete, already_running, database_error, Result, ok, err, Server, M, and_then, pure,
  raise, lift, ◌>>=◌, ◌>>◌, Migration, Files, read_migrations, eq_ℤ, coalesce, statement,
  get_schema_migration_version, set_schema_migration_version, in_tx, ensure_migration_table,
  execute,
}
pub mod Rounds
pub mod Left
pub mod Restart

module _ {Schema : Type 0} where
  -- An answer that the lock was taken is the number one.
  abbrev pub unless_locked : Option ℤ → M Schema (Unit {0})
  unless_locked none = raise already_running
  unless_locked (some n) = if eq_ℤ n (pos 1) then pure tt else raise already_running

  unfoldable pub get_pending_schema_migration : M Schema ℤ
  get_pending_schema_migration = do statement; λ s. (ok (coalesce s.mark), s)

  -- The primary key refuses a second mark.
  abbrev pub mark_row : ℤ → Server Schema → Option ℤ → Result (Unit {0}) × Server Schema
  mark_row v s none = (ok tt, record s { mark = some v })
  mark_row v s (some old) = (err (database_error 0), s)

  unfoldable pub set_pending_schema_migration : ℤ → M Schema (Unit {0})
  set_pending_schema_migration v = do statement; λ s. mark_row v s s.mark

  unfoldable pub clear_pending_schema_migration : M Schema (Unit {0})
  clear_pending_schema_migration = do statement; λ s. (ok tt, record s { mark = none })

  -- The deferred release of the lock, whose error is ignored.
  unfoldable pub released {ℓ} : {A : Type ℓ} → M Schema A → M Schema A
  released body s = let (r, s') = body s in (r, (statement s').1)

  abbrev pub unless_incomplete : ℤ → M Schema (Unit {0})
  unless_incomplete v = if eq_ℤ v (pos 0) then pure tt else raise (incomplete v)

module _ {Schema : Type 0} (run_sql : Text → Schema → Option ℕ × Schema) where
  -- One round of the loop.
  unfoldable pub apply_marked : Migration → M Schema (Unit {0})
  apply_marked m = do
    in_tx (set_pending_schema_migration m.version)
    execute run_sql m
    in_tx (do set_schema_migration_version m.version; clear_pending_schema_migration)

  unfoldable pub apply_all_marked : ℤ → List Migration → M Schema (Unit {0})
  apply_all_marked current [] = pure tt
  apply_all_marked current (m ∷ ms) =
      let rest = apply_all_marked current ms in
      if leb_ℤ m.version current then rest else apply_marked m >> rest

  -- Under the lock.
  unfoldable pub apply_unmarked : Files → M Schema (Unit {0})
  apply_unmarked fs = do
    ensure_migration_table fs
    ms ← lift (read_migrations fs)
    pending ← get_pending_schema_migration
    unless_incomplete pending
    current ← get_schema_migration_version
    apply_all_marked current ms

  -- `mysql.applyMigrations`; `locked` is what `GET_LOCK` answers.
  unfoldable pub mysql_apply_migrations : Option ℤ → Files → M Schema (Unit {0})
  mysql_apply_migrations locked fs = do
    statement
    statement
    unless_locked locked
    released (apply_unmarked fs)
