-- ===== src/Migrations/Tests.antt =====
-- Two migrations, read out of order, on concrete servers.
use go_kickstart.Base.{
  ℕ, ◌≡◌, refl, Bool, true, false, Option, none, some, List, [], ◌∷◌, ◌++◌, ℤ, pos, Text, txt,
  str_eq, parse_int, has_suffix, has_prefix,
}
use go_kickstart.Migrations.{
  duplicate_version, ok, err, Migration, Files, Server, cut_before, read_migration, read_entries,
  insert_by_version, sort_by_version, first_duplicate, read_migrations, statement,
  get_schema_migration_version, set_schema_migration_version, in_tx, ensure_migration_table,
  execute, apply_pending, apply_migrations, sqlite_apply_migrations, postgres_apply_migrations,
}
use go_kickstart.Migrations.Reading.{IsReading, read_migrations-IsReading}
use go_kickstart.Migrations.Pending.{Applies}
use go_kickstart.Migrations.Applied.{
  apply_migrations-again, start_migrations-AllOrNothing, AllOrNothing,
}
use go_kickstart.Migrations.Mysql.{
  get_pending_schema_migration, set_pending_schema_migration, clear_pending_schema_migration,
  released, apply_marked, apply_all_marked, apply_unmarked, mysql_apply_migrations,
}
use go_kickstart.Migrations.Mysql.Restart.{starts, mysql_restart-Applies}

program : Unit {0}
unfolding str_eq parse_int has_prefix has_suffix cut_before read_migration read_entries
    insert_by_version sort_by_version first_duplicate read_migrations statement
    get_schema_migration_version set_schema_migration_version in_tx ensure_migration_table execute
    apply_pending apply_migrations sqlite_apply_migrations postgres_apply_migrations
    get_pending_schema_migration set_pending_schema_migration clear_pending_schema_migration
    released apply_marked apply_all_marked apply_unmarked mysql_apply_migrations
program = tt

-- Each file holds its own name.
abbrev entries : List (Bool × Text)
entries =
    (false, txt "20_roles.up.sql")
    ∷ (false, txt "0_bootstrap.sql")
    ∷ (true, txt "old")
    ∷ (false, txt "10_accounts.up.sql")
    ∷ []

abbrev files : Files
files = record { entries = some entries; read_file = λ name. some name }

abbrev accounts_migration : Migration
accounts_migration = record {
  version = pos 10;
  name = txt "10_accounts.up.sql";
  sql = txt "migrations/10_accounts.up.sql";
}

abbrev roles_migration : Migration
roles_migration = record {
  version = pos 20;
  name = txt "20_roles.up.sql";
  sql = txt "migrations/20_roles.up.sql";
}

abbrev both : List Migration
both = accounts_migration ∷ roles_migration ∷ []

reads_both : read_migrations files ≡ ok both
unfolding program
reads_both = refl

same_version :
    read_migrations (record files {
      entries = some ((false, txt "10_a.up.sql") ∷ (false, txt "010_b.up.sql") ∷ []);
    })
    ≡ err (duplicate_version (pos 10))
unfolding program
same_version = refl

-- The schema is the list of the texts that were run.
abbrev log_sql : Text → List Text → Option ℕ × List Text
log_sql sql schema = (none, schema ++ sql ∷ [])

abbrev empty : Server (List Text)
empty = record { schema = []; version = none; mark = none; faults = [] }

abbrev full : Server (List Text)
full = record {
  schema = txt "migrations/10_accounts.up.sql" ∷ txt "migrations/20_roles.up.sql" ∷ [];
  version = some (pos 20);
  mark = none;
  faults = [];
}

read_migrations-IsReading_example : IsReading files entries both
read_migrations-IsReading_example = read_migrations-IsReading files entries both refl reads_both

apply_migrations-again_example : apply_migrations log_sql files full ≡ (ok tt, full)
unfolding program
apply_migrations-again_example = apply_migrations-again log_sql files empty full refl

start_migrations-AllOrNothing_example :
    AllOrNothing log_sql files empty (sqlite_apply_migrations log_sql files empty)
    × AllOrNothing log_sql files empty (postgres_apply_migrations log_sql true files empty)
start_migrations-AllOrNothing_example = start_migrations-AllOrNothing log_sql true files empty

-- The first start finds the lock taken, and the second fails after the first migration.
abbrev faulty : Server (List Text)
faulty = record empty {
  faults =
      none
      ∷ none
      ∷ none
      ∷ none
      ∷ none
      ∷ none
      ∷ none
      ∷ none
      ∷ none
      ∷ none
      ∷ none
      ∷ none
      ∷ none
      ∷ none
      ∷ none
      ∷ some 5
      ∷ [];
}

abbrev answers : List (Option ℤ)
answers = some (pos 0) ∷ some (pos 1) ∷ []

half_done : (starts log_sql files answers faulty).schema ≡ txt "migrations/10_accounts.up.sql" ∷ []
unfolding program
half_done = refl

mysql_restart-Applies_example : Applies log_sql both faulty full
unfolding program
mysql_restart-Applies_example =
    mysql_restart-Applies log_sql files both faulty full answers (some (pos 1)) reads_both refl refl
      refl
