-- ===== src/Migrations/Applied.antt =====
-- Runs of the migrations in one transaction, and their repetition.
use mathlib.Core.Path.{subst}
use go_kickstart.Base.{ℕ, ◌≡◌, refl, sym, ap, ◌∙◌, Bool, true, false, Option, List, [], Text}
use go_kickstart.Migrations.{
  Result, ok, err, Server, M, ◌>>=◌, ◌>>◌, Migration, Files, read_migrations, coalesce,
  get_schema_migration_version, statement, in_tx, ensure_migration_table, apply_pending,
  apply_migrations, sqlite_apply_migrations, unless_running, postgres_apply_migrations,
}
use go_kickstart.Migrations.Laws.{
  ensure-SameRows, in_tx-TxOutcome, TxOutcome, bind_ok, SameRows, SameRows-refl, after_statement,
  statement_ok, get_version_ok,
}
use go_kickstart.Migrations.Reading.{read_migrations-Ascending}
use go_kickstart.Migrations.Pending.{
  newer, latest, Runs, Applies, apply_pending_ok, apply_pending_none,
}
use go_kickstart.Migrations.Newer.{nothing_newer}

module _ {Schema : Type 0} (run_sql : Text → Schema → Option ℕ × Schema) where
  Applies-SameRows :
      (ms : List Migration) (s t s' : Server Schema)
      → SameRows s t
      → Applies run_sql ms t s'
      → Applies run_sql ms s s'
  Applies-SameRows ms s t s' rows a = record {
    runs = subst (λ x. Runs run_sql ms x s'.schema) rows.schema a.runs;
    version = a.version ∙ ap (λ v. latest v ms) rows.version;
    mark = a.mark ∙ rows.mark;
  }

  -- A run that returned without an error has read the migrations, and has run exactly those newer than
  -- the version that it found, each once and without an error, in the order of their versions; the
  -- version that it leaves is that of the last of them.
  pub apply_migrations-Applies :
      (fs : Files) (s s' : Server Schema)
      → apply_migrations run_sql fs s ≡ (ok tt, s')
      → (ms : List Migration) × ((read_migrations fs ≡ ok ms)
          × Applies run_sql (newer (coalesce s.version) ms) s s')
  unfolding apply_migrations
  apply_migrations-Applies fs s s' h =
      let read =
        bind_ok (read_migrations fs, s)
          (λ ms. get_schema_migration_version >>= λ current. apply_pending run_sql current ms) tt s'
          h in
      let got =
        bind_ok (get_schema_migration_version read.between)
          (λ current. apply_pending run_sql current read.value) tt s' read.rest in
      let (version, rows) = get_version_ok read.between got.between got.value got.first in
      let same = ap (λ o. o.1) read.first in
      let found = subst (λ s. SameRows s got.between) (sym same) rows in
      let applied = apply_pending_ok run_sql got.value read.value got.between s' got.rest in
      (
        read.value,
        (
          ap (λ o. o.0) read.first,
          Applies-SameRows _ s got.between s' found (
              subst (λ current. Applies run_sql (newer current read.value) got.between s')
                (version ∙ sym (ap (λ s. coalesce s.version) same)) applied),
        ),
      )

  -- A run that finds nothing newer changes nothing, when no statement fails.
  idle_run :
      (fs : Files) (ms : List Migration) (s : Server Schema)
      → read_migrations fs ≡ ok ms
      → newer (coalesce s.version) ms ≡ []
      → s.faults ≡ []
      → apply_migrations run_sql fs s ≡ (ok tt, s)
  unfolding apply_migrations get_schema_migration_version
  idle_run fs ms s read none_newer faultless =
      rw (read, statement_ok s faultless)
        (apply_pending_none run_sql (coalesce s.version) ms s none_newer)

  -- To run the migrations again after a run without an error changes nothing, and gives no error when no
  -- statement fails.
  pub apply_migrations-again :
      (fs : Files) (s s' : Server Schema)
      → apply_migrations run_sql fs s ≡ (ok tt, s')
      → apply_migrations run_sql fs (record s' { faults = [] }) ≡ (ok tt, record s' { faults = [] })
  apply_migrations-again fs s s' h =
      let (ms, (read, applied)) = apply_migrations-Applies fs s s' h in
      idle_run fs ms (record s' { faults = [] }) read
        (ap (λ v. newer (coalesce v) ms) applied.version
          ∙ nothing_newer s.version ms (read_migrations-Ascending fs ms read))
        refl

  -- What a run in one transaction may end in: everything newer was run, or nothing has changed.
  abbrev pub AllOrNothing : Files → Server Schema → Result (Unit {0}) × Server Schema → Type 0
  AllOrNothing fs s (ok u, s') =
      (ms : List Migration) × ((read_migrations fs ≡ ok ms)
        × Applies run_sql (newer (coalesce s.version) ms) s s')
  AllOrNothing fs s (err e, s') = SameRows s s'

  -- A body that reads the bookkeeping and then runs the migrations.
  abbrev Leads : Files → M Schema (Unit {0}) → Type 0
  Leads fs body =
      (s s' : Server Schema)
      → body s ≡ (ok tt, s')
      → (ms : List Migration) × ((read_migrations fs ≡ ok ms)
          × Applies run_sql (newer (coalesce s.version) ms) s s')

  Leads-then :
      (fs : Files) (first body : M Schema (Unit {0}))
      → ((s s' : Server Schema) → first s ≡ (ok tt, s') → SameRows s s')
      → Leads fs body
      → Leads fs (first >> body)
  Leads-then fs first body keeps leads s s' h =
      let b = bind_ok (first s) (λ _. body) tt s' h in
      let rows = keeps s b.between b.first in
      let (ms, (read, applied)) = leads b.between s' b.rest in
      (
        ms,
        (
          read,
          Applies-SameRows _ s b.between s' rows (
              subst (λ v. Applies run_sql (newer (coalesce v) ms) b.between s') rows.version
                applied),
        ),
      )

  Leads-SameRows :
      (fs : Files) (s t u v : Server Schema)
      → SameRows s t
      → SameRows u v
      → (ms : List Migration) × ((read_migrations fs ≡ ok ms)
          × Applies run_sql (newer (coalesce t.version) ms) t u)
      → (ms : List Migration) × ((read_migrations fs ≡ ok ms)
          × Applies run_sql (newer (coalesce s.version) ms) s v)
  Leads-SameRows fs s t u v before after (ms, (read, a)) =
      let a' =
        Applies-SameRows _ s t u before
          (subst (λ v. Applies run_sql (newer (coalesce v) ms) t u) before.version a) in
      (
        ms,
        (
          read,
          record {
            runs =
                subst (Runs run_sql (newer (coalesce s.version) ms) s.schema) (sym after.schema)
                  a'.runs;
            version = after.version ∙ a'.version;
            mark = after.mark ∙ a'.mark;
          },
        ),
      )

  in_tx-AllOrNothing :
      (fs : Files) (body : M Schema (Unit {0})) (s : Server Schema)
      → Leads fs body
      → AllOrNothing fs s (in_tx body s)
  in_tx-AllOrNothing fs body s leads = ended (in_tx body s) (in_tx-TxOutcome body s)
    where
      ended : (o : Result (Unit {0}) × Server Schema) → TxOutcome body s o → AllOrNothing fs s o
      ended (err e, s') rows = rows
      ended (ok u, s') (t, v, (before, (h, after))) =
          Leads-SameRows fs s t v s' before after (leads t v h)

  statement-keeps : (s s' : Server Schema) → statement s ≡ (ok tt, s') → SameRows s s'
  statement-keeps s s' h = after_statement s s' (ok tt) h

  ensure-keeps :
      (fs : Files) (s s' : Server Schema)
      → ensure_migration_table fs s ≡ (ok tt, s')
      → SameRows s s'
  ensure-keeps fs s s' h = subst (SameRows s) (ap (λ o. o.1) h) (ensure-SameRows fs s)

  unless_running-keeps :
      (locked : Bool) (s s' : Server Schema) → unless_running locked s ≡ (ok tt, s') → SameRows s s'
  unless_running-keeps true s s' h = subst (SameRows s) (ap (λ o. o.1) h) (SameRows-refl s)
  unless_running-keeps false s s' h = cc

  -- On SQLite and on PostgreSQL the migrations are run wholly or not at all: a start that returns without
  -- an error has read the migrations and run exactly those newer than the recorded version, each once, in
  -- their order, with the version of the last recorded, and one that returns an error, wherever it arises,
  -- leaves the schema and the recorded version as they were.
  pub start_migrations-AllOrNothing :
      (locked : Bool) (fs : Files) (s : Server Schema)
      → AllOrNothing fs s (sqlite_apply_migrations run_sql fs s)
        × AllOrNothing fs s (postgres_apply_migrations run_sql locked fs s)
  unfolding sqlite_apply_migrations postgres_apply_migrations
  start_migrations-AllOrNothing locked fs s =
      let applies : Leads fs (apply_migrations run_sql fs) = apply_migrations-Applies fs in
      (
        in_tx-AllOrNothing fs _ s (
            Leads-then fs (ensure_migration_table fs) _ (ensure-keeps fs)
              (Leads-then fs statement _ statement-keeps applies)),
        in_tx-AllOrNothing fs _ s (
            Leads-then fs statement _ statement-keeps (
              Leads-then fs (unless_running locked) _ (unless_running-keeps locked)
                (Leads-then fs (ensure_migration_table fs) _ (ensure-keeps fs) applies))),
      )
