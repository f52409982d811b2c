-- ===== src/Migrations/Mysql/Restart.antt =====
-- Starts of the service on MySQL, one after another, each of which may stop anywhere.
use mathlib.Core.Path.{subst}
use go_kickstart.Base.{
  ℕ, ◌≡◌, refl, sym, ap, ◌∙◌, ◌⊎◌, inl, inr, true, false, Bool-cases, Option, none, some, List, [],
  ◌∷◌, ◌++◌, All, All-imp, ℤ, pos, is_pos, leb_ℤ, Text,
}
use go_kickstart.Migrations.{
  Result, ok, err, Server, M, and_then, Migration, Files, read_migrations, eq_ℤ, coalesce,
  statement, get_schema_migration_version, ensure_migration_table,
}
use go_kickstart.Migrations.Laws.{
  Reads, statement-Reads, ensure-SameRows, SameRows, SameRows-refl, statement-SameRows,
}
use go_kickstart.Migrations.Reading.{read_migrations-Ascending}
use go_kickstart.Migrations.Pending.{newer, latest, Runs, Applies}
use go_kickstart.Migrations.Newer.{newer-All}
use go_kickstart.Migrations.Mysql.{
  get_pending_schema_migration, released, unless_incomplete, unless_locked, apply_all_marked,
  apply_unmarked, mysql_apply_migrations,
}
use go_kickstart.Migrations.Mysql.Rounds.{
  apply_all_marked-newer, Between, Between-SameRows, Stuck, Ended, each_marked-Ended,
}
use go_kickstart.Migrations.Mysql.Left.{newer_left, above_zero, positive_differs, All-append_right}

module _ {Schema : Type 0} (run_sql : Text → Schema → Option ℕ × Schema) (fs : Files)
    (ms : List Migration) (first : Server Schema) (read : read_migrations fs ≡ ok ms)
    (whole : leb_ℤ (pos 0) (coalesce first.version) ≡ true) where
  abbrev due : List Migration
  due = newer (coalesce first.version) ms

  -- A state between starts.
  abbrev Waiting : Server Schema → Type 0
  Waiting s = ((rest : List Migration) × Between run_sql due first s rest) ⊎ Stuck s

  Waiting-SameRows : (s s' : Server Schema) → SameRows s s' → Waiting s → Waiting s'
  Waiting-SameRows s s' rows (inl (rest, b)) =
      inl (rest, Between-SameRows run_sql due first s s' rest rows b)
  Waiting-SameRows s s' rows (inr (v, (p, mark))) = inr (v, (p, rows.mark ∙ mark))

  due_positive : All (λ m. is_pos m.version ≡ true) due
  due_positive =
      All-imp (λ m. leb_ℤ m.version (coalesce first.version) ≡ false) (λ m. is_pos m.version ≡ true)
        due (λ m. above_zero (coalesce first.version) m.version whole)
        (newer-All (coalesce first.version) ms)

  -- A call that keeps the rows, and what follows it.
  Ended-then :
      {A : Type 0} (s : Server Schema) (o : Result A × Server Schema) (k : A → M Schema (Unit {0}))
      → Waiting s
      → SameRows s o.1
      → ((a : A) (t : Server Schema) → o ≡ (ok a, t) → Waiting t → Ended run_sql due first (k a t))
      → Ended run_sql due first (and_then o k)
  Ended-then s (err e, t) k w rows f = Waiting-SameRows s t rows w
  Ended-then s (ok a, t) k w rows f = f a t refl (Waiting-SameRows s t rows w)

  -- The rounds, from a state without a mark.
  rounds-Ended :
      (s : Server Schema) (rest : List Migration)
      → Between run_sql due first s rest
      → Ended run_sql due first (apply_all_marked run_sql (coalesce s.version) ms s)
  rounds-Ended s rest b =
      let left =
        ap (λ v. newer (coalesce v) ms) b.version
        ∙ newer_left first.version ms b.done rest (read_migrations-Ascending fs ms read) b.split in
      rw (apply_all_marked-newer run_sql (coalesce s.version) ms, left)
        (each_marked-Ended run_sql due first rest s
          (All-append_right (λ m. is_pos m.version ≡ true) b.done rest
            (subst (All (λ m. is_pos m.version ≡ true)) b.split due_positive))
          b)

  versioned-Ended :
      (s : Server Schema) (rest : List Migration)
      → Between run_sql due first s rest
      → Ended run_sql due first (
          and_then
            (get_schema_migration_version s)
            (λ current. apply_all_marked run_sql current ms))
  unfolding get_schema_migration_version
  versioned-Ended s rest b =
      at (get_schema_migration_version s) (statement-Reads (λ s. coalesce s.version) s)
    where
      at :
          (o : Result ℤ × Server Schema)
          → Reads (λ s. coalesce s.version) s o
          → Ended run_sql due first (and_then o (λ current. apply_all_marked run_sql current ms))
      at (err e, t) reads = inl (rest, Between-SameRows run_sql due first s t rest reads.rows b)
      at (ok v, t) reads =
          subst (λ v. Ended run_sql due first (apply_all_marked run_sql v ms t))
            (sym (reads.read v refl))
            (rounds-Ended t rest (Between-SameRows run_sql due first s t rest reads.rows b))

  abbrev Checked : Server Schema → Option ℤ → Type 0
  Checked s o = Ended run_sql due first (
      and_then (unless_incomplete (coalesce o) s) (λ _ s.
        and_then (get_schema_migration_version s) (λ current. apply_all_marked run_sql current ms)))

  with_mark : (s : Server Schema) {o : Option ℤ} → o ≡ s.mark → Checked s o → Checked s s.mark
  with_mark s e h = subst (Checked s) e h

  refused : (s : Server Schema) (v : ℤ) → (is_pos v ≡ true) × (s.mark ≡ some v) → Checked s (some v)
  refused s v (p, mark) = rw (positive_differs v p) (inr (v, (p, mark)))

  checked-Ended :
      (s : Server Schema)
      → Waiting s
      → Ended run_sql due first (
          and_then (unless_incomplete (coalesce s.mark) s) (λ _ s.
            and_then
              (get_schema_migration_version s)
              (λ current. apply_all_marked run_sql current ms)))
  checked-Ended s (inl (rest, b)) = with_mark s (sym b.unmarked) (versioned-Ended s rest b)
  checked-Ended s (inr (v, (p, mark))) = with_mark s (sym mark) (refused s v (p, mark))

  apply_unmarked-Ended :
      (s : Server Schema) → Waiting s → Ended run_sql due first (apply_unmarked run_sql fs s)
  unfolding apply_unmarked get_pending_schema_migration
  apply_unmarked-Ended s w =
      Ended-then s (ensure_migration_table fs s) _ w (ensure-SameRows fs s) (λ u t h w. rw read (
        Ended-then t (get_pending_schema_migration t) _ w
          (statement-Reads (λ s. coalesce s.mark) t).rows
          (λ v t' h' w'.
            subst
              (λ v. Ended run_sql due first (
                and_then (unless_incomplete v t') (λ _ s.
                  and_then (get_schema_migration_version s)
                    (λ current. apply_all_marked run_sql current ms))))
              (sym (
                (statement-Reads (λ s. coalesce s.mark) t).read v (ap (λ o. o.0) h')
                ∙ ap (λ o. coalesce o.1.mark) h'))
              (checked-Ended t' w'))))

  -- One start: the rest is run, or it stops, in a state from which one may start again.
  start-Ended :
      (locked : Option ℤ) (s : Server Schema)
      → Waiting s
      → Ended run_sql due first (mysql_apply_migrations run_sql locked fs s)
  unfolding mysql_apply_migrations released
  start-Ended locked s w = Ended-then s (statement s) _ w (statement-SameRows s) (λ u t h w.
      Ended-then t (statement t) _ w (statement-SameRows t) (λ u' t' h' w.
        Ended-then t' (unless_locked locked t') _ w (lock-SameRows locked t')
          (λ u'' t'' h'' w. released-Ended t'' w)))
    where
      lock-SameRows :
          (locked : Option ℤ) (s : Server Schema) → SameRows s (unless_locked locked s).1
      lock-SameRows none s = SameRows-refl s
      lock-SameRows (some n) s = elim (Bool-cases (eq_ℤ n (pos 1))) [
        | inl one ↦ rw one (SameRows-refl s)
        | inr other ↦ rw other (SameRows-refl s)
      ]

      freed :
          (o : Result (Unit {0}) × Server Schema)
          → Ended run_sql due first o
          → Ended run_sql due first (o.0, (statement o.1).1)
      freed (ok u, t) b = Between-SameRows run_sql due first t _ [] (statement-SameRows t) b
      freed (err e, t) w = Waiting-SameRows t _ (statement-SameRows t) w

      released-Ended :
          (t : Server Schema)
          → Waiting t
          → Ended run_sql due first (released (apply_unmarked run_sql fs) t)
      released-Ended t w = freed (apply_unmarked run_sql fs t) (apply_unmarked-Ended t w)

-- The server after some starts, with what `GET_LOCK` answers to each.
abbrev pub starts :
    {Schema : Type 0}
    → (Text → Schema → Option ℕ × Schema)
    → Files
    → List (Option ℤ)
    → Server Schema
    → Server Schema
starts run_sql fs [] s = s
starts run_sql fs (locked ∷ ls) s =
    starts run_sql fs ls (mysql_apply_migrations run_sql locked fs s).1

starts-Waiting :
    {Schema : Type 0} (run_sql : Text → Schema → Option ℕ × Schema) (fs : Files)
    (ms : List Migration) (first : Server Schema) (read : read_migrations fs ≡ ok ms)
    (whole : leb_ℤ (pos 0) (coalesce first.version) ≡ true) (ls : List (Option ℤ))
    (s : Server Schema)
    → Waiting run_sql fs ms first read whole s
    → Waiting run_sql fs ms first read whole (starts run_sql fs ls s)
starts-Waiting run_sql fs ms first read whole [] s w = w
starts-Waiting {Schema = Schema} run_sql fs ms first read whole (locked ∷ ls) s w =
    starts-Waiting run_sql fs ms first read whole ls _ (
      left (mysql_apply_migrations run_sql locked fs s)
        (start-Ended run_sql fs ms first read whole locked s w))
  where
    left :
        (o : Result (Unit {0}) × Server Schema)
        → Ended run_sql (newer (coalesce first.version) ms) first o
        → Waiting run_sql fs ms first read whole o.1
    left (ok u, t) b = inl ([], b)
    left (err e, t) w = w

-- On MySQL, where no transaction holds a migration: after any starts from a server without a mark, each
-- of which may have failed at any statement of the bookkeeping or in a migration, a start that returns
-- without an error leaves the schema that comes of running exactly the migrations newer than the version
-- at the beginning, each once and without an error, in the order of their versions, with the version of
-- the last of them recorded and no mark.
pub mysql_restart-Applies :
    {Schema : Type 0} (run_sql : Text → Schema → Option ℕ × Schema) (fs : Files)
    (ms : List Migration) (first s' : Server Schema) (ls : List (Option ℤ)) (locked : Option ℤ)
    → read_migrations fs ≡ ok ms
    → leb_ℤ (pos 0) (coalesce first.version) ≡ true
    → first.mark ≡ none
    → mysql_apply_migrations run_sql locked fs (starts run_sql fs ls first) ≡ (ok tt, s')
    → Applies run_sql (newer (coalesce first.version) ms) first s'
mysql_restart-Applies run_sql fs ms first s' ls locked read whole unmarked h =
    let due = newer (coalesce first.version) ms in
    let fresh : Between run_sql due first first due = record {
      done = [];
      split = refl;
      runs = refl;
      version = refl;
      unmarked = unmarked;
    } in
    let w = starts-Waiting run_sql fs ms first read whole ls first (inl (due, fresh)) in
    let ended : Between run_sql due first s' [] =
      subst (Ended run_sql due first) h (start-Ended run_sql fs ms first read whole locked _ w) in
    let all = ended.split ∙ append_nil ended.done in
    record {
      runs = subst (λ l. Runs run_sql l first.schema s'.schema) (sym all) ended.runs;
      version = ended.version ∙ ap (latest first.version) (sym all);
      mark = ended.unmarked ∙ sym unmarked;
    }
  where
    append_nil : (xs : List Migration) → xs ++ [] ≡ xs
    append_nil [] = refl
    append_nil (x ∷ xs) = ap (λ l. x ∷ l) (append_nil xs)
