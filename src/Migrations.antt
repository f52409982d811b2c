-- ===== src/Migrations.antt =====
-- database/migrations.go and the migrations.go of the three adapters. What a migration does to the
-- schema is the engine's, a parameter: its error, and the schema that it leaves, also when it fails.
-- `Server` has the schema, the rows of `schema_migrations` and `schema_migration_pending`, and the
-- faults to come of the other statements.
pub mod Laws
pub mod Reading
pub mod Pending
pub mod Newer
pub mod Applied
pub mod Mysql
mod Tests
use go_kickstart.Base.{
  ℕ, ◌≡◌, Bool, true, false, not, ◌||◌, ◌==◌, Option, none, some, List, [], ◌∷◌, ◌++◌,
  if◌then◌else◌, ℤ, pos, leb_ℤ, Text, txt, has_suffix, parse_int,
}

-- The errors, with what their texts tell.
pub data Failure : Type 0 where
  unreadable_directory : Failure
  invalid_filename invalid_version unreadable_file : Text → Failure
  duplicate_version : ℤ → Failure
  apply_failed : Text → ℕ → Failure
  already_running : Failure
  incomplete : ℤ → Failure
  database_error : ℕ → Failure

pub data Result {ℓ} (A : Type ℓ) : Type ℓ where
  ok : A → Result A
  err : Failure → Result A

pub record Migration : Type 0 where
  pub version : ℤ
  pub name : Text
  pub sql : Text

-- `fs.FS`: the entries of "migrations", with whether they are directories, and the files. `none` is an error.
pub record Files : Type 0 where
  pub entries : Option (List (Bool × Text))
  pub read_file : Text → Option Text

-- The part of `strings.Cut` before the separator; `none` where there is none.
unfoldable pub cut_before : ℕ → Text → Option Text
cut_before c [] = none
cut_before c (x ∷ s) =
    let rest = cut_before c s in
    if x == c then some [] else elim rest [ none ↦ none | some before ↦ some (x ∷ before) ]

abbrev pub with_body : Text → ℤ → Option Text → Result Migration
with_body name version none = err (unreadable_file name)
with_body name version (some body) = ok (record { version = version; name = name; sql = body })

abbrev pub with_version : Files → Text → Option ℤ → Result Migration
with_version fs name none = err (invalid_version name)
with_version fs name (some version) =
    with_body name version (fs.read_file (txt "migrations/" ++ name))

abbrev pub with_part : Files → Text → Option Text → Result Migration
with_part fs name none = err (invalid_filename name)
with_part fs name (some part) = with_version fs name (parse_int part)

-- One round of the loop of `ReadMigrations`.
unfoldable pub read_migration : Files → Text → Result Migration
read_migration fs name = with_part fs name (cut_before b'_' name)

abbrev pub is_migration : Bool × Text → Bool
is_migration (is_dir, name) = not (is_dir || not (has_suffix name (txt ".up.sql")))

-- `append`, unless one of the files is refused; the first that is decides.
abbrev pub prepend : Result Migration → Result (List Migration) → Result (List Migration)
prepend (err e) rest = err e
prepend (ok m) (err e) = err e
prepend (ok m) (ok ms) = ok (m ∷ ms)

unfoldable pub read_entries : Files → List (Bool × Text) → Result (List Migration)
read_entries fs [] = ok []
read_entries fs (entry ∷ entries) =
    let rest = read_entries fs entries in
    if is_migration entry then prepend (read_migration fs entry.1) rest else rest

-- `slices.SortFunc` by the version.
unfoldable pub insert_by_version : Migration → List Migration → List Migration
insert_by_version m [] = m ∷ []
insert_by_version m (x ∷ ms) =
    let rest = insert_by_version m ms in if leb_ℤ m.version x.version then m ∷ x ∷ ms else x ∷ rest

unfoldable pub sort_by_version : List Migration → List Migration
unfolding insert_by_version
sort_by_version [] = []
sort_by_version (m ∷ ms) = insert_by_version m (sort_by_version ms)

abbrev pub eq_ℤ : ℤ → ℤ → Bool
eq_ℤ a b = if leb_ℤ a b then leb_ℤ b a else false

-- The loop over neighbours.
unfoldable pub first_duplicate : List Migration → Option ℤ
first_duplicate [] = none
first_duplicate (m ∷ []) = none
first_duplicate (m ∷ n ∷ ms) =
    let rest = first_duplicate (n ∷ ms) in if eq_ℤ m.version n.version then some n.version else rest

abbrev pub unless_duplicate : List Migration → Option ℤ → Result (List Migration)
unless_duplicate ms none = ok ms
unless_duplicate ms (some v) = err (duplicate_version v)

abbrev pub sorted_without_duplicates : Result (List Migration) → Result (List Migration)
sorted_without_duplicates (err e) = err e
sorted_without_duplicates (ok ms) =
    let sorted = sort_by_version ms in unless_duplicate sorted (first_duplicate sorted)

abbrev pub read_from : Files → Option (List (Bool × Text)) → Result (List Migration)
read_from fs none = err unreadable_directory
read_from fs (some entries) = sorted_without_duplicates (read_entries fs entries)

unfoldable pub read_migrations : Files → Result (List Migration)
read_migrations fs = read_from fs fs.entries

pub record Server (Schema : Type 0) : Type 0 where
  pub schema : Schema
  pub version : Option ℤ
  pub mark : Option ℤ
  pub faults : List (Option ℕ)

-- What a call does: its result, and the server after it.
abbrev pub M {ℓ} : Type 0 → Type ℓ → Type ℓ
M Schema A = Server Schema → Result A × Server Schema

infixl 5 ◌>>=◌ ◌>>◌
module _ {ℓ κ} {Schema : Type 0} {A : Type ℓ} {B : Type κ} where
  abbrev pub and_then : Result A × Server Schema → (A → M Schema B) → Result B × Server Schema
  and_then (ok a, s) f = f a s
  and_then (err e, s) f = (err e, s)

  abbrev pub ◌>>=◌ : M Schema A → (A → M Schema B) → M Schema B
  ◌>>=◌ m f s = and_then (m s) f

abbrev pub ◌>>◌ {ℓ} : {Schema : Type 0} {B : Type ℓ} → M Schema (Unit {0}) → M Schema B → M Schema B
m >> k = m >>= λ _. k

-- `COALESCE(…, 0)`
abbrev pub coalesce : Option ℤ → ℤ
coalesce none = pos 0
coalesce (some v) = v

module _ {Schema : Type 0} where
  abbrev pub pure {ℓ} : {A : Type ℓ} → A → M Schema A
  pure a s = (ok a, s)

  abbrev pub raise {ℓ} : {A : Type ℓ} → Failure → M Schema A
  raise e s = (err e, s)

  abbrev pub answered : Server Schema → List (Option ℕ) → Result (Unit {0}) × Server Schema
  answered s [] = (ok tt, s)
  answered s (none ∷ fs) = (ok tt, record s { faults = fs })
  answered s (some n ∷ fs) = (err (database_error n), record s { faults = fs })

  -- The answer to a statement of the bookkeeping before it acts.
  unfoldable pub statement : M Schema (Unit {0})
  statement s = answered s s.faults

  unfoldable pub get_schema_migration_version : M Schema ℤ
  get_schema_migration_version = do statement; λ s. (ok (coalesce s.version), s)

  unfoldable pub set_schema_migration_version : ℤ → M Schema (Unit {0})
  set_schema_migration_version v = do statement; λ s. (ok tt, record s { version = some v })

  abbrev pub undone {ℓ} :
      {A : Type ℓ} → Server Schema → Result A × Server Schema → Result A × Server Schema
  undone before (ok a, s) = (ok a, s)
  undone before (err e, s) = (err e, record before { faults = s.faults })

  -- Begin, the body, and commit; the deferred rollback undoes what is not committed.
  unfoldable pub in_tx {ℓ} : {A : Type ℓ} → M Schema A → M Schema A
  in_tx body = do statement; λ s. undone s ((do a ← body; statement; pure a) s)

  abbrev pub bootstrapped : Option Text → M Schema (Unit {0})
  bootstrapped none = raise (unreadable_file (txt "migrations/20260503000_schema_migrations.sql"))
  bootstrapped (some schema) = statement

  -- The bookkeeping tables are created if they are missing, which changes no row of them.
  unfoldable pub ensure_migration_table : Files → M Schema (Unit {0})
  ensure_migration_table fs =
      bootstrapped (fs.read_file (txt "migrations/20260503000_schema_migrations.sql"))

  abbrev pub lift {ℓ} : {A : Type ℓ} → Result A → M Schema A
  lift r s = (r, s)

  abbrev pub unless_running : Bool → M Schema (Unit {0})
  unless_running true = pure tt
  unless_running false = raise already_running

module _ {Schema : Type 0} (run_sql : Text → Schema → Option ℕ × Schema) where
  abbrev pub ran : Text → Option ℕ → Result (Unit {0})
  ran name none = ok tt
  ran name (some n) = err (apply_failed name n)

  -- `exec` of a migration.
  unfoldable pub execute : Migration → M Schema (Unit {0})
  execute m s =
      let (e, schema) = run_sql m.sql s.schema in (ran m.name e, record s { schema = schema })

  -- The loop of `ApplyMigrations`.
  unfoldable pub apply_pending : ℤ → List Migration → M Schema (Unit {0})
  apply_pending current [] = pure tt
  apply_pending current (m ∷ ms) =
      let rest = apply_pending current ms in
      if leb_ℤ m.version current
      then rest
      else do execute m; set_schema_migration_version m.version; rest

  unfoldable pub apply_migrations : Files → M Schema (Unit {0})
  apply_migrations fs = do
    ms ← lift (read_migrations fs)
    current ← get_schema_migration_version
    apply_pending current ms

  -- `sqlite.applyMigrations`; the statement between takes the writer's lock and changes nothing.
  unfoldable pub sqlite_apply_migrations : Files → M Schema (Unit {0})
  sqlite_apply_migrations fs = in_tx (do ensure_migration_table fs; statement; apply_migrations fs)

  -- `postgres.applyMigrations`; `locked` is what `pg_try_advisory_xact_lock` answers.
  unfoldable pub postgres_apply_migrations : Bool → Files → M Schema (Unit {0})
  postgres_apply_migrations locked fs =
      in_tx (do statement; unless_running locked; ensure_migration_table fs; apply_migrations fs)
