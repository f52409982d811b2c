-- ===== src/Storage/Private.antt =====
-- What a storage that was accepted is like, and what the check leaves alone.
use mathlib.Core.Path.{subst}
use go_kickstart.Base.{
  ◌%◌, ◌≡◌, refl, sym, ap, ◌∙◌, ◌⊎◌, inl, inr, not, ◌||◌, ◌==◌, Bool, true, false, Bool-cases,
  Option, none, some, List, [], ◌∷◌, ◌++◌, arith, if◌then◌else◌, All, Text, str_eq, str_eq_iff,
}
use go_kickstart.Storage.{
  Failure, Result, ok, err, FileInfo, Stat, absent, unreadable, present, Disk, Os, is_set,
  parse_storage_path, create_exclusive, not_created, ensure_private_file, validate_info,
  validate_stat, first_failure, validate_suffixes, suffixes, validated, validate_storage_files,
  validate_after, prepare_parsed, prepare_storage,
}

-- A regular file that, but on Windows, nobody else may use.
abbrev IsOwn : Os → FileInfo → Type 0
IsOwn os info = (info.is_regular ≡ true) × ((os.windows ≡ true) ⊎ ((info.perm % 64 == 0) ≡ true))

abbrev IsAccepted : Os → Stat → Type 0
IsAccepted os absent = Unit
IsAccepted os unreadable = ⊥
IsAccepted os (present info) = IsOwn os info

-- The database is such a file, and each of the files beside it is missing or such a file.
pub record IsPrivate (os : Os) (path : Text) (disk : Disk) : Type 0 where
  pub database : (info : FileInfo) × ((disk (path ++ []) ≡ present info) × IsOwn os info)
  pub beside : All (λ suffix. IsAccepted os (disk (path ++ suffix))) suffixes

validate_info-IsOwn :
    (os : Os) (path : Text) (info : FileInfo) → validate_info os path info ≡ none → IsOwn os info
validate_info-IsOwn os path info h = regular (Bool-cases info.is_regular)
  where
    regular : (info.is_regular ≡ true) ⊎ (info.is_regular ≡ false) → IsOwn os info
    regular (inl r) = (r, ground (arith, h, r))
    regular (inr r) = absurd (ground (arith, h, r))

validate_stat-IsAccepted :
    (os : Os) (path suffix : Text) (s : Stat)
    → validate_stat os path suffix s ≡ none
    → IsAccepted os s
unfolding validate_stat
validate_stat-IsAccepted os path suffix absent h = tt
validate_stat-IsAccepted os path suffix unreadable h = cc
validate_stat-IsAccepted os path suffix (present info) h =
    validate_info-IsOwn os (path ++ suffix) info h

validate_main :
    (os : Os) (path : Text) (s : Stat)
    → validate_stat os path [] s ≡ none
    → (info : FileInfo) × ((s ≡ present info) × IsOwn os info)
unfolding validate_stat str_eq
validate_main os path absent h = cc
validate_main os path unreadable h = cc
validate_main os path (present info) h = (info, (refl, validate_info-IsOwn os (path ++ []) info h))

both_none : (a b : Option Failure) → first_failure a b ≡ none → (a ≡ none) × (b ≡ none)
both_none none b h = (refl, h)
both_none (some e) b h = cc

validate_suffixes-All :
    (os : Os) (ss : List Text) (path : Text) (disk : Disk)
    → validate_suffixes os ss path disk ≡ none
    → All (λ suffix. IsAccepted os (disk (path ++ suffix))) ss
unfolding validate_suffixes
validate_suffixes-All os [] path disk h = tt
validate_suffixes-All os (suffix ∷ ss) path disk h =
    let (first, rest) = both_none _ _ h in
    (validate_stat-IsAccepted os path suffix _ first, validate_suffixes-All os ss path disk rest)

validate_storage_files-IsPrivate :
    (os : Os) (path : Text) (disk disk' : Disk)
    → validate_storage_files os path disk ≡ (ok tt, disk')
    → IsPrivate os path disk'
unfolding validate_storage_files validate_suffixes
validate_storage_files-IsPrivate os path disk disk' h =
    all_valid (validate_suffixes os suffixes path disk) refl h
  where
    all_valid :
        (o : Option Failure)
        → validate_suffixes os suffixes path disk ≡ o
        → validated o disk ≡ (ok tt, disk')
        → IsPrivate os path disk'
    all_valid (some e) q h = cc
    all_valid none q h = subst (IsPrivate os path) (ap (λ o. o.1) h) (record {
      database = validate_main os path (disk (path ++ [])) (both_none _ _ q).0;
      beside = validate_suffixes-All os suffixes path disk q;
    })

-- A storage that was accepted, for a name that is a file, is private: the file of the database exists, it
-- and each of the files beside it that exists is a regular file, and but on Windows no one but its owner
-- may use it.
pub prepare_storage-IsPrivate :
    (os : Os) (filename : Text) (get : Text → Text) (path : Text) (create : Bool)
    (disk disk' : Disk)
    → parse_storage_path os filename get ≡ ok (path, create)
    → is_set path ≡ true
    → prepare_storage os filename get disk ≡ (ok tt, disk')
    → IsPrivate os path disk'
unfolding prepare_storage
prepare_storage-IsPrivate os filename get path create disk disk' parsed set h =
    started (is_set path) set (sym (ap (λ r. prepare_parsed os r disk) parsed) ∙ h)
  where
    Out : Type 0
    Out = Result (Unit {0}) × Disk

    checked : (o : Out) → validate_after os path o ≡ (ok tt, disk') → IsPrivate os path disk'
    checked (err e, d) h = cc
    checked (ok u, d) h = validate_storage_files-IsPrivate os path d disk' h

    started :
        (b : Bool)
        → b ≡ true
        → ◌≡◌ {A = Out}
            (if not b
              then (ok tt, disk)
              else validate_after os path
                  (if create then ensure_private_file os path disk else (ok tt, disk)))
            (ok tt, disk')
        → IsPrivate os path disk'
    started true set h = checked _ h
    started false set h = cc

create_exclusive-present :
    (os : Os) (path : Text) (s : Stat) (disk : Disk) (other : Text) (info : FileInfo)
    → disk path ≡ s
    → disk other ≡ present info
    → (create_exclusive os path s disk).1 other ≡ present info
create_exclusive-present os path (present i) disk other info at there = there
create_exclusive-present os path unreadable disk other info at there = there
create_exclusive-present os path absent disk other info at there =
    elim (Bool-cases (str_eq other path)) [
      | inl same ↦ absurd (differ (sym at ∙ ap disk (sym ((str_eq_iff other path).0 same)) ∙ there))
      | inr ne ↦ rw ne there
    ]
  where
    differ : ¬ (absent ≡ present info)
    differ e = cc

ensure_private_file-present :
    (os : Os) (path : Text) (disk : Disk) (other : Text) (info : FileInfo)
    → disk other ≡ present info
    → (ensure_private_file os path disk).1 other ≡ present info
unfolding ensure_private_file
ensure_private_file-present os path disk other info there =
    opened (os.mkdir_fails path || os.open_fails path)
  where
    opened :
        (b : Bool)
        → (if◌then◌else◌ {A = Result (Unit {0}) × Disk} b
              (err (not_created path), disk)
              (create_exclusive os path (disk path) disk)).1
            other
          ≡ present info
    opened true = there
    opened false = create_exclusive-present os path (disk path) disk other info refl there

-- The preparation of an SQLite storage leaves every file that exists as it is, its bytes, its kind and
-- its permissions, whatever its outcome.
pub prepare_storage-present :
    (os : Os) (filename : Text) (get : Text → Text) (disk : Disk) (other : Text) (info : FileInfo)
    → disk other ≡ present info
    → (prepare_storage os filename get disk).1 other ≡ present info
unfolding prepare_storage validate_storage_files
prepare_storage-present os filename get disk other info there =
    parsed (parse_storage_path os filename get)
  where
    Out : Type 0
    Out = Result (Unit {0}) × Disk

    Keeps : Out → Type 0
    Keeps o = o.1 other ≡ present info

    checked :
        (path : Text) (d : Disk) (o : Option Failure)
        → d other ≡ present info
        → Keeps (validated o d)
    checked path d none kept = kept
    checked path d (some e) kept = kept

    after : (path : Text) (o : Out) → Keeps o → Keeps (validate_after os path o)
    after path (err e, d) kept = kept
    after path (ok u, d) kept = checked path d (validate_suffixes os suffixes path d) kept

    made :
        (b c : Bool) (path : Text)
        → Keeps (
            if not b
            then (ok tt, disk)
            else validate_after os path
                (if c then ensure_private_file os path disk else (ok tt, disk)))
    made false c path = there
    made true false path = after path (ok tt, disk) there
    made true true path =
        after path (ensure_private_file os path disk)
          (ensure_private_file-present os path disk other info there)

    parsed : (r : Result (Text × Bool)) → Keeps (prepare_parsed os r disk)
    parsed (err e) = there
    parsed (ok (path, create)) = made (is_set path) create path
