-- ===== src/Storage.antt =====
-- database/sqlite/storage.go: the check of the files of an SQLite database before it is opened. The disk
-- tells of each path what `os.Lstat` tells, and the bytes of the file. The parsing of a URI, the operating system's errors and the
-- permissions that a new file gets are parameters; the directories that are made are left out.
mod Private
mod Tests
use go_kickstart.Base.{
  ℕ, ◌%◌, ◌≡◌, not, ◌&&◌, ◌||◌, ◌==◌, Bool, true, false, Option, none, some, List, [], ◌∷◌, ◌++◌,
  if◌then◌else◌, drop, Text, txt, str_eq, has_prefix,
}

pub data Failure : Type 0 where
  bad_uri unsupported_authority invalid_mode mode_override : Failure
  not_created uninspected irregular shared_file : Text → Failure

pub data Result (A : Type 0) : Type 0 where
  ok : A → Result A
  err : Failure → Result A

-- `url.URL`, as far as it is read.
pub record Uri : Type 0 where
  pub has_user : Bool
  pub host : Text
  pub path : Text
  pub opaque_ : Text

-- `perm` has the permission bits, and `content` the bytes of a regular file.
pub record FileInfo : Type 0 where
  pub is_regular : Bool
  pub perm : ℕ
  pub content : Text

pub data Stat : Type 0 where
  absent : Stat
  unreadable : Stat
  present : FileInfo → Stat

abbrev pub Disk : Type 0
Disk = Text → Stat

-- `open_fails` and `close_fails` are errors that are not that the file exists.
pub record Os : Type 0 where
  pub windows : Bool
  pub parse_url : Text → Option Uri
  pub path_unescape : Text → Option Text
  pub mkdir_fails : Text → Bool
  pub open_fails : Text → Bool
  pub close_fails : Text → Bool
  pub new_perm : ℕ

-- `path[0] == '/' && path[2] == ':'` on a path of three bytes at least
abbrev pub names_drive : Text → Bool
names_drive (a ∷ b ∷ c ∷ s) = a == b'/' && c == b':'
names_drive _ = false

abbrev pub is_set : Text → Bool
is_set s = not (str_eq s [])

abbrev pub first_failure : Option Failure → Option Failure → Option Failure
first_failure (some e) rest = some e
first_failure none rest = rest

abbrev pub suffixes : List Text
suffixes = [] ∷ txt "-journal" ∷ txt "-wal" ∷ txt "-shm" ∷ []

abbrev pub validated : Option Failure → Disk → Result (Unit {0}) × Disk
validated none disk = (ok tt, disk)
validated (some e) disk = (err e, disk)

module _ (os : Os) where
  -- The part of `parseStoragePath` after the URI; the answer has no path where no file is checked.
  unfoldable pub settle_path : (Text → Text) → Bool → Text → Bool → Result (Text × Bool)
  settle_path get is_uri path create =
      if str_eq path [] || str_eq path (txt ":memory:") || is_set (get (txt "vfs"))
      then ok ([], false)
      else if is_uri && is_set (get (txt "modeof"))
      then err mode_override
      else ok ((if os.windows && names_drive path then drop 1 path else path), create)

  abbrev pub with_mode : (Text → Text) → Text → Result (Text × Bool)
  with_mode get path =
      let mode = get (txt "mode") in
      if str_eq mode (txt "memory")
      then ok ([], false)
      else if str_eq mode (txt "ro") || str_eq mode (txt "rw")
      then settle_path get true path false
      else if str_eq mode [] || str_eq mode (txt "rwc")
      then settle_path get true path true
      else err invalid_mode

  abbrev pub with_path : (Text → Text) → Option Text → Result (Text × Bool)
  with_path get none = err bad_uri
  with_path get (some path) = with_mode get path

  abbrev pub with_uri : (Text → Text) → Option Uri → Result (Text × Bool)
  with_uri get none = err bad_uri
  with_uri get (some uri) =
      if uri.has_user || is_set uri.host && not (str_eq uri.host (txt "localhost"))
      then err unsupported_authority
      else with_path get
          (if is_set uri.opaque_ then os.path_unescape uri.opaque_ else some uri.path)

  -- `get` is `params.Get`.
  unfoldable pub parse_storage_path : Text → (Text → Text) → Result (Text × Bool)
  unfolding settle_path
  parse_storage_path filename get =
      if has_prefix filename (txt "file:")
      then with_uri get (os.parse_url filename)
      else settle_path get false filename true

  -- `os.OpenFile` with O_CREATE and O_EXCL, and `Close`: a name that exists is not opened, so neither the
  -- file nor its bytes change, and a new file is empty.
  abbrev pub create_exclusive : Text → Stat → Disk → Result (Unit {0}) × Disk
  create_exclusive path (present info) disk = (ok tt, disk)
  create_exclusive path unreadable disk = (ok tt, disk)
  create_exclusive path absent disk = (
    (if os.close_fails path then err (not_created path) else ok tt),
    (λ other.
        if str_eq other path
        then present (record { is_regular = true; perm = os.new_perm; content = [] })
        else disk other),
  )

  unfoldable pub ensure_private_file : Text → Disk → Result (Unit {0}) × Disk
  ensure_private_file path disk =
      if os.mkdir_fails path || os.open_fails path
      then (err (not_created path), disk)
      else create_exclusive path (disk path) disk

  -- One round of the loop of `validateStorageFiles`.
  abbrev pub validate_info : Text → FileInfo → Option Failure
  validate_info path info =
      if not info.is_regular
      then some (irregular path)
      else if not os.windows && not (info.perm % 64 == 0)
      then some (shared_file path)
      else none

  unfoldable pub validate_stat : Text → Text → Stat → Option Failure
  validate_stat path suffix absent = if is_set suffix then none else some (uninspected path)
  validate_stat path suffix unreadable = some (uninspected (path ++ suffix))
  validate_stat path suffix (present info) = validate_info (path ++ suffix) info

  unfoldable pub validate_suffixes : List Text → Text → Disk → Option Failure
  unfolding validate_stat
  validate_suffixes [] path disk = none
  validate_suffixes (suffix ∷ suffixes) path disk =
      first_failure (validate_stat path suffix (disk (path ++ suffix)))
        (validate_suffixes suffixes path disk)

  unfoldable pub validate_storage_files : Text → Disk → Result (Unit {0}) × Disk
  validate_storage_files path disk = validated (validate_suffixes suffixes path disk) disk

  abbrev pub validate_after : Text → Result (Unit {0}) × Disk → Result (Unit {0}) × Disk
  validate_after path (err e, disk) = (err e, disk)
  validate_after path (ok u, disk) = validate_storage_files path disk

  abbrev pub prepare_parsed : Result (Text × Bool) → Disk → Result (Unit {0}) × Disk
  prepare_parsed (err e) disk = (err e, disk)
  prepare_parsed (ok (path, create)) disk =
      if not (is_set path)
      then (ok tt, disk)
      else validate_after path (if create then ensure_private_file path disk else (ok tt, disk))

  unfoldable pub prepare_storage : Text → (Text → Text) → Disk → Result (Unit {0}) × Disk
  prepare_storage filename get disk = prepare_parsed (parse_storage_path filename get) disk
