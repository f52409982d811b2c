-- ===== src/Storage/Tests.antt =====
-- The storage of concrete names on concrete disks.
use go_kickstart.Base.{
  ◌≡◌, refl, true, false, some, [], if◌then◌else◌, Text, txt, str_eq, has_prefix,
}
use go_kickstart.Storage.{
  shared_file, invalid_mode, err, absent, present, Disk, Os, settle_path, parse_storage_path,
  ensure_private_file, validate_stat, validate_suffixes, validate_storage_files, prepare_storage,
}
use go_kickstart.Storage.Private.{IsPrivate, prepare_storage-IsPrivate, prepare_storage-present}

program : Unit {0}
unfolding str_eq has_prefix settle_path parse_storage_path ensure_private_file validate_stat
    validate_suffixes validate_storage_files prepare_storage
program = tt

abbrev os : Os
os = record {
  windows = false;
  parse_url =
      λ s. some (record { has_user = false; host = []; path = txt "/data/app"; opaque_ = [] });
  path_unescape = λ s. some s;
  mkdir_fails = λ s. false;
  open_fails = λ s. false;
  close_fails = λ s. false;
  new_perm = 384;
}

abbrev no_params : Text → Text
no_params key = []

abbrev empty : Disk
empty path = absent

-- A log that others may read, with the permissions 0644.
abbrev with_log : Disk
with_log path =
    if str_eq path (txt "app-wal")
    then present (record { is_regular = true; perm = 420; content = txt "log" })
    else absent

abbrev created : Disk
created = (prepare_storage os (txt "app") no_params empty).1

creates_private :
    created (txt "app") ≡ present (record { is_regular = true; perm = 384; content = [] })
unfolding program
creates_private = refl

refuses_shared :
    (prepare_storage os (txt "app") no_params with_log).0 ≡ err (shared_file (txt "app-wal"))
unfolding program
refuses_shared = refl

refuses_mode :
    (prepare_storage os
      (txt "file:app")
      (λ key. if str_eq key (txt "mode") then txt "x" else [])
      empty).0
    ≡ err invalid_mode
unfolding program
refuses_mode = refl

prepare_storage-IsPrivate_example : IsPrivate os (txt "app") created
unfolding program
prepare_storage-IsPrivate_example =
    prepare_storage-IsPrivate os (txt "app") no_params (txt "app") true empty created refl refl refl

prepare_storage-present_example :
    (prepare_storage os (txt "app") no_params with_log).1 (txt "app-wal")
    ≡ present (record { is_regular = true; perm = 420; content = txt "log" })
unfolding program
prepare_storage-present_example =
    prepare_storage-present os (txt "app") no_params with_log (txt "app-wal")
      (record { is_regular = true; perm = 420; content = txt "log" }) refl
