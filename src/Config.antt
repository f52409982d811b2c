-- ===== src/Config.antt =====
-- Where the program starts: the choice of a database (database/provider/provider.go) and the
-- directories of the configuration (cmd/root.go).
use go_kickstart.Base.{
  Bool, ◌||◌, Option, none, some, List, [], ◌∷◌, ◌++◌, any, if◌then◌else◌, Text, txt, str_eq,
  has_prefix, contains,
}
use go_kickstart.Database.{Result, err, failure}

unfoldable pub is_postgres_conn_str : Text → Bool
is_postgres_conn_str s = has_prefix s (txt "postgres://") || has_prefix s (txt "postgresql://")

unfoldable pub is_mysql_conn_str : Text → Bool
is_mysql_conn_str s =
    has_prefix s (txt "mysql://") || contains s (txt "@tcp(") || contains s (txt "@unix(")

-- The constructors of the three adapters are arguments.
unfoldable pub open_database {ℓ} :
    {D : Type ℓ} → (Text → Result D) → (Text → Result D) → (Text → Result D) → Text → Result D
unfolding is_postgres_conn_str is_mysql_conn_str
open_database new_postgres new_mysql new_sqlite conn_str =
    if str_eq conn_str []
    then err (failure 0)
    else if is_postgres_conn_str conn_str
    then new_postgres conn_str
    else if is_mysql_conn_str conn_str
    then new_mysql conn_str
    else new_sqlite conn_str

-- `if err == nil && dir != ""`, and `!slices.Contains(dirs, dir)`.
add_dir : Option Text → List Text → List Text
add_dir none dirs = dirs
add_dir (some dir) dirs = if str_eq dir [] || any (str_eq dir) dirs then dirs else dirs ++ dir ∷ []

-- `none` is a failure to tell the directory; `join` is `filepath.Join`.
config_home : (Text → Text → Text) → Option Text → Option Text
config_home join none = none
config_home join (some home) = if str_eq home [] then none else some (join home (txt ".config"))

unfoldable pub find_config_dirs :
    (Text → Text → Text) → Option Text → Text → Option Text → List Text
unfolding add_dir config_home
find_config_dirs join wd xdg_config_home home =
    add_dir (config_home join home) (add_dir (some xdg_config_home) (add_dir wd []))
    ++ txt "/usr/local/etc" ∷ txt "/etc" ∷ []
