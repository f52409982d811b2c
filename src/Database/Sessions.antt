-- ===== src/Database/Sessions.antt =====
-- database/sqlite/queries: refresh tokens, roles and permissions.
use go_kickstart.Base.{
  ℕ, ◌/◌, Bool, true, false, not, ◌&&◌, ◌||◌, List, [], ◌∷◌, ltb, ◌==◌, if◌then◌else◌, find,
  remove_all, any, Text, str_eq,
}
use go_kickstart.Database.{RefreshToken, Tables, failure, Result, ok, err, M, statement, second}
use go_kickstart.Database.Queries.{constraint_failed, one, done, has_sub, has_hash, of_sub}

-- `token_hash` is the primary key and `sub` refers to an account. The column `created_at` takes the
-- engine's time.
unfoldable pub insert_token : Text → ℕ → Text → ℕ → ℕ → Tables → Result (Unit {0} × Tables)
insert_token token_hash sub auth_id expires_at created_at t =
    if any (has_hash token_hash) t.refresh_tokens || not (any (has_sub sub) t.accounts)
    then err (failure constraint_failed)
    else done (record t {
      refresh_tokens =
          record {
            token_hash = token_hash;
            sub = sub;
            auth_id = auth_id;
            expires_at = expires_at;
            created_at = created_at;
          }
          ∷ t.refresh_tokens;
    })

unfoldable pub insert_refresh_token : Text → ℕ → Text → ℕ → M (Unit {0})
insert_refresh_token token_hash sub auth_id expires_at w =
    statement (insert_token token_hash sub auth_id expires_at (w.clock / second)) w

unfoldable pub select_refresh_token_by_hash : Text → M RefreshToken
select_refresh_token_by_hash token_hash =
    statement (λ t. one (find (has_hash token_hash) t.refresh_tokens) t)

abbrev pub without_token : Text → Tables → Tables
without_token token_hash t = record t {
  refresh_tokens = remove_all (has_hash token_hash) t.refresh_tokens;
}

-- `DELETE … RETURNING`
unfoldable pub consume_refresh_token_by_hash : Text → M RefreshToken
consume_refresh_token_by_hash token_hash =
    statement (λ t. one (find (has_hash token_hash) t.refresh_tokens) (without_token token_hash t))

unfoldable pub delete_refresh_token_by_hash : Text → M (Unit {0})
delete_refresh_token_by_hash token_hash = statement (λ t. done (without_token token_hash t))

unfoldable pub delete_refresh_tokens_by_sub : ℕ → M (Unit {0})
delete_refresh_tokens_by_sub sub =
    statement (λ t. done (record t { refresh_tokens = remove_all (of_sub sub) t.refresh_tokens }))

abbrev pub is_role : ℕ → Text → ℕ × Text → Bool
is_role sub role_key r = r.0 == sub && str_eq r.1 role_key

-- ON CONFLICT DO NOTHING; the account and the role must exist.
unfoldable pub assign_role : ℕ → Text → Tables → Result (Unit {0} × Tables)
assign_role sub role_key t =
    if any (is_role sub role_key) t.account_roles
    then done t
    else if any (has_sub sub) t.accounts && any (str_eq role_key) t.roles
    then done (record t { account_roles = (sub, role_key) ∷ t.account_roles })
    else err (failure constraint_failed)

unfoldable pub assign_role_to_account : ℕ → Text → M (Unit {0})
assign_role_to_account sub role_key = statement (assign_role sub role_key)

-- `a < b` on texts, byte by byte.
text_lt : Text → Text → Bool
text_lt s [] = false
text_lt [] (y ∷ t) = true
text_lt (x ∷ s) (y ∷ t) = ltb x y || x == y && text_lt s t

insert_role : Text → List Text → List Text
insert_role r [] = r ∷ []
insert_role r (x ∷ xs) = if text_lt x r then x ∷ insert_role r xs else r ∷ x ∷ xs

pub roles_of : ℕ → List (ℕ × Text) → List Text
roles_of sub [] = []
roles_of sub (r ∷ rs) =
    let rest = roles_of sub rs in if r.0 == sub then insert_role r.1 rest else rest

-- ORDER BY role_key
unfoldable pub select_account_roles_by_sub : ℕ → M (List Text)
unfolding roles_of insert_role text_lt
select_account_roles_by_sub sub = statement (λ t. ok (roles_of sub t.account_roles, t))

abbrev pub grants : Text → Text → List (Text × Text) → Bool
grants role_key permission_key =
    any (λ (p : Text × Text). str_eq p.0 role_key && str_eq p.1 permission_key)

unfoldable pub role_has_permission : Text → Text → M Bool
role_has_permission role_key permission_key =
    statement (λ t. ok (grants role_key permission_key t.role_permissions, t))

-- The join of the account's roles with the roles' permissions.
abbrev pub permitted : ℕ → Text → Tables → Bool
permitted sub permission_key t =
    any (λ (r : ℕ × Text). r.0 == sub && grants r.1 permission_key t.role_permissions)
      t.account_roles

unfoldable pub account_has_permission : ℕ → Text → M Bool
account_has_permission sub permission_key = statement (λ t. ok (permitted sub permission_key t, t))
