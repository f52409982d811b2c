-- ===== src/Database/Queries.antt =====
-- database/sqlite/queries: the adapter of the Querier interface, with the SQL statement of each
-- method (the .sql files beside it) run on the tables. A constraint of the schema that a statement
-- would break is `failure constraint_failed`.
use go_kickstart.Base.{
  ℕ, suc, Bool, true, not, ◌&&◌, ◌||◌, Option, none, some, List, [], ◌∷◌, ◌++◌, leb, ◌==◌,
  if◌then◌else◌, length, find, remove_all, any, Text, str_eq, ltb, false, ◌+◌,
}
use go_kickstart.Database.{
  Account, AccountEmailChangeRequest, RefreshToken, Tables, not_found, email_unavailable, failure,
  Result, ok, err, M, ◌>>=◌, statement, new_auth_id,
}

abbrev pub constraint_failed : ℕ
constraint_failed = 19

-- A row that a `:one` query returns.
abbrev pub one {ℓ} : {A : Type ℓ} → Option A → Tables → Result (A × Tables)
one none t = err not_found
one (some a) t = ok (a, t)

-- The effect of an `:exec` query.
abbrev pub done : Tables → Result (Unit {0} × Tables)
done t = ok (tt, t)

module _ {ℓ} {A : Type ℓ} where
  -- `UPDATE … SET … WHERE`
  abbrev pub update_where : (A → Bool) → (A → A) → List A → List A
  update_where p f [] = []
  update_where p f (x ∷ xs) = (if p x then f x else x) ∷ update_where p f xs

abbrev pub has_sub : ℕ → Account → Bool
has_sub sub a = a.sub == sub

abbrev pub has_email : Text → Account → Bool
has_email email a = str_eq a.email email

abbrev pub has_hash : Text → RefreshToken → Bool
has_hash h r = str_eq r.token_hash h

abbrev pub of_sub : ℕ → RefreshToken → Bool
of_sub sub r = r.sub == sub

-- Lowercase hexadecimal, 64 digits: the CHECK constraints on `otp_hash`.
is_hex : Text → Bool
is_hex [] = true
is_hex (c ∷ s) = (leb b'0' c && leb c b'9' || leb b'a' c && leb c b'f') && is_hex s

unfoldable pub is_digest : Text → Bool
unfolding is_hex
is_digest h = length h == 64 && is_hex h

-- SQLite's `length` of a text: its characters before a zero byte. A byte from 0xC0 on begins a character
-- to which the bytes 0x80 to 0xBF after it belong; `inside` is whether one has begun.
characters : Bool → Text → ℕ
characters inside [] = 0
characters inside (c ∷ s) =
    let joins = inside && (leb 0x80 c && ltb c 0xc0) in
    let rest = characters (joins || leb 0xc0 c) s in
    if c == 0 then 0 else if joins then rest else rest + 1

-- The CHECK constraint on the length of an email.
unfoldable pub email_fits : Text → Bool
unfolding characters
email_fits email = leb (characters false email) 255

-- INSERT with ON CONFLICT(email) DO UPDATE, RETURNING sub; the subject is the next of the sequence,
-- which the trigger advances.
unfoldable pub insert_account : Text → ℕ → Text → Tables → Result (ℕ × Tables)
unfolding email_fits
insert_account email created_at auth_id t =
    if not (email_fits email)
    then err (failure constraint_failed)
    else elim (find (has_email email) t.accounts) [
      | some a ↦ ok (a.sub, t)
      | none ↦
          if any (λ (a : Account). str_eq a.auth_id auth_id) t.accounts
          then err (failure constraint_failed)
          else ok (
            suc t.last_sub,
            record t {
              accounts =
                  t.accounts
                  ++ record {
                    sub = suc t.last_sub;
                    email = email;
                    created_at = created_at;
                    auth_id = auth_id;
                  }
                    ∷ [];
              last_sub = suc t.last_sub;
            },
          )
    ]

unfoldable pub ensure_account_by_email : Text → ℕ → M ℕ
ensure_account_by_email email created_at = do
  auth_id ← new_auth_id
  statement (insert_account email created_at auth_id)

-- The UNIQUE constraint on `email` is the only one that an update of the email can break besides
-- its length.
unfoldable pub update_email : ℕ → Text → Tables → Result (Unit {0} × Tables)
unfolding email_fits
update_email sub email t =
    if not (any (has_sub sub) t.accounts)
    then done t
    else if not (email_fits email)
    then err (failure constraint_failed)
    else if any (λ (a : Account). has_email email a && not (has_sub sub a)) t.accounts
    then err email_unavailable
    else done (record t {
      accounts =
          update_where (has_sub sub) (λ (a : Account). record a { email = email }) t.accounts;
    })

unfoldable pub update_account_email : ℕ → Text → M (Unit {0})
update_account_email sub email = statement (update_email sub email)

-- ON DELETE CASCADE reaches the roles and the refresh tokens, and the email change request.
unfoldable pub delete_rows : ℕ → Tables → Result (Unit {0} × Tables)
delete_rows sub t = done (record t {
  accounts = remove_all (has_sub sub) t.accounts;
  refresh_tokens = remove_all (of_sub sub) t.refresh_tokens;
  email_changes = remove_all (λ (r : AccountEmailChangeRequest). r.sub == sub) t.email_changes;
  account_roles = remove_all (λ (r : ℕ × Text). r.0 == sub) t.account_roles;
})

unfoldable pub delete_account : ℕ → M (Unit {0})
delete_account sub = statement (delete_rows sub)

unfoldable pub select_account_by_sub : ℕ → M Account
select_account_by_sub sub = statement (λ t. one (find (has_sub sub) t.accounts) t)

abbrev pub auth_id_of : Option Account → Tables → Result (Text × Tables)
auth_id_of none t = err not_found
auth_id_of (some a) t = ok (a.auth_id, t)

unfoldable pub select_account_auth_id : ℕ → M Text
select_account_auth_id sub = statement (λ t. auth_id_of (find (has_sub sub) t.accounts) t)

-- `UPDATE … SET auth_id = auth_id … RETURNING auth_id`: a read that takes the row's lock.
unfoldable pub lock_account_auth_id : ℕ → M Text
lock_account_auth_id sub = statement (λ t. auth_id_of (find (has_sub sub) t.accounts) t)

-- `auth_id` is unique.
unfoldable pub replace_auth_id : ℕ → Text → Tables → Result (Unit {0} × Tables)
replace_auth_id sub auth_id t =
    if any (λ (a : Account). str_eq a.auth_id auth_id && not (has_sub sub a)) t.accounts
      && any (has_sub sub) t.accounts
    then err (failure constraint_failed)
    else done (record t {
      accounts =
          update_where (has_sub sub) (λ (a : Account). record a { auth_id = auth_id }) t.accounts;
    })

unfoldable pub set_account_auth_id : ℕ → Text → M (Unit {0})
set_account_auth_id sub auth_id = statement (replace_auth_id sub auth_id)
