-- ===== src/Cached/Writes.antt =====
-- Which accounts the statements on accounts change, as a read of an account sees them.
use go_kickstart.Base.{
  ℕ, suc, ◌≡◌, ◌≢◌, refl, sym, ap, ◌∙◌, ◌⊎◌, inl, inr, Bool, true, false, Bool-cases, Option, none,
  some, List, [], ◌∷◌, ◌++◌, ◌==◌, ==_iff, arith, find, remove_all, find-remove_all, any, Text,
}
use go_kickstart.Database.{Account, Tables, ok}
use go_kickstart.Database.Laws.{same_tables}
use go_kickstart.Database.Queries.{
  update_where, has_sub, update_email, delete_rows, replace_auth_id, insert_account,
}
use go_kickstart.Cached.{Profile, profile_of, profile_in, profile}
use go_kickstart.Cached.Interleaving.{In, Writes}

profile-first :
    (other : ℕ) (x y : Account) (xs ys : List Account)
    → x.sub ≡ y.sub
    → (y.sub ≡ other → profile_of x ≡ profile_of y)
    → profile_in (find (has_sub other) xs) ≡ profile_in (find (has_sub other) ys)
    → profile_in (find (has_sub other) (x ∷ xs)) ≡ profile_in (find (has_sub other) (y ∷ ys))
profile-first other x y xs ys same unseen rest = elim (Bool-cases (y.sub == other)) [
  | inl h ↦ rw (h, ap (λ n. n == other) same ∙ h) (ap some (unseen ((==_iff y.sub other).0 h)))
  | inr h ↦ rw (h, ap (λ n. n == other) same ∙ h) rest
]

-- An update of other columns or of other rows is not seen.
profile-update_where :
    (p : Account → Bool) (f : Account → Account) (other : ℕ) (rows : List Account)
    → ((a : Account) → (f a).sub ≡ a.sub)
    → ((a : Account) → a.sub ≡ other → p a ≡ true → profile_of (f a) ≡ profile_of a)
    → profile_in (find (has_sub other) (update_where p f rows))
      ≡ profile_in (find (has_sub other) rows)
profile-update_where p f other [] same unseen = refl
profile-update_where p f other (a ∷ rows) same unseen =
    profile-first other _ a _ rows
      (elim (Bool-cases (p a)) [ inl h ↦ rw h (same a) | inr h ↦ rw h refl ])
      (λ here. elim (Bool-cases (p a)) [ inl h ↦ rw h (unseen a here h) | inr h ↦ rw h refl ])
      (profile-update_where p f other rows same unseen)

find-remove_all_others :
    (sub other : ℕ) (rows : List Account)
    → other ≢ sub
    → find (has_sub other) (remove_all (has_sub sub) rows) ≡ find (has_sub other) rows
find-remove_all_others sub other [] ne = refl
find-remove_all_others sub other (a ∷ rows) ne =
    let rest = find-remove_all_others sub other rows ne in ground (arith, rest, ne)

profile-append :
    (other : ℕ) (rows : List Account) (a : Account)
    → (profile_in (find (has_sub other) (rows ++ a ∷ [])) ≡ profile_in (find (has_sub other) rows))
      ⊎ (profile_in (find (has_sub other) rows) ≡ none)
profile-append other [] a = inr refl
profile-append other (b ∷ rows) a = elim (Bool-cases (has_sub other b)) [
  | inl h ↦ inl (rw h refl)
  | inr h ↦ rw h (profile-append other rows a)
]

not-In : (sub other : ℕ) → ¬ In other (sub ∷ []) → other ≢ sub
not-In sub other h e = h (inl (sym e))

In-or_not : (sub other : ℕ) → In other (sub ∷ []) ⊎ (other ≢ sub)
In-or_not sub other = elim (Bool-cases (sub == other)) [
  | inl h ↦ inl (inl ((==_iff sub other).0 h))
  | inr h ↦ inr (λ e. absurd (ground (arith, h, e)))
]

unchanged : {t t' : Tables} → (subs : List ℕ) → t' ≡ t → Writes subs t t'
unchanged subs e sub = inr (inl (ap (profile sub) e))

update_email_cases :
    (sub : ℕ) (email : Text) (t t' : Tables)
    → update_email sub email t ≡ ok (tt, t')
    → ((t' ≡ t) × (any (has_sub sub) t.accounts ≡ false))
      ⊎ (t' ≡ record t {
        accounts =
            update_where (has_sub sub) (λ (a : Account). record a { email = email }) t.accounts;
      })
unfolding update_email
update_email_cases sub email t t' h = ground arith

replace_auth_id_rows :
    (sub : ℕ) (auth_id : Text) (t t' : Tables)
    → replace_auth_id sub auth_id t ≡ ok (tt, t')
    → t' ≡ record t {
      accounts =
          update_where (has_sub sub) (λ (a : Account). record a { auth_id = auth_id }) t.accounts;
    }
unfolding replace_auth_id
replace_auth_id_rows sub auth_id t t' h = ground arith

pub update_email-Writes :
    (sub : ℕ) (email : Text) (t t' : Tables)
    → update_email sub email t ≡ ok (tt, t')
    → Writes (sub ∷ []) t t'
unfolding update_email
update_email-Writes sub email t t' h other = elim (In-or_not sub other) [
  | inl here ↦ inl here
  | inr ne ↦ elim (update_email_cases sub email t t' h) [
    | inl (same, _) ↦ unchanged (sub ∷ []) same other
    | inr rows ↦ inr (
        inl (
          ap (profile other) rows
          ∙ profile-update_where (has_sub sub) (λ a. record a { email = email }) other t.accounts
              (λ a. refl) (λ a e h. absurd (ne (sym e ∙ (==_iff a.sub sub).0 h)))))
  ]
]

no_profile :
    (sub : ℕ) (rows : List Account)
    → any (has_sub sub) rows ≡ false
    → find (has_sub sub) rows ≡ none
no_profile sub [] h = refl
no_profile sub (a ∷ rows) h = let rest = no_profile sub rows in ground (arith, h, rest)

updated_profile :
    (sub : ℕ) (email : Text) (rows : List Account) (p : Profile)
    → profile_in (
        find
          (has_sub sub)
          (update_where (has_sub sub) (λ (a : Account). record a { email = email }) rows))
      ≡ some p
    → p.email ≡ email
updated_profile sub email [] p h = cc
updated_profile sub email (a ∷ rows) p h =
    let rest = updated_profile sub email rows p in ground (arith, h, rest)

-- What a row is seen to have after its email has been changed.
pub update_email-profile :
    (sub : ℕ) (email : Text) (t t' : Tables) (p : Profile)
    → update_email sub email t ≡ ok (tt, t')
    → profile sub t' ≡ some p
    → p.email ≡ email
update_email-profile sub email t t' p h seen = elim (update_email_cases sub email t t' h) [
  | inl (same, unknown) ↦ absurd (
      none_seen
        (sym seen ∙ ap (profile sub) same ∙ ap profile_in (no_profile sub t.accounts unknown)))
  | inr rows ↦ updated_profile sub email t.accounts p (sym (ap (profile sub) rows) ∙ seen)
]
  where
    none_seen : ¬ (◌≡◌ {A = Option Profile} (some p) none)
    none_seen e = cc

-- A row that has been deleted is not seen.
pub delete_rows-profile :
    (sub : ℕ) (t t' : Tables) → delete_rows sub t ≡ ok (tt, t') → profile sub t' ≡ none
unfolding delete_rows
delete_rows-profile sub t t' h =
    ap (profile sub) (sym (same_tables h))
    ∙ ap profile_in (find-remove_all (has_sub sub) t.accounts)

pub delete_rows-Writes :
    (sub : ℕ) (t t' : Tables) → delete_rows sub t ≡ ok (tt, t') → Writes (sub ∷ []) t t'
unfolding delete_rows
delete_rows-Writes sub t t' h other = elim (In-or_not sub other) [
  | inl here ↦ inl here
  | inr ne ↦ inr (
      inl (
        ap (profile other) (sym (same_tables h))
        ∙ ap profile_in (find-remove_all_others sub other t.accounts ne)))
]

pub replace_auth_id-Writes :
    (sub : ℕ) (auth_id : Text) (t t' : Tables)
    → replace_auth_id sub auth_id t ≡ ok (tt, t')
    → Writes [] t t'
unfolding replace_auth_id
replace_auth_id-Writes sub auth_id t t' h other = inr (
    inl (
      ap (profile other) (replace_auth_id_rows sub auth_id t t' h)
      ∙ profile-update_where (has_sub sub) (λ a. record a { auth_id = auth_id }) other t.accounts
          (λ a. refl) (λ a e h. refl)))

insert_account_cases :
    (email : Text) (created_at : ℕ) (auth_id : Text) (sub : ℕ) (t t' : Tables)
    → insert_account email created_at auth_id t ≡ ok (sub, t')
    → (t'.accounts ≡ t.accounts)
      ⊎ (t'.accounts
          ≡ t.accounts
            ++ record {
              sub = suc t.last_sub;
              email = email;
              created_at = created_at;
              auth_id = auth_id;
            }
              ∷ [])
unfolding insert_account
insert_account_cases email created_at auth_id sub t t' h = ground arith

pub insert_account-Writes :
    (email : Text) (created_at : ℕ) (auth_id : Text) (sub : ℕ) (t t' : Tables)
    → insert_account email created_at auth_id t ≡ ok (sub, t')
    → Writes [] t t'
insert_account-Writes email created_at auth_id sub t t' h other =
    elim (insert_account_cases email created_at auth_id sub t t' h) [
      | inl same ↦ inr (inl (ap (λ rows. profile_in (find (has_sub other) rows)) same))
      | inr rows ↦ rw rows (inr (profile-append other t.accounts _))
    ]
