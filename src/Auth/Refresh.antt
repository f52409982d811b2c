-- ===== src/Auth/Refresh.antt =====
-- `Refresh` of auth/authenticator.go: what a call that succeeds does, and the token it has used.
use mathlib.Core.Path.{subst}
use go_kickstart.Base.{
  ℕ, ◌≡◌, ◌≢◌, ap, ◌∙◌, Bool, true, false, not, ◌||◌, inl, inr, none, some, [], ◌∷◌, arith,
  if◌then◌else◌, Bool-cases, find, find-remove_all, any, Text, str_eq, str_eq_iff, trim_space,
}
use go_kickstart.Database.{
  RefreshToken, Tables, Error, invalid_token, expired_token, failure, ok, err, World, not_found_as,
}
use go_kickstart.Database.Queries.{has_hash, has_sub, one, done, constraint_failed}
use go_kickstart.Database.Sessions.{insert_token, select_refresh_token_by_hash}
use go_kickstart.Database.Ensures.{
  Ensures, Ensures-ok, Ensures-err, Ensures-if, Ensures-bind, Ensures-reads, Ensures-statement,
  Ensures-renamed, Ensures-imp, Ensures-tx,
}
use go_kickstart.Database.Laws.{statement_runs, one_ok}
use go_kickstart.Auth.{Authenticator, Token, refresh, rotate, expired_now}
use go_kickstart.Auth.Rotation.{Rotated, rotate-Ensures, tables-expired_now}

-- A refresh that succeeded.
pub record Refreshed (a : Authenticator) (token : Text) (fresh_token : Text) (t t' : Tables)
    : Type 0 where
  pub given : str_eq token [] ≡ false
  pub saved : RefreshToken
  pub known : find (has_hash (a.hash token)) t.refresh_tokens ≡ some saved
  pub rotated : Rotated a (a.hash token) saved fresh_token t t'

pub select-Ensures :
    (e : Error) (h : Text) (w : World)
    → Ensures
        (λ row w'. (find (has_hash h) w.tables.refresh_tokens ≡ some row) × (w'.tables ≡ w.tables))
        (not_found_as e (select_refresh_token_by_hash h) w)
unfolding select_refresh_token_by_hash
select-Ensures e h w = Ensures-renamed _ e _ (
    Ensures-imp _ _ _ (Ensures-statement (λ t. one (find (has_hash h) t.refresh_tokens) t) w)
      λ x w' q.
        Ensures-ok _ x w'
          (one_ok (find (has_hash h) w.tables.refresh_tokens) w.tables w'.tables x q))

pub refresh-Ensures :
    (a : Authenticator) (s : Text) (w : World)
    → Ensures (λ p w'. Refreshed a (trim_space s) p.1.value w.tables w'.tables) (refresh a s w)
unfolding refresh
refresh-Ensures a s w =
    Ensures-if _ (str_eq (trim_space s) []) _ _ w (λ _. Ensures-err _ invalid_token w)
      λ given.
        Ensures-bind _ _ _ _ (select-Ensures invalid_token (a.hash (trim_space s)) w)
          λ saved w₁ (known, t₁).
            Ensures-bind _ _ _ _
              (Ensures-reads w₁.tables (expired_now saved.expires_at w₁)
                (tables-expired_now saved.expires_at w₁))
              λ late w₂ t₂.
                Ensures-if _ late _ _ w₂ (λ _. Ensures-err _ expired_token w₂)
                  λ _.
                    Ensures-tx (λ p t. Refreshed a (trim_space s) p.1.value w.tables t)
                      (rotate a (a.hash (trim_space s)) saved) w₂
                      λ v t₃.
                        Ensures-imp _ _ _ (rotate-Ensures a (a.hash (trim_space s)) saved v)
                          λ p w' r. Ensures-ok _ p w' (record {
                            given = given;
                            saved = saved;
                            known = known;
                            rotated =
                                subst
                                  (λ t.
                                    Rotated a (a.hash (trim_space s)) saved p.1.value t w'.tables)
                                  (t₃ ∙ t₂ ∙ t₁) r;
                          })

pub guarded_ok :
    (b : Bool) (e : Error) (t t' : Tables)
    → (if b then err e else done t) ≡ ok (tt, t')
    → (b ≡ false) × (t' ≡ t)
guarded_ok true e t t' h = cc
guarded_ok false e t t' h = ground arith

-- What an insertion that succeeded leaves.
pub inserted_rows :
    (h : Text) (sub : ℕ) (x : Text) (e c : ℕ) (t t' : Tables)
    → insert_token h sub x e c t ≡ ok (tt, t')
    → t' ≡ record t {
      refresh_tokens =
          record { token_hash = h; sub = sub; auth_id = x; expires_at = e; created_at = c }
          ∷ t.refresh_tokens;
    }
unfolding insert_token
inserted_rows h sub x e c t t' ins =
    (guarded_ok (any (has_hash h) t.refresh_tokens || not (any (has_sub sub) t.accounts))
      (failure constraint_failed) _ t' ins).1

str_eq_not : (h k : Text) → h ≢ k → str_eq h k ≡ false
str_eq_not h k ne = elim (Bool-cases (str_eq h k)) [
  | inl p ↦ absurd (ne ((str_eq_iff h k).0 p))
  | inr p ↦ p
]

inserted_only :
    (h k : Text) (sub : ℕ) (x : Text) (e c : ℕ) (t t' : Tables)
    → h ≢ k
    → find (has_hash k) t.refresh_tokens ≡ none
    → insert_token h sub x e c t ≡ ok (tt, t')
    → find (has_hash k) t'.refresh_tokens ≡ none
inserted_only h k sub x e c t t' ne none_there ins =
    rw (inserted_rows h sub x e c t t' ins, str_eq_not h k ne, none_there)

select_none :
    (h : Text) (v : World)
    → find (has_hash h) v.tables.refresh_tokens ≡ none
    → v.faults ≡ []
    → not_found_as invalid_token (select_refresh_token_by_hash h) v ≡ (err invalid_token, v)
unfolding select_refresh_token_by_hash
select_none h v gone calm =
    rw (statement_runs (λ t. one (find (has_hash h) t.refresh_tokens) t) v calm, gone)

-- An unknown token is refused.
pub refresh_unknown :
    (a : Authenticator) (s : Text) (v : World)
    → find (has_hash (a.hash (trim_space s))) v.tables.refresh_tokens ≡ none
    → v.faults ≡ []
    → refresh a s v ≡ (err invalid_token, v)
unfolding refresh
refresh_unknown a s v gone calm = elim (Bool-cases (str_eq (trim_space s) [])) [
  | inl p ↦ rw p
  | inr p ↦ rw (p, select_none (a.hash (trim_space s)) v gone calm)
]

-- A refresh token works once: after a refresh with `s` that succeeded and gave a token with another
-- hash, a refresh with `s` on the same tables, at any later time, is refused as an invalid token
-- when the engine has no fault.
pub refresh-once :
    (a : Authenticator) (s : Text) (w w' v : World) (p : Token × Token)
    → refresh a s w ≡ (ok p, w')
    → a.hash p.1.value ≢ a.hash (trim_space s)
    → v.tables ≡ w'.tables
    → v.faults ≡ []
    → refresh a s v ≡ (err invalid_token, v)
refresh-once a s w w' v p ran differ same calm =
    let r = (refresh-Ensures a s w).at p w' ran in
    let n = r.rotated.session in
    refresh_unknown a s v
      (ap (λ (t : Tables). find (has_hash (a.hash (trim_space s))) t.refresh_tokens) same
        ∙ inserted_only _ _ _ _ _ _ _ _ differ
            (find-remove_all (has_hash (a.hash (trim_space s))) w.tables.refresh_tokens) n.inserted)
      calm
