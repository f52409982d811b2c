-- ===== src/Handlers/Routes.antt =====
-- The account routes of handlers/account.go behind their middleware.
use mathlib.Core.Path.{subst}
use go_kickstart.Base.{ℕ, ◌≡◌, ◌∙◌, ap, sym, true, Option, some, Text}
use go_kickstart.Database.{Tables, World, permission_change_email}
use go_kickstart.Database.Sessions.{permitted}
use go_kickstart.Middleware.{Identity, require_permission}
use go_kickstart.Middleware.Gates.{
  Gate, let_in, Gate-then, IsVerified, authenticate_bearer-Gate, require_permission-Gate,
}
use go_kickstart.Handlers.{Handler, H}
use go_kickstart.Handlers.Account.{
  can_change_email, email_change_route, email_change_confirm_route, request_email_change,
  confirm_email_change, authenticated,
}

-- An identity that was verified and may change its email.
pub record MayChangeEmail (h : Handler) (time : ℕ) (header : Text) (t : Tables)
    (identity : Identity) : Type 0 where
  pub verified : IsVerified h.authenticator time header t identity
  pub allowed : permitted identity.sub permission_change_email t ≡ true

can_change_email-Gate :
    (h : Handler) (header : Text) (next : Option Identity → H (Unit {0})) (w : World)
    → Gate
        (MayChangeEmail h w.clock header w.tables)
        w.tables
        (λ i. next (some i))
        (can_change_email h header next w)
unfolding can_change_email authenticated
can_change_email-Gate h header next w =
    Gate-then (IsVerified h.authenticator w.clock header w.tables) _ w.tables
      (λ i. require_permission permission_change_email (λ j. next (some j)) (some i))
      (λ i. next (some i)) _ (authenticate_bearer-Gate h.authenticator header _ w)
      λ i w₁ p v.
        Gate-then (λ j. (j ≡ i) × (permitted j.sub permission_change_email w₁.tables ≡ true)) _
          w.tables (λ j. next (some j)) (λ j. next (some j)) _
          (subst
            (λ t.
              Gate (λ j. (j ≡ i) × (permitted j.sub permission_change_email w₁.tables ≡ true)) t
                (λ j. next (some j))
                (require_permission permission_change_email (λ j. next (some j)) (some i) w₁))
            p (require_permission-Gate permission_change_email (λ j. next (some j)) i w₁))
          λ j w₂ q (same, may). let_in j w₂ q (record {
            verified = subst (IsVerified h.authenticator w.clock header w.tables) (sym same) v;
            allowed = ap (permitted j.sub permission_change_email) (sym p) ∙ may;
          })

-- A request to change the email, and one to confirm it, are handled only for an account that was
-- verified and has a role with the permission to change its email, on the tables as the request found
-- them; in every other case the request ends with a reply of status 401, 403 or 500 and the tables
-- stay as they were. The two components are the two routes.
pub email_change_routes-Gate :
    (h : Handler) (header : Text) (req : Option Text) (w : World)
    → Gate
        (MayChangeEmail h w.clock header w.tables)
        w.tables
        (λ i. request_email_change h (some i) req)
        (email_change_route h header req w)
      × Gate
          (MayChangeEmail h w.clock header w.tables)
          w.tables
          (λ i. confirm_email_change h (some i) req)
          (email_change_confirm_route h header req w)
unfolding email_change_route email_change_confirm_route
email_change_routes-Gate h header req w = (
  can_change_email-Gate h header (λ c. request_email_change h c req) w,
  can_change_email-Gate h header (λ c. confirm_email_change h c req) w,
)
