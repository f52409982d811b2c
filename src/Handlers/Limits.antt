-- ===== src/Handlers/Limits.antt =====
-- The rate limit of handlers/otp.go and the login requests.
use mathlib.Core.Path.{subst}
use go_kickstart.Base.{
  List, [], ◌∷◌, ◌≤◌, ℕ, ◌+◌, ◌/◌, ◌≡◌, ◌∙◌, ◌⊎◌, inl, inr, refl, sym, ap, Bool, true, false, not,
  ◌||◌, arith, if◌then◌else◌, ltb, Text, pos, is_pos,
}
use go_kickstart.Database.{
  Tables, Error, failure, Result, ok, err, World, M, and_then, statement, now, second, raise,
}
use go_kickstart.Database.Challenges.{take_rate_limit, delete_expired_rate_limits, upsert_bucket}
use go_kickstart.Database.Laws.{
  Outside, outside, outside-statement, statement_ok, statement_err, tables-now, same_tables,
}
use go_kickstart.Handlers.{Reply, allow_otp_request, unix_clock}
use go_kickstart.Handlers.Outcome.{Outcome, Outcome-if, Outcome-attempted}

-- The login requests and what is outside of the database are those of `w`.
abbrev Same : World → World → Type 0
Same w v = (v.tables.login_requests ≡ w.tables.login_requests) × (outside v ≡ outside w)

-- The same time or later, with nothing sent and nothing drawn.
pub record Waited (w v : World) : Type 0 where
  pub later : w.clock ≤ v.clock
  pub quiet : v.sent ≡ w.sent
  pub undrawn : v.randoms ≡ w.randoms

pub Waited-trans : (w v u : World) → Waited w v → Waited v u → Waited w u
Waited-trans w v u p q = record {
  later = omega (arith, p.later, q.later);
  quiet = q.quiet ∙ p.quiet;
  undrawn = q.undrawn ∙ p.undrawn;
}

pub Waited-outside : (w v : World) → outside v ≡ outside w → Waited w v
Waited-outside w v p = record {
  later = subst (λ n. w.clock ≤ n) (sym (ap (λ (o : Outside). o.0) p)) (omega arith);
  quiet = ap (λ (o : Outside). o.1.0) p;
  undrawn = ap (λ (o : Outside). o.1.1) p;
}

-- The same login requests, at the same time or later.
abbrev pub Later : World → World → Type 0
Later w v = (v.tables.login_requests ≡ w.tables.login_requests) × Waited w v

pub now-Waited : (w : World) → Waited w (now w).1
unfolding now
now-Waited w = by w.delays
  where
    by : (ds : List ℕ) → Waited w (now (record w { delays = ds })).1
    by [] = record { later = omega arith; quiet = refl; undrawn = refl }
    by (d ∷ ds) = record { later = omega arith; quiet = refl; undrawn = refl }

now-Later : (w : World) → Later w (now w).1
now-Later w = (ap (λ (t : Tables). t.login_requests) (tables-now w), now-Waited w)

Same-Later : (w v u : World) → Later w v → Same v u → Later w u
Same-Later w v u p q = (q.0 ∙ p.0, Waited-trans w v u p.1 (Waited-outside v u q.1))

outcome_kept {ℓ} :
    {A : Type ℓ} (g : World → Type 0) (r : Result A × World)
    → ((a : A) (w : World) → r ≡ (ok a, w) → g w)
    → ((e : Error) (w : World) → r ≡ (err e, w) → g w)
    → g r.1
outcome_kept g (ok a, w) x y = x a w refl
outcome_kept g (err e, w) x y = y e w refl

Same-and_then {ℓ κ} :
    {A : Type ℓ} {B : Type κ} (u : World) (r : Result A × World) (f : A → M B)
    → Same u r.1
    → ((a : A) (w : World) → Same u w → Same u (f a w).1)
    → Same u (and_then r f).1
Same-and_then u (ok a, w) f p k = k a w p
Same-and_then u (err e, w) f p k = p

Same-statement {ℓ} :
    {A : Type ℓ} (f : Tables → Result (A × Tables)) (u w : World)
    → Same u w
    → ((a : A) (t' : Tables)
        → f w.tables ≡ ok (a, t')
        → t'.login_requests ≡ w.tables.login_requests)
    → Same u (statement f w).1
Same-statement f u w p k = (
  outcome_kept (λ v. v.tables.login_requests ≡ w.tables.login_requests) (statement f w)
        (λ a w' h. k a w'.tables (statement_ok f a w w' h))
        (λ e w' h. ap (λ (t : Tables). t.login_requests) (statement_err f e w w' h))
      ∙ p.0,
  outside-statement f w ∙ p.1,
)

Same-if {ℓ} :
    {A : Type ℓ} (u : World) (b : Bool) (m k : M A) (w : World)
    → Same u (m w).1
    → Same u (k w).1
    → Same u ((if b then m else k) w).1
Same-if u true m k w p q = p
Same-if u false m k w p q = q

take_rate_limit-Same :
    (scope key : Text) (time window limit : ℕ) (w : World)
    → Same w (take_rate_limit scope key time (pos window) (pos limit) w).1
unfolding take_rate_limit delete_expired_rate_limits upsert_bucket
take_rate_limit-Same scope key time window limit w =
    Same-if w (not (is_pos (pos window)) || not (is_pos (pos limit))) (raise (failure 0)) _ w
      (refl, refl)
      (Same-and_then w (delete_expired_rate_limits time w) _
        (Same-statement _ w w (refl, refl)
          (λ u t' q. ap (λ (t : Tables). t.login_requests) (sym (same_tables q))))
        λ _ w₁ p.
          Same-and_then w (statement (upsert_bucket scope key time (time + window) limit) w₁) _
            (Same-statement _ w w₁ p
              (λ u t' q. ap (λ (t : Tables). t.login_requests) (sym (same_tables q))))
            λ row w₂ q. q)

-- The reply is a refusal by the rate limit, or its failure.
abbrev pub Limited : Reply → Type 0
Limited reply = (reply.status ≡ 500) ⊎ (reply.status ≡ 429)

pub allow_otp_request-Outcome :
    (P : Reply → World → Type 0) (scope key : Text) (limit window : ℕ) (w : World)
    → ((reply : Reply) (w' : World) → Limited reply → P reply w')
    → Outcome (λ _ w'. Later w w') P (allow_otp_request scope key limit window w)
unfolding allow_otp_request unix_clock
allow_otp_request-Outcome P scope key limit window w k =
    let v = (now w).1 in
    Outcome-attempted _ P (take_rate_limit scope key (w.clock / second) (pos window) (pos limit) v)
      _ _ (λ e w' h. k _ w' (inl refl))
      λ delay w' h.
        Outcome-if _ P (ltb 0 delay) _ _ w' (λ _. k _ w' (inr refl))
          λ _. subst (Later w) (ap (λ (r : Result ℕ × World). r.1) h) (
            Same-Later w v
              (take_rate_limit scope key (w.clock / second) (pos window) (pos limit) v).1
              (now-Later w) (take_rate_limit-Same scope key (w.clock / second) window limit v))
