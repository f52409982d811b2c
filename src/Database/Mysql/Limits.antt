-- ===== src/Database/Mysql/Limits.antt =====
-- The rate limits of MySQL against those of SQLite.
use mathlib.Core.Path.{subst}
use go_kickstart.Base.{
  ℕ, ◌+◌, ◌≡◌, refl, sym, ap, ◌∙◌, ◌⊎◌, inl, inr, Bool, true, false, not, ◌||◌, Option, none, some,
  ◌∷◌, arith, if◌then◌else◌, find, remove_all, Text, str_eq, str_eq_refl, ℤ, is_pos, pos_part,
}
use go_kickstart.Database.{
  RateLimit, Tables, failure, Result, ok, World, M, pure, raise, ◌>>=◌, ◌>>◌, statement,
}
use go_kickstart.Database.Laws.{bind_ok, one_ok, statement_ok, same_tables, same_value}
use go_kickstart.Database.Queries.{one}
use go_kickstart.Database.Challenges.{
  charge, charged, upsert_bucket, in_bucket, delete_expired_rate_limits, retry_after,
  take_rate_limit,
}
use go_kickstart.Database.RateLimits.{find-holds}
use go_kickstart.Database.Mysql.{
  mysql_charged, same_row, mysql_upsert_bucket, mysql_take_rate_limit,
}
use go_kickstart.Database.Mysql.Equivalence.{tx_body, charge-mysql_charge}

-- What a request that was counted has done.
pub record Took (scope key : Text) (time : ℕ) (window_seconds max_requests : ℤ) (w : World)
    (delay : ℕ) (w' : World) : Type 0 where
  pub positive : (is_pos window_seconds ≡ true) × (is_pos max_requests ≡ true)
  pub cleaned : World
  pub row : RateLimit
  pub cleanup : delete_expired_rate_limits time w ≡ (ok tt, cleaned)
  pub counted :
      upsert_bucket scope key time
        (time + pos_part window_seconds)
        (pos_part max_requests)
        cleaned.tables
      ≡ ok (row, w'.tables)
  pub waits : delay ≡ retry_after time row

both_positive :
    {A : Type 0} (a b : Bool) (m : M A) (d : A) (w w' : World)
    → (if not a || not b then raise (failure 0) else m) w ≡ (ok d, w')
    → (a ≡ true) × ((b ≡ true) × (m w ≡ (ok d, w')))
both_positive true true m d w w' h = (refl, (refl, h))
both_positive true false m d w w' h = cc
both_positive false b m d w w' h = cc

take_rate_limit-Took :
    (scope key : Text) (time : ℕ) (window_seconds max_requests : ℤ) (w w' : World) (d : ℕ)
    → take_rate_limit scope key time window_seconds max_requests w ≡ (ok d, w')
    → Took scope key time window_seconds max_requests w d w'
unfolding take_rate_limit
take_rate_limit-Took scope key time window_seconds max_requests w w' d h =
    let upsert =
      upsert_bucket scope key time (time + pos_part window_seconds) (pos_part max_requests) in
    let (p, (q, ran)) = both_positive (is_pos window_seconds) (is_pos max_requests) _ d w w' h in
    let b =
      bind_ok (delete_expired_rate_limits time)
        (λ _. statement upsert >>= λ row. pure (retry_after time row)) d w w' ran in
    let c = bind_ok (statement upsert) (λ row. pure (retry_after time row)) d b.between w' b.rest in
    let counted = statement_ok upsert c.value b.between c.between c.first in
    record {
      positive = (p, q);
      cleaned = b.between;
      row = c.value;
      cleanup = b.first;
      counted = counted ∙ ap (λ t. ok (c.value, t)) (ap (λ o. o.1.tables) c.rest);
      waits = sym (same_value (ap (λ o. o.0) c.rest));
    }

-- The row that the upsert has put first is the one that the next statement selects.
charged-in_bucket :
    (scope key : Text) (time expires_at max_requests : ℕ) (o : Option RateLimit)
    → ((r : RateLimit) → o ≡ some r → in_bucket scope key r ≡ true)
    → in_bucket scope key (charged scope key time expires_at max_requests o) ≡ true
unfolding charge
charged-in_bucket scope key time expires_at max_requests none h =
    rw (str_eq_refl scope, str_eq_refl key) refl
charged-in_bucket scope key time expires_at max_requests (some r) h = ground (arith, h r refl)

mysql_charged-charged :
    (scope key : Text) (time expires_at max_requests : ℕ) (o : Option RateLimit)
    → mysql_charged scope key time expires_at max_requests o
      ≡ charged scope key time expires_at max_requests o
mysql_charged-charged scope key time expires_at max_requests none = refl
mysql_charged-charged scope key time expires_at max_requests (some r) =
    charge-mysql_charge time expires_at max_requests r

module _ (scope key : Text) (time expires_at max_requests : ℕ) where
  abbrev next_row : Tables → RateLimit
  next_row t =
      charged scope key time expires_at max_requests (find (in_bucket scope key) t.rate_limits)

  abbrev with_row : Tables → RateLimit → Tables
  with_row t row = record t { rate_limits = row ∷ remove_all (in_bucket scope key) t.rate_limits }

  selects_first :
      (t : Tables)
      → find (in_bucket scope key) (with_row t (next_row t)).rate_limits ≡ some (next_row t)
  selects_first t =
      rw
        (charged-in_bucket scope key time expires_at max_requests
          (find (in_bucket scope key) t.rate_limits)
          (λ r. find-holds (in_bucket scope key) t.rate_limits r))
        refl

  -- The two statements of the transaction.
  counted_row :
      (d : ℕ) (w w' : World)
      → (do
        statement (mysql_upsert_bucket str_eq scope key time expires_at max_requests)
        row ← statement (λ t. one (find (same_row str_eq scope key) t.rate_limits) t)
        pure (retry_after time row))
          w
        ≡ (ok d, w')
      → (d ≡ retry_after time (next_row w.tables))
        × (w'.tables ≡ with_row w.tables (next_row w.tables))
  unfolding mysql_upsert_bucket
  counted_row d w w' h =
      let upsert = mysql_upsert_bucket str_eq scope key time expires_at max_requests in
      let select : Tables → Result (RateLimit × Tables) =
        λ t. one (find (same_row str_eq scope key) t.rate_limits) t in
      let b =
        bind_ok (statement upsert) (λ _. statement select >>= λ row. pure (retry_after time row)) d
          w w' h in
      let c =
        bind_ok (statement select) (λ row. pure (retry_after time row)) d b.between w' b.rest in
      let written =
        sym (same_tables (statement_ok upsert b.value w b.between b.first))
        ∙ ap (with_row w.tables) (mysql_charged-charged scope key time expires_at max_requests _) in
      let (found, same) =
        one_ok (find (in_bucket scope key) b.between.tables.rate_limits) b.between.tables
          c.between.tables c.value (statement_ok select c.value b.between c.between c.first) in
      let row = same_row_found (
        sym found
        ∙ ap (λ t. find (in_bucket scope key) t.rate_limits) written
        ∙ selects_first w.tables) in
      (
        sym (same_value (ap (λ o. o.0) c.rest)) ∙ ap (retry_after time) row,
        sym (ap (λ o. o.1.tables) c.rest) ∙ same ∙ written,
      )
    where
      same_row_found : {x y : RateLimit} → ◌≡◌ {A = Option RateLimit} (some x) (some y) → x ≡ y
      same_row_found h = cc

mysql_take_rate_limit-Took :
    (in_tx : Bool) (scope key : Text) (time : ℕ) (window_seconds max_requests : ℤ) (w w' : World)
    (d : ℕ)
    → mysql_take_rate_limit str_eq in_tx scope key time window_seconds max_requests w ≡ (ok d, w')
    → Took scope key time window_seconds max_requests w d w'
unfolding mysql_take_rate_limit upsert_bucket
mysql_take_rate_limit-Took in_tx scope key time window_seconds max_requests w w' d h =
    let expires_at = time + pos_part window_seconds in
    let (p, (q, ran)) = both_positive (is_pos window_seconds) (is_pos max_requests) _ d w w' h in
    let b = bind_ok (delete_expired_rate_limits time) _ d w w' ran in
    let (u, v, (before, (body, after))) = tx_body in_tx _ d b.between w' b.rest in
    let (waits, rows) = counted_row scope key time expires_at (pos_part max_requests) d u v body in
    let row = next_row scope key time expires_at (pos_part max_requests) in
    record {
      positive = (p, q);
      cleaned = b.between;
      row = row b.between.tables;
      cleanup = b.first;
      counted =
          ap (λ t. ok (row b.between.tables, t))
            (ap (λ t. with_row scope key time expires_at (pos_part max_requests) t (row t))
                (sym before)
              ∙ sym (after ∙ rows));
      waits = waits ∙ ap (λ t. retry_after time (row t)) before;
    }

-- On a server that compares texts byte by byte, a request that MySQL counts, over its statements, has
-- done what one that SQLite counts has done: the window and the limit are positive, the expired buckets
-- are cleaned up, the bucket's row is charged as the CASE expressions of SQLite charge it, and the
-- answer is the delay that this row asks for.
pub take_rate_limits-Took :
    (same : Text → Text → Bool) (in_tx : Bool) (scope key : Text) (time : ℕ)
    (window_seconds max_requests : ℤ) (w w' : World) (d : ℕ)
    → same ≡ str_eq
    → (take_rate_limit scope key time window_seconds max_requests w ≡ (ok d, w'))
      ⊎ (mysql_take_rate_limit same in_tx scope key time window_seconds max_requests w ≡ (ok d, w'))
    → Took scope key time window_seconds max_requests w d w'
take_rate_limits-Took same in_tx scope key time window_seconds max_requests w w' d bytes (inl h) =
    take_rate_limit-Took scope key time window_seconds max_requests w w' d h
take_rate_limits-Took same in_tx scope key time window_seconds max_requests w w' d bytes (inr h) =
    mysql_take_rate_limit-Took in_tx scope key time window_seconds max_requests w w' d (
      subst
        (λ same.
          mysql_take_rate_limit same in_tx scope key time window_seconds max_requests w
          ≡ (ok d, w'))
        bytes h)
