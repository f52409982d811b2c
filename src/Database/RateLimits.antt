-- ===== src/Database/RateLimits.antt =====
-- `TakeRateLimit` of database/sqlite/queries: how many requests pass in a window.
use mathlib.Core.Path.{subst}
use go_kickstart.Base.{
  ℕ, suc, ◌+◌, ◌-◌, ◌≤◌, ◌<◌, min, ◌≡◌, ◌∙◌, refl, sym, ap, inl, inr, Bool, true, false, not, ◌&&◌,
  ◌||◌, Option, none, some, List, [], ◌∷◌, arith, leb, ◌==◌, if◌then◌else◌, Bool-cases, find,
  remove_all, length, All, Text, str_eq_refl, pos, is_pos,
}
use go_kickstart.Database.{RateLimit, Tables, failure, ok, World, M, pure, ◌>>=◌}
use go_kickstart.Database.Queries.{done}
use go_kickstart.Database.Challenges.{
  same_bucket, delete_batch, delete_expired_rate_limits, in_bucket, charge, charged, upsert_bucket,
  retry_after, take_rate_limit,
}
use go_kickstart.Database.Laws.{same_tables, same_value}
use go_kickstart.Database.Ensures.{
  Ensures, Ensures-ok, Ensures-err, Ensures-if, Ensures-bind, Ensures-statement, Ensures-imp,
}

-- Requests one after another on one bucket, with the delays that they were answered.
unfoldable pub takes : Text → Text → ℕ → ℕ → List ℕ → M (List ℕ)
takes scope key window limit [] = pure []
takes scope key window limit (t ∷ ts) = do
  x ← take_rate_limit scope key t (pos window) (pos limit)
  xs ← takes scope key window limit ts
  pure (x ∷ xs)

-- The requests that were let through.
unfoldable pub passed : List ℕ → ℕ
passed [] = 0
passed (x ∷ xs) = if x == 0 then suc (passed xs) else passed xs

passed_yes : (x : ℕ) (xs : List ℕ) → (x == 0) ≡ true → passed (x ∷ xs) ≡ suc (passed xs)
unfolding passed
passed_yes x xs e = rw e

passed_no : (x : ℕ) (xs : List ℕ) → (x == 0) ≡ false → passed (x ∷ xs) ≡ passed xs
unfolding passed
passed_no x xs e = rw e

within : (a b : ℕ) → leb a b ≡ true → a ≤ b
within a b h = ground arith

beyond : (a b : ℕ) → leb a b ≡ false → b < a
beyond a b h = ground arith

module _ {ℓ} {A : Type ℓ} where
  first_is : (q : A → Bool) (x : A) (xs : List A) → q x ≡ true → find q (x ∷ xs) ≡ some x
  first_is q x xs p = rw p

  find_later : (q : A → Bool) (x : A) (xs : List A) → q x ≡ false → find q (x ∷ xs) ≡ find q xs
  find_later q x xs p = rw p

  first_found :
      (q : A → Bool) (x : A) (xs : List A) (r : A) → q x ≡ true → find q (x ∷ xs) ≡ some r → x ≡ r
  first_found q x xs r p h = same_some (sym (first_is q x xs p) ∙ h)
    where
      same_some : {a b : A} → ◌≡◌ {A = Option A} (some a) (some b) → a ≡ b
      same_some h = cc

  kept_head :
      (d : A → Bool) (x : A) (xs : List A)
      → d x ≡ false
      → remove_all d (x ∷ xs) ≡ x ∷ remove_all d xs
  kept_head d x xs e = rw e

  dropped_head :
      (d : A → Bool) (x : A) (xs : List A) → d x ≡ true → remove_all d (x ∷ xs) ≡ remove_all d xs
  dropped_head d x xs e = rw e

  find-kept :
      (q d : A → Bool) (xs : List A) (r : A)
      → find q xs ≡ some r
      → d r ≡ false
      → find q (remove_all d xs) ≡ some r
  find-kept q d [] r h k = cc
  find-kept q d (x ∷ xs) r h k = elim (Bool-cases (q x)) [
    | inl p ↦
        let same = first_found q x xs r p h in
        ap (find q) (kept_head d x xs (ap d same ∙ k))
        ∙ (first_is q x (remove_all d xs) p ∙ ap some same)
    | inr p ↦
        let later = find-kept q d xs r (sym (find_later q x xs p) ∙ h) k in
        elim (Bool-cases (d x)) [
          | inl e ↦ ap (find q) (dropped_head d x xs e) ∙ later
          | inr e ↦ ap (find q) (kept_head d x xs e) ∙ find_later q x (remove_all d xs) p ∙ later
        ]
  ]

  find-absent : (q d : A → Bool) (xs : List A) → find q xs ≡ none → find q (remove_all d xs) ≡ none
  find-absent q d [] h = refl
  find-absent q d (x ∷ xs) h = elim (Bool-cases (q x)) [
    | inl p ↦ absurd (some_not_none (sym (first_is q x xs p) ∙ h))
    | inr p ↦
        let later = find-absent q d xs (sym (find_later q x xs p) ∙ h) in
        elim (Bool-cases (d x)) [
          | inl e ↦ ap (find q) (dropped_head d x xs e) ∙ later
          | inr e ↦ ap (find q) (kept_head d x xs e) ∙ find_later q x (remove_all d xs) p ∙ later
        ]
  ]
    where
      some_not_none : {a : A} → ¬ (◌≡◌ {A = Option A} (some a) none)
      some_not_none h = cc

  pub find-holds : (q : A → Bool) (xs : List A) (r : A) → find q xs ≡ some r → q r ≡ true
  find-holds q [] r h = cc
  find-holds q (x ∷ xs) r h = elim (Bool-cases (q x)) [
    | inl p ↦ ap q (sym (first_found q x xs r p h)) ∙ p
    | inr p ↦ find-holds q xs r (sym (find_later q x xs p) ∙ h)
  ]

abbrev limit_row : Text → Text → Tables → Option RateLimit
limit_row scope key t = find (in_bucket scope key) t.rate_limits

-- Removing what expired does not touch a window that is open.
delete-Ensures :
    (scope key : Text) (time : ℕ) (w : World)
    → Ensures
        (λ _ w'.
          (r : RateLimit)
          → limit_row scope key w.tables ≡ some r
          → time < r.expires_at
          → limit_row scope key w'.tables ≡ some r)
        (delete_expired_rate_limits time w)
unfolding delete_expired_rate_limits delete_batch
delete-Ensures scope key time w =
    Ensures-imp _ _ _
      (Ensures-statement
        (λ t. done (record t {
          rate_limits =
              delete_batch (λ (r : RateLimit). r.expires_at) 100 (λ r. leb r.expires_at time)
                same_bucket t.rate_limits;
        }))
        w)
      λ u w' q. Ensures-ok _ u w' λ r there opened.
        ap (λ (t : Tables). limit_row scope key t) (sym (same_tables q))
        ∙ find-kept (in_bucket scope key) _ w.tables.rate_limits r there (not_expired r _ opened)
  where
    not_expired :
        (r : RateLimit) → (b : Bool) → time < r.expires_at → (leb r.expires_at time && b) ≡ false
    not_expired r b opened = ground arith

delete_none :
    (scope key : Text) (time : ℕ) (w : World)
    → Ensures
        (λ _ w'. limit_row scope key w.tables ≡ none → limit_row scope key w'.tables ≡ none)
        (delete_expired_rate_limits time w)
unfolding delete_expired_rate_limits delete_batch
delete_none scope key time w =
    Ensures-imp _ _ _
      (Ensures-statement
        (λ t. done (record t {
          rate_limits =
              delete_batch (λ (r : RateLimit). r.expires_at) 100 (λ r. leb r.expires_at time)
                same_bucket t.rate_limits;
        }))
        w)
      λ u w' q. Ensures-ok _ u w' λ gone.
        ap (λ (t : Tables). limit_row scope key t) (sym (same_tables q))
        ∙ find-absent (in_bucket scope key) _ w.tables.rate_limits gone

module _ (scope key : Text) (window limit : ℕ) where
  abbrev charge_at : ℕ → Option RateLimit → RateLimit
  charge_at time o = charged scope key time (time + window) limit o

  charge-in_bucket :
      (time : ℕ) (r : RateLimit)
      → in_bucket scope key r ≡ true
      → in_bucket scope key (charge_at time (some r)) ≡ true
  unfolding charge
  charge-in_bucket time r h = ground (arith, h)

  upserted :
      (time : ℕ) (t t' : Tables) (o : Option RateLimit) (row : RateLimit)
      → limit_row scope key t ≡ o
      → upsert_bucket scope key time (time + window) limit t ≡ ok (row, t')
      → in_bucket scope key (charge_at time o) ≡ true
      → (row ≡ charge_at time o) × (limit_row scope key t' ≡ some (charge_at time o))
  unfolding upsert_bucket
  upserted time t t' o row there q inside =
      let from = ap (charge_at time) there in
      let found =
        first_is (in_bucket scope key) (charge_at time (limit_row scope key t))
          (remove_all (in_bucket scope key) t.rate_limits)
          (ap (in_bucket scope key) from ∙ inside) in
      (
        sym (ap (λ (p : RateLimit × Tables). p.0) (same_value q)) ∙ from,
        ap (λ (t : Tables). limit_row scope key t) (sym (same_tables q)) ∙ found ∙ ap some from,
      )

  take-Ensures :
      (time : ℕ) (r : RateLimit) (w : World)
      → limit_row scope key w.tables ≡ some r
      → time < r.expires_at
      → Ensures
          (λ x w'.
            (x ≡ retry_after time (charge_at time (some r)))
            × (limit_row scope key w'.tables ≡ some (charge_at time (some r))))
          (take_rate_limit scope key time (pos window) (pos limit) w)
  unfolding take_rate_limit
  take-Ensures time r w there opened =
      Ensures-if _ (not (is_pos (pos window)) || not (is_pos (pos limit))) _ _ w
        (λ _. Ensures-err _ (failure 0) w)
        λ _. Ensures-bind _ _ _ _ (delete-Ensures scope key time w) λ _ w₁ kept.
          Ensures-bind _ _ _ _
            (Ensures-statement (upsert_bucket scope key time (time + window) limit) w₁)
            λ row w₂ q. Ensures-ok _ _ w₂ (
              let (same, there') =
                upserted time w₁.tables w₂.tables (some r) row (kept r there opened) q (
                  charge-in_bucket time r
                    (find-holds (in_bucket scope key) w.tables.rate_limits r there)) in
              (ap (retry_after time) same, there'))

  -- What one more request does to a window that is open.
  charge_open :
      (time : ℕ) (r : RateLimit)
      → time < r.expires_at
      → r.max_requests ≡ limit
      → r.requests ≤ suc limit
      → ((charge_at time (some r)).expires_at ≡ r.expires_at)
        × ((charge_at time (some r)).max_requests ≡ limit)
        × ((charge_at time (some r)).requests ≡ min (suc r.requests) (suc limit))
  unfolding charge
  charge_open time r opened m h = ground arith

  delay_zero :
      (time : ℕ) (r : RateLimit)
      → time < r.expires_at
      → ((retry_after time r == 0) ≡ leb r.requests r.max_requests)
  unfolding retry_after
  delay_zero time r opened = ground arith

  count_step :
      (time x : ℕ) (xs : List ℕ) (r r' : RateLimit) (n : ℕ)
      → (x == 0) ≡ leb r'.requests r'.max_requests
      → r'.max_requests ≡ limit
      → r'.requests ≡ min (suc r.requests) (suc limit)
      → r.requests ≤ suc limit
      → passed xs ≡ min n (limit - r'.requests)
      → passed (x ∷ xs) ≡ min (suc n) (limit - r.requests)
  unfolding passed
  count_step time x xs r r' n z m k h p = elim (Bool-cases (x == 0)) [
    | inl e ↦ passed_yes x xs e ∙ omega (arith, p, m, k, h, within _ _ (sym z ∙ e))
    | inr e ↦ passed_no x xs e ∙ omega (arith, p, m, k, h, beyond _ _ (sym z ∙ e))
  ]

  takes_open :
      (ts : List ℕ) (r : RateLimit) (w : World)
      → limit_row scope key w.tables ≡ some r
      → All (λ t. t < r.expires_at) ts
      → r.max_requests ≡ limit
      → r.requests ≤ suc limit
      → Ensures
          (λ xs _. passed xs ≡ min (length ts) (limit - r.requests))
          (takes scope key window limit ts w)
  unfolding takes passed
  takes_open [] r w there before m h = Ensures-ok _ _ w (omega arith)
  takes_open (t ∷ ts) r w there before m h =
      let (e', m', k') = charge_open t r before.0 m h in
      let r' = charge_at t (some r) in
      Ensures-bind _ _ _ _ (take-Ensures t r w there before.0) λ x w₁ (p, there').
        Ensures-bind _ _ _ _
          (takes_open ts r' w₁ there' (subst (λ e. All (λ t. t < e) ts) (sym e') before.1) m'
            (omega (arith, k')))
          λ xs w₂ q. Ensures-ok _ (x ∷ xs) w₂ (
            count_step t x xs r r' (length ts)
              (ap (λ y. y == 0) p ∙ delay_zero t r' (omega (arith, before.0, e'))) m' k' h q)

  -- The first request of a window.
  take_new :
      (time : ℕ) (w : World)
      → limit_row scope key w.tables ≡ none
      → Ensures
          (λ x w'.
            (x ≡ retry_after time (charge_at time none))
            × (limit_row scope key w'.tables ≡ some (charge_at time none)))
          (take_rate_limit scope key time (pos window) (pos limit) w)
  unfolding take_rate_limit
  take_new time w gone =
      Ensures-if _ (not (is_pos (pos window)) || not (is_pos (pos limit))) _ _ w
        (λ _. Ensures-err _ (failure 0) w)
        λ _. Ensures-bind _ _ _ _ (delete_none scope key time w) λ _ w₁ kept.
          Ensures-bind _ _ _ _
            (Ensures-statement (upsert_bucket scope key time (time + window) limit) w₁)
            λ row w₂ q. Ensures-ok _ _ w₂ (
              let (same, there') =
                upserted time w₁.tables w₂.tables none row (kept gone) q first-in_bucket in
              (ap (retry_after time) same, there'))
    where
      first-in_bucket : in_bucket scope key (charge_at time none) ≡ true
      first-in_bucket = rw (str_eq_refl scope, str_eq_refl key)

-- With a limit of at least one, of the requests that arrive before the window of the first of them is
-- over exactly the first ones pass, as many as the limit allows: when all calls succeed and the
-- bucket had no row before, the number that passed is the smaller of the limit and of the number of
-- the requests. The first request's window is `[time, time + window)`.
pub takes-passed :
    (scope key : Text) (window limit time : ℕ) (ts : List ℕ) (w w' : World) (xs : List ℕ)
    → 0 < window
    → 0 < limit
    → limit_row scope key w.tables ≡ none
    → All (λ t. t < time + window) ts
    → takes scope key window limit (time ∷ ts) w ≡ (ok xs, w')
    → passed xs ≡ min (length (time ∷ ts)) limit
unfolding takes
takes-passed scope key window limit time ts w w' xs wide some_allowed new inside =
    (Ensures-bind _ (λ xs _. passed xs ≡ min (length (time ∷ ts)) limit) _ _
        (take_new scope key window limit time w new)
        λ x w₁ (p, there').
          Ensures-bind _ _ _ _
            (takes_open scope key window limit ts _ w₁ there' inside refl
              (omega (arith, some_allowed)))
            λ xs w₂ q. Ensures-ok _ (x ∷ xs) w₂ (
              let row = charge_at scope key window limit time none in
              count_step scope key window limit time x xs (record row { requests = 0 }) row
                (length ts)
                (ap (λ y. y == 0) p
                  ∙ delay_zero scope key window limit time row (omega (arith, wide)))
                refl (omega (arith, some_allowed)) (omega arith) q
              ∙ omega arith)).at
      xs w'
