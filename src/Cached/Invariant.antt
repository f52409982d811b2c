-- ===== src/Cached/Invariant.antt =====
-- The invariant of the interleaved requests, and the changes under which it stays.
use mathlib.Core.Path.{subst}
use go_kickstart.Base.{
  ℕ, suc, ◌^◌, ◌≤◌, ◌<◌, ◌≡◌, ◌≢◌, ◌∙◌, sym, ap, ◌⊎◌, inl, inr, Bool, true, false, none, some, List,
  [], ◌∷◌, ◌++◌, ◌==◌, arith, if◌then◌else◌, Text,
}
use go_kickstart.Cache.{CacheStore}
use go_kickstart.Database.{Tables}
use go_kickstart.Cached.{
  Profile, profile, Json, CacheState, account_key, shard, cache_key, next_generation, Shared,
}
use go_kickstart.Cached.Interleaving.{In, Pc, idle, checking, loading, filling, System, put, Writes}

In-left : (n : ℕ) (xs ys : List ℕ) → In n xs → In n (xs ++ ys)
In-left n [] ys h = elim h [ ]
In-left n (x ∷ xs) ys (inl e) = inl e
In-left n (x ∷ xs) ys (inr h) = inr (In-left n xs ys h)

In-right : (n : ℕ) (xs ys : List ℕ) → In n ys → In n (xs ++ ys)
In-right n [] ys h = h
In-right n (x ∷ xs) ys h = inr (In-right n xs ys h)

In-others : (n m : ℕ) (xs ys : List ℕ) → m ≢ n → In n (xs ++ m ∷ ys) → In n (xs ++ ys)
In-others n m [] ys ne (inl e) = absurd (ne e)
In-others n m [] ys ne (inr h) = h
In-others n m (x ∷ xs) ys ne (inl e) = inl e
In-others n m (x ∷ xs) ys ne (inr h) = inr (In-others n m xs ys ne h)

pub put_cases {ℓ} :
    (P : Pc → Type ℓ) (i : ℕ) (pc : Pc) (readers : ℕ → Pc)
    → P pc
    → ((j : ℕ) → P (readers j))
    → (j : ℕ) → P (put i pc readers j)
put_cases P i pc readers h k j = at (j == i)
  where
    at : (b : Bool) → P (if b then pc else readers j)
    at true = h
    at false = k j

module _ {S : Type 0} (ops : CacheStore S) (json : Json) (state : CacheState) where
  -- The generation of the shard of an account.
  abbrev pub gen : (ℕ → ℕ) → ℕ → ℕ
  gen gens sub = gens (shard state (account_key sub))

  -- What is known of a value for `sub` that belongs to generation `g`: in the current generation it
  -- is what the database says, or a write of the account waits to be invalidated.
  pub record Dated (gens : ℕ → ℕ) (t : Tables) (pending : List ℕ) (sub g : ℕ) (p : Profile)
      : Type 0 where
    pub past : g ≤ gen gens sub
    pub current : g ≡ gen gens sub → In sub pending ⊎ (profile sub t ≡ some p)

  abbrev pub IsRight : (ℕ → ℕ) → Tables → List ℕ → Pc → Type 0
  IsRight gens t pending idle = Unit
  IsRight gens t pending (checking sub g v) = g ≤ gen gens sub
  IsRight gens t pending (loading sub g) = g ≤ gen gens sub
  IsRight gens t pending (filling sub g p) =
      (json.is_valid p.email ≡ true) × Dated gens t pending sub g p

  pub record Coherent (n : ℕ) (s : System S) : Type 0 where
    pub bounded : (k : ℕ) → s.shared.generations k ≤ n
    pub stored :
        (sub g : ℕ) (d : Text) (p : Profile)
        → ops.Holds s.shared.store (cache_key state (account_key sub) g) d
        → json.unmarshal d ≡ some p
        → Dated s.shared.generations s.shared.world.tables s.pending sub g p
    pub reading :
        (i : ℕ) → IsRight s.shared.generations s.shared.world.tables s.pending (s.readers i)

  -- A change under which dated values stay dated.
  pub record Kept (gens : ℕ → ℕ) (t : Tables) (pending : List ℕ) (gens' : ℕ → ℕ) (t' : Tables)
      (pending' : List ℕ) : Type 0 where
    pub grows : (sub : ℕ) → gen gens sub ≤ gen gens' sub
    pub dated :
        (sub g : ℕ) (p : Profile) → Dated gens t pending sub g p → Dated gens' t' pending' sub g p

  pub Kept-IsRight :
      (gens : ℕ → ℕ) (t : Tables) (pending : List ℕ) (gens' : ℕ → ℕ) (t' : Tables)
      (pending' : List ℕ)
      → Kept gens t pending gens' t' pending'
      → (pc : Pc) → IsRight gens t pending pc
      → IsRight gens' t' pending' pc
  Kept-IsRight gens t pending gens' t' pending' k idle h = tt
  Kept-IsRight gens t pending gens' t' pending' k (checking sub g v) h =
      omega (arith, h, k.grows sub)
  Kept-IsRight gens t pending gens' t' pending' k (loading sub g) h = omega (arith, h, k.grows sub)
  Kept-IsRight gens t pending gens' t' pending' k (filling sub g p) h = (h.0, k.dated sub g p h.1)

  pub Kept-tables :
      (gens : ℕ → ℕ) (t : Tables) (pending : List ℕ) (t' : Tables)
      → t ≡ t'
      → Kept gens t pending gens t' pending
  Kept-tables gens t pending t' e = record {
    grows = λ sub. omega arith;
    dated = λ sub g p d. subst (λ t. Dated gens t pending sub g p) e d;
  }

  pub Kept-commit :
      (gens : ℕ → ℕ) (t t' : Tables) (subs pending : List ℕ)
      → Writes subs t t'
      → Kept gens t pending gens t' (subs ++ pending)
  Kept-commit gens t t' subs pending writes = record {
    grows = λ sub. omega arith;
    dated = λ sub g p d. record {
      past = d.past;
      current = λ e. written sub p (d.current e) (writes sub);
    };
  }
    where
      written :
          (sub : ℕ) (p : Profile)
          → In sub pending ⊎ (profile sub t ≡ some p)
          → In sub subs ⊎ ((profile sub t' ≡ profile sub t) ⊎ (profile sub t ≡ none))
          → In sub (subs ++ pending) ⊎ (profile sub t' ≡ some p)
      written sub p (inl h) w = inl (In-right sub subs pending h)
      written sub p (inr h) (inl w) = inl (In-left sub subs pending w)
      written sub p (inr h) (inr (inl same)) = inr (same ∙ h)
      written sub p (inr h) (inr (inr gone)) = absurd (cc)

  -- What a shard's generation becomes.
  pub bumped :
      (k j n : ℕ) (gens : ℕ → ℕ)
      → gens j ≤ n
      → suc n < 2 ^ 64
      → ((j ≡ k) × (next_generation k gens j ≡ suc (gens j)))
        ⊎ ((j ≢ k) × (next_generation k gens j ≡ gens j))
  unfolding next_generation
  bumped k j n gens bounded few = grind arith

  pub Kept-invalidate :
      (gens : ℕ → ℕ) (t : Tables) (n sub : ℕ) (before after : List ℕ)
      → ((k : ℕ) → gens k ≤ n)
      → suc n < 2 ^ 64
      → Kept gens t
          (before ++ sub ∷ after)
          (next_generation (shard state (account_key sub)) gens)
          t
          (before ++ after)
  Kept-invalidate gens t n sub before after bounded few = record { grows = grown; dated = redated }
    where
      k : ℕ
      k = shard state (account_key sub)

      next :
          (other : ℕ)
          → ((shard state (account_key other) ≡ k)
              × (gen (next_generation k gens) other ≡ suc (gen gens other)))
            ⊎ ((shard state (account_key other) ≢ k)
                × (gen (next_generation k gens) other ≡ gen gens other))
      next other = bumped k (shard state (account_key other)) n gens (bounded _) few

      grown : (other : ℕ) → gen gens other ≤ gen (next_generation k gens) other
      grown other = elim (next other) [
        | inl (same, e) ↦ omega (arith, e)
        | inr (others, e) ↦ omega (arith, e)
      ]

      redated :
          (other g : ℕ) (p : Profile)
          → Dated gens t (before ++ sub ∷ after) other g p
          → Dated (next_generation k gens) t (before ++ after) other g p
      redated other g p d = elim (next other) [
        | inl (same, e) ↦ record {
          past = omega (arith, e, d.past);
          current = λ now. absurd (omega (arith, e, d.past, now));
        }
        | inr (others, e) ↦ record {
          past = omega (arith, e, d.past);
          current = λ now. waiting others (d.current (now ∙ e));
        }
      ]
        where
          waiting :
              shard state (account_key other) ≢ k
              → In other (before ++ sub ∷ after) ⊎ (profile other t ≡ some p)
              → In other (before ++ after) ⊎ (profile other t ≡ some p)
          waiting ne (inl h) = inl (
              In-others other sub before after
                (λ e. ne (ap (λ n. shard state (account_key n)) (sym e))) h)
          waiting ne (inr h) = inr h

  -- The state after a change keeps the invariant when its parts do.
  pub Coherent-Kept :
      (n m : ℕ) (s s' : System S)
      → Coherent n s
      → ((k : ℕ) → s'.shared.generations k ≤ m)
      → Kept s.shared.generations s.shared.world.tables s.pending s'.shared.generations
          s'.shared.world.tables s'.pending
      → ((k v : Text) → ops.Holds s'.shared.store k v → ops.Holds s.shared.store k v)
      → ((i : ℕ) → IsRight s'.shared.generations s'.shared.world.tables s'.pending (s'.readers i))
      → Coherent m s'
  Coherent-Kept n m s s' c bounded kept held readers = record {
    bounded = bounded;
    stored = λ sub g d p h e. kept.dated sub g p (c.stored sub g d p (held _ d h) e);
    reading = readers;
  }

  -- A step of one reader that leaves the rest as it was.
  pub Coherent-put :
      (n : ℕ) (s : System S) (i : ℕ) (pc : Pc) (c : Shared S)
      → Coherent n s
      → c.generations ≡ s.shared.generations
      → c.world.tables ≡ s.shared.world.tables
      → ((k v : Text) → ops.Holds c.store k v → ops.Holds s.shared.store k v)
      → IsRight s.shared.generations s.shared.world.tables s.pending pc
      → Coherent (suc n) (record s { shared = c; readers = put i pc s.readers })
  Coherent-put n s i pc c h gens tables held right =
      Coherent-Kept n (suc n) s _ h bounded kept held (
        put_cases (IsRight c.generations c.world.tables s.pending) i pc s.readers (moved pc right)
          (λ j. moved (s.readers j) (h.reading j)))
    where
      bounded : (k : ℕ) → c.generations k ≤ suc n
      bounded k = rw gens (omega (arith, h.bounded k))

      kept :
          Kept s.shared.generations s.shared.world.tables s.pending c.generations c.world.tables
            s.pending
      kept =
          subst
            (λ g.
              Kept s.shared.generations s.shared.world.tables s.pending g c.world.tables s.pending)
            (sym gens)
            (Kept-tables s.shared.generations s.shared.world.tables s.pending c.world.tables
              (sym tables))

      moved :
          (pc : Pc)
          → IsRight s.shared.generations s.shared.world.tables s.pending pc
          → IsRight c.generations c.world.tables s.pending pc
      moved pc = Kept-IsRight _ _ _ _ _ _ kept pc
