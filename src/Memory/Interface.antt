-- ===== src/Memory/Interface.antt =====
-- The in-memory store as the interface `cache.Store`.
use mathlib.Core.Path.{subst}
use go_kickstart.Base.{
  ℕ, ◌+◌, ◌-◌, ◌≡◌, refl, sym, ap, ◌⊎◌, inl, inr, ◌||◌, Bool, true, false, Option, none, some, ltb,
  if◌then◌else◌, length, Text,
}
use go_kickstart.Cache.{CacheError, Context, Result, ok, err, is_closed, too_large, CacheStore}
use go_kickstart.Memory.{
  Store, remove_key, delete_expired, evict, push_back, set, set_open, get, get_open, delete,
  validate_request,
}
use go_kickstart.Memory.Shrinks.{
  HoldsValue, Shrinks, remove_key-Shrinks, delete_expired-Shrinks, evict-Shrinks,
  push_back-HoldsValue,
}

pub set-HoldsValue :
    (ctx : Context) (now : ℕ) (key value k v : Text) (c c' : Store) (r : Result (Unit {0}))
    → set ctx now key value c ≡ some (r, c')
    → HoldsValue c' k v
    → HoldsValue c k v ⊎ ((k ≡ key) × (v ≡ value))
unfolding set set_open
set-HoldsValue ctx now key value k v c c' r e h = checked (validate_request ctx key) e
  where
    Out : Type 0
    Out = Option (Result (Unit {0}) × Store)

    unchanged :
        {q : Result (Unit {0})}
        → ◌≡◌ {A = Out} (some (q, c)) (some (r, c'))
        → HoldsValue c k v ⊎ ((k ≡ key) × (v ≡ value))
    unchanged {q} e = inl (subst (λ c. HoldsValue c k v) (sym same) h)
      where
        same : c ≡ c'
        same = cc

    base : Store
    base = remove_key key (delete_expired now c)

    pushed :
        (o : Option Store)
        → evict (length key + length value) base ≡ o
        → ◌≡◌ {A = Out}
            (elim o as (λ _. Out) [
              | none ↦ none
              | some c' ↦ some (ok tt, push_back now key value c')
            ])
            (some (r, c'))
        → HoldsValue c k v ⊎ ((k ≡ key) × (v ≡ value))
    pushed none q e = cc
    pushed (some d) q e =
        elim (push_back-HoldsValue now key value k v d
          (subst (λ c. HoldsValue c k v) (sym same) h)) [
            | inl old ↦ inl (
                delete_expired-Shrinks now c k v (
                  remove_key-Shrinks key (delete_expired now c) k v
                    (evict-Shrinks (length key + length value) base d q k v old)))
            | inr new ↦ inr new
          ]
      where
        same : push_back now key value d ≡ c'
        same = cc

    small :
        (b : Bool)
        → ◌≡◌ {A = Out}
            (if b
              then some (err too_large, c)
              else elim (evict (length key + length value) base) as (λ _. Out) [
                | none ↦ none
                | some c' ↦ some (ok tt, push_back now key value c')
              ])
            (some (r, c'))
        → HoldsValue c k v ⊎ ((k ≡ key) × (v ≡ value))
    small true e = unchanged e
    small false e = pushed _ refl e

    opened :
        (b : Bool)
        → ◌≡◌ {A = Out}
            (if b then some (err is_closed, c) else set_open now key value c)
            (some (r, c'))
        → HoldsValue c k v ⊎ ((k ≡ key) × (v ≡ value))
    opened true e = unchanged e
    opened false e =
        small
          (ltb c.config.max_bytes (length key)
            || ltb (c.config.max_bytes - length key) (length value))
          e

    checked :
        (o : Option CacheError)
        → ◌≡◌ {A = Out}
            (elim o as (λ _. Out) [
              | some e ↦ some (err e, c)
              | none ↦ if c.closed then some (err is_closed, c) else set_open now key value c
            ])
            (some (r, c'))
        → HoldsValue c k v ⊎ ((k ≡ key) × (v ≡ value))
    checked (some e') e = unchanged e
    checked none e = opened c.closed e

pub get-Shrinks :
    (ctx : Context) (now : ℕ) (key : Text) (c : Store) → Shrinks c (get ctx now key c).1
unfolding get get_open
get-Shrinks ctx now key c k v h = checked (validate_request ctx key) h
  where
    opened :
        (b : Bool)
        → HoldsValue
            (if◌then◌else◌ {A = Result Text × Store} b (err is_closed, c) (get_open now key c)).1
            k
            v
        → HoldsValue c k v
    opened true h = h
    opened false h = delete_expired-Shrinks now c k v h

    checked :
        (o : Option CacheError)
        → HoldsValue
            (elim o as (λ _. Result Text × Store) [
              | some e ↦ (err e, c)
              | none ↦ if c.closed then (err is_closed, c) else get_open now key c
            ]).1
            k
            v
        → HoldsValue c k v
    checked (some e) h = h
    checked none h = opened c.closed h

pub delete-Shrinks : (ctx : Context) (key : Text) (c : Store) → Shrinks c (delete ctx key c).1
unfolding delete
delete-Shrinks ctx key c k v h = checked (validate_request ctx key) h
  where
    opened :
        (b : Bool)
        → HoldsValue
            (if◌then◌else◌ {A = Result (Unit {0}) × Store} b
              (err is_closed, c)
              (ok tt, remove_key key c)).1
            k
            v
        → HoldsValue c k v
    opened true h = h
    opened false h = remove_key-Shrinks key c k v h

    checked :
        (o : Option CacheError)
        → HoldsValue
            (elim o as (λ _. Result (Unit {0}) × Store) [
              | some e ↦ (err e, c)
              | none ↦ if c.closed then (err is_closed, c) else (ok tt, remove_key key c)
            ]).1
            k
            v
        → HoldsValue c k v
    checked (some e) h = h
    checked none h = opened c.closed h

pub get_found :
    (ctx : Context) (now : ℕ) (key v : Text) (c c' : Store)
    → get ctx now key c ≡ (ok v, c')
    → HoldsValue c key v
unfolding get get_open
get_found ctx now key v c c' e = checked (validate_request ctx key) (ap (λ o. o.0) e)
  where
    opened :
        (b : Bool)
        → (if◌then◌else◌ {A = Result Text × Store} b (err is_closed, c) (get_open now key c)).0
          ≡ ok v
        → HoldsValue c key v
    opened true h = cc
    opened false h = delete_expired-Shrinks now c key v h

    checked :
        (o : Option CacheError)
        → (elim o as (λ _. Result Text × Store) [
          | some e ↦ (err e, c)
          | none ↦ if c.closed then (err is_closed, c) else get_open now key c
        ]).0
          ≡ ok v
        → HoldsValue c key v
    checked (some e) h = cc
    checked none h = opened c.closed h

-- The in-memory store keeps what `cache.Store` promises of what can be read back.
abbrev pub memory_store : CacheStore Store
memory_store = record {
  set = set;
  get = get;
  delete = delete;
  Holds = HoldsValue;
  get_found = λ ctx now k v s s' e. get_found ctx now k v s s' e;
  get_keeps = λ ctx now k j w s. get-Shrinks ctx now k s j w;
  set_keeps = λ ctx now k v j w s s' r. set-HoldsValue ctx now k v j w s s' r;
  delete_keeps = λ ctx k j w s. delete-Shrinks ctx k s j w;
}
