-- ===== src/Memory/Shrinks.antt =====
-- What can be found in the store after its parts have run.
use mathlib.Core.Path.{subst}
use go_kickstart.Base.{
  ℕ, zero, suc, ◌+◌, ◌-◌, ◌≡◌, ◌∙◌, refl, sym, ap, ◌⊎◌, inl, inr, ◌||◌, Bool, true, false, Option,
  none, some, List, [], ◌∷◌, ltb, leb, if◌then◌else◌, length, Text, str_eq, str_eq_iff, lookup,
  lookup-without, lookup-assign,
}
use go_kickstart.Cache.{Result, ok}
use go_kickstart.Memory.{
  Element, Store, remove, remove_key, delete_expired, delete_expired_loop, evict, evict_loop,
  push_back, found,
}

-- The map has an element of that value under the key.
abbrev pub HoldsValue : Store → Text → Text → Type 0
HoldsValue c k v = found (lookup k c.items) ≡ ok v

-- Nothing is under a key that was not there.
abbrev pub Shrinks : Store → Store → Type 0
Shrinks c c' = (k v : Text) → HoldsValue c' k v → HoldsValue c k v

pub remove-Shrinks : (e : Element) (c : Store) → Shrinks c (remove e c)
unfolding remove found
remove-Shrinks e c k v h =
    kept (str_eq e.entry.key k) (ap found (sym (lookup-without e.entry.key k c.items)) ∙ h)
  where
    kept : (b : Bool) → found (if b then none else lookup k c.items) ≡ ok v → HoldsValue c k v
    kept true h = cc
    kept false h = h

pub remove_key-Shrinks : (key : Text) (c : Store) → Shrinks c (remove_key key c)
unfolding remove_key
remove_key-Shrinks key c k v h = at (lookup key c.items) h
  where
    at :
        (o : Option Element)
        → HoldsValue (elim o as (λ _. Store) [ none ↦ c | some existing ↦ remove existing c ]) k v
        → HoldsValue c k v
    at none h = h
    at (some e) h = remove-Shrinks e c k v h

delete_expired_loop-Shrinks :
    (fuel now : ℕ) (c : Store) → Shrinks c (delete_expired_loop fuel now c)
unfolding delete_expired_loop
delete_expired_loop-Shrinks zero now c k v h = h
delete_expired_loop-Shrinks (suc fuel) now c k v h =
    at (λ front. delete_expired_loop-Shrinks fuel now (remove front c)) c.order h
  where
    Later : Type 0
    Later =
        (front : Element) → Shrinks (remove front c) (delete_expired_loop fuel now (remove front c))

    fresh :
        Later
        → (b : Bool) (front : Element)
        → HoldsValue (if b then c else delete_expired_loop fuel now (remove front c)) k v
        → HoldsValue c k v
    fresh later true front h = h
    fresh later false front h = remove-Shrinks front c k v (later front k v h)

    at :
        Later
        → (o : List Element)
        → HoldsValue
            (elim o as (λ _. Store) [
              | [] ↦ c
              | front ∷ _ ↦
                  if ltb now front.entry.expires_at
                  then c
                  else delete_expired_loop fuel now (remove front c)
            ])
            k
            v
        → HoldsValue c k v
    at later [] h = h
    at later (front ∷ _) h = fresh later (ltb now front.entry.expires_at) front h

pub delete_expired-Shrinks : (now : ℕ) (c : Store) → Shrinks c (delete_expired now c)
unfolding delete_expired
delete_expired-Shrinks now c = delete_expired_loop-Shrinks (length c.order) now c

evict_loop-Shrinks :
    (fuel need : ℕ) (c c' : Store) → evict_loop fuel need c ≡ some c' → Shrinks c c'
unfolding evict_loop
evict_loop-Shrinks zero need c c' e k v h = cc
evict_loop-Shrinks (suc fuel) need c c' e k v h =
    full (λ front e. evict_loop-Shrinks fuel need (remove front c) c' e)
      (leb c.config.max_entries (length c.items) || ltb (c.config.max_bytes - need) c.bytes) e
  where
    Later : Type 0
    Later =
        (front : Element)
        → evict_loop fuel need (remove front c) ≡ some c'
        → Shrinks (remove front c) c'

    evicted :
        Later
        → (o : List Element)
        → (elim o as (λ _. Option Store) [
          | [] ↦ none
          | front ∷ _ ↦ evict_loop fuel need (remove front c)
        ])
          ≡ some c'
        → HoldsValue c k v
    evicted later [] e = cc
    evicted later (front ∷ _) e = remove-Shrinks front c k v (later front e k v h)

    full :
        Later
        → (b : Bool)
        → (if b
            then (elim c.order as (λ _. Option Store) [
              | [] ↦ none
              | front ∷ _ ↦ evict_loop fuel need (remove front c)
            ])
            else some c)
          ≡ some c'
        → HoldsValue c k v
    full later true e = evicted later c.order e
    full later false e = subst (λ c. HoldsValue c k v) (sym (same e)) h
      where
        same : ◌≡◌ {A = Option Store} (some c) (some c') → c ≡ c'
        same e = cc

pub evict-Shrinks : (need : ℕ) (c c' : Store) → evict need c ≡ some c' → Shrinks c c'
unfolding evict
evict-Shrinks need c c' e = evict_loop-Shrinks (suc (length c.order)) need c c' e

pub push_back-HoldsValue :
    (now : ℕ) (key value k v : Text) (c : Store)
    → HoldsValue (push_back now key value c) k v
    → HoldsValue c k v ⊎ ((k ≡ key) × (v ≡ value))
unfolding push_back found
push_back-HoldsValue now key value k v c h =
    under (str_eq key k) refl (ap found (sym (lookup-assign key k _ c.items)) ∙ h)
  where
    under :
        (b : Bool)
        → str_eq key k ≡ b
        → found (
            if b
            then some (record {
              id = c.next_id;
              entry = record { key = key; value = value; expires_at = now + c.config.ttl };
            })
            else lookup k c.items)
          ≡ ok v
        → HoldsValue c k v ⊎ ((k ≡ key) × (v ≡ value))
    under true e h = inr (sym ((str_eq_iff key k).0 e), same_value h)
      where
        same_value : ◌≡◌ {A = Result Text} (ok value) (ok v) → v ≡ value
        same_value h = cc
    under false e h = inl h
