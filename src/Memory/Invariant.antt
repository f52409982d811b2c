-- ===== src/Memory/Invariant.antt =====
-- The invariant of the store, and what `remove` does to a valid one.
use mathlib.Core.Path.{subst}
use go_kickstart.Base.{
  ℕ, ◌+◌, ◌≤◌, ◌<◌, ◌≡◌, refl, sym, ◌∙◌, some, List, [], ◌∷◌, arith, Option-cases, inl, inr, length,
  All, Text, str_eq_refl, lookup, Distinct, lookup-without, length-without, Distinct-without,
}
use go_kickstart.Memory.{Element, Store, unlink, remove, remove_key}
use go_kickstart.Memory.Order.{
  find_key, without_key, total, Linked, Ascending, All-remove_all, Linked-without_key,
  Ascending-without_key, find_key-without_key, key-find_key, without_key-Apart, without_key_absent,
  unlink-eq-without_key, length-without_key, total-without_key,
}

-- At a clock that showed `last`: the map and the list hold the same elements, the byte count is
-- exact, both limits are kept, and the list is in the order of expiry.
pub record IsValid (last : ℕ) (c : Store) : Type 0 where
  pub linked : Linked c.next_id c.order
  pub agree : (k : Text) → lookup k c.items ≡ find_key k c.order
  pub distinct : Distinct c.items
  pub same_length : length c.items ≡ length c.order
  pub counted : c.bytes ≡ total c.order
  pub positive : 0 < c.config.max_entries
  pub bounded : length c.order ≤ c.config.max_entries
  pub fits : c.bytes ≤ c.config.max_bytes
  pub ascending : Ascending c.order
  pub due : All (λ x. x.entry.expires_at ≤ last + c.config.ttl) c.order

-- What no removal changes.
abbrev pub SameFrame : Store → Store → Type 0
SameFrame c c' = (c'.config ≡ c.config) × (c'.closed ≡ c.closed) × (c'.stopped ≡ c.stopped)

pub due_later :
    (last now ttl : ℕ) (o : List Element)
    → last ≤ now
    → All (λ x. x.entry.expires_at ≤ last + ttl) o
    → All (λ x. x.entry.expires_at ≤ now + ttl) o
due_later last now ttl [] le h = tt
due_later last now ttl (x ∷ o) le h = (omega arith, due_later last now ttl o le h.1)

pub IsValid-later : {last now : ℕ} {c : Store} → last ≤ now → IsValid last c → IsValid now c
IsValid-later {last} {now} {c} le v = record {
  linked = v.linked;
  agree = v.agree;
  distinct = v.distinct;
  same_length = v.same_length;
  counted = v.counted;
  positive = v.positive;
  bounded = v.bounded;
  fits = v.fits;
  ascending = v.ascending;
  due = due_later last now c.config.ttl c.order le v.due;
}

module _ {last : ℕ} (c : Store) (k : Text) (e : Element) (v : IsValid last c)
    (here : find_key k c.order ≡ some e) where
  pub order-remove : (remove e c).order ≡ without_key k c.order
  unfolding remove
  order-remove = unlink-eq-without_key c.next_id k c.order e v.linked here

  pub remove-IsValid : IsValid last (remove e c)
  unfolding remove
  remove-IsValid =
      let o = c.order in
      let key : e.entry.key ≡ k = key-find_key k o here in
      let gone : unlink e.id o ≡ without_key k o = order-remove in
      let shorter = length-without_key c.next_id k o e v.linked here in
      let lighter = total-without_key c.next_id k o e v.linked here in
      record {
        linked = rw gone (Linked-without_key c.next_id k o v.linked);
        agree = λ j.
            ground
              (arith, key, gone, lookup-without k j c.items, find_key-without_key k j o, v.agree j);
        distinct = Distinct-without e.entry.key c.items v.distinct;
        same_length = ground (arith, length-without k e c.items v.distinct, v.agree k);
        counted = rw gone (omega (arith, v.counted));
        positive = v.positive;
        bounded = rw gone (omega (arith, v.bounded));
        fits = omega (arith, v.fits);
        ascending = rw gone (Ascending-without_key k o v.ascending);
        due = rw gone (All-remove_all _ _ o v.due);
      }

-- The front of the list.
module _ {last : ℕ} (c : Store) (e : Element) (r : List Element) (v : IsValid last c)
    (front : c.order ≡ e ∷ r) where
  front_here : find_key e.entry.key c.order ≡ some e
  front_here = rw (front, str_eq_refl) refl

  pub order-remove_front : (remove e c).order ≡ r
  order-remove_front =
      order-remove c e.entry.key e v front_here
      ∙ rw (front, str_eq_refl) (without_key-Apart e r (subst (Linked c.next_id) front v.linked).1)

  pub remove_front-IsValid : IsValid last (remove e c)
  remove_front-IsValid = remove-IsValid c e.entry.key e v front_here

pub remove-SameFrame : (c : Store) (e : Element) → SameFrame c (remove e c)
unfolding remove
remove-SameFrame c e = (refl, refl, refl)

pub order-remove_key :
    {last : ℕ} (c : Store) (k : Text)
    → IsValid last c
    → (remove_key k c).order ≡ without_key k c.order
unfolding remove_key
order-remove_key c k v = elim (Option-cases (find_key k c.order)) [
  | inl miss ↦ rw (v.agree k ∙ miss, remove_key) (sym (without_key_absent k c.order miss))
  | inr (e, hit) ↦ rw (v.agree k ∙ hit, remove_key) (order-remove c k e v hit)
]

pub remove_key-IsValid :
    {last : ℕ} (c : Store) (k : Text) → IsValid last c → IsValid last (remove_key k c)
unfolding remove_key
remove_key-IsValid c k v = elim (Option-cases (find_key k c.order)) [
  | inl miss ↦ rw (v.agree k ∙ miss, remove_key) v
  | inr (e, hit) ↦ rw (v.agree k ∙ hit, remove_key) (remove-IsValid c k e v hit)
]

pub remove_key-SameFrame : (c : Store) (k : Text) → SameFrame c (remove_key k c)
unfolding remove_key
remove_key-SameFrame c k = elim (Option-cases (lookup k c.items)) [
  | inl miss ↦ rw (miss, remove_key) (refl, refl, refl)
  | inr (e, hit) ↦ rw (hit, remove_key) (remove-SameFrame c e)
]
