-- ===== src/Memory/Loops.antt =====
-- The two loops of the store against the queue.
use go_kickstart.Base.{
  ℕ, zero, suc, ◌-◌, ◌≤◌, ◌<◌, ◌≡◌, refl, ap, ◌∙◌, ◌||◌, ◌⊎◌, Bool, true, false, inl, inr, Option,
  some, List, [], ◌∷◌, map, arith, ltb, leb, Bool-cases, length,
}
use go_kickstart.Memory.{
  Entry, Element, Store, remove, delete_expired_loop, delete_expired, evict_loop, evict,
}
use go_kickstart.Memory.Order.{total}
use go_kickstart.Memory.Spec.{entries, live, make_room, is_full, total_size}
use go_kickstart.Memory.Invariant.{
  IsValid, SameFrame, remove-SameFrame, order-remove_front, remove_front-IsValid,
}

pub List-cases {ℓ} : {A : Type ℓ} (l : List A) → (l ≡ []) ⊎ ((a : A) × (r : List A) × (l ≡ a ∷ r))
List-cases [] = inl refl
List-cases (a ∷ r) = inr (a, r, refl)

-- What a sweep with a given effect on the queue gives.
pub record Does (last : ℕ) (c : Store) (after : List Entry) (c' : Store) : Type 0 where
  pub valid : IsValid last c'
  pub frame : SameFrame c c'
  pub view : entries c' ≡ after

pub Does-frame : (a b c : Store) → SameFrame a b → SameFrame b c → SameFrame a c
Does-frame a b c f g = (g.0 ∙ f.0, g.1 ∙ f.1, g.2 ∙ f.2)

module _ (fuel now : ℕ) (c : Store) where
  loop_empty : c.order ≡ [] → delete_expired_loop (suc fuel) now c ≡ c
  unfolding delete_expired_loop
  loop_empty q = ground (arith, q)

  module _ {e : Element} {r : List Element} (q : c.order ≡ e ∷ r) where
    loop_fresh : ltb now e.entry.expires_at ≡ true → delete_expired_loop (suc fuel) now c ≡ c
    unfolding delete_expired_loop
    loop_fresh t = ground (arith, q)

    loop_expired :
        ltb now e.entry.expires_at ≡ false
        → delete_expired_loop (suc fuel) now c ≡ delete_expired_loop fuel now (remove e c)
    unfolding delete_expired_loop
    loop_expired t = ground (arith, q)

delete_expired_loop-Does :
    {last : ℕ} (fuel now : ℕ) (c : Store)
    → IsValid last c
    → length c.order ≤ fuel
    → Does last c (live now (entries c)) (delete_expired_loop fuel now c)
delete_expired_loop-Does zero now c v h = elim (List-cases c.order) [
  | inl e ↦
      unfold delete_expired_loop live in
      record { valid = v; frame = (refl, refl, refl); view = rw e }
  | inr (e, r, q) ↦ absurd (omega (arith, ap (length {A = Element}) q))
]
delete_expired_loop-Does {last} (suc fuel) now c v h = elim (List-cases c.order) [
  | inl e ↦
      rw (loop_empty fuel now c e)
        (record { valid = v; frame = (refl, refl, refl); view = unfold live in rw e })
  | inr (e, r, q) ↦ elim (Bool-cases (ltb now e.entry.expires_at)) [
    | inl fresh ↦
        rw (loop_fresh fuel now c q fresh)
          (record { valid = v; frame = (refl, refl, refl); view = unfold live in rw q (rw fresh) })
    | inr expired ↦
        let rest = order-remove_front c e r v q in
        let shorter : length (remove e c).order ≤ fuel =
          rw rest (omega (arith, ap (length {A = Element}) q)) in
        let ih =
          delete_expired_loop-Does {last = last} fuel now (remove e c)
            (remove_front-IsValid c e r v q) shorter in
        rw (loop_expired fuel now c q expired) (record {
          valid = ih.valid;
          frame =
              Does-frame c (remove e c) (delete_expired_loop fuel now (remove e c))
                (remove-SameFrame c e) ih.frame;
          view = ih.view ∙ (unfold live in rw (rest, q) (rw expired));
        })
  ]
]

pub delete_expired-Does :
    {last : ℕ} (now : ℕ) (c : Store)
    → IsValid last c
    → Does last c (live now (entries c)) (delete_expired now c)
unfolding delete_expired
delete_expired-Does now c v = delete_expired_loop-Does (length c.order) now c v (omega arith)

pub length-entries : (o : List Element) → length (map (λ e. e.entry) o) ≡ length o
length-entries [] = refl
length-entries (e ∷ o) = ap suc (length-entries o)

pub total-entries : (o : List Element) → total_size (map (λ e. e.entry) o) ≡ total o
total-entries [] = refl
total-entries (e ∷ o) = omega (arith, total-entries o)

-- The test of the eviction loop, which counts the map and reads the byte counter.
abbrev pub over : ℕ → Store → Bool
over need c = leb c.config.max_entries (length c.items) || ltb (c.config.max_bytes - need) c.bytes

pub over-eq-is_full :
    {last : ℕ} (need : ℕ) (c : Store)
    → IsValid last c
    → over need c ≡ is_full c.config need (entries c)
over-eq-is_full need c v = rw (v.same_length, v.counted, length-entries, total-entries)

-- The eviction loop stops before the list is empty.
is_full_nil : {last : ℕ} (need : ℕ) (c : Store) → IsValid last c → is_full c.config need [] ≡ false
is_full_nil need c v = ground (arith, v.positive)

module _ (fuel need : ℕ) (c : Store) where
  evict_done : over need c ≡ false → evict_loop (suc fuel) need c ≡ some c
  unfolding evict_loop
  evict_done t = rw t

  evict_next :
      {e : Element} {r : List Element}
      → c.order ≡ e ∷ r
      → over need c ≡ true
      → evict_loop (suc fuel) need c ≡ evict_loop fuel need (remove e c)
  unfolding evict_loop
  evict_next q t = ground (arith, q)

-- What the eviction loop gives.
pub record Evicts (last need : ℕ) (c : Store) (out : Option Store) : Type 0 where
  pub result : Store
  pub returned : out ≡ some result
  pub does : Does last c (make_room c.config need (entries c)) result
  pub has_room : is_full c.config need (entries result) ≡ false

module _ (need : ℕ) (c : Store) {e : Element} {r : List Element} (q : c.order ≡ e ∷ r) where
  make_room_next :
      (o : List Element)
      → o ≡ r
      → is_full c.config need (entries c) ≡ true
      → make_room c.config need (map (λ e. e.entry) o) ≡ make_room c.config need (entries c)
  unfolding make_room
  make_room_next o p full = rw (p, q) (rw (rw q at full))

  make_room_done :
      is_full c.config need (entries c) ≡ false → entries c ≡ make_room c.config need (entries c)
  unfolding make_room
  make_room_done room = rw q (rw (rw q at room))

evict_loop-Evicts :
    {last : ℕ} (fuel need : ℕ) (c : Store)
    → IsValid last c
    → length c.order < fuel
    → Evicts last need c (evict_loop fuel need c)
evict_loop-Evicts zero need c v h = absurd (omega arith)
evict_loop-Evicts {last} (suc fuel) need c v h = elim (List-cases c.order) [
  | inl e ↦
      let room : is_full c.config need (entries c) ≡ false = rw e (is_full_nil need c v) in
      record {
        result = c;
        returned = evict_done fuel need c (over-eq-is_full need c v ∙ room);
        does = record { valid = v; frame = (refl, refl, refl); view = unfold make_room in rw e };
        has_room = room;
      }
  | inr (e, r, q) ↦ elim (Bool-cases (is_full c.config need (entries c))) [
    | inl full ↦
        let rest = order-remove_front c e r v q in
        let shorter : length (remove e c).order < fuel =
          rw rest (omega (arith, ap (length {A = Element}) q)) in
        let ih =
          evict_loop-Evicts {last = last} fuel need (remove e c) (remove_front-IsValid c e r v q)
            shorter in
        let frame = remove-SameFrame c e in
        record {
          result = ih.result;
          returned = evict_next fuel need c q (over-eq-is_full need c v ∙ full) ∙ ih.returned;
          does = record {
            valid = ih.does.valid;
            frame = Does-frame c (remove e c) ih.result frame ih.does.frame;
            view = ih.does.view ∙ (rw frame.0 (make_room_next need c q _ rest full));
          };
          has_room = rw (frame.0) at ih.has_room;
        }
    | inr room ↦ record {
      result = c;
      returned = evict_done fuel need c (over-eq-is_full need c v ∙ room);
      does = record { valid = v; frame = (refl, refl, refl); view = make_room_done need c q room };
      has_room = room;
    }
  ]
]

pub evict-Evicts :
    {last : ℕ} (need : ℕ) (c : Store) → IsValid last c → Evicts last need c (evict need c)
unfolding evict
evict-Evicts need c v = evict_loop-Evicts (suc (length c.order)) need c v (omega arith)
