-- ===== src/Memory/Push.antt =====
-- To append a new entry to a valid store that has room and does not hold its key.
use mathlib.Core.List.{map-append}
use go_kickstart.Base.{
  ℕ, suc, ◌+◌, ◌≤◌, ◌≡◌, refl, ◌∙◌, false, none, some, List, [], ◌∷◌, ◌++◌, arith, if◌then◌else◌,
  length, length-append, All, All-append, Text, str_eq, str_eq_iff, assign, Distinct-without,
  lookup-assign, lookup-without, str_eq_refl, without_absent,
}
use go_kickstart.Memory.{Element, Store, size, push_back}
use go_kickstart.Memory.Order.{total, find_key, Linked, Ascending}
use go_kickstart.Memory.Spec.{entries, is_full, entry_at}
use go_kickstart.Memory.Invariant.{IsValid}
use go_kickstart.Memory.Loops.{over-eq-is_full}

find_key-append :
    (j : Text) (x : Element) (o : List Element)
    → find_key x.entry.key o ≡ none
    → find_key j (o ++ x ∷ []) ≡ (if str_eq x.entry.key j then some x else find_key j o)
find_key-append j x [] h = refl
find_key-append j x (e ∷ o) h = ground (
  arith,
  find_key-append j x o,
  str_eq_iff e.entry.key x.entry.key,
  str_eq_iff e.entry.key j,
  str_eq_iff x.entry.key j,
)

Linked-append :
    (n : ℕ) (x : Element) (o : List Element)
    → x.id ≡ n
    → Linked n o
    → find_key x.entry.key o ≡ none
    → Linked (suc n) (o ++ x ∷ [])
Linked-append n x [] p l h = (omega arith, tt, tt)
Linked-append n x (e ∷ o) p l h = (
  omega (arith, l.0),
  All-append _ o (x ∷ []) l.1 (
    (
      ground (arith, l.0),
      ground (arith, str_eq_iff e.entry.key x.entry.key, str_eq_iff x.entry.key e.entry.key),
    ),
    tt,
  ),
  Linked-append n x o p l.2 (ground (arith, str_eq_iff e.entry.key x.entry.key)),
)

Ascending-append :
    (x : Element) (o : List Element)
    → Ascending o
    → All (λ e. e.entry.expires_at ≤ x.entry.expires_at) o
    → Ascending (o ++ x ∷ [])
Ascending-append x [] a d = (tt, tt)
Ascending-append x (e ∷ o) a d =
    (All-append _ o (x ∷ []) a.0 (d.0, tt), Ascending-append x o a.1 d.1)

total-append : (o : List Element) (x : Element) → total (o ++ x ∷ []) ≡ total o + size x.entry
total-append [] x = omega arith
total-append (e ∷ o) x = omega (arith, total-append o x)

module _ {now : ℕ} (c : Store) (key value : Text) (v : IsValid now c)
    (new_key : find_key key c.order ≡ none)
    (room : is_full c.config (length key + length value) (entries c) ≡ false)
    (small : length key + length value ≤ c.config.max_bytes) where
  pub entries-push_back :
      entries (push_back now key value c) ≡ entries c ++ entry_at c.config now key value ∷ []
  unfolding push_back
  entries-push_back = rw map-append

  pub push_back-IsValid : IsValid now (push_back now key value c)
  unfolding push_back assign
  push_back-IsValid =
      let x : Element = record { id = c.next_id; entry = entry_at c.config now key value } in
      let fresh = v.agree key ∙ new_key in
      let open_room = over-eq-is_full (length key + length value) c v ∙ room in
      record {
        linked = Linked-append c.next_id x c.order refl v.linked new_key;
        agree = λ j.
            lookup-assign key j x c.items ∙ (rw (find_key-append j x c.order new_key, v.agree j));
        distinct = (
          ground (arith, lookup-without key key c.items, str_eq_refl key),
          Distinct-without key c.items v.distinct,
        );
        same_length =
            rw (without_absent key c.items fresh)
              (omega (arith, v.same_length, length-append c.order (x ∷ [])));
        counted = omega (arith, v.counted, total-append c.order x);
        positive = v.positive;
        bounded = ground (arith, v.same_length, length-append c.order (x ∷ []));
        fits = ground (arith);
        ascending = Ascending-append x c.order v.ascending v.due;
        due = All-append _ c.order (x ∷ []) v.due (omega arith, tt);
      }
