-- ===== src/Memory/Reads.antt =====
-- What can be read back, and until when.
use go_kickstart.Base.{
  All-find, ℕ, ◌+◌, ◌≤◌, ◌≡◌, refl, ap, ◌∙◌, true, false, inl, inr, Option, none, some, List, [],
  ◌∷◌, ◌++◌, map, arith, ltb, if◌then◌else◌, Bool-cases, Option-cases, length, All, Text, str_eq,
  str_eq_iff, str_eq_refl,
}
use go_kickstart.Cache.{ok, err, Context, not_found}
use go_kickstart.Memory.{Entry, Element, Store, set, get, delete}
use go_kickstart.Memory.Order.{Linked, Apart, Ascending}
use go_kickstart.Memory.Spec.{entries, live, make_room, forget, write, read, entry_at}
use go_kickstart.Memory.Invariant.{IsValid}
use go_kickstart.Memory.Refine.{
  Accepts, answer, read-forget, read-make_room, set-write, get-read, delete-forget,
}

-- Distinct keys, in the order of expiry.
abbrev Sorted : List Entry → Type 0
Sorted [] = Unit
Sorted (e ∷ r) =
    All (λ x. (str_eq x.key e.key ≡ false) × (e.expires_at ≤ x.expires_at)) r × Sorted r

sorted_after :
    (e : Element) (o : List Element)
    → Apart e o
    → All (λ x. e.entry.expires_at ≤ x.entry.expires_at) o
    → All
        (λ x. (str_eq x.key e.entry.key ≡ false) × (e.entry.expires_at ≤ x.expires_at))
        (map (λ x. x.entry) o)
sorted_after e [] a d = tt
sorted_after e (x ∷ o) a d = ((a.0.1, d.0), sorted_after e o a.1 d.1)

entries-Sorted :
    (n : ℕ) (o : List Element) → Linked n o → Ascending o → Sorted (map (λ e. e.entry) o)
entries-Sorted n [] l a = tt
entries-Sorted n (e ∷ o) l a = (sorted_after e o l.1 a.0, entries-Sorted n o l.2 a.1)

-- An entry serves until its time.
abbrev pub unexpired : ℕ → Option Entry → Option Entry
unexpired now none = none
unexpired now (some e) = if ltb now e.expires_at then some e else none

read_apart :
    (k : Text) (e : Entry) (es : List Entry)
    → All (λ x. (str_eq x.key e.key ≡ false) × (e.expires_at ≤ x.expires_at)) es
    → str_eq e.key k ≡ true
    → read k es ≡ none
read_apart k e [] h t = refl
read_apart k e (x ∷ es) h t = ground (
  arith,
  h.0.0,
  str_eq_iff e.key k,
  str_eq_iff x.key k,
  str_eq_iff x.key e.key,
  read_apart k e es h.1,
)

-- To sweep the front is enough: what is left behind it has not expired.
read-live :
    (now : ℕ) (k : Text) (es : List Entry)
    → Sorted es
    → read k (live now es) ≡ unexpired now (read k es)
unfolding live
read-live now k [] s = refl
read-live now k (e ∷ es) s = elim (Bool-cases (ltb now e.expires_at)) [
  | inl fresh ↦ elim (Option-cases (read k es)) [
    | inl miss ↦ ground arith
    | inr (x, hit) ↦ let later = All-find _ _ es x s.0 hit in ground arith
  ]
  | inr old ↦ elim (Bool-cases (str_eq e.key k)) [
    | inl here ↦ ground (arith, read-live now k es s.1, read_apart k e es s.0 here)
    | inr there ↦ ground (arith, read-live now k es s.1)
  ]
]

read-append :
    (k : Text) (x : Entry) (es : List Entry)
    → read k es ≡ none
    → str_eq x.key k ≡ true
    → read k (es ++ x ∷ []) ≡ some x
read-append k x [] h t = rw t
read-append k x (e ∷ es) h t = ground (arith, read-append k x es)

module _ {last now : ℕ} (ctx : Context) (key : Text) (c : Store) (accepted : Accepts ctx key)
    (open_ : c.closed ≡ false) (later : last ≤ now) (v : IsValid last c) where
  -- On an open and valid store, with a context and a key that are accepted and at a time that does
  -- not go back, `get` answers the value of the entry of the key when there is one that has not
  -- expired, and else that there is no such key.
  pub get-unexpired : (get ctx now key c).0 ≡ answer (unexpired now (read key (entries c)))
  get-unexpired =
      (get-read ctx key c accepted open_ later v).0
      ∙ ap answer
          (read-live now key (entries c) (entries-Sorted c.next_id c.order v.linked v.ascending))

read_written :
    (then_ : ℕ) (key value : Text) (c : Store)
    → read key (write c.config then_ key value (entries c))
      ≡ some (entry_at c.config then_ key value)
read_written then_ key value c =
    let es = forget key (live then_ (entries c)) in
    let need = length key + length value in
    read-append key (entry_at c.config then_ key value) (make_room c.config need es)
      (read-make_room key c.config need es (read-forget key (live then_ (entries c))))
      (str_eq_refl key)

-- On an open and valid store, with a context and a key that are accepted, an entry that fits the
-- limit on bytes and times that do not go back, `set` succeeds, and `get` of the key after it
-- answers the value until its time to live has passed since the `set`, and from then on that there
-- is no such key.
pub get-set :
    {last then_ now : ℕ} (ctx : Context) (key value : Text) (c : Store)
    → Accepts ctx key
    → c.closed ≡ false
    → last ≤ then_
    → then_ ≤ now
    → IsValid last c
    → length key + length value ≤ c.config.max_bytes
    → (c' : Store) × (set ctx then_ key value c ≡ some (ok tt, c'))
      × ((get ctx now key c').0
          ≡ (if ltb now (then_ + c.config.ttl) then ok value else err not_found))
get-set {last} {then_} {now} ctx key value c accepted open_ le₁ le₂ v small =
    let (c', returned, d) = set-write ctx key c accepted open_ le₁ v value small in
    let written : Entry = entry_at c.config then_ key value in
    let stored : read key (entries c') ≡ some written =
      rw d.view (read_written then_ key value c) in
    (
      c',
      returned,
      get-unexpired ctx key c' accepted (d.frame.1 ∙ open_) le₂ d.valid ∙ rw stored (ground arith),
    )

-- On an open and valid store, with a context and a key that are accepted and at a time that does not
-- go back, `get` after `delete` of a key answers that there is no such key.
pub get-delete :
    {last now : ℕ} (ctx : Context) (key : Text) (c : Store)
    → Accepts ctx key
    → c.closed ≡ false
    → last ≤ now
    → IsValid last c
    → (get ctx now key (delete ctx key c).1).0 ≡ err not_found
get-delete {last} ctx key c accepted open_ later v =
    let d = (delete-forget {now = last} ctx key c accepted open_ (omega arith) v).1 in
    get-unexpired ctx key (delete ctx key c).1 accepted (d.frame.1 ∙ open_) later d.valid
    ∙ rw (d.view, read-forget)
