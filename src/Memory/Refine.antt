-- ===== src/Memory/Refine.antt =====
-- The operations of the store against the queue.
use go_kickstart.Base.{
  ℕ, ◌+◌, ◌≤◌, ◌≡◌, refl, sym, ap, ◌∙◌, false, inl, inr, Option, none, some, List, [], ◌∷◌, map,
  arith, leb, Option-cases, length, Text, lookup,
}
use mathlib.Core.Option
use go_kickstart.Cache.{Result, ok, err, Context, not_found, too_large}
use go_kickstart.Memory.{
  Entry, Element, Store, Config, set, set_open, push_back, remove_key, delete_expired, evict,
  validate_request, get, get_open, found, delete,
}
use go_kickstart.Memory.Order.{find_key, without_key}
use go_kickstart.Memory.Spec.{entries, live, make_room, is_full, forget, write, read}
use go_kickstart.Memory.Invariant.{
  IsValid, IsValid-later, order-remove_key, remove_key-IsValid, remove_key-SameFrame,
}
use go_kickstart.Memory.Loops.{Does, Does-frame, delete_expired-Does, evict-Evicts}
use go_kickstart.Memory.Push.{entries-push_back, push_back-IsValid}

-- The queue view of a list of elements.
pub read-map :
    (k : Text) (o : List Element)
    → read k (map (λ e. e.entry) o) ≡ Option.map (λ e. e.entry) (find_key k o)
read-map k [] = refl
read-map k (e ∷ o) = ground (arith, read-map k o)

forget-map :
    (k : Text) (o : List Element)
    → map (λ e. e.entry) (without_key k o) ≡ forget k (map (λ e. e.entry) o)
forget-map k [] = refl
forget-map k (e ∷ o) = ground (arith, forget-map k o)

pub read-forget : (k : Text) (es : List Entry) → read k (forget k es) ≡ none
read-forget k [] = refl
read-forget k (e ∷ es) = ground (arith, read-forget k es)

pub read-make_room :
    (k : Text) (cfg : Config) (need : ℕ) (es : List Entry)
    → read k es ≡ none
    → read k (make_room cfg need es) ≡ none
unfolding make_room
read-make_room k cfg need [] h = refl
read-make_room k cfg need (e ∷ es) h = ground (arith, read-make_room k cfg need es)

pub remove_key-Does :
    {last : ℕ} (k : Text) (c : Store)
    → IsValid last c
    → Does last c (forget k (entries c)) (remove_key k c)
remove_key-Does k c v = record {
  valid = remove_key-IsValid c k v;
  frame = remove_key-SameFrame c k;
  view = ap (map (λ e. e.entry)) (order-remove_key c k v) ∙ forget-map k c.order;
}

find_key-none : (k : Text) (c : Store) → read k (entries c) ≡ none → find_key k c.order ≡ none
find_key-none k c h = elim (Option-cases (find_key k c.order)) [
  | inl miss ↦ miss
  | inr (e, hit) ↦ ground (arith, read-map k c.order)
]

set_open_returns :
    (now : ℕ) (key value : Text) (c r : Store)
    → length key + length value ≤ c.config.max_bytes
    → evict (length key + length value) (remove_key key (delete_expired now c)) ≡ some r
    → set_open now key value c ≡ some (ok tt, push_back now key value r)
unfolding set_open
set_open_returns now key value c r small e = ground (arith, e)

-- A larger entry is refused before anything changes.
pub set_open_refuses :
    (now : ℕ) (key value : Text) (c : Store)
    → leb (length key + length value) c.config.max_bytes ≡ false
    → set_open now key value c ≡ some (err too_large, c)
unfolding set_open
set_open_refuses now key value c h = ground (arith, h)

-- What `Set` does to a valid, open store when the entry is not too large.
pub set_open-Does :
    {now : ℕ} (key value : Text) (c : Store)
    → IsValid now c
    → length key + length value ≤ c.config.max_bytes
    → (c' : Store) × (set_open now key value c ≡ some (ok tt, c'))
      × Does now c (write c.config now key value (entries c)) c'
unfolding push_back
set_open-Does {now} key value c v small =
    let need : ℕ = length key + length value in
    let c₁ : Store = delete_expired now c in
    let d₁ = delete_expired-Does now c v in
    let c₂ : Store = remove_key key c₁ in
    let d₂ = remove_key-Does key c₁ d₁.valid in
    let e = evict-Evicts need c₂ d₂.valid in
    let d₃ = e.does in
    let r : Store = e.result in
    let f₂ = Does-frame c c₁ c₂ d₁.frame d₂.frame in
    let f = Does-frame c c₂ r f₂ d₃.frame in
    let kept : List Entry = make_room c.config need (forget key (live now (entries c))) in
    let view : entries r ≡ kept = d₃.view ∙ rw (f₂.0, d₂.view, d₁.view) in
    let room : is_full r.config need (entries r) ≡ false = rw d₃.frame.0 e.has_room in
    let new_key : find_key key r.order ≡ none = find_key-none key r (
      rw view (
        read-make_room key c.config need (forget key (live now (entries c)))
          (read-forget key (live now (entries c))))) in
    let small' : need ≤ r.config.max_bytes = rw f.0 small in
    (
      push_back now key value r,
      set_open_returns now key value c r small e.returned,
      record {
        valid = push_back-IsValid r key value d₃.valid new_key room small';
        frame = (f.0, f.1, f.2);
        view = entries-push_back r key value d₃.valid new_key room small' ∙ rw (view, f.0);
      },
    )

abbrev pub answer : Option Entry → Result Text
answer none = err not_found
answer (some e) = ok e.value

read-none : (key : Text) (c : Store) → find_key key c.order ≡ none → read key (entries c) ≡ none
read-none key c h = read-map key c.order ∙ rw h

read-some :
    (key : Text) (c : Store) {e : Element}
    → find_key key c.order ≡ some e
    → read key (entries c) ≡ some e.entry
read-some key c h = read-map key c.order ∙ rw h

get_answer :
    {now : ℕ} (key : Text) (c : Store)
    → IsValid now c
    → found (lookup key c.items) ≡ answer (read key (entries c))
unfolding found
get_answer key c v = rw (v.agree key) (elim (Option-cases (find_key key c.order)) [
  | inl miss ↦ rw (miss, found) (sym (ap answer (read-none key c miss)))
  | inr (e, hit) ↦ rw (hit, found) (sym (ap answer (read-some key c hit)))
])

-- A request that `validate_request` accepts.
abbrev pub Accepts : Context → Text → Type 0
Accepts ctx key = validate_request ctx key ≡ none

module _ {last now : ℕ} (ctx : Context) (key : Text) (c : Store) (accepted : Accepts ctx key)
    (open_ : c.closed ≡ false) (later : last ≤ now) (v : IsValid last c) where
  set_opens : (value : Text) → set ctx now key value c ≡ set_open now key value c
  unfolding set
  set_opens value = ground (arith, accepted)

  get_opens : get ctx now key c ≡ get_open now key c
  unfolding get
  get_opens = ground (arith, accepted)

  delete_opens : delete ctx key c ≡ (ok tt, remove_key key c)
  unfolding delete
  delete_opens = ground (arith, accepted)

  -- On an open store a `Set` of an entry within the byte limit succeeds, never panics, and does to
  -- the queue what `write` says: expired entries and the old entry of the key leave, then the
  -- oldest entries, as few as make room, and the new entry is appended.
  pub set-write :
      (value : Text)
      → length key + length value ≤ c.config.max_bytes
      → (c' : Store) × (set ctx now key value c ≡ some (ok tt, c'))
        × Does now c (write c.config now key value (entries c)) c'
  set-write value small =
      let (c', returned, does) = set_open-Does key value c (IsValid-later later v) small in
      (c', set_opens value ∙ returned, does)

  -- A `Get` returns the live entry of its key, or not-found, and drops the expired front.
  pub get-read :
      ((get ctx now key c).0 ≡ answer (read key (live now (entries c))))
      × Does now c (live now (entries c)) (get ctx now key c).1
  unfolding get_open
  get-read =
      let d = delete_expired-Does now c (IsValid-later later v) in
      let c₁ : Store = delete_expired now c in
      (rw get_opens (get_answer key c₁ d.valid ∙ rw d.view), rw get_opens d)

  -- A `Delete` forgets its key and nothing else.
  pub delete-forget :
      ((delete ctx key c).0 ≡ ok tt) × Does last c (forget key (entries c)) (delete ctx key c).1
  delete-forget = rw delete_opens (refl, remove_key-Does key c v)
