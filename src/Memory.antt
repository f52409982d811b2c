-- ===== src/Memory.antt =====
-- cache/memory: the bounded in-memory store. The state is `Store`, with the map `items` and the
-- linked list `order` both written out; an element of the list is known by a number, as by its
-- pointer in the source. Times are nanoseconds of the monotonic clock. An operation takes what
-- `time.Now()` returns to it; `none` is a panic.
mod Order
pub mod Invariant
pub mod Spec
pub mod Loops
mod Push
pub mod Refine
pub mod Runs
pub mod Reads
pub mod Shrinks
pub mod Interface
mod Tests
use go_kickstart.Base.{
  ℕ, zero, suc, ◌+◌, ◌-◌, ◌*◌, ◌^◌, ◌||◌, true, false, Option, none, some, List, [], ◌∷◌, ◌++◌,
  Bool, ltb, leb, ◌==◌, if◌then◌else◌, length, remove_all, ℤ, pos, negsuc, Text, str_eq, trim_space,
  lookup, without, assign,
}
use go_kickstart.Cache.{
  CacheError, nil_context, invalid_key, not_found, too_large, is_closed, context_error, Result, ok,
  err, Context, absent, live, ended,
}

pub record Entry : Type 0 where
  pub key : Text
  pub value : Text
  pub expires_at : ℕ

pub record Element : Type 0 where
  pub id : ℕ
  pub entry : Entry

-- `memoryCache`
pub record Config : Type 0 where
  pub ttl : ℕ
  pub max_entries : ℕ
  pub max_bytes : ℕ

-- The two channels are `stopped`, which `Close` sets. `next_id` numbers the elements.
pub record Store : Type 0 where
  pub config : Config
  pub items : List (Text × Element)
  pub order : List Element
  pub bytes : ℕ
  pub closed : Bool
  pub stopped : Bool
  pub next_id : ℕ

abbrev pub default_ttl : ℕ
default_ttl = 20 * 10 ^ 9

abbrev pub default_max_entries : ℕ
default_max_entries = 1024

abbrev pub default_max_bytes : ℕ
default_max_bytes = 8 * 2 ^ 20

pub data OptFunc : Type 0 where
  with_ttl with_max_entries with_max_bytes : ℤ → OptFunc

-- A limit that is not positive is ignored.
positive_or : ℤ → ℕ → ℕ
positive_or (pos zero) old = old
positive_or (pos (suc n)) old = suc n
positive_or (negsuc n) old = old

unfoldable pub apply_opt : OptFunc → Config → Config
unfolding positive_or
apply_opt (with_ttl ttl) c = record c { ttl = positive_or ttl c.ttl }
apply_opt (with_max_entries limit) c = record c { max_entries = positive_or limit c.max_entries }
apply_opt (with_max_bytes limit) c = record c { max_bytes = positive_or limit c.max_bytes }

apply_opts : List OptFunc → Config → Config
apply_opts [] c = c
apply_opts (opt ∷ opts) c = apply_opts opts (apply_opt opt c)

unfoldable pub new : List OptFunc → Store
unfolding apply_opts
new opts = record {
  config = apply_opts opts (record {
    ttl = default_ttl;
    max_entries = default_max_entries;
    max_bytes = default_max_bytes;
  });
  items = [];
  order = [];
  bytes = 0;
  closed = false;
  stopped = false;
  next_id = 0;
}

-- `len(item.key) + len(item.value)`
abbrev pub size : Entry → ℕ
size item = length item.key + length item.value

-- `c.order.Remove(element)`
pub unlink : ℕ → List Element → List Element
unlink id = remove_all (λ x. x.id == id)

unfoldable pub remove : Element → Store → Store
unfolding unlink
remove element c = record c {
  items = without element.entry.key c.items;
  bytes = c.bytes - size element.entry;
  order = unlink element.id c.order;
}

-- The loop of `deleteExpired`, on fuel: each round removes the front.
delete_expired_loop : ℕ → ℕ → Store → Store
delete_expired_loop zero now c = c
delete_expired_loop (suc fuel) now c = elim c.order [
  | [] ↦ c
  | front ∷ _ ↦
      let rest = delete_expired_loop fuel now (remove front c) in
      if ltb now front.entry.expires_at then c else rest
]

unfoldable pub delete_expired : ℕ → Store → Store
unfolding delete_expired_loop
delete_expired now c = delete_expired_loop (length c.order) now c

unfoldable pub validate_request : Context → Text → Option CacheError
validate_request absent key = some nil_context
validate_request (ended e) key = some (context_error e)
validate_request live key = if str_eq (trim_space key) [] then some invalid_key else none

-- The eviction loop of `Set`. An empty list has no front: `c.remove(nil)` panics.
evict_loop : ℕ → ℕ → Store → Option Store
evict_loop zero entry_size c = none
evict_loop (suc fuel) entry_size c =
    let rest : Option Store = elim c.order [
      | [] ↦ none
      | front ∷ _ ↦ evict_loop fuel entry_size (remove front c)
    ] in
    if leb c.config.max_entries (length c.items) || ltb (c.config.max_bytes - entry_size) c.bytes
    then rest
    else some c

unfoldable pub evict : ℕ → Store → Option Store
unfolding evict_loop
evict entry_size c = evict_loop (suc (length c.order)) entry_size c

-- `if existing := c.items[key]; existing != nil { c.remove(existing) }`
unfoldable pub remove_key : Text → Store → Store
unfolding remove
remove_key key c = elim (lookup key c.items) [ none ↦ c | some existing ↦ remove existing c ]

pub push_back : ℕ → Text → Text → Store → Store
push_back now key value c =
    let item : Element = record {
      id = c.next_id;
      entry = record { key = key; value = value; expires_at = now + c.config.ttl };
    } in
    record c {
      items = assign key item c.items;
      order = c.order ++ item ∷ [];
      bytes = c.bytes + (length key + length value);
      next_id = suc c.next_id;
    }

pub set_open : ℕ → Text → Text → Store → Option (Result (Unit {0}) × Store)
unfolding push_back
set_open now key value c =
    if ltb c.config.max_bytes (length key) || ltb (c.config.max_bytes - length key) (length value)
    then some (err too_large, c)
    else elim (evict (length key + length value) (remove_key key (delete_expired now c))) [
      | none ↦ none
      | some c' ↦ some (ok tt, push_back now key value c')
    ]

unfoldable pub set : Context → ℕ → Text → Text → Store → Option (Result (Unit {0}) × Store)
unfolding set_open
set ctx now key value c = elim (validate_request ctx key) [
  | some e ↦ some (err e, c)
  | none ↦ if c.closed then some (err is_closed, c) else set_open now key value c
]

pub found : Option Element → Result Text
found none = err not_found
found (some element) = ok element.entry.value

pub get_open : ℕ → Text → Store → Result Text × Store
unfolding found
get_open now key c = let c' = delete_expired now c in (found (lookup key c'.items), c')

unfoldable pub get : Context → ℕ → Text → Store → Result Text × Store
unfolding get_open
get ctx now key c = elim (validate_request ctx key) [
  | some e ↦ (err e, c)
  | none ↦ if c.closed then (err is_closed, c) else get_open now key c
]

unfoldable pub delete : Context → Text → Store → Result (Unit {0}) × Store
delete ctx key c = elim (validate_request ctx key) [
  | some e ↦ (err e, c)
  | none ↦ if c.closed then (err is_closed, c) else (ok tt, remove_key key c)
]

-- The number of entries, and their bytes.
unfoldable pub stats : Store → ℕ × ℕ
stats c = (length c.items, c.bytes)

unfoldable pub close : Store → Store
close c =
    if c.closed
    then c
    else record c { closed = true; items = []; order = []; bytes = 0; stopped = true }

-- One round of the goroutine `clean`: it ends once the store was stopped.
unfoldable pub clean_tick : ℕ → Store → Store
clean_tick now c = if c.stopped then c else delete_expired now c
