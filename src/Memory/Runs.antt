-- ===== src/Memory/Runs.antt =====
-- Any sequence of calls on a new store, at the times that a clock shows.
use go_kickstart.Base.{
  ℕ, zero, suc, ◌+◌, ◌≤◌, ◌<◌, ◌≡◌, refl, ap, ◌∙◌, Bool, true, false, inl, inr, Option, none, some,
  List, [], ◌∷◌, arith, leb, if◌then◌else◌, Bool-cases, Option-cases, length, Text, pos, negsuc,
  lookup,
}
use go_kickstart.Cache.{Result, Context}
use go_kickstart.Memory.{
  Store, get_open, remove_key, Config, OptFunc, with_ttl, with_max_entries, with_max_bytes,
  apply_opt, apply_opts, new, set, set_open, get, delete, close, clean_tick, stats,
  validate_request, delete_expired,
}
use go_kickstart.Memory.Spec.{entries, total_size}
use go_kickstart.Memory.Invariant.{IsValid, IsValid-later}
use go_kickstart.Memory.Loops.{delete_expired-Does, total-entries, length-entries}
use go_kickstart.Memory.Refine.{set_open-Does, remove_key-Does, set_open_refuses}

pub data Call : Type 0 where
  setting : Context → Text → Text → Call
  getting deleting : Context → Text → Call
  closing ticking reading : Call

-- The store after a call; `none` is a panic.
abbrev pub after_set : Option (Result (Unit {0}) × Store) → Option Store
after_set none = none
after_set (some (r, c)) = some c

unfoldable pub call : ℕ → Call → Store → Option Store
call now (setting ctx key value) c = after_set (set ctx now key value c)
call now (getting ctx key) c = some (get ctx now key c).1
call now (deleting ctx key) c = some (delete ctx key c).1
call now closing c = some (close c)
call now ticking c = some (clean_tick now c)
call now reading c = some c

-- Each call comes after a delay.
unfoldable pub run : ℕ → List (ℕ × Call) → Store → Option Store
run now [] c = some c
run now ((delay, a) ∷ calls) c = elim (call (now + delay) a c) [
  | none ↦ none
  | some c' ↦ run (now + delay) calls c'
]

-- A call returns, at a valid store with the same configuration.
pub record Returns (now : ℕ) (c : Store) (out : Option Store) : Type 0 where
  pub result : Store
  pub returned : out ≡ some result
  pub valid : IsValid now result
  pub config : result.config ≡ c.config

empty-IsValid :
    (now : ℕ) (c : Store)
    → c.items ≡ []
    → c.order ≡ []
    → c.bytes ≡ 0
    → 0 < c.config.max_entries
    → IsValid now c
unfolding lookup
empty-IsValid now c i o b h = record {
  linked = rw o tt;
  agree = λ k. rw (i, o);
  distinct = rw i tt;
  same_length = rw (i, o);
  counted = rw (b, o);
  positive = h;
  bounded = rw o (omega arith);
  fits = rw b (omega arith);
  ascending = rw o tt;
  due = rw o tt;
}

same : {now : ℕ} (c : Store) → IsValid now c → Returns now c (some c)
same c v = record { result = c; returned = refl; valid = v; config = refl }

-- A test chooses between two stores, or between two results of `Set`.
if-Returns :
    {now : ℕ} (b : Bool) (c x y : Store)
    → Returns now c (some x)
    → Returns now c (some y)
    → Returns now c (some (if b then x else y))
if-Returns true c x y hx hy = hx
if-Returns false c x y hx hy = hy

if-after_set :
    {now : ℕ} (b : Bool) (c : Store) (x y : Option (Result (Unit {0}) × Store))
    → Returns now c (after_set x)
    → (b ≡ false → Returns now c (after_set y))
    → Returns now c (after_set (if b then x else y))
if-after_set true c x y hx hy = hx
if-after_set false c x y hx hy = hy refl

if-answer :
    {now : ℕ} {A : Type 0} (b : Bool) (c : Store) (x y : A × Store)
    → Returns now c (some x.1)
    → Returns now c (some y.1)
    → Returns now c (some (if b then x else y).1)
if-answer true c x y hx hy = hx
if-answer false c x y hx hy = hy

close-Returns : {now : ℕ} (c : Store) → IsValid now c → Returns now c (some (close c))
unfolding close
close-Returns {now} c v = if-Returns c.closed c c _ (same c v) (record {
  result = record c { closed = true; items = []; order = []; bytes = 0; stopped = true };
  returned = refl;
  valid = empty-IsValid now _ refl refl refl v.positive;
  config = refl;
})

swept : {now : ℕ} (c : Store) → IsValid now c → Returns now c (some (delete_expired now c))
swept {now} c v =
    let d = delete_expired-Does now c v in
    record { result = delete_expired now c; returned = refl; valid = d.valid; config = d.frame.0 }

forgotten :
    {now : ℕ} (key : Text) (c : Store) → IsValid now c → Returns now c (some (remove_key key c))
forgotten key c v =
    let d = remove_key-Does key c v in
    record { result = remove_key key c; returned = refl; valid = d.valid; config = d.frame.0 }

tick-Returns : {now : ℕ} (c : Store) → IsValid now c → Returns now c (some (clean_tick now c))
unfolding clean_tick
tick-Returns {now} c v = if-Returns c.stopped c c _ (same c v) (swept c v)

set_open-Returns :
    {now : ℕ} (key value : Text) (c : Store)
    → IsValid now c
    → Returns now c (after_set (set_open now key value c))
set_open-Returns {now} key value c v =
    elim (Bool-cases (leb (length key + length value) c.config.max_bytes)) [
      | inl small ↦
          let (c', e, d) = set_open-Does key value c v (ground (arith, small)) in
          record { result = c'; returned = ap after_set e; valid = d.valid; config = d.frame.0 }
      | inr large ↦ record {
        result = c;
        returned = ap after_set (set_open_refuses now key value c large);
        valid = v;
        config = refl;
      }
    ]

set-Returns :
    {now : ℕ} (ctx : Context) (key value : Text) (c : Store)
    → IsValid now c
    → Returns now c (after_set (set ctx now key value c))
unfolding set
set-Returns {now} ctx key value c v = elim (Option-cases (validate_request ctx key)) [
  | inr (e, bad) ↦ rw (bad, set) (same c v)
  | inl fine ↦
      rw (fine, set) (if-after_set c.closed c _ _ (same c v) (λ _. set_open-Returns key value c v))
]

get-Returns :
    {now : ℕ} (ctx : Context) (key : Text) (c : Store)
    → IsValid now c
    → Returns now c (some (get ctx now key c).1)
unfolding get get_open
get-Returns {now} ctx key c v = elim (Option-cases (validate_request ctx key)) [
  | inr (e, bad) ↦ rw (bad, get) (same c v)
  | inl fine ↦ rw (fine, get) (if-answer c.closed c _ _ (same c v) (swept c v))
]

delete-Returns :
    {now : ℕ} (ctx : Context) (key : Text) (c : Store)
    → IsValid now c
    → Returns now c (some (delete ctx key c).1)
unfolding delete
delete-Returns {now} ctx key c v = elim (Option-cases (validate_request ctx key)) [
  | inr (e, bad) ↦ rw (bad, delete) (same c v)
  | inl fine ↦ rw (fine, delete) (if-answer c.closed c _ _ (same c v) (forgotten key c v))
]

call-Returns : {now : ℕ} (a : Call) (c : Store) → IsValid now c → Returns now c (call now a c)
unfolding call
call-Returns (setting ctx key value) c v = set-Returns ctx key value c v
call-Returns (getting ctx key) c v = get-Returns ctx key c v
call-Returns (deleting ctx key) c v = delete-Returns ctx key c v
call-Returns closing c v = close-Returns c v
call-Returns ticking c v = tick-Returns c v
call-Returns reading c v = same c v

pub run-Returns :
    (calls : List (ℕ × Call)) (now : ℕ) (c : Store)
    → IsValid now c
    → (last : ℕ) × Returns last c (run now calls c)
unfolding run
run-Returns [] now c v = (now, same c v)
run-Returns ((delay, a) ∷ calls) now c v =
    let r = call-Returns a c (IsValid-later {now = now + delay} (omega arith) v) in
    let (last, rest) = run-Returns calls (now + delay) r.result r.valid in
    (
      last,
      record {
        result = rest.result;
        returned = rw (r.returned, run) rest.returned;
        valid = rest.valid;
        config = rest.config ∙ r.config;
      },
    )

apply_opts-positive :
    (opts : List OptFunc) (c : Config) → 0 < c.max_entries → 0 < (apply_opts opts c).max_entries
unfolding apply_opts apply_opt
apply_opts-positive [] c h = h
apply_opts-positive (opt ∷ opts) c h =
    apply_opts-positive opts (apply_opt opt c) (apply_opt-positive opt)
  where
    apply_opt-positive : (opt : OptFunc) → 0 < (apply_opt opt c).max_entries
    apply_opt-positive (with_ttl ttl) = h
    apply_opt-positive (with_max_entries (pos zero)) = h
    apply_opt-positive (with_max_entries (pos (suc n))) = omega arith
    apply_opt-positive (with_max_entries (negsuc n)) = h
    apply_opt-positive (with_max_bytes limit) = h

-- A new store is valid, whatever its options.
pub new-IsValid : (now : ℕ) (opts : List OptFunc) → IsValid now (new opts)
unfolding new
new-IsValid now opts = empty-IsValid now _ refl refl refl (apply_opts-positive opts _ (omega arith))

-- From a new store with any options, any calls at any times, with any contexts, keys and values,
-- return without a panic, and then Stats reports the number of entries held and the exact sum of
-- their key and value bytes, each within its configured limit.
pub run-bounded :
    (opts : List OptFunc) (now : ℕ) (calls : List (ℕ × Call))
    → (c : Store) × (run now calls (new opts) ≡ some c)
      × ((stats c).0 ≡ length (entries c))
      × ((stats c).1 ≡ total_size (entries c))
      × ((stats c).0 ≤ (new opts).config.max_entries)
      × ((stats c).1 ≤ (new opts).config.max_bytes)
unfolding stats
run-bounded opts now calls =
    let (last, r) = run-Returns calls now (new opts) (new-IsValid now opts) in
    let v = r.valid in
    let held = length-entries r.result.order in
    let weight = total-entries r.result.order in
    (
      r.result,
      r.returned,
      omega (arith, v.same_length, held),
      omega (arith, v.counted, weight),
      rw (← r.config) (omega (arith, v.same_length, v.bounded)),
      rw (← r.config) v.fits,
    )
