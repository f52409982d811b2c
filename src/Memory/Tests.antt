-- ===== src/Memory/Tests.antt =====
-- Runs of the store on concrete inputs, and its theorems at inputs that meet their hypotheses.
use go_kickstart.Base.{
  ℕ, ◌+◌, ◌≤◌, ◌≡◌, refl, Option, none, some, List, [], map, Text, ◌∷◌, arith, ltb, if◌then◌else◌,
  pos, length, txt, trim_space, str_eq, lookup, assign, without,
}
use go_kickstart.Cache.{ok, err, live, not_found, too_large}
use go_kickstart.Memory.{
  Store, OptFunc, with_ttl, with_max_entries, with_max_bytes, new, apply_opt, set, get, delete,
  stats, close, validate_request, delete_expired, evict, remove_key, clean_tick,
}
use go_kickstart.Memory.Spec.{entries, write, read, total_size}
use go_kickstart.Memory.Loops.{Does}
use go_kickstart.Memory.Refine.{Accepts, answer, set-write}
use go_kickstart.Memory.Runs.{Call, setting, getting, run, call, run-bounded, new-IsValid}
use go_kickstart.Memory.Reads.{unexpired, get-unexpired, get-set, get-delete}

program : Unit {0}
unfolding new apply_opt set get delete stats close validate_request delete_expired evict remove_key
    clean_tick run call trim_space str_eq lookup assign without
program = tt

abbrev opts : List OptFunc
opts = with_ttl (pos 100) ∷ with_max_entries (pos 2) ∷ with_max_bytes (pos 12) ∷ []

abbrev calls : List (ℕ × Call)
calls =
    (0, setting live (txt "a") (txt "12345"))
    ∷ (1, setting live (txt "b") (txt "1"))
    ∷ (1, setting live (txt "c") (txt "123"))
    ∷ (1, getting live (txt "a"))
    ∷ []

key_a : Accepts live (txt "a")
unfolding program
key_a = refl

abbrev held : Option Store → List Text
held none = []
held (some c) = map (λ e. e.key) (entries c)

-- The third entry evicts the oldest.
evicts_oldest : held (run 5 calls (new opts)) ≡ txt "b" ∷ txt "c" ∷ []
unfolding program
evicts_oldest = refl

oversized : set live 0 (txt "key") (txt "0123456789") (new opts) ≡ some (err too_large, new opts)
unfolding program
oversized = refl

set-write_example :
    (c' : Store) × (set live 7 (txt "a") (txt "v") (new opts) ≡ some (ok tt, c'))
    × Does 7 (new opts) (write (new opts).config 7 (txt "a") (txt "v") (entries (new opts))) c'
unfolding program
set-write_example =
    set-write {last = 3} {now = 7} live (txt "a") (new opts) key_a refl (omega arith)
      (new-IsValid 3 opts) (txt "v") (omega arith)

get-unexpired_example :
    (get live 7 (txt "a") (new opts)).0 ≡ answer (unexpired 7 (read (txt "a") (entries (new opts))))
unfolding program
get-unexpired_example =
    get-unexpired {last = 3} {now = 7} live (txt "a") (new opts) key_a refl (omega arith)
      (new-IsValid 3 opts)

get-set_example :
    (c' : Store) × (set live 7 (txt "a") (txt "v") (new opts) ≡ some (ok tt, c'))
    × ((get live 9 (txt "a") c').0
        ≡ (if ltb 9 (7 + (new opts).config.ttl) then ok (txt "v") else err not_found))
unfolding program
get-set_example =
    get-set {last = 3} {then_ = 7} {now = 9} live (txt "a") (txt "v") (new opts) key_a refl
      (omega arith) (omega arith) (new-IsValid 3 opts) (omega arith)

get-delete_example : (get live 9 (txt "a") (delete live (txt "a") (new opts)).1).0 ≡ err not_found
unfolding program
get-delete_example =
    get-delete {last = 3} {now = 9} live (txt "a") (new opts) key_a refl (omega arith)
      (new-IsValid 3 opts)

run-bounded_example :
    (c : Store) × (run 5 calls (new opts) ≡ some c)
    × ((stats c).0 ≡ length (entries c))
    × ((stats c).1 ≡ total_size (entries c))
    × ((stats c).0 ≤ (new opts).config.max_entries)
    × ((stats c).1 ≤ (new opts).config.max_bytes)
run-bounded_example = run-bounded opts 5 calls
