-- ===== src/Memory/Spec.antt =====
-- The contract of the store: a queue of entries, the oldest written first. It forgets the map, the
-- identity of list elements and the byte count.
use go_kickstart.Base.{
  ℕ, ◌+◌, ◌-◌, ◌||◌, Bool, Option, List, [], ◌∷◌, ◌++◌, map, ltb, leb, if◌then◌else◌, length, find,
  remove_all, Text, str_eq,
}
use go_kickstart.Memory.{Entry, Config, Store, size}

-- What the store stands for.
abbrev pub entries : Store → List Entry
entries c = map (λ e. e.entry) c.order

abbrev pub total_size : List Entry → ℕ
total_size [] = 0
total_size (e ∷ r) = size e + total_size r

-- The expired entries at the front are gone.
unfoldable pub live : ℕ → List Entry → List Entry
live now [] = []
live now (e ∷ r) = if ltb now e.expires_at then e ∷ r else live now r

abbrev pub forget : Text → List Entry → List Entry
forget k = remove_all (λ e. str_eq e.key k)

abbrev pub is_full : Config → ℕ → List Entry → Bool
is_full cfg need es = leb cfg.max_entries (length es) || ltb (cfg.max_bytes - need) (total_size es)

-- The oldest entries are dropped until one more of `need` bytes fits both limits, and no more.
unfoldable pub make_room : Config → ℕ → List Entry → List Entry
make_room cfg need [] = []
make_room cfg need (e ∷ r) = if is_full cfg need (e ∷ r) then make_room cfg need r else e ∷ r

abbrev pub entry_at : Config → ℕ → Text → Text → Entry
entry_at cfg now key value = record { key = key; value = value; expires_at = now + cfg.ttl }

abbrev pub write : Config → ℕ → Text → Text → List Entry → List Entry
write cfg now key value es =
    make_room cfg (length key + length value) (forget key (live now es))
    ++ entry_at cfg now key value ∷ []

abbrev pub read : Text → List Entry → Option Entry
read k = find (λ e. str_eq e.key k)
