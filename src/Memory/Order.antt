-- ===== src/Memory/Order.antt =====
-- The linked list of the store on its own: looking a key up, taking an element out.
use go_kickstart.Base.{
  All-find, ℕ, suc, ◌+◌, ◌≤◌, ◌<◌, ◌≡◌, refl, Bool, false, inl, inr, Option, none, some, List, [],
  ◌∷◌, arith, ◌==◌, if◌then◌else◌, Bool-cases, length, find, remove_all, All, Text, str_eq,
  str_eq_iff,
}
use go_kickstart.Memory.{Element, size, unlink}

abbrev pub find_key : Text → List Element → Option Element
find_key k = find (λ x. str_eq x.entry.key k)

abbrev pub without_key : Text → List Element → List Element
without_key k = remove_all (λ x. str_eq x.entry.key k)

abbrev pub total : List Element → ℕ
total [] = 0
total (e ∷ r) = size e.entry + total r

-- Another element with another key.
abbrev pub Apart : Element → List Element → Type 0
Apart e = All (λ x. ((x.id == e.id) ≡ false) × (str_eq x.entry.key e.entry.key ≡ false))

-- Elements and keys are distinct, and the elements were numbered below `n`.
abbrev pub Linked : ℕ → List Element → Type 0
Linked n [] = Unit
Linked n (e ∷ r) = (e.id < n) × Apart e r × Linked n r

-- The order of the list is the order of expiry.
abbrev pub Ascending : List Element → Type 0
Ascending [] = Unit
Ascending (e ∷ r) = All (λ x. e.entry.expires_at ≤ x.entry.expires_at) r × Ascending r

pub All-remove_all {ℓ κ} :
    {A : Type ℓ} (P : A → Type κ) (p : A → Bool) (xs : List A) → All P xs → All P (remove_all p xs)
All-remove_all P p [] h = tt
All-remove_all P p (x ∷ xs) h = elim (Bool-cases (p x)) [
  | inl out ↦ rw out (All-remove_all P p xs h.1)
  | inr kept ↦ rw kept (h.0, All-remove_all P p xs h.1)
]

pub Linked-without_key :
    (n : ℕ) (k : Text) (o : List Element) → Linked n o → Linked n (without_key k o)
Linked-without_key n k [] h = tt
Linked-without_key n k (e ∷ o) h = elim (Bool-cases (str_eq e.entry.key k)) [
  | inl out ↦ rw out (Linked-without_key n k o h.2)
  | inr kept ↦ rw kept (h.0, All-remove_all _ _ o h.1, Linked-without_key n k o h.2)
]

pub Ascending-without_key :
    (k : Text) (o : List Element) → Ascending o → Ascending (without_key k o)
Ascending-without_key k [] h = tt
Ascending-without_key k (e ∷ o) h = elim (Bool-cases (str_eq e.entry.key k)) [
  | inl out ↦ rw out (Ascending-without_key k o h.1)
  | inr kept ↦ rw kept (All-remove_all _ _ o h.0, Ascending-without_key k o h.1)
]

pub find_key-without_key :
    (k j : Text) (o : List Element)
    → find_key j (without_key k o) ≡ (if str_eq k j then none else find_key j o)
find_key-without_key k j [] = ground arith
find_key-without_key k j (e ∷ o) = ground (
  arith,
  find_key-without_key k j o,
  str_eq_iff e.entry.key k,
  str_eq_iff e.entry.key j,
  str_eq_iff k j,
)

pub key-find_key :
    (k : Text) (o : List Element) {e : Element} → find_key k o ≡ some e → e.entry.key ≡ k
key-find_key k [] {e} h = cc
key-find_key k (x ∷ o) {e} h = ground (arith, str_eq_iff x.entry.key k, key-find_key k o {e = e})

pub without_key_absent : (k : Text) (o : List Element) → find_key k o ≡ none → without_key k o ≡ o
without_key_absent k [] h = refl
without_key_absent k (x ∷ o) h = ground (arith, without_key_absent k o)

-- A list apart from an element with the key loses nothing with it.
pub without_key-Apart : (e : Element) (o : List Element) → Apart e o → without_key e.entry.key o ≡ o
without_key-Apart e [] h = refl
without_key-Apart e (x ∷ o) h = rw (h.0.1, without_key-Apart e o h.1)

unlink-Apart : (e : Element) (o : List Element) → Apart e o → unlink e.id o ≡ o
unfolding unlink
unlink-Apart e [] h = refl
unlink-Apart e (x ∷ o) h = rw (h.0.0, unlink-Apart e o h.1)

-- The element is taken out of the list by its identity, which is to take its key out.
pub unlink-eq-without_key :
    (n : ℕ) (k : Text) (o : List Element) (e : Element)
    → Linked n o
    → find_key k o ≡ some e
    → unlink e.id o ≡ without_key k o
unfolding unlink
unlink-eq-without_key n k [] e l h = cc
unlink-eq-without_key n k (x ∷ o) e l h = elim (Bool-cases (str_eq x.entry.key k)) [
  | inl here ↦
      ground (arith, unlink-Apart x o l.1, without_key-Apart x o l.1, str_eq_iff x.entry.key k)
  | inr there ↦
      let other = All-find _ _ o e l.1 (rw there at h) in
      ground (arith, unlink-eq-without_key n k o e l.2)
]

pub length-without_key :
    (n : ℕ) (k : Text) (o : List Element) (e : Element)
    → Linked n o
    → find_key k o ≡ some e
    → suc (length (without_key k o)) ≡ length o
length-without_key n k [] e l h = cc
length-without_key n k (x ∷ o) e l h =
    ground
      (arith, length-without_key n k o e l.2, without_key-Apart x o l.1, str_eq_iff x.entry.key k)

pub total-without_key :
    (n : ℕ) (k : Text) (o : List Element) (e : Element)
    → Linked n o
    → find_key k o ≡ some e
    → total (without_key k o) + size e.entry ≡ total o
total-without_key n k [] e l h = cc
total-without_key n k (x ∷ o) e l h =
    ground
      (arith, total-without_key n k o e l.2, without_key-Apart x o l.1, str_eq_iff x.entry.key k)
