-- ===== src/Migrations/Mysql/Left.antt =====
-- The migrations that are left when a first part of those that are due has been run.
use mathlib.Core.Path.{subst}
use go_kickstart.Base.{
  ◌≡◌, refl, sym, ap, ◌∙◌, inl, inr, true, false, Bool-cases, Option, some, zero, suc, List, [],
  ◌∷◌, ◌++◌, arith, if◌then◌else◌, All, ℤ, pos, negsuc, is_pos, leb_ℤ,
}
use go_kickstart.Migrations.{Migration, eq_ℤ, coalesce}
use go_kickstart.Migrations.Reading.{Ascending, leb_ℤ-trans, leb_ℤ-total}
use go_kickstart.Migrations.Pending.{newer, latest}
use go_kickstart.Migrations.Newer.{newer-All, newer-Ascending}

newer-newer : (v w : ℤ) (ms : List Migration) → leb_ℤ v w ≡ true → newer w (newer v ms) ≡ newer w ms
newer-newer v w [] h = refl
newer-newer v w (m ∷ ms) h = elim (Bool-cases (leb_ℤ m.version v)) [
  | inl old ↦ rw (old, leb_ℤ-trans m.version v w old h) (newer-newer v w ms h)
  | inr new ↦ rw new (ap (λ l. if leb_ℤ m.version w then l else m ∷ l) (newer-newer v w ms h))
]

newer-append :
    (w : ℤ) (xs ys : List Migration)
    → All (λ m. leb_ℤ m.version w ≡ true) xs
    → newer w (xs ++ ys) ≡ newer w ys
newer-append w [] ys h = refl
newer-append w (m ∷ xs) ys h = rw h.0 (newer-append w xs ys h.1)

newer_above :
    (w : ℤ) (ms : List Migration) → All (λ m. leb_ℤ m.version w ≡ false) ms → newer w ms ≡ ms
newer_above w [] h = refl
newer_above w (m ∷ ms) h = rw h.0 (ap (λ l. m ∷ l) (newer_above w ms h.1))

-- What is left is above the latest that was run, and the latest above what was.
rest-above :
    (v : Option ℤ) (done rest : List Migration)
    → All (λ m. leb_ℤ m.version (coalesce v) ≡ false) (done ++ rest)
    → Ascending (done ++ rest)
    → (leb_ℤ (coalesce v) (coalesce (latest v done)) ≡ true)
      × (All (λ m. leb_ℤ m.version (coalesce (latest v done)) ≡ true) done
          × All (λ m. leb_ℤ m.version (coalesce (latest v done)) ≡ false) rest)
rest-above v [] rest above h = (ground arith, (tt, above))
rest-above v (m ∷ done) rest above h =
    let (first, (old, new)) = rest-above (some m.version) done rest h.0 h.1 in
    (
      leb_ℤ-trans (coalesce v) m.version _ (leb_ℤ-total m.version (coalesce v) above.0) first,
      ((first, old), new),
    )

-- The newer ones are those that are left.
pub newer_left :
    (v : Option ℤ) (ms done rest : List Migration)
    → Ascending ms
    → newer (coalesce v) ms ≡ done ++ rest
    → newer (coalesce (latest v done)) ms ≡ rest
newer_left v ms done rest h split =
    let above =
      subst (All (λ m. leb_ℤ m.version (coalesce v) ≡ false)) split (newer-All (coalesce v) ms) in
    let (le, (old, new)) =
      rest-above v done rest above (subst Ascending split (newer-Ascending (coalesce v) ms h)) in
    let w = coalesce (latest v done) in
    sym (newer-newer (coalesce v) w ms le)
    ∙ ap (newer w) split
    ∙ newer-append w done rest old
    ∙ newer_above w rest new

pub above_zero : (v x : ℤ) → leb_ℤ (pos 0) v ≡ true → leb_ℤ x v ≡ false → is_pos x ≡ true
above_zero v (pos zero) h k = ground (arith, h, k)
above_zero v (pos (suc n)) h k = refl
above_zero v (negsuc n) h k = ground (arith, h, k)

pub positive_differs : (v : ℤ) → is_pos v ≡ true → eq_ℤ v (pos 0) ≡ false
positive_differs (pos zero) h = cc
positive_differs (pos (suc n)) h = ground arith
positive_differs (negsuc n) h = cc

pub All-append_right :
    (P : Migration → Type 0) (xs ys : List Migration) → All P (xs ++ ys) → All P ys
All-append_right P [] ys h = h
All-append_right P (x ∷ xs) ys h = All-append_right P xs ys h.1
