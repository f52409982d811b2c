-- ===== src/Migrations/Newer.antt =====
-- Which migrations are newer, before and after a run.
use go_kickstart.Base.{
  ◌≡◌, refl, inl, inr, true, false, Bool-cases, Option, some, List, [], ◌∷◌, arith, All, ℤ, leb_ℤ,
}
use go_kickstart.Migrations.{Migration, coalesce}
use go_kickstart.Migrations.Reading.{Ascending, leb_ℤ-trans, leb_ℤ-total}
use go_kickstart.Migrations.Pending.{newer, latest}

pub newer-All :
    (current : ℤ) (ms : List Migration)
    → All (λ m. leb_ℤ m.version current ≡ false) (newer current ms)
newer-All current [] = tt
newer-All current (m ∷ ms) = elim (Bool-cases (leb_ℤ m.version current)) [
  | inl old ↦ rw old (newer-All current ms)
  | inr new ↦ rw new (new, newer-All current ms)
]

pub All-newer :
    (P : Migration → Type 0) (current : ℤ) (ms : List Migration)
    → All P ms
    → All P (newer current ms)
All-newer P current [] h = tt
All-newer P current (m ∷ ms) h = elim (Bool-cases (leb_ℤ m.version current)) [
  | inl old ↦ rw old (All-newer P current ms h.1)
  | inr new ↦ rw new (h.0, All-newer P current ms h.1)
]

pub newer-Ascending :
    (current : ℤ) (ms : List Migration) → Ascending ms → Ascending (newer current ms)
newer-Ascending current [] h = tt
newer-Ascending current (m ∷ ms) h = elim (Bool-cases (leb_ℤ m.version current)) [
  | inl old ↦ rw old (newer-Ascending current ms h.1)
  | inr new ↦ rw new (All-newer _ current ms h.0, newer-Ascending current ms h.1)
]

-- The latest version is at least the one before, and at least that of each migration that was run.
pub latest-above :
    (v : Option ℤ) (ms : List Migration)
    → All (λ m. leb_ℤ m.version (coalesce v) ≡ false) ms
    → Ascending ms
    → (leb_ℤ (coalesce v) (coalesce (latest v ms)) ≡ true)
      × All (λ m. leb_ℤ m.version (coalesce (latest v ms)) ≡ true) ms
latest-above v [] above h = (ground arith, tt)
latest-above v (m ∷ ms) above h =
    let (first, rest) = latest-above (some m.version) ms h.0 h.1 in
    (
      leb_ℤ-trans (coalesce v) m.version _ (leb_ℤ-total m.version (coalesce v) above.0) first,
      (first, rest),
    )

pub newer-none :
    (current : ℤ) (ms : List Migration)
    → All (λ m. leb_ℤ m.version current ≡ true) ms
    → newer current ms ≡ []
newer-none current [] h = refl
newer-none current (m ∷ ms) h = rw h.0 (newer-none current ms h.1)

-- The old ones are not above the current version either.
All-old :
    (current new : ℤ) (ms : List Migration)
    → leb_ℤ current new ≡ true
    → All (λ m. leb_ℤ m.version new ≡ true) (newer current ms)
    → All (λ m. leb_ℤ m.version new ≡ true) ms
All-old current new [] le h = tt
All-old current new (m ∷ ms) le h = elim (Bool-cases (leb_ℤ m.version current)) [
  | inl old ↦ (leb_ℤ-trans m.version current new old le, All-old current new ms le (rw old at h))
  | inr newer_ ↦
      let (first, rest) : (leb_ℤ m.version new ≡ true)
          × All (λ m. leb_ℤ m.version new ≡ true) (newer current ms) =
        rw newer_ at h in
      (first, All-old current new ms le rest)
]

-- After a run nothing is newer.
pub nothing_newer :
    (v : Option ℤ) (ms : List Migration)
    → Ascending ms
    → newer (coalesce (latest v (newer (coalesce v) ms))) ms ≡ []
nothing_newer v ms h =
    let (le, run) =
      latest-above v (newer (coalesce v) ms) (newer-All (coalesce v) ms)
        (newer-Ascending (coalesce v) ms h) in
    newer-none _ ms (All-old (coalesce v) _ ms le run)
