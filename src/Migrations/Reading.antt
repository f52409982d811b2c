-- ===== src/Migrations/Reading.antt =====
-- The migrations that are read: all of the files, in the order of their versions.
use mathlib.Core.Path.{subst}
use go_kickstart.Base.{
  ◌≡◌, refl, sym, ap, ◌∙◌, ◌↔◌, inl, inr, Bool, true, false, Bool-cases, Option, none, some, List,
  [], ◌∷◌, arith, if◌then◌else◌, All, All-imp, Member, ℤ, leb_ℤ, Text,
}
use go_kickstart.Migrations.{
  Result, ok, err, Migration, Files, read_migration, is_migration, prepend, read_entries,
  insert_by_version, sort_by_version, first_duplicate, unless_duplicate, sorted_without_duplicates,
  read_from, read_migrations,
}

pub leb_ℤ-trans : (a b c : ℤ) → leb_ℤ a b ≡ true → leb_ℤ b c ≡ true → leb_ℤ a c ≡ true
leb_ℤ-trans a b c h k = ground (arith, h, k)

pub leb_ℤ-total : (a b : ℤ) → leb_ℤ a b ≡ false → leb_ℤ b a ≡ true
leb_ℤ-total a b h = ground (arith, h)

less_then : (a b c : ℤ) → leb_ℤ b a ≡ false → leb_ℤ b c ≡ true → leb_ℤ c a ≡ false
less_then a b c h k = ground (arith, h, k)

-- Each version is less than the versions after it.
abbrev pub Ascending : List Migration → Type 0
Ascending [] = Unit
Ascending (m ∷ ms) = All (λ x. leb_ℤ x.version m.version ≡ false) ms × Ascending ms

abbrev Sorted : List Migration → Type 0
Sorted [] = Unit
Sorted (m ∷ ms) = All (λ x. leb_ℤ m.version x.version ≡ true) ms × Sorted ms

All-insert :
    (P : Migration → Type 0) (m : Migration) (ms : List Migration)
    → P m
    → All P ms
    → All P (insert_by_version m ms)
unfolding insert_by_version
All-insert P m [] p h = (p, tt)
All-insert P m (x ∷ ms) p h = elim (Bool-cases (leb_ℤ m.version x.version)) [
  | inl le ↦ rw le (p, h)
  | inr gt ↦ rw gt (h.0, All-insert P m ms p h.1)
]

insert-Sorted : (m : Migration) (ms : List Migration) → Sorted ms → Sorted (insert_by_version m ms)
unfolding insert_by_version
insert-Sorted m [] h = (tt, tt)
insert-Sorted m (x ∷ ms) h = elim (Bool-cases (leb_ℤ m.version x.version)) [
  | inl le ↦ rw le (
    (
      le,
      All-imp (λ y. leb_ℤ x.version y.version ≡ true) (λ y. leb_ℤ m.version y.version ≡ true) ms
          (λ y. leb_ℤ-trans m.version x.version y.version le) h.0,
    ),
    h,
  )
  | inr gt ↦
      rw gt (All-insert _ m ms (leb_ℤ-total m.version x.version gt) h.0, insert-Sorted m ms h.1)
]

sort-Sorted : (ms : List Migration) → Sorted (sort_by_version ms)
unfolding sort_by_version
sort-Sorted [] = tt
sort-Sorted (m ∷ ms) = insert-Sorted m (sort_by_version ms) (sort-Sorted ms)

apart :
    (m n : Migration) (ms : List Migration)
    → leb_ℤ m.version n.version ≡ true
    → first_duplicate (m ∷ n ∷ ms) ≡ none
    → (leb_ℤ n.version m.version ≡ false) × (first_duplicate (n ∷ ms) ≡ none)
unfolding first_duplicate
apart m n ms le h = ground (arith, le, h)

Sorted-Ascending : (ms : List Migration) → Sorted ms → first_duplicate ms ≡ none → Ascending ms
unfolding first_duplicate
Sorted-Ascending [] s h = tt
Sorted-Ascending (m ∷ []) s h = (tt, tt)
Sorted-Ascending (m ∷ n ∷ ms) s h =
    let (lt, rest) = apart m n ms s.0.0 h in
    (
      (
        lt,
        All-imp (λ x. leb_ℤ n.version x.version ≡ true) (λ x. leb_ℤ x.version m.version ≡ false) ms
            (λ x. less_then m.version n.version x.version lt) s.1.0,
      ),
      Sorted-Ascending (n ∷ ms) s.1 rest,
    )

Member-insert :
    (x m : Migration) (ms : List Migration) → Member x (insert_by_version m ms) ↔ Member x (m ∷ ms)
unfolding insert_by_version
Member-insert x m [] = (λ h. h, λ h. h)
Member-insert x m (y ∷ ms) = elim (Bool-cases (leb_ℤ m.version y.version)) [
  | inl le ↦ rw le (λ h. h, λ h. h)
  | inr gt ↦ rw gt (ground (arith, Member-insert x m ms))
]

Member-sort : (x : Migration) (ms : List Migration) → Member x (sort_by_version ms) ↔ Member x ms
unfolding sort_by_version
Member-sort x [] = (λ h. h, λ h. h)
Member-sort x (m ∷ ms) = ground (arith, Member-insert x m (sort_by_version ms), Member-sort x ms)

-- A list that was read has the migrations of the entries that are one, and no others.
record Holds (fs : Files) (entries : List (Bool × Text)) (ms : List Migration) : Type 0 where
  from_file :
      (m : Migration)
      → Member m ms
      → (entry : Bool × Text) × (Member entry entries
          × ((is_migration entry ≡ true) × (read_migration fs entry.1 ≡ ok m)))
  of_file :
      (entry : Bool × Text)
      → Member entry entries
      → is_migration entry ≡ true
      → (m : Migration) × (Member m ms × (read_migration fs entry.1 ≡ ok m))

Holds-skip :
    (fs : Files) (entry : Bool × Text) (entries : List (Bool × Text)) (ms : List Migration)
    → is_migration entry ≡ false
    → Holds fs entries ms
    → Holds fs (entry ∷ entries) ms
Holds-skip fs entry entries ms other h = record {
  from_file = λ m at. let (e, (there, rest)) = h.from_file m at in (e, (inr there, rest));
  of_file = λ e at is. elim at [
    | inl same ↦ absurd (both (sym other ∙ ap is_migration same ∙ is))
    | inr there ↦ h.of_file e there is
  ];
}
  where
    both : ¬ (false ≡ true)
    both e = cc

Holds-take :
    (fs : Files) (entry : Bool × Text) (entries : List (Bool × Text)) (m : Migration)
    (ms : List Migration)
    → is_migration entry ≡ true
    → read_migration fs entry.1 ≡ ok m
    → Holds fs entries ms
    → Holds fs (entry ∷ entries) (m ∷ ms)
Holds-take fs entry entries m ms is read h = record {
  from_file = λ n at. elim at [
    | inl same ↦ (entry, (inl refl, (is, read ∙ ap ok same)))
    | inr there ↦ let (e, (found, rest)) = h.from_file n there in (e, (inr found, rest))
  ];
  of_file = λ e at is. elim at [
    | inl same ↦ (m, (inl refl, ap (λ e. read_migration fs e.1) (sym same) ∙ read))
    | inr there ↦ let (n, (found, rest)) = h.of_file e there is in (n, (inr found, rest))
  ];
}

same_list : (ms ns : List Migration) → ◌≡◌ {A = Result (List Migration)} (ok ms) (ok ns) → ms ≡ ns
same_list ms ns e = cc

Holds-read :
    (fs : Files) (entry : Bool × Text) (entries : List (Bool × Text)) (b : Bool)
    (r : Result Migration) (rest : Result (List Migration)) (ms : List Migration)
    → is_migration entry ≡ b
    → read_migration fs entry.1 ≡ r
    → ((ns : List Migration) → rest ≡ ok ns → Holds fs entries ns)
    → (if b then prepend r rest else rest) ≡ ok ms
    → Holds fs (entry ∷ entries) ms
Holds-read fs entry entries false r rest ms is read ih h =
    Holds-skip fs entry entries ms is (ih ms h)
Holds-read fs entry entries true (err e) rest ms is read ih h = cc
Holds-read fs entry entries true (ok m) (err e) ms is read ih h = cc
Holds-read fs entry entries true (ok m) (ok ns) ms is read ih h =
    subst (Holds fs (entry ∷ entries)) (same_list (m ∷ ns) ms h)
      (Holds-take fs entry entries m ns is read (ih ns refl))

read_entries-Holds :
    (fs : Files) (entries : List (Bool × Text)) (ms : List Migration)
    → read_entries fs entries ≡ ok ms
    → Holds fs entries ms
unfolding read_entries
read_entries-Holds fs [] ms h =
    subst (Holds fs []) (same_list [] ms h)
      (record { from_file = λ m at. absurd at; of_file = λ e at. absurd at })
read_entries-Holds fs (entry ∷ entries) ms h =
    Holds-read fs entry entries (is_migration entry) (read_migration fs entry.1)
      (read_entries fs entries) ms refl refl (read_entries-Holds fs entries) h

-- What a list that was read tells of the files.
pub record IsReading (fs : Files) (entries : List (Bool × Text)) (ms : List Migration)
    : Type 0 where
  pub ascending : Ascending ms
  pub from_file :
      (m : Migration)
      → Member m ms
      → (entry : Bool × Text) × (Member entry entries
          × ((is_migration entry ≡ true) × (read_migration fs entry.1 ≡ ok m)))
  pub of_file :
      (entry : Bool × Text)
      → Member entry entries
      → is_migration entry ≡ true
      → (m : Migration) × (Member m ms × (read_migration fs entry.1 ≡ ok m))

-- Migrations that are read without an error have increasing versions, and they are exactly those of the
-- entries of the directory that are files named with the suffix of a migration.
pub read_migrations-IsReading :
    (fs : Files) (entries : List (Bool × Text)) (ms : List Migration)
    → fs.entries ≡ some entries
    → read_migrations fs ≡ ok ms
    → IsReading fs entries ms
unfolding read_migrations
read_migrations-IsReading fs entries ms listed h =
    sorted (read_entries fs entries) refl (sym (ap (read_from fs) listed) ∙ h)
  where
    checked :
        (ns : List Migration)
        → read_entries fs entries ≡ ok ns
        → (d : Option ℤ) → first_duplicate (sort_by_version ns) ≡ d
        → unless_duplicate (sort_by_version ns) d ≡ ok ms
        → IsReading fs entries ms
    checked ns read none single h =
        subst (IsReading fs entries) (same_list (sort_by_version ns) ms h) (record {
          ascending = Sorted-Ascending (sort_by_version ns) (sort-Sorted ns) single;
          from_file =
              λ m at. (read_entries-Holds fs entries ns read).from_file m ((Member-sort m ns).0 at);
          of_file = λ e at is.
              let (m, (found, rest)) = (read_entries-Holds fs entries ns read).of_file e at is in
              (m, ((Member-sort m ns).1 found, rest));
        })
    checked ns read (some v) single h = cc

    sorted :
        (r : Result (List Migration))
        → read_entries fs entries ≡ r
        → sorted_without_duplicates r ≡ ok ms
        → IsReading fs entries ms
    sorted (err e) read h = cc
    sorted (ok ns) read h = checked ns read (first_duplicate (sort_by_version ns)) refl h

-- The same for a list that was read from any files.
pub read_migrations-Ascending :
    (fs : Files) (ms : List Migration) → read_migrations fs ≡ ok ms → Ascending ms
unfolding read_migrations
read_migrations-Ascending fs ms h = from fs.entries refl h
  where
    from :
        (o : Option (List (Bool × Text))) → fs.entries ≡ o → read_from fs o ≡ ok ms → Ascending ms
    from none listed h = cc
    from (some entries) listed h =
        (read_migrations-IsReading fs entries ms listed (ap (read_from fs) listed ∙ h)).ascending
