-- ===== src/Migrations/Pending.antt =====
-- The migrations that a run applies: those of a greater version, in the order of the list.
use mathlib.Core.Path.{subst}
use go_kickstart.Base.{
  ℕ, ◌≡◌, refl, sym, ap, ◌∙◌, inl, inr, Bool, true, false, Bool-cases, Option, none, some, List, [],
  ◌∷◌, if◌then◌else◌, remove_all, ℤ, leb_ℤ, Text,
}
use go_kickstart.Migrations.{
  Result, ok, Server, M, ◌>>=◌, Migration, execute, ran, set_schema_migration_version,
  apply_pending,
}
use go_kickstart.Migrations.Laws.{bind_ok, set_version_ok}

-- The migrations whose version is greater than the current one.
abbrev pub newer : ℤ → List Migration → List Migration
newer current = remove_all (λ m. leb_ℤ m.version current)

abbrev pub latest : Option ℤ → List Migration → Option ℤ
latest version [] = version
latest version (m ∷ ms) = latest (some m.version) ms

module _ {Schema : Type 0} (run_sql : Text → Schema → Option ℕ × Schema) where
  -- Each migration of the list is run once, one after another, without an error.
  abbrev pub Runs : List Migration → Schema → Schema → Type 0
  Runs [] a b = a ≡ b
  Runs (m ∷ ms) a b = (c : Schema) × ((run_sql m.sql a ≡ (none, c)) × Runs ms c b)

  pub execute_ok :
      (m : Migration) (s s' : Server Schema)
      → execute run_sql m s ≡ (ok tt, s')
      → (run_sql m.sql s.schema ≡ (none, s'.schema))
        × ((s'.version ≡ s.version) × (s'.mark ≡ s.mark))
  unfolding execute
  execute_ok m s s' h = ran_ok (run_sql m.sql s.schema) refl h
    where
      ran_ok :
          (o : Option ℕ × Schema)
          → run_sql m.sql s.schema ≡ o
          → ◌≡◌ {A = Result (Unit {0}) × Server Schema}
              (ran run_sql m.name o.0, record s { schema = o.1 })
              (ok tt, s')
          → (run_sql m.sql s.schema ≡ (none, s'.schema))
            × ((s'.version ≡ s.version) × (s'.mark ≡ s.mark))
      ran_ok (none, c) q h =
          let same = ap (λ o. o.1) h in
          (
            q ∙ ap (λ s. (none, s.schema)) same,
            (sym (ap (λ s. s.version) same), sym (ap (λ s. s.mark) same)),
          )
      ran_ok (some n, c) q h = cc

  -- What a run that succeeded has done.
  pub record Applies (ms : List Migration) (s s' : Server Schema) : Type 0 where
    pub runs : Runs ms s.schema s'.schema
    pub version : s'.version ≡ latest s.version ms
    pub mark : s'.mark ≡ s.mark

  Applies-nothing : (s s' : Server Schema) → s ≡ s' → Applies [] s s'
  Applies-nothing s s' e = record {
    runs = ap (λ s. s.schema) e;
    version = sym (ap (λ s. s.version) e);
    mark = sym (ap (λ s. s.mark) e);
  }

  Applies-first :
      (m : Migration) (ms : List Migration) (s t u s' : Server Schema)
      → execute run_sql m s ≡ (ok tt, t)
      → set_schema_migration_version m.version t ≡ (ok tt, u)
      → Applies ms u s'
      → Applies (m ∷ ms) s s'
  Applies-first m ms s t u s' e v rest =
      let (ran, (version, mark)) = execute_ok m s t e in
      let (same, (set, unmarked)) = set_version_ok m.version t u v in
      record {
        runs = (t.schema, (ran, subst (λ a. Runs ms a s'.schema) same rest.runs));
        version = rest.version ∙ ap (λ v. latest v ms) set;
        mark = rest.mark ∙ unmarked ∙ mark;
      }

  pub apply_pending_ok :
      (current : ℤ) (ms : List Migration) (s s' : Server Schema)
      → apply_pending run_sql current ms s ≡ (ok tt, s')
      → Applies (newer current ms) s s'
  unfolding apply_pending
  apply_pending_ok current [] s s' h = Applies-nothing s s' (ap (λ o. o.1) h)
  apply_pending_ok current (m ∷ ms) s s' h =
      by (apply_pending_ok current ms) (leb_ℤ m.version current) h
    where
      rest : M Schema (Unit {0})
      rest = apply_pending run_sql current ms

      by :
          ((s s' : Server Schema) → rest s ≡ (ok tt, s') → Applies (newer current ms) s s')
          → (b : Bool)
          → (if◌then◌else◌ {A = M Schema (Unit {0})} b rest
                (execute run_sql m >>= λ _. set_schema_migration_version m.version >>= λ _. rest))
              s
            ≡ (ok tt, s')
          → Applies (if b then newer current ms else m ∷ newer current ms) s s'
      by ih true h = ih s s' h
      by ih false h =
          let first =
            bind_ok (execute run_sql m s)
              (λ _. set_schema_migration_version m.version >>= λ _. rest) tt s' h in
          let second =
            bind_ok (set_schema_migration_version m.version first.between) (λ _. rest) tt s'
              first.rest in
          Applies-first m (newer current ms) s first.between second.between s' first.first
            second.first (ih second.between s' second.rest)

  pub apply_pending_none :
      (current : ℤ) (ms : List Migration) (s : Server Schema)
      → newer current ms ≡ []
      → apply_pending run_sql current ms s ≡ (ok tt, s)
  unfolding apply_pending
  apply_pending_none current [] s h = refl
  apply_pending_none current (m ∷ ms) s h = elim (Bool-cases (leb_ℤ m.version current)) [
    | inl old ↦ rw old (apply_pending_none current ms s (rw old at h))
    | inr new ↦ absurd (some_left (rw new at h))
  ]
    where
      some_left : ¬ (m ∷ newer current ms ≡ [])
      some_left e = cc
