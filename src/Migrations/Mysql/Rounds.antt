-- ===== src/Migrations/Mysql/Rounds.antt =====
-- The rounds of the loop on MySQL, each of which may stop anywhere.
use mathlib.Core.Path.{subst}
use go_kickstart.Base.{
  ℕ, ◌≡◌, refl, sym, ap, ◌∙◌, ◌⊎◌, inl, inr, true, Bool-cases, Option, none, some, List, [], ◌∷◌,
  ◌++◌, All, ℤ, is_pos, leb_ℤ, Text,
}
use go_kickstart.Migrations.{
  Result, ok, err, Server, M, and_then, pure, ◌>>=◌, ◌>>◌, Migration, statement,
  set_schema_migration_version, in_tx, execute, ran,
}
use go_kickstart.Migrations.Laws.{
  in_tx-TxOutcome, TxOutcome, bind_ok, SameRows, after_statement, set_version_ok,
}
use go_kickstart.Migrations.Pending.{newer, latest, Runs}
use go_kickstart.Migrations.Mysql.{
  set_pending_schema_migration, clear_pending_schema_migration, mark_row, apply_marked,
  apply_all_marked,
}

module _ {Schema : Type 0} (run_sql : Text → Schema → Option ℕ × Schema) where
  -- The rounds for a list of newer migrations.
  abbrev pub each_marked : List Migration → M Schema (Unit {0})
  each_marked [] = pure tt
  each_marked (m ∷ ms) = apply_marked run_sql m >> each_marked ms

  pub apply_all_marked-newer :
      (current : ℤ) (ms : List Migration)
      → apply_all_marked run_sql current ms ≡ each_marked (newer current ms)
  unfolding apply_all_marked
  apply_all_marked-newer current [] = refl
  apply_all_marked-newer current (m ∷ ms) = elim (Bool-cases (leb_ℤ m.version current)) [
    | inl old ↦ rw old (apply_all_marked-newer current ms)
    | inr new ↦ rw new (ap (λ k. apply_marked run_sql m >> k) (apply_all_marked-newer current ms))
  ]

  set_mark_ok :
      (v : ℤ) (s s' : Server Schema)
      → set_pending_schema_migration v s ≡ (ok tt, s')
      → (s'.schema ≡ s.schema) × ((s'.version ≡ s.version) × (s'.mark ≡ some v))
  unfolding set_pending_schema_migration
  set_mark_ok v s s' h =
      let b = bind_ok (statement s) (λ _ s. mark_row v s s.mark) tt s' h in
      let rows = after_statement s b.between (ok b.value) b.first in
      let (schema, (version, mark)) = at b.between b.between.mark b.rest in
      (schema ∙ rows.schema, (version ∙ rows.version, mark))
    where
      at :
          (t : Server Schema) (o : Option ℤ)
          → mark_row v t o ≡ (ok tt, s')
          → (s'.schema ≡ t.schema) × ((s'.version ≡ t.version) × (s'.mark ≡ some v))
      at t none h =
          let same = ap (λ o. o.1) h in
          (
            sym (ap (λ s. s.schema) same),
            (sym (ap (λ s. s.version) same), sym (ap (λ s. s.mark) same)),
          )
      at t (some old) h = cc

  finish_ok :
      (v : ℤ) (s s' : Server Schema)
      → (set_schema_migration_version v >> clear_pending_schema_migration) s ≡ (ok tt, s')
      → (s'.schema ≡ s.schema) × ((s'.version ≡ some v) × (s'.mark ≡ none))
  unfolding clear_pending_schema_migration
  finish_ok v s s' h =
      let b =
        bind_ok (set_schema_migration_version v s) (λ _. clear_pending_schema_migration) tt s' h in
      let (schema, (version, mark)) = set_version_ok v s b.between b.first in
      let c =
        bind_ok (statement b.between) (λ _ s. (ok tt, record s { mark = none })) tt s' b.rest in
      let rows = after_statement b.between c.between (ok c.value) c.first in
      let same = ap (λ o. o.1) c.rest in
      (
        sym (ap (λ s. s.schema) same) ∙ rows.schema ∙ schema,
        (sym (ap (λ s. s.version) same) ∙ rows.version ∙ version, sym (ap (λ s. s.mark) same)),
      )

  -- What a round leaves: nothing was done, it is done, or a mark has stayed.
  abbrev Round : Migration → Server Schema → Result (Unit {0}) × Server Schema → Type 0
  Round m s (ok u, s') =
      (run_sql m.sql s.schema ≡ (none, s'.schema))
      × ((s'.version ≡ some m.version) × (s'.mark ≡ none))
  Round m s (err e, s') = SameRows s s' ⊎ (s'.mark ≡ some m.version)

  apply_marked-Round : (m : Migration) (s : Server Schema) → Round m s (apply_marked run_sql m s)
  unfolding apply_marked execute
  apply_marked-Round m s =
      marked (in_tx (set_pending_schema_migration m.version) s)
        (in_tx-TxOutcome (set_pending_schema_migration m.version) s)
    where
      finish : M Schema (Unit {0})
      finish = do set_schema_migration_version m.version; clear_pending_schema_migration

      finished :
          (t : Server Schema) (o : Result (Unit {0}) × Server Schema)
          → t.mark ≡ some m.version
          → run_sql m.sql s.schema ≡ (none, t.schema)
          → TxOutcome finish t o
          → Round m s o
      finished t (err e, s') mark q rows = inr (rows.mark ∙ mark)
      finished t (ok u, s') mark q (a, b, (before, (h, after))) =
          let (schema, (version, unmarked)) = finish_ok m.version a b h in
          (
            q ∙ ap (λ c. (none, c)) (sym (after.schema ∙ schema ∙ before.schema)),
            (after.version ∙ version, after.mark ∙ unmarked),
          )

      executed :
          (t : Server Schema) (o : Option ℕ × Schema)
          → t.mark ≡ some m.version
          → run_sql m.sql s.schema ≡ o
          → Round m s (
              and_then {Schema = Schema}
                (ran run_sql m.name o.0, record t { schema = o.1 })
                (λ _. in_tx finish))
      executed t (none, c) mark q =
          finished (record t { schema = c }) _ mark q
            (in_tx-TxOutcome finish (record t { schema = c }))
      executed t (some n, c) mark q = inr mark

      marked :
          (o : Result (Unit {0}) × Server Schema)
          → TxOutcome (set_pending_schema_migration m.version) s o
          → Round m s (and_then o (λ _. execute run_sql m >>= λ _. in_tx finish))
      marked (err e, s') rows = inl rows
      marked (ok u, s') (a, b, (before, (h, after))) =
          let (schema, (version, mark)) = set_mark_ok m.version a b h in
          executed s' (run_sql m.sql s'.schema) (after.mark ∙ mark)
            (ap (run_sql m.sql) (sym (after.schema ∙ schema ∙ before.schema)))

  Runs-append :
      (done ms : List Migration) (a b c : Schema)
      → Runs run_sql done a b
      → Runs run_sql ms b c
      → Runs run_sql (done ++ ms) a c
  Runs-append [] ms a b c h k = subst (λ a. Runs run_sql ms a c) (sym h) k
  Runs-append (m ∷ done) ms a b c (d, (q, h)) k = (d, (q, Runs-append done ms d b c h k))

  latest-append :
      (v : Option ℤ) (done ms : List Migration) → latest v (done ++ ms) ≡ latest (latest v done) ms
  latest-append v [] ms = refl
  latest-append v (m ∷ done) ms = latest-append (some m.version) done ms

-- No migration is being run: a first part of those that are due has been run, and `rest` is left.
pub record Between {Schema : Type 0} (run_sql : Text → Schema → Option ℕ × Schema)
    (due : List Migration) (first s : Server Schema) (rest : List Migration) : Type 0 where
  pub done : List Migration
  pub split : due ≡ done ++ rest
  pub runs : Runs run_sql done first.schema s.schema
  pub version : s.version ≡ latest first.version done
  pub unmarked : s.mark ≡ none

-- The mark of a migration has stayed.
abbrev pub Stuck : {Schema : Type 0} → Server Schema → Type 0
Stuck s = (v : ℤ) × ((is_pos v ≡ true) × (s.mark ≡ some v))

module _ {Schema : Type 0} (run_sql : Text → Schema → Option ℕ × Schema) (due : List Migration)
    (first : Server Schema) where
  pub Between-SameRows :
      (s s' : Server Schema) (rest : List Migration)
      → SameRows s s'
      → Between run_sql due first s rest
      → Between run_sql due first s' rest
  Between-SameRows s s' rest rows b = record {
    done = b.done;
    split = b.split;
    runs = subst (Runs run_sql b.done first.schema) (sym rows.schema) b.runs;
    version = rows.version ∙ b.version;
    unmarked = rows.mark ∙ b.unmarked;
  }

  Between-next :
      (m : Migration) (s s' : Server Schema) (rest : List Migration)
      → run_sql m.sql s.schema ≡ (none, s'.schema)
      → s'.version ≡ some m.version
      → s'.mark ≡ none
      → Between run_sql due first s (m ∷ rest)
      → Between run_sql due first s' rest
  Between-next m s s' rest q version mark b = record {
    done = b.done ++ m ∷ [];
    split = b.split ∙ sym (append_one b.done);
    runs =
        Runs-append run_sql b.done (m ∷ []) first.schema s.schema s'.schema b.runs
          (s'.schema, (q, refl));
    version = version ∙ sym (latest-append run_sql first.version b.done (m ∷ []));
    unmarked = mark;
  }
    where
      append_one : (xs : List Migration) → (xs ++ m ∷ []) ++ rest ≡ xs ++ m ∷ rest
      append_one [] = refl
      append_one (x ∷ xs) = ap (λ l. x ∷ l) (append_one xs)

  -- What the rounds for the rest leave.
  abbrev pub Ended : Result (Unit {0}) × Server Schema → Type 0
  Ended (ok u, s') = Between run_sql due first s' []
  Ended (err e, s') = ((rest : List Migration) × Between run_sql due first s' rest) ⊎ Stuck s'

  pub each_marked-Ended :
      (rest : List Migration) (s : Server Schema)
      → All (λ m. is_pos m.version ≡ true) rest
      → Between run_sql due first s rest
      → Ended (each_marked run_sql rest s)
  each_marked-Ended [] s p b = b
  each_marked-Ended (m ∷ rest) s p b =
      next (apply_marked run_sql m s) (apply_marked-Round run_sql m s)
        (λ s'. each_marked-Ended rest s' p.1)
    where
      next :
          (o : Result (Unit {0}) × Server Schema)
          → Round run_sql m s o
          → ((s' : Server Schema)
              → Between run_sql due first s' rest
              → Ended (each_marked run_sql rest s'))
          → Ended (and_then o (λ _. each_marked run_sql rest))
      next (ok u, s') (q, (version, mark)) ih = ih s' (Between-next m s s' rest q version mark b)
      next (err e, s') (inl rows) ih = inl (m ∷ rest, Between-SameRows s s' (m ∷ rest) rows b)
      next (err e, s') (inr mark) ih = inr (m.version, (p.0, mark))
