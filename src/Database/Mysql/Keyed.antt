-- ===== src/Database/Mysql/Keyed.antt =====
-- Rows of which no two have the same key.
use mathlib.Core.Path.{subst}
use go_kickstart.Base.{
  ◌≡◌, refl, sym, ap, ◌∙◌, inl, inr, Bool, true, false, Bool-cases, Option, some, List, [], ◌∷◌,
  find, remove_all, All, All-find, All-imp,
}

module _ {A : Type 0} (same_key : A → A → Bool)
    (sym_key : (x y : A) → same_key x y ≡ false → same_key y x ≡ false) where
  -- No two rows have the same key.
  abbrev pub Keyed : List A → Type 0
  Keyed [] = Unit
  Keyed (x ∷ xs) = All (λ y. same_key y x ≡ false) xs × Keyed xs

  remove_none : (p : A → Bool) (xs : List A) → All (λ x. p x ≡ false) xs → remove_all p xs ≡ xs
  remove_none p [] h = refl
  remove_none p (x ∷ xs) h = rw h.0 (ap (λ l. x ∷ l) (remove_none p xs h.1))

  unmatched :
      (p : A → Bool) (r y : A)
      → (p y ≡ true → same_key y r ≡ true)
      → same_key y r ≡ false
      → p y ≡ false
  unmatched p r y one_key ne = elim (Bool-cases (p y)) [
    | inl h ↦ absurd (both (sym (one_key h) ∙ ne))
    | inr h ↦ h
  ]
    where
      both : ¬ (true ≡ false)
      both e = cc

  same_element : {x r : A} → ◌≡◌ {A = Option A} (some x) (some r) → x ≡ r
  same_element h = cc

  -- To remove the rows that match is to remove those of the key of the first, if matches have one key.
  pub remove_all-Keyed :
      (p : A → Bool) (r : A) (rows : List A)
      → Keyed rows
      → ((x : A) → p x ≡ true → same_key x r ≡ true)
      → find p rows ≡ some r
      → remove_all (λ x. same_key x r) rows ≡ remove_all p rows
  remove_all-Keyed p r [] k one_key h = refl
  remove_all-Keyed p r (x ∷ rows) k one_key h = elim (Bool-cases (p x)) [
    | inl here ↦
        let is : x ≡ r = same_element (rw here at h) in
        let others = subst (λ z. All (λ y. same_key y z ≡ false) rows) is k.0 in
        rw (one_key x here, here)
          (remove_none (λ y. same_key y r) rows others
            ∙ sym (
                remove_none p rows (
                  All-imp (λ y. same_key y r ≡ false) (λ y. p y ≡ false) rows
                    (λ y. unmatched p r y (one_key y)) others)))
    | inr there ↦
        let later : find p rows ≡ some r = rw there at h in
        rw (sym_key r x (All-find (λ y. same_key y x ≡ false) p rows r k.0 later), there)
          (ap (λ l. x ∷ l) (remove_all-Keyed p r rows k.1 one_key later))
  ]
