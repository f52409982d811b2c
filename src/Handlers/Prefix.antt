-- ===== src/Handlers/Prefix.antt =====
-- handlers/handler.go: the prefix under which the routes are mounted.
use mathlib.Core.Path.{subst}
use go_kickstart.Base.{
  ℕ, ◌≡◌, refl, sym, ap, ◌∙◌, ◌⊎◌, inl, inr, not, ◌&&◌, ◌||◌, ◌==◌, Bool, true, false, Option, none,
  some, List, [], ◌∷◌, ◌++◌, arith, ltb, leb, any, reverse, if◌then◌else◌, Text, txt, str_eq,
  str_eq_iff, trim_space, has_prefix, space_at,
}
use go_kickstart.Handlers.Routing.{route_path}

drop_slashes : Text → Text
drop_slashes [] = []
drop_slashes (c ∷ s) = let rest = drop_slashes s in if c == b'/' then rest else c ∷ s

-- `strings.TrimRight(s, "/")`
unfoldable pub trim_slashes : Text → Text
unfolding drop_slashes
trim_slashes s = reverse (drop_slashes (reverse s))

-- The parts between the slashes.
parts_of : Text → List Text
parts_of [] = [] ∷ []
parts_of (c ∷ s) = let rest = parts_of s in if c == b'/' then [] ∷ rest else first_with c rest
  where
    first_with : ℕ → List Text → List Text
    first_with c [] = (c ∷ []) ∷ []
    first_with c (p ∷ ps) = (c ∷ p) ∷ ps

-- Empty parts and "." are left out, and ".." takes the part before it away.
keep_parts : List Text → List Text → List Text
keep_parts kept [] = reverse kept
keep_parts kept (p ∷ ps) =
    if str_eq p [] || str_eq p (txt ".")
    then keep_parts kept ps
    else if str_eq p (txt "..")
    then keep_parts (without_last kept) ps
    else keep_parts (p ∷ kept) ps
  where
    without_last : List Text → List Text
    without_last [] = []
    without_last (q ∷ qs) = qs

rooted : List Text → Text
rooted [] = []
rooted (p ∷ ps) = b'/' ∷ p ++ rooted ps

or_root : List Text → Text
or_root [] = txt "/"
or_root (p ∷ ps) = rooted (p ∷ ps)

-- `path.Clean` of a path that begins with a slash.
unfoldable pub clean_rooted : Text → Text
unfolding parts_of keep_parts or_root rooted
clean_rooted s = or_root (keep_parts [] (parts_of s))

-- One of "{}%?#\"
abbrev is_reserved : ℕ → Bool
is_reserved c = c == b'{' || c == b'}' || c == b'%' || c == b'?' || c == b'#' || c == 92

-- A space or a control character at some place.
unfoldable pub has_blank : Text → Bool
has_blank [] = false
has_blank (c ∷ s) =
    let rest = has_blank s in
    not (space_at (c ∷ s) == 0) || ltb c 32 || c == 127 || c1_at c s || rest
  where
    -- U+0080 to U+009F
    c1_at : ℕ → Text → Bool
    c1_at a [] = false
    c1_at a (b ∷ s) = a == 0xc2 && leb 0x80 b && leb b 0x9f

abbrev checked_prefix : Text → Option Text
checked_prefix prefix =
    if str_eq prefix []
    then some []
    else if not (str_eq (clean_rooted prefix) prefix) || any is_reserved prefix
    then none
    else if has_blank prefix
    then none
    else some prefix

-- `none` is an error.
unfoldable pub normalize_root_prefix : Text → Option Text
normalize_root_prefix given =
    let prefix = trim_space given in
    if str_eq prefix [] || str_eq prefix (txt "/")
    then some []
    else checked_prefix
        (trim_slashes (if has_prefix prefix (txt "/") then prefix else txt "/" ++ prefix))

-- An accepted prefix is empty, or a clean path from the root without a reserved character.
pub record IsLiteral (prefix : Text) : Type 0 where
  pub clean : clean_rooted prefix ≡ prefix
  pub plain : any is_reserved prefix ≡ false
  pub visible : has_blank prefix ≡ false

checked_tests :
    (s p : Text)
    → checked_prefix s ≡ some p
    → (p ≡ [])
      ⊎ ((s ≡ p)
          × ((str_eq (clean_rooted s) s ≡ true)
              × ((any is_reserved s ≡ false) × (has_blank s ≡ false))))
checked_tests s p h = ground (arith, h)

checked_prefix-IsLiteral : (s p : Text) → checked_prefix s ≡ some p → (p ≡ []) ⊎ IsLiteral p
checked_prefix-IsLiteral s p h = elim (checked_tests s p h) [
  | inl e ↦ inl e
  | inr (e, (clean, (plain, visible))) ↦ inr (
      subst IsLiteral e (record {
        clean = (str_eq_iff (clean_rooted s) s).0 clean;
        plain = plain;
        visible = visible;
      }))
]

clean_rooted-begins : (s : Text) → has_prefix (clean_rooted s) (txt "/") ≡ true
unfolding clean_rooted has_prefix
clean_rooted-begins s = at (keep_parts [] (parts_of s))
  where
    at : (l : List Text) → has_prefix (or_root l) (txt "/") ≡ true
    at [] = refl
    at (p ∷ ps) = ground arith

begins-append : (p x : Text) → has_prefix p (txt "/") ≡ true → has_prefix (p ++ x) (txt "/") ≡ true
unfolding has_prefix
begins-append [] x h = cc
begins-append (c ∷ p) x h = ground (arith, h)

normalize_root_prefix-accepted :
    (given prefix : Text)
    → normalize_root_prefix given ≡ some prefix
    → (prefix ≡ []) ⊎ IsLiteral prefix
unfolding normalize_root_prefix
normalize_root_prefix-accepted given prefix h =
    by (str_eq (trim_space given) [] || str_eq (trim_space given) (txt "/")) h
  where
    by :
        (b : Bool)
        → ◌≡◌ {A = Option Text}
            (if b
              then some []
              else checked_prefix (
                  trim_slashes (
                    if has_prefix (trim_space given) (txt "/")
                    then trim_space given
                    else txt "/" ++ trim_space given)))
            (some prefix)
        → (prefix ≡ []) ⊎ IsLiteral prefix
    by true h = inl (cc)
    by false h = checked_prefix-IsLiteral _ prefix h

begins-route_path :
    (p given : Text)
    → (p ≡ []) ⊎ (has_prefix p (txt "/") ≡ true)
    → has_prefix (route_path p given) (txt "/") ≡ true
unfolding route_path has_prefix
begins-route_path p given h =
    by (str_eq (trim_space given) [] || str_eq (trim_space given) (txt "/"))
  where
    Begins : Text → Type 0
    Begins s = has_prefix s (txt "/") ≡ true

    slashed :
        (b : Bool) (route : Text)
        → has_prefix route (txt "/") ≡ b
        → Begins (if b then route else txt "/" ++ route)
    slashed true route e = e
    slashed false route e = ground arith

    -- `x` begins with a slash.
    under : (x : Text) → Begins x → Begins (p ++ x)
    under x e = elim h [
      | inl empty ↦ subst (λ p. Begins (p ++ x)) (sym empty) e
      | inr begins ↦ begins-append p x begins
    ]

    mount : (b : Bool) → str_eq p [] ≡ b → Begins (if b then txt "/" else p)
    mount true e = ground arith
    mount false e = elim h [
      | inl empty ↦ absurd (differ (sym e ∙ ap (λ p. str_eq p []) empty))
      | inr begins ↦ begins
    ]
      where
        differ : ¬ (false ≡ str_eq [] [])
        differ q = ground (arith, str_eq_iff [] [], q)

    by :
        (b : Bool)
        → Begins (
            if b
            then (if str_eq p [] then txt "/" else p)
            else p
              ++ (if has_prefix (trim_space given) (txt "/")
                  then trim_space given
                  else txt "/" ++ trim_space given))
    by true = mount (str_eq p []) refl
    by false = under _ (slashed (has_prefix (trim_space given) (txt "/")) (trim_space given) refl)

-- A root prefix that is accepted is empty, or a clean path from the root without a character that a
-- pattern of the mux, an escape, a query or a fragment has, a space or a control character; and under it
-- the path of every route begins with a slash.
pub normalize_root_prefix-IsLiteral :
    (given prefix route : Text)
    → normalize_root_prefix given ≡ some prefix
    → ((prefix ≡ []) ⊎ IsLiteral prefix) × (has_prefix (route_path prefix route) (txt "/") ≡ true)
normalize_root_prefix-IsLiteral given prefix route h =
    let literal = normalize_root_prefix-accepted given prefix h in
    (
      literal,
      begins-route_path prefix route (elim literal [
        | inl e ↦ inl e
        | inr l ↦
            inr (subst (λ s. has_prefix s (txt "/") ≡ true) l.clean (clean_rooted-begins prefix))
      ]),
    )
