-- ===== src/Base/Strings.antt =====
-- Go strings are byte sequences: `Text`. What the program uses of strings.
use Prim.Native.Nat.{ℕ, zero, suc}
use Prim.Native.Char.{code}
use Prim.Native.String.{String}
use mathlib.Core.Path.{◌≡◌, refl}
use mathlib.Core.Logic.{◌↔◌}
use mathlib.Core.Bool.{Bool, true, false, ◌&&◌, ◌||◌}
use mathlib.Core.List.{List, [], ◌∷◌, reverse}
use native.Mathlib.Omega.{arith}
use go_kickstart.Base.Tests.{leb, ◌==◌, if◌then◌else◌}
use go_kickstart.Base.Lists.{length, drop}

abbrev pub Text : Type 0
Text = List ℕ

-- The bytes of an ASCII literal.
abbrev pub txt : String → Text
txt String.[] = []
txt (String.◌∷◌ c s) = code c ∷ txt s

-- `a == b` on strings.
unfoldable pub str_eq : Text → Text → Bool
str_eq [] [] = true
str_eq [] (y ∷ t) = false
str_eq (x ∷ s) [] = false
str_eq (x ∷ s) (y ∷ t) = x == y && str_eq s t

pub str_eq_iff : (s t : Text) → (str_eq s t ≡ true) ↔ (s ≡ t)
unfolding str_eq
str_eq_iff [] [] = ground arith
str_eq_iff [] (y ∷ t) = ground arith
str_eq_iff (x ∷ s) [] = ground arith
str_eq_iff (x ∷ s) (y ∷ t) = ground (arith, str_eq_iff s t)

pub str_eq_refl : (s : Text) → str_eq s s ≡ true
str_eq_refl s = (str_eq_iff s s).1 refl

-- `strings.HasPrefix(s, p)`
unfoldable pub has_prefix : Text → Text → Bool
has_prefix s [] = true
has_prefix [] (y ∷ p) = false
has_prefix (x ∷ s) (y ∷ p) = x == y && has_prefix s p

-- `strings.HasSuffix(s, p)`
unfoldable pub has_suffix : Text → Text → Bool
unfolding has_prefix
has_suffix s p = has_prefix (reverse s) (reverse p)

-- `strings.Contains(s, p)`
unfoldable pub contains : Text → Text → Bool
unfolding has_prefix
contains [] p = has_prefix [] p
contains (x ∷ s) p = has_prefix (x ∷ s) p || contains s p

ascii_space : ℕ → Bool
ascii_space c = leb 9 c && leb c 13 || c == 32

-- The width in bytes of the white-space character that the text begins with (unicode.IsSpace over
-- UTF-8), 0 if it begins with none.
unfoldable pub space_at : Text → ℕ
unfolding ascii_space
space_at [] = 0
space_at (a ∷ []) = if ascii_space a then 1 else 0
space_at (a ∷ b ∷ []) =
    if ascii_space a then 1 else if a == 0xc2 && (b == 0x85 || b == 0xa0) then 2 else 0
space_at (a ∷ b ∷ c ∷ s) =
    if ascii_space a
    then 1
    else if a == 0xc2 && (b == 0x85 || b == 0xa0)
    then 2
    else if a == 0xe1 && b == 0x9a && c == 0x80
        || a == 0xe2
          && b == 0x80
          && (leb 0x80 c && leb c 0x8a || c == 0xa8 || c == 0xa9 || c == 0xaf)
        || a == 0xe2 && b == 0x81 && c == 0x9f
        || a == 0xe3 && b == 0x80 && c == 0x80
    then 3
    else 0

-- The same at the end, over the reversed text.
space_at_end : Text → ℕ
unfolding space_at
space_at_end [] = 0
space_at_end (a ∷ []) = space_at (a ∷ [])
space_at_end (b ∷ a ∷ []) =
    if space_at (b ∷ []) == 1 then 1 else if space_at (a ∷ b ∷ []) == 2 then 2 else 0
space_at_end (c ∷ b ∷ a ∷ s) =
    if space_at (c ∷ []) == 1
    then 1
    else if space_at (b ∷ c ∷ []) == 2
    then 2
    else if space_at (a ∷ b ∷ c ∷ []) == 3
    then 3
    else 0

trim_by : (Text → ℕ) → ℕ → Text → Text
trim_by width zero s = s
trim_by width (suc fuel) s =
    let rest = trim_by width fuel (drop (width s) s) in if width s == 0 then s else rest

-- `strings.TrimSpace(s)`; each round drops at least one byte, so the length is enough fuel.
unfoldable pub trim_space : Text → Text
unfolding trim_by space_at space_at_end
trim_space s =
    let left = trim_by space_at (length s) s in
    reverse (trim_by space_at_end (length left) (reverse left))

trim_space_test : trim_space (txt "  a b ") ≡ txt "a b"
unfolding trim_space
trim_space_test = refl
