-- ===== src/Base/Decimal.antt =====
-- What the program uses of strconv: decimal integers of 64 bits.
use Prim.Native.Nat.{ℕ, zero, suc, ◌+◌, ◌-◌, ◌*◌, ◌/◌, ◌%◌, ◌^◌, ◌<◌}
use mathlib.Core.Path.{◌≡◌, refl, sym, ap, ◌∙◌}
use mathlib.Core.Bool.{Bool, true, false, ◌&&◌}
use mathlib.Core.Logic.{◌≢◌, inl, inr}
use mathlib.Core.Option.{Option, none, some}
use mathlib.Core.List.{[], ◌∷◌, ◌++◌}
use native.Mathlib.Omega.{arith}
use go_kickstart.Base.Tests.{ltb, leb, ◌==◌, if◌then◌else◌, Bool-cases}
use go_kickstart.Base.Int.{ℤ, pos, negsuc}
use go_kickstart.Base.Strings.{Text, txt}

parse_digits : ℕ → Text → Option ℕ
parse_digits n [] = some n
parse_digits n (c ∷ s) =
    if leb b'0' c && leb c b'9' then parse_digits (n * 10 + (c - b'0')) s else none

-- one digit at least
parse_unsigned : Text → Option ℕ
unfolding parse_digits
parse_unsigned [] = none
parse_unsigned (c ∷ s) = parse_digits 0 (c ∷ s)

signed_value : Bool → Option ℕ → Option ℤ
signed_value negative none = none
signed_value true (some zero) = some (pos 0)
signed_value true (some (suc n)) = if ltb n (2 ^ 63) then some (negsuc n) else none
signed_value false (some n) = if ltb n (2 ^ 63) then some (pos n) else none

-- `strconv.ParseInt(s, 10, 64)`; `none` is its error, a syntax or a range error.
unfoldable pub parse_int : Text → Option ℤ
unfolding parse_unsigned signed_value
parse_int [] = none
parse_int (c ∷ s) =
    if c == b'-'
    then signed_value true (parse_unsigned s)
    else if c == b'+'
    then signed_value false (parse_unsigned s)
    else signed_value false (parse_unsigned (c ∷ s))

format_digits : ℕ → ℕ → Text
format_digits zero n = []
format_digits (suc fuel) n =
    let rest = format_digits fuel (n / 10) in
    if ltb n 10 then (b'0' + n) ∷ [] else rest ++ (b'0' + n % 10) ∷ []

-- `strconv.FormatInt(n, 10)` and `fmt.Sprintf("%d", n)` of a value that is not negative.
unfoldable pub format_int : ℕ → Text
unfolding format_digits
format_int n = format_digits (suc n) n

format_int_test : format_int 90210 ≡ txt "90210"
unfolding format_int
format_int_test = refl

parse_int_test : parse_int (txt "-42") ≡ some (negsuc 41)
unfolding parse_int
parse_int_test = refl

-- To read a text and then one more digit.
then_digit : Option ℕ → ℕ → Option ℕ
then_digit none c = none
then_digit (some m) c = if leb b'0' c && leb c b'9' then some (m * 10 + (c - b'0')) else none

parse_digits-append :
    (acc : ℕ) (s : Text) (c : ℕ)
    → parse_digits acc (s ++ c ∷ []) ≡ then_digit (parse_digits acc s) c
unfolding parse_digits then_digit
parse_digits-append acc [] c = refl
parse_digits-append acc (x ∷ s) c = elim (Bool-cases (leb b'0' x && leb x b'9')) [
  | inl digit ↦ rw digit (parse_digits-append (acc * 10 + (x - b'0')) s c)
  | inr other ↦ rw other
]

parse_digits-format_digits :
    (fuel n : ℕ) → n < fuel → parse_digits 0 (format_digits fuel n) ≡ some n
unfolding parse_digits format_digits then_digit
parse_digits-format_digits zero n h = absurd (omega arith)
parse_digits-format_digits (suc fuel) n h = elim (Bool-cases (ltb n 10)) [
  | inl small ↦ rw small (ground arith)
  | inr large ↦
      rw (large, parse_digits-append, parse_digits-format_digits fuel (n / 10) (ground arith))
        (ground arith)
]

append-ne-nil : (s : Text) (c : ℕ) → s ++ c ∷ [] ≢ []
append-ne-nil [] c h = cc
append-ne-nil (x ∷ s) c h = cc

format_digits-ne-nil : (fuel n : ℕ) → format_digits (suc fuel) n ≢ []
unfolding format_digits
format_digits-ne-nil fuel n e = elim (Bool-cases (ltb n 10)) [
  | inl small ↦ cc (rw small at e)
  | inr large ↦ append-ne-nil (format_digits fuel (n / 10)) _ (rw large at e)
]

-- A text of digits has no sign to read.
parse_int_of_digits :
    (t : Text) (n : ℕ)
    → t ≢ []
    → parse_digits 0 t ≡ some n
    → n < 2 ^ 63
    → parse_int t ≡ some (pos n)
unfolding parse_int parse_digits
parse_int_of_digits [] n ne h lt = absurd (ne refl)
parse_int_of_digits (c ∷ s) n ne h lt = ground arith

-- What FormatInt prints, ParseInt reads back.
pub parse_int-format_int : (n : ℕ) → n < 2 ^ 63 → parse_int (format_int n) ≡ some (pos n)
unfolding format_int
parse_int-format_int n h =
    parse_int_of_digits (format_int n) n (format_digits-ne-nil n n)
      (parse_digits-format_digits (suc n) n (omega arith)) h

pub format_int-injective : (m n : ℕ) → format_int m ≡ format_int n → m ≡ n
unfolding format_int
format_int-injective m n e = same_some (
    sym (parse_digits-format_digits (suc m) m (omega arith))
    ∙ ap (parse_digits 0) e
    ∙ parse_digits-format_digits (suc n) n (omega arith))
  where
    same_some : {a b : ℕ} → ◌≡◌ {A = Option ℕ} (some a) (some b) → a ≡ b
    same_some h = cc

-- Without the byte `c`.
abbrev pub Lacks : ℕ → Text → Type 0
Lacks c [] = Unit
Lacks c (x ∷ s) = (x ≢ c) × Lacks c s

parse_digits-Lacks : (acc : ℕ) (s : Text) (n : ℕ) → parse_digits acc s ≡ some n → Lacks b':' s
unfolding parse_digits
parse_digits-Lacks acc [] n h = tt
parse_digits-Lacks acc (x ∷ s) n h = elim (Bool-cases (leb b'0' x && leb x b'9')) [
  | inl digit ↦ (λ e. ground arith, parse_digits-Lacks (acc * 10 + (x - b'0')) s n (rw digit at h))
  | inr other ↦ absurd (cc (rw other at h))
]

pub format_int-Lacks : (n : ℕ) → Lacks b':' (format_int n)
unfolding format_int
format_int-Lacks n = parse_digits-Lacks 0 _ n (parse_digits-format_digits (suc n) n (omega arith))

-- A text is cut at its first `c` in one way.
pub cut_unique :
    (c : ℕ) (s t u v : Text) → Lacks c s → Lacks c t → s ++ c ∷ u ≡ t ++ c ∷ v → (s ≡ t) × (u ≡ v)
cut_unique c [] [] u v hs ht e = (refl, cc)
cut_unique c [] (y ∷ t) u v hs ht e = absurd (ht.0 (cc))
cut_unique c (x ∷ s) [] u v hs ht e = absurd (hs.0 (cc))
cut_unique c (x ∷ s) (y ∷ t) u v hs ht e =
    let (p, q) = cut_unique c s t u v hs.1 ht.1 (cc) in (cc, q)

pub append_cancel : (s t u : Text) → s ++ t ≡ s ++ u → t ≡ u
append_cancel [] t u e = e
append_cancel (x ∷ s) t u e = append_cancel s t u (cc)
