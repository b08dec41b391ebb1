-- ===== src/Base/Texts.antt =====
-- Go's strings as the list of their bytes, with the decimal numbers that are written in them.
use freeway_pi.Base.Lists.{length, All}
use freeway_pi.Base.Tests.{ltb, lt→ltb, leb, ◌==◌, if◌then◌else◌, Bool-cases}
use freeway_pi.Base.Ints.{ℤ, pos, negsuc}
use Prim.Native.Nat.{ℕ, zero, suc, ◌+◌, ◌-◌, ◌*◌, ◌/◌, ◌%◌, ◌^◌, ◌≤◌, ◌<◌}
use mathlib.Core.Path.{◌≡◌, refl, ap, ◌∙◌}
use mathlib.Core.Logic.{inl, inr}
use mathlib.Core.Bool.{Bool, true, false, ◌&&◌}
use mathlib.Core.Option.{Option, none, some}
use mathlib.Core.List.{List, [], ◌∷◌, ◌++◌}
use native.Mathlib.Omega.{arith}
use Prim.Native.Char.{code}
use Prim.Native.String.{String}

abbrev pub Text : Type 0
Text = List ℕ

-- The bytes of an ASCII literal.
abbrev pub codes : String → Text
codes String.[] = []
codes (String.◌∷◌ c s) = code c ∷ codes s

unfoldable pub is_empty : Text → Bool
is_empty [] = true
is_empty (x ∷ t) = false

unfoldable pub same_text : Text → Text → Bool
same_text [] [] = true
same_text [] (y ∷ u) = false
same_text (x ∷ t) [] = false
same_text (x ∷ t) (y ∷ u) = (x == y) && same_text t u

pub same_text_refl : (t : Text) → same_text t t ≡ true
unfolding same_text
same_text_refl [] = refl
same_text_refl (x ∷ t) = ground (arith, same_text_refl t)

pub same_text→eq : (t u : Text) → same_text t u ≡ true → t ≡ u
unfolding same_text
same_text→eq [] [] h = refl
same_text→eq [] (y ∷ u) h = absurd cc
same_text→eq (x ∷ t) [] h = absurd cc
same_text→eq (x ∷ t) (y ∷ u) h =
    let first : x ≡ y = ground arith in
    let rest : same_text t u ≡ true = ground arith in
    ap (λ (z : ℕ). z ∷ t) first ∙ ap (◌∷◌ y) (same_text→eq t u rest)

-- `strings.Cut` at one byte: what stands before the first one, and what stands after it.
unfoldable pub cut_after : ℕ → Option (Text × Text) → Option (Text × Text)
cut_after x none = none
cut_after x (some (before, after)) = some (x ∷ before, after)

unfoldable pub cut : ℕ → Text → Option (Text × Text)
cut c [] = none
cut c (x ∷ t) = let rest = cut c t in if x == c then some ([], t) else cut_after x rest

-- `strconv.FormatInt(n, 10)`, the last digit written first and then moved to its place. The first
-- argument is fuel, of which `n` itself is enough.
unfoldable pub digits : ℕ → ℕ → Text → Text
digits zero n acc = (48 + n % 10) ∷ acc
digits (suc fuel) n acc =
    let more = digits fuel (n / 10) ((48 + n % 10) ∷ acc) in
    if ltb n 10 then (48 + n) ∷ acc else more

unfoldable pub format_int : ℕ → Text
format_int n = digits n n []

-- The value of decimal digits, after those already read.
unfoldable pub read_digits : ℕ → Text → Option ℕ
read_digits acc [] = some acc
read_digits acc (x ∷ t) =
    let rest = read_digits (acc * 10 + (x - 48)) t in if leb 48 x && leb x 57 then rest else none

unfoldable pub unsigned : Text → Option ℕ
unsigned [] = none
unsigned (x ∷ t) = read_digits 0 (x ∷ t)

unfoldable pub positive : Option ℕ → Option ℤ
positive none = none
positive (some n) = if ltb n (2 ^ 63) then some (pos n) else none

unfoldable pub negative : Option ℕ → Option ℤ
negative none = none
negative (some zero) = some (pos 0)
negative (some (suc n)) = if ltb n (2 ^ 63) then some (negsuc n) else none

-- `strconv.ParseInt(t, 10, 64)`.
unfoldable pub parse_int : Text → Option ℤ
parse_int [] = none
parse_int (x ∷ t) =
    if x == 43
    then positive (unsigned t)
    else if x == 45
    then negative (unsigned t)
    else positive (unsigned (x ∷ t))

unfoldable IsDigit : ℕ → Type 0
IsDigit x = (48 ≤ x) × (x ≤ 57)

digits-IsDigit : (f n : ℕ) (acc : Text) → All IsDigit acc → All IsDigit (digits f n acc)
unfolding digits IsDigit
digits-IsDigit zero n acc h = ((omega arith, omega arith), h)
digits-IsDigit (suc f) n acc h = elim (Bool-cases (ltb n 10)) [
  | inl small ↦ rw (small) ((omega arith, ground arith), h)
  | inr large ↦ rw (large) (digits-IsDigit f (n / 10) _ ((omega arith, omega arith), h))
]

length-digits : (f n : ℕ) (acc : Text) → length acc < length (digits f n acc)
unfolding digits
length-digits zero n acc = omega arith
length-digits (suc f) n acc = elim (Bool-cases (ltb n 10)) [
  | inl small ↦ rw (small) (omega arith)
  | inr large ↦ rw (large) (omega (arith, length-digits f (n / 10) ((48 + n % 10) ∷ acc)))
]

read_digits-digit :
    (acc d : ℕ) (rest : Text)
    → d < 10
    → (m : ℕ) → acc * 10 + d ≡ m
    → read_digits acc ((48 + d) ∷ rest) ≡ read_digits m rest
unfolding read_digits
read_digits-digit acc d rest h m e =
    let value : 48 + d - 48 ≡ d = omega arith in
    let low : leb 48 (48 + d) ≡ true = ground arith in
    let high : leb (48 + d) 57 ≡ true = ground arith in rw (low, high, value, e) refl

read_digits-digits :
    (f n : ℕ) (rest : Text) → n ≤ f → read_digits 0 (digits f n rest) ≡ read_digits n rest
unfolding digits
read_digits-digits zero n rest h = read_digits-digit 0 (n % 10) rest (omega arith) n (omega arith)
read_digits-digits (suc f) n rest h = elim (Bool-cases (ltb n 10)) [
  | inl small ↦ rw (small) (read_digits-digit 0 n rest (ground arith) n (omega arith))
  | inr large ↦ rw (large) (
      read_digits-digits f (n / 10) ((48 + n % 10) ∷ rest) (ground arith)
      ∙ read_digits-digit (n / 10) (n % 10) rest (omega arith) n (omega arith))
]

cut-digits : (t u : Text) → All IsDigit t → cut 46 (t ++ (46 ∷ u)) ≡ some (t, u)
unfolding cut cut_after IsDigit
cut-digits [] u h = refl
cut-digits (x ∷ t) u ((low, high), h) = ground (arith, cut-digits t u h)

parse_int-digits :
    (t : Text) → All IsDigit t → 0 < length t → parse_int t ≡ positive (read_digits 0 t)
unfolding parse_int unsigned IsDigit
parse_int-digits [] h g = absurd (omega arith)
parse_int-digits (x ∷ t) ((low, high), h) g = ground arith

-- A number that fits in 64 bits is read back as written.
pub parse_int-format_int : (n : ℕ) → n < 2 ^ 63 → parse_int (format_int n) ≡ some (pos n)
unfolding format_int positive read_digits
parse_int-format_int n h =
    parse_int-digits _ (digits-IsDigit n n [] tt) (length-digits n n [])
    ∙ ap positive (read_digits-digits n n [] (omega arith))
    ∙ rw (lt→ltb n (2 ^ 63) h) refl

-- What follows the first full stop behind a number is what was written there.
pub cut-format_int : (n : ℕ) (u : Text) → cut 46 (format_int n ++ (46 ∷ u)) ≡ some (format_int n, u)
unfolding format_int
cut-format_int n u = cut-digits _ u (digits-IsDigit n n [] tt)
