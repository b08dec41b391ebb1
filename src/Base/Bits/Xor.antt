-- ===== src/Base/Bits/Xor.antt =====
-- Exclusive or at every width: digit by digit, it undoes itself and stays within a width.
use Prim.Native.Nat.{
  ℕ, zero, suc, ◌+◌, ◌*◌, ◌/◌, ◌%◌, ◌^◌, ◌<◌, ◌≤◌, bit_xor, digits, differ, bit_xor-bitwise,
}
use mathlib.Core.Path.{◌≡◌, refl, ap, ◌∙◌, sym}
use native.Mathlib.Omega.{arith}
use native.Mathlib.Nat.{pow-suc}

abbrev xor_digits : ℕ → ℕ → ℕ → ℕ
xor_digits n a b = digits (λ y. y) differ n a b

-- The recursion of `digits` counts down from any number that is not below the first operand.
xor_digits_rounds : (a b rounds : ℕ) → a ≤ rounds → xor_digits rounds a b ≡ xor_digits a a b
xor_digits_rounds a b rounds enough = go a a b rounds (omega arith) enough
  where
    go : (limit a b rounds : ℕ) → a ≤ limit → a ≤ rounds → xor_digits rounds a b ≡ xor_digits a a b
    go limit zero b zero small enough = refl
    go limit zero b (suc rounds) small enough = refl
    go limit (suc a) b zero small enough = absurd (omega arith)
    go zero (suc a) b (suc rounds) small enough = absurd (omega arith)
    go (suc limit) (suc a) b (suc rounds) small enough = omega (
      arith,
      go limit (suc a / 2) (b / 2) rounds (omega arith) (omega arith),
      go limit (suc a / 2) (b / 2) a (omega arith) (omega arith),
    )

zero-bit_xor : (b : ℕ) → bit_xor 0 b ≡ b
zero-bit_xor b = bit_xor-bitwise 0 b

-- The lowest digit of an exclusive or is 1 exactly where the two digits differ.
abbrev xor_digit : ℕ → ℕ → ℕ
xor_digit a b = (a + b) % 2

differ_digit : (a b : ℕ) → a < 2 → b < 2 → differ a b ≡ xor_digit a b
differ_digit zero zero p q = refl
differ_digit zero (suc zero) p q = refl
differ_digit (suc zero) zero p q = refl
differ_digit (suc zero) (suc zero) p q = refl
differ_digit zero (suc (suc b)) p q = absurd (omega arith)
differ_digit (suc zero) (suc (suc b)) p q = absurd (omega arith)
differ_digit (suc (suc a)) b p q = absurd (omega arith)

pub bit_xor_step : (a b : ℕ) → bit_xor a b ≡ bit_xor (a / 2) (b / 2) * 2 + (a + b) % 2
bit_xor_step zero b = omega (arith, zero-bit_xor b, zero-bit_xor (b / 2))
bit_xor_step (suc a) b = omega (
  arith,
  bit_xor-bitwise (suc a) b,
  bit_xor-bitwise (suc a / 2) (b / 2),
  xor_digits_rounds (suc a / 2) (b / 2) a (omega arith),
  differ_digit (suc a % 2) (b % 2) (omega arith) (omega arith),
)

pub half-bit_xor : (a b : ℕ) → bit_xor a b / 2 ≡ bit_xor (a / 2) (b / 2)
half-bit_xor a b = omega (arith, bit_xor_step a b)

bit_xor_cancel_fuel : (n a b : ℕ) → a ≤ n → b ≤ n → bit_xor (bit_xor a b) b ≡ a
bit_xor_cancel_fuel zero zero zero p q = refl
bit_xor_cancel_fuel zero zero (suc b) p q = absurd (omega arith)
bit_xor_cancel_fuel zero (suc a) b p q = absurd (omega arith)
bit_xor_cancel_fuel (suc n) a b p q = omega (
  arith,
  bit_xor_step a b,
  bit_xor_step (bit_xor a b) b,
  ap (λ (t : ℕ). bit_xor t (b / 2)) (half-bit_xor a b),
  bit_xor_cancel_fuel n (a / 2) (b / 2) (omega arith) (omega arith),
)

-- Exclusive or with the same number twice is the identity.
pub bit_xor_cancel : (a b : ℕ) → bit_xor (bit_xor a b) b ≡ a
bit_xor_cancel a b = bit_xor_cancel_fuel (a + b) a b (omega arith) (omega arith)

bit_xor_comm_fuel : (n a b : ℕ) → a ≤ n → b ≤ n → bit_xor a b ≡ bit_xor b a
bit_xor_comm_fuel zero zero zero p q = refl
bit_xor_comm_fuel zero zero (suc b) p q = absurd (omega arith)
bit_xor_comm_fuel zero (suc a) b p q = absurd (omega arith)
bit_xor_comm_fuel (suc n) a b p q = omega (
  arith,
  bit_xor_step a b,
  bit_xor_step b a,
  bit_xor_comm_fuel n (a / 2) (b / 2) (omega arith) (omega arith),
)

pub bit_xor_comm : (a b : ℕ) → bit_xor a b ≡ bit_xor b a
bit_xor_comm a b = bit_xor_comm_fuel (a + b) a b (omega arith) (omega arith)

pub bit_xor_injective_left : (a b c : ℕ) → bit_xor a c ≡ bit_xor b c → a ≡ b
bit_xor_injective_left a b c e =
    sym (bit_xor_cancel a c) ∙ ap (λ (t : ℕ). bit_xor t c) e ∙ bit_xor_cancel b c

pub bit_xor_injective_right : (a b c : ℕ) → bit_xor c a ≡ bit_xor c b → a ≡ b
bit_xor_injective_right a b c e =
    bit_xor_injective_left a b c (bit_xor_comm a c ∙ e ∙ bit_xor_comm c b)

pub two-pow-suc : (k : ℕ) → 2 ^ suc k ≡ 2 * 2 ^ k
two-pow-suc k = omega (arith, pow-suc 2 k)

-- Two numbers of `k` bits have an exclusive or of `k` bits.
pub bit_xor_fits : (k a b : ℕ) → a < 2 ^ k → b < 2 ^ k → bit_xor a b < 2 ^ k
bit_xor_fits zero zero zero p q = omega arith
bit_xor_fits zero zero (suc b) p q = absurd (omega arith)
bit_xor_fits zero (suc a) b p q = absurd (omega arith)
bit_xor_fits (suc k) a b p q = omega (
  arith,
  two-pow-suc k,
  bit_xor_step a b,
  bit_xor_fits k (a / 2) (b / 2) (omega (arith, two-pow-suc k)) (omega (arith, two-pow-suc k)),
)

-- The order of two masks does not matter.
bit_xor_right_comm_fuel :
    (n a b c : ℕ) → a ≤ n → b ≤ n → c ≤ n → bit_xor (bit_xor a b) c ≡ bit_xor (bit_xor a c) b
bit_xor_right_comm_fuel zero zero zero zero p q r = refl
bit_xor_right_comm_fuel zero zero zero (suc c) p q r = absurd (omega arith)
bit_xor_right_comm_fuel zero zero (suc b) c p q r = absurd (omega arith)
bit_xor_right_comm_fuel zero (suc a) b c p q r = absurd (omega arith)
bit_xor_right_comm_fuel (suc n) a b c p q r = omega (
  arith,
  bit_xor_step a b,
  bit_xor_step a c,
  bit_xor_step (bit_xor a b) c,
  bit_xor_step (bit_xor a c) b,
  ap (λ (t : ℕ). bit_xor t (c / 2)) (half-bit_xor a b),
  ap (λ (t : ℕ). bit_xor t (b / 2)) (half-bit_xor a c),
  bit_xor_right_comm_fuel n (a / 2) (b / 2) (c / 2) (omega arith) (omega arith) (omega arith),
)

pub bit_xor_right_comm : (a b c : ℕ) → bit_xor (bit_xor a b) c ≡ bit_xor (bit_xor a c) b
bit_xor_right_comm a b c =
    bit_xor_right_comm_fuel (a + b + c) a b c (omega arith) (omega arith) (omega arith)

pub bit_xor-zero : (a : ℕ) → bit_xor a 0 ≡ a
bit_xor-zero a = bit_xor_comm a 0 ∙ zero-bit_xor a

-- Only equal numbers have the exclusive or 0.
pub bit_xor_self : (a : ℕ) → bit_xor a a ≡ 0
bit_xor_self a = rw zero-bit_xor at (bit_xor_cancel 0 a)

pub eq_of_bit_xor : (a b : ℕ) → bit_xor a b ≡ 0 → a ≡ b
eq_of_bit_xor a b e = sym (bit_xor_cancel a b) ∙ ap (λ (t : ℕ). bit_xor t b) e ∙ zero-bit_xor b

-- Where the digits do not overlap, exclusive or is a sum.
pub bit_xor_fields : (k q r : ℕ) → r < 2 ^ k → bit_xor (2 ^ k * q) r ≡ 2 ^ k * q + r
bit_xor_fields zero q zero h = bit_xor-zero (2 ^ 0 * q) ∙ omega arith
bit_xor_fields zero q (suc r) h = absurd (omega arith)
bit_xor_fields (suc k) q r h = omega (
  arith,
  two-pow-suc k,
  ap (λ (t : ℕ). t * q) (two-pow-suc k),
  bit_xor_step (2 ^ suc k * q) r,
  ap (λ (t : ℕ). bit_xor t (r / 2)) (halved k q),
  bit_xor_fields k q (r / 2) (omega (arith, two-pow-suc k)),
)
  where
    halved : (k q : ℕ) → 2 ^ suc k * q / 2 ≡ 2 ^ k * q
    halved k q = omega (arith, ap (λ (t : ℕ). t * q) (two-pow-suc k))

pub bit_xor_assoc : (a b c : ℕ) → bit_xor (bit_xor a b) c ≡ bit_xor a (bit_xor b c)
bit_xor_assoc a b c =
    ap (λ (t : ℕ). bit_xor t c) (bit_xor_comm a b)
    ∙ bit_xor_right_comm b a c
    ∙ bit_xor_comm (bit_xor b c) a
