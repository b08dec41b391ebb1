-- ===== src/Base/Bits.antt =====
-- Masks, shifts and exclusive or: the laws that the byte-level code relies on.
pub mod Xor
use Prim.Native.Nat.{
  ℕ, zero, suc, ◌+◌, ◌*◌, ◌/◌, ◌%◌, ◌^◌, ◌<◌, ◌≤◌, bit_and, bit_or, digits, bit_and-bitwise, min,
}
use mathlib.Core.Path.{◌≡◌, refl, ◌∙◌}
use mathlib.Core.Bool.{Bool, true, false, ◌&&◌}
use native.Mathlib.Omega.{arith}
use freeway_pi.Base.Tests.{◌==◌, ==_iff, nonzero}

-- A property of every byte-sized number, checked by evaluation from the top down.
unfoldable pub holds_below : (ℕ → Bool) → ℕ → Bool
holds_below check zero = true
holds_below check (suc top) = holds_below check top && check top

pub holds_below_at :
    (check : ℕ → Bool) (top : ℕ) → holds_below check top ≡ true → (i : ℕ) → i < top → check i ≡ true
unfolding holds_below
holds_below_at check zero held i h = absurd (omega arith)
holds_below_at check (suc top) held i h =
    grind (arith, λ (e : holds_below check top ≡ true). holds_below_at check top e i)

low_table : holds_below (λ x. bit_and x 0x7f == x % 128) 256 ≡ true
unfolding holds_below
low_table = refl

top_table : holds_below (λ x. bit_and x 0x80 == x / 128 * 128) 256 ≡ true
unfolding holds_below
top_table = refl

or_table : holds_below (λ x. bit_or x 0x80 == x + 128) 128 ≡ true
unfolding holds_below
or_table = refl

pub bit_and_low : (b : ℕ) → b < 256 → bit_and b 0x7f ≡ b % 128
bit_and_low b h = (==_iff _ _).0 (holds_below_at _ 256 low_table b h)

pub bit_and_top : (b : ℕ) → b < 256 → bit_and b 0x80 ≡ b / 128 * 128
bit_and_top b h = (==_iff _ _).0 (holds_below_at _ 256 top_table b h)

pub bit_or_top : (b : ℕ) → b < 128 → bit_or b 0x80 ≡ b + 128
bit_or_top b h = (==_iff _ _).0 (holds_below_at _ 128 or_table b h)

marked_table : holds_below (λ x. nonzero (bit_and (bit_or x 0x80) 0x80)) 256 ≡ true
unfolding holds_below
marked_table = refl

-- A byte with its top bit set has its top bit set.
pub nonzero-or_top : (b : ℕ) → b < 256 → nonzero (bit_and (bit_or b 0x80) 0x80) ≡ true
nonzero-or_top b h = holds_below_at _ 256 marked_table b h

and_zero : (n a : ℕ) → digits (λ y. 0) min n a 0 ≡ 0
and_zero zero a = refl
and_zero (suc n) zero = refl
and_zero (suc n) (suc a) = omega (arith, and_zero n (suc a / 2))

-- The lowest bit.
pub bit_and-one : (a : ℕ) → bit_and a 1 ≡ a % 2
bit_and-one zero = refl
bit_and-one (suc a) = omega (arith, bit_and-bitwise (suc a) 1, and_zero a (suc a / 2))

-- The fuel of the digits does not matter, once it is enough.
and_digits : (n m a b : ℕ) → a ≤ n → a ≤ m → digits (λ y. 0) min n a b ≡ digits (λ y. 0) min m a b
and_digits zero zero a b h g = refl
and_digits zero (suc m) zero b h g = refl
and_digits zero (suc m) (suc a) b h g = absurd (omega arith)
and_digits (suc n) zero zero b h g = refl
and_digits (suc n) zero (suc a) b h g = absurd (omega arith)
and_digits (suc n) (suc m) zero b h g = refl
and_digits (suc n) (suc m) (suc a) b h g =
    omega (arith, and_digits n m (suc a / 2) (b / 2) (omega arith) (omega arith))

-- A mask whose lowest bit is clear.
pub bit_and-double : (a b : ℕ) → bit_and a (b * 2) ≡ bit_and (a / 2) b * 2
bit_and-double zero b = omega (arith, bit_and-bitwise 0 (b * 2), bit_and-bitwise 0 b)
bit_and-double (suc a) b =
    let half : b * 2 / 2 ≡ b = omega arith in
    bit_and-bitwise (suc a) (b * 2)
    ∙ rw (half) (
        omega (
          arith,
          bit_and-bitwise (suc a / 2) b,
          and_digits a (suc a / 2) (suc a / 2) b (omega arith) (omega arith),
        ))
