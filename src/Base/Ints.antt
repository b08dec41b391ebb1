-- ===== src/Base/Ints.antt =====
-- Go's `int` as an integer without bounds: the code only compares it and cuts it to 16 bits.
use freeway_pi.Base.Tests.{leb}
use Prim.Native.Nat.{ℕ, ◌+◌, ◌-◌, ◌%◌, ◌≤◌, ◌<◌}
use mathlib.Core.Path.{◌≡◌, refl}
use mathlib.Core.Bool.{Bool, true, false, ◌&&◌}
use native.Mathlib.Omega.{arith}

-- `negsuc n` is the number `-(n + 1)`.
pub data ℤ : Type 0 where
  pos : ℕ → ℤ
  negsuc : ℕ → ℤ

-- `!(x < lo || x > hi)` for bounds that are not negative.
unfoldable pub in_range : (lo hi : ℕ) → ℤ → Bool
in_range lo hi (pos n) = leb lo n && leb n hi
in_range lo hi (negsuc n) = false

-- `uint16(x)`.
unfoldable pub uint16 : ℤ → ℕ
uint16 (pos n) = n % 65536
uint16 (negsuc n) = 65535 - n % 65536

-- `uint16(x - 2000)`.
unfoldable pub year_register : ℤ → ℕ
year_register x = (uint16 x + (65536 - 2000)) % 65536

-- A number that passes the test is that number.
pub in_range-pos :
    (lo hi : ℕ) (x : ℤ) → in_range lo hi x ≡ true → (n : ℕ) × (x ≡ pos n) × (lo ≤ n) × (n ≤ hi)
unfolding in_range
in_range-pos lo hi (pos n) h = (n, refl, ground arith, ground arith)
in_range-pos lo hi (negsuc n) h = absurd cc

pub uint16-pos : (n : ℕ) → n < 65536 → uint16 (pos n) ≡ n
unfolding uint16
uint16-pos n h = omega arith

pub year_register-pos : (n : ℕ) → 2000 ≤ n → n < 65536 → year_register (pos n) + 2000 ≡ n
unfolding year_register uint16
year_register-pos n h g = omega arith
