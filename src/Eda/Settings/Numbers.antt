-- ===== src/Eda/Settings/Numbers.antt =====
-- What becomes of a number between the page, the register and the page again.
use freeway_pi.Base.{
  ℕ, ◌+◌, ◌-◌, ◌*◌, ◌/◌, ◌%◌, ◌≤◌, ◌<◌, ◌≡◌, refl, ap, ◌∙◌, ◌⊎◌, inl, inr, true, false, arith, ltb,
  ◌==◌, if◌then◌else◌, Bool-cases,
}
use freeway_pi.Base.Ints.{ℤ, pos, negsuc, uint16}
use freeway_pi.Eda.Output.{int16}
use freeway_pi.Eda.Settings.{scaled_up, scaled_down, at_most}

-- The value that a register of the scale can hold nearest to a number in tenths: the number itself
-- where it holds tenths, and the whole number, halves away from zero, where it does not.
unfoldable pub nearest : (scale : ℕ) → ℤ → ℤ
nearest scale (pos n) = if scale == 10 then pos n else pos ((n + 5) / 10 * 10)
nearest scale (negsuc n) =
    if scale == 10 then negsuc n else if ltb n 4 then pos 0 else negsuc ((n + 1 + 5) / 10 * 10 - 1)

unfoldable pub IsSmall : ℤ → Type 0
IsSmall (pos n) = n ≤ 10000
IsSmall (negsuc n) = n < 10000

pub between-IsSmall :
    (least most z : ℤ)
    → IsSmall least
    → IsSmall most
    → at_most least z ≡ true
    → at_most z most ≡ true
    → IsSmall z
unfolding IsSmall at_most
between-IsSmall (pos a) (pos b) (pos n) h g p q = ground arith
between-IsSmall (negsuc a) (pos b) (pos n) h g p q = ground arith
between-IsSmall (negsuc a) (negsuc b) (pos n) h g p q = absurd cc
between-IsSmall (pos a) (negsuc b) (pos n) h g p q = absurd cc
between-IsSmall (pos a) b (negsuc n) h g p q = absurd cc
between-IsSmall (negsuc a) b (negsuc n) h g p q = ground arith

-- Sixteen bits hold a small number with its sign.
int16-uint16 : (z : ℤ) → IsSmall z → int16 (uint16 z) ≡ z
unfolding int16 uint16 IsSmall
int16-uint16 (pos n) h =
    let e : n % 65536 ≡ n = omega arith in
    let small : ltb n 32768 ≡ true = ground arith in rw (e, small) refl
int16-uint16 (negsuc n) h =
    let e : n % 65536 ≡ n = omega arith in
    let large : ltb (65535 - n) 32768 ≡ false = ground arith in
    let back : 65535 - (65535 - n) ≡ n = omega arith in rw (e, large, back) refl

tenths-up : (z : ℤ) → scaled_up 10 z ≡ z
unfolding scaled_up
tenths-up (pos n) = ap pos (omega arith)
tenths-up (negsuc n) =
    let size : ((n + 1) * 10 + 5) / 10 ≡ n + 1 = omega arith in
    let some_size : (n + 1 == 0) ≡ false = ground arith in
    rw (size, some_size) (ap negsuc (omega arith))

tenths-down : (z : ℤ) → scaled_down 10 z ≡ z
unfolding scaled_down
tenths-down (pos n) = ap pos (omega arith)
tenths-down (negsuc n) = ap negsuc (omega arith)

whole-IsSmall : (z : ℤ) → IsSmall z → IsSmall (scaled_up 1 z)
unfolding scaled_up IsSmall
whole-IsSmall (pos n) h = omega arith
whole-IsSmall (negsuc n) h = elim (Bool-cases (((n + 1) * 1 + 5) / 10 == 0)) [
  | inl gone ↦ rw (gone) (omega arith)
  | inr left ↦ rw (left) (omega arith)
]

whole-nearest : (z : ℤ) → scaled_down 1 (scaled_up 1 z) ≡ nearest 1 z
unfolding scaled_up scaled_down nearest
whole-nearest (pos n) = ap pos (omega arith)
whole-nearest (negsuc n) = elim (Bool-cases (ltb n 4)) [
  | inl gone ↦
      let none_left : (((n + 1) * 1 + 5) / 10 == 0) ≡ true = ground arith in
      rw (gone, none_left) refl
  | inr left ↦
      let some_left : (((n + 1) * 1 + 5) / 10 == 0) ≡ false = ground arith in
      rw (left, some_left) (ap negsuc (ground arith))
]

-- A number within bounds comes back from its register as the nearest one of the register's scale.
pub register-nearest :
    (scale : ℕ) (z : ℤ)
    → (scale ≡ 1) ⊎ (scale ≡ 10)
    → IsSmall z
    → scaled_down scale (int16 (uint16 (scaled_up scale z))) ≡ nearest scale z
unfolding nearest
register-nearest scale z (inl e) h =
    rw (e) (ap (scaled_down 1) (int16-uint16 (scaled_up 1 z) (whole-IsSmall z h)) ∙ whole-nearest z)
register-nearest scale (pos n) (inr e) h =
    rw (e, tenths-up (pos n), int16-uint16 (pos n) h, tenths-down (pos n)) refl
register-nearest scale (negsuc n) (inr e) h =
    rw (e, tenths-up (negsuc n), int16-uint16 (negsuc n) h, tenths-down (negsuc n)) refl
