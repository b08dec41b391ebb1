-- ===== src/Modbus/Crc/Linear.antt =====
-- The checksum as a register: each round keeps 16 bits, loses nothing, and masks pass through it.
use Prim.Native.Nat.{bit_xor}
use freeway_pi.Base.{
  ℕ, zero, suc, ◌+◌, ◌*◌, ◌/◌, ◌^◌, ◌<◌, ◌≡◌, refl, sym, ap, ◌∙◌, List, [], ◌∷◌, ◌++◌, arith, All,
  ◌↔◌, ◌≤◌,
}
use freeway_pi.Base.Bits.{bit_and-one}
use freeway_pi.Base.Bits.Xor.{
  half-bit_xor, bit_xor_step, bit_xor_fits, bit_xor_injective_left, bit_xor_right_comm,
  bit_xor_cancel, bit_xor_comm, bit_xor_assoc, bit_xor_fields, bit_xor_self, eq_of_bit_xor,
  two-pow-suc,
}
use freeway_pi.Modbus.Crc.{IsByte, IsWord, crc_bit, crc_bits, crc_byte, crc_loop}

pub crc_bit-IsWord : (c : ℕ) → IsWord c → IsWord (crc_bit c)
unfolding crc_bit
crc_bit-IsWord c h = ground (arith, bit_xor_fits 16 (c / 2) 0xA001)

-- The polynomial sets the top bit, so the branch that was taken shows in the result.
poly_top : (x : ℕ) → x < 32768 → 32768 ≤ bit_xor x 0xA001
poly_top x h =
    ground
      (arith, bit_xor_comm x 0xA001, bit_xor_cancel 0xA001 x, bit_xor_fits 15 (bit_xor x 0xA001) x)

crc_bit_injective : (c d : ℕ) → IsWord c → IsWord d → crc_bit c ≡ crc_bit d → c ≡ d
unfolding crc_bit
crc_bit_injective c d hc hd e = ground (
  arith,
  bit_and-one c,
  bit_and-one d,
  poly_top (c / 2),
  poly_top (d / 2),
  bit_xor_injective_left (c / 2) (d / 2) 0xA001,
)

half-double : (m : ℕ) → 2 * m / 2 ≡ m
half-double m = omega arith

-- A mask that leaves the lowest bit alone moves one place with the register.
crc_bit_mask : (c m : ℕ) → crc_bit (bit_xor c (2 * m)) ≡ bit_xor (crc_bit c) m
unfolding crc_bit
crc_bit_mask c m = ground (
  arith,
  bit_and-one c,
  bit_and-one (bit_xor c (2 * m)),
  bit_xor_step c (2 * m),
  half-bit_xor c (2 * m),
  half-double m,
  bit_xor_right_comm (c / 2) m 0xA001,
)

pub crc_bits-IsWord : (n c : ℕ) → IsWord c → IsWord (crc_bits n c)
unfolding crc_bits
crc_bits-IsWord zero c h = h
crc_bits-IsWord (suc n) c h = crc_bits-IsWord n (crc_bit c) (crc_bit-IsWord c h)

pub crc_bits_injective : (n c d : ℕ) → IsWord c → IsWord d → crc_bits n c ≡ crc_bits n d → c ≡ d
unfolding crc_bits
crc_bits_injective zero c d hc hd e = e
crc_bits_injective (suc n) c d hc hd e =
    crc_bit_injective c d hc hd
      (crc_bits_injective n (crc_bit c) (crc_bit d) (crc_bit-IsWord c hc) (crc_bit-IsWord d hd) e)

-- A mask on the high bits comes down `n` places in `n` rounds.
pub crc_bits_mask : (n c m : ℕ) → crc_bits n (bit_xor c (2 ^ n * m)) ≡ bit_xor (crc_bits n c) m
unfolding crc_bits
crc_bits_mask zero c m = ap (λ (t : ℕ). bit_xor c t) (omega arith)
crc_bits_mask (suc n) c m =
    ap (λ (t : ℕ). crc_bits (suc n) (bit_xor c t))
      (omega (arith, ap (λ (t : ℕ). t * m) (two-pow-suc n)))
    ∙ ap (crc_bits n) (crc_bit_mask c (2 ^ n * m))
    ∙ crc_bits_mask n (crc_bit c) m

crc_bits-zero : (n : ℕ) → crc_bits n 0 ≡ 0
unfolding crc_bits crc_bit
crc_bits-zero zero = refl
crc_bits-zero (suc n) = crc_bits-zero n

pub crc_byte-IsWord : (c b : ℕ) → IsWord c → IsByte b → IsWord (crc_byte c b)
unfolding crc_byte
crc_byte-IsWord c b hc hb = crc_bits-IsWord 8 _ (bit_xor_fits 16 c b hc (omega arith))

pub crc_loop-IsWord : (c : ℕ) (bs : List ℕ) → IsWord c → All IsByte bs → IsWord (crc_loop c bs)
unfolding crc_loop
crc_loop-IsWord c [] hc h = hc
crc_loop-IsWord c (b ∷ bs) hc h = crc_loop-IsWord (crc_byte c b) bs (crc_byte-IsWord c b hc h.0) h.1

pub crc_byte_injective :
    (c d b : ℕ) → IsWord c → IsWord d → IsByte b → crc_byte c b ≡ crc_byte d b → c ≡ d
unfolding crc_byte
crc_byte_injective c d b hc hd hb e = bit_xor_injective_left c d b (
    crc_bits_injective 8 _ _ (bit_xor_fits 16 c b hc (omega arith))
      (bit_xor_fits 16 d b hd (omega arith)) e)

-- Two registers that differ still differ after any bytes.
pub crc_loop_injective :
    (c d : ℕ) (bs : List ℕ)
    → IsWord c
    → IsWord d
    → All IsByte bs
    → crc_loop c bs ≡ crc_loop d bs
    → c ≡ d
unfolding crc_loop
crc_loop_injective c d [] hc hd h e = e
crc_loop_injective c d (b ∷ bs) hc hd h e = crc_byte_injective c d b hc hd h.0 (
    crc_loop_injective (crc_byte c b) (crc_byte d b) bs (crc_byte-IsWord c b hc h.0)
      (crc_byte-IsWord d b hd h.0) h.1 e)

pub crc_loop-append : (c : ℕ) (xs ys : List ℕ) → crc_loop c (xs ++ ys) ≡ crc_loop (crc_loop c xs) ys
unfolding crc_loop
crc_loop-append c [] ys = refl
crc_loop-append c (x ∷ xs) ys = crc_loop-append (crc_byte c x) xs ys

-- The mask that two bytes make together, low byte first.
abbrev pub pair_mask : ℕ → ℕ → ℕ
pair_mask lo hi = 256 * hi + lo

bit_xor_merge :
    (c lo hi : ℕ) → IsByte lo → bit_xor (bit_xor c lo) (2 ^ 8 * hi) ≡ bit_xor c (pair_mask lo hi)
bit_xor_merge c lo hi h =
    bit_xor_assoc c lo (2 ^ 8 * hi)
    ∙ ap (bit_xor c) (bit_xor_comm lo (2 ^ 8 * hi) ∙ bit_xor_fields 8 hi lo h)

-- Two bytes are one mask of 16 bits and 16 rounds.
pub crc_byte_twice :
    (c lo hi : ℕ)
    → IsByte lo
    → crc_byte (crc_byte c lo) hi ≡ crc_bits 8 (crc_bits 8 (bit_xor c (pair_mask lo hi)))
unfolding crc_byte
crc_byte_twice c lo hi h =
    ap (crc_bits 8)
      (sym (crc_bits_mask 8 (bit_xor c lo) hi) ∙ ap (crc_bits 8) (bit_xor_merge c lo hi h))

-- The register is 0 after two bytes only where they are the register's own bytes.
pub crc_byte_twice-zero :
    (c lo hi : ℕ)
    → IsWord c
    → IsByte lo
    → IsByte hi
    → (crc_byte (crc_byte c lo) hi ≡ 0) ↔ (c ≡ pair_mask lo hi)
crc_byte_twice-zero c lo hi hc hlo hhi = (only_own, own)
  where
    fits : IsWord (bit_xor c (pair_mask lo hi))
    fits = bit_xor_fits 16 c (pair_mask lo hi) hc (omega arith)

    only_own : crc_byte (crc_byte c lo) hi ≡ 0 → c ≡ pair_mask lo hi
    only_own e = eq_of_bit_xor c (pair_mask lo hi) (
        crc_bits_injective 8 _ 0 fits (omega arith) (
          crc_bits_injective 8 _ (crc_bits 8 0) (crc_bits-IsWord 8 _ fits)
            (crc_bits-IsWord 8 0 (omega arith))
            (sym (crc_byte_twice c lo hi hlo)
              ∙ e
              ∙ sym (ap (crc_bits 8) (crc_bits-zero 8) ∙ crc_bits-zero 8))))

    own : c ≡ pair_mask lo hi → crc_byte (crc_byte c lo) hi ≡ 0
    own e =
        crc_byte_twice c lo hi hlo
        ∙ ap (λ (t : ℕ). crc_bits 8 (crc_bits 8 t))
            (ap (λ (t : ℕ). bit_xor t (pair_mask lo hi)) e ∙ bit_xor_self (pair_mask lo hi))
        ∙ ap (crc_bits 8) (crc_bits-zero 8)
        ∙ crc_bits-zero 8
