-- ===== src/Modbus/Crc.antt =====
-- internal/modbus/crc.go. A byte slice is a list of numbers below 256, a uint16 a number.
pub mod Linear
pub mod Residue
use Prim.Native.Nat.{bit_and, bit_xor}
use freeway_pi.Base.{
  ℕ, zero, suc, ◌+◌, ◌-◌, ◌*◌, ◌/◌, ◌%◌, ◌^◌, ◌≤◌, ◌<◌, min, max, ◌≡◌, refl, sym, ap, ap₂, subst,
  ◌∙◌, fun_ext, ◌≢◌, ◌↔◌, ◌⊎◌, inl, inr, Bool, true, false, not, ◌&&◌, ◌||◌, Option, none, some,
  List, [], ◌∷◌, ◌++◌, map, arith, ltb, leb, ◌==◌, if◌then◌else◌, ltb→lt, lt→ltb, leb→le, ==_iff,
  Bool-cases, Option-cases, nonzero, length, get_or, set, take, drop, replicate, length-append,
  length-take, length-drop, length-replicate, take-append, drop-append, All, length-map, All-append,
  All-append_left, All-append_right, length-set, get_or-set_self, get_or-set_ne, get_or-drop,
  drop-nil, drop-drop, Result, ◌>>=◌, ◌>>◌, fail_if, ok, err,
}

abbrev pub IsByte : ℕ → Type 0
IsByte b = b < 256

abbrev pub IsWord : ℕ → Type 0
IsWord w = w < 65536

-- The body of the inner loop: `crc >> 1`, and the polynomial where the bit that went out was 1.
unfoldable pub crc_bit : ℕ → ℕ
crc_bit crc = if nonzero (bit_and crc 1) then bit_xor (crc / 2) 0xA001 else crc / 2

unfoldable pub crc_bits : ℕ → ℕ → ℕ
crc_bits zero crc = crc
crc_bits (suc n) crc = crc_bits n (crc_bit crc)

-- The body of the outer loop.
unfoldable pub crc_byte : ℕ → ℕ → ℕ
crc_byte crc b = crc_bits 8 (bit_xor crc b)

unfoldable pub crc_loop : ℕ → List ℕ → ℕ
crc_loop crc [] = crc
crc_loop crc (b ∷ rest) = crc_loop (crc_byte crc b) rest

unfoldable pub crc16 : List ℕ → ℕ
crc16 buf = crc_loop 0xFFFF buf

unfoldable pub append_crc : List ℕ → List ℕ
append_crc buf = let crc = crc16 buf in buf ++ crc % 256 ∷ crc / 256 % 256 ∷ []

unfoldable pub check_crc : List ℕ → Bool
check_crc frame =
    if ltb (length frame) 3
    then false
    else (let body = take (length frame - 2) frame in
        let sum = drop (length frame - 2) frame in
        let crc = crc16 body in get_or sum 0 0 == crc % 256 && get_or sum 1 0 == crc / 256 % 256)
