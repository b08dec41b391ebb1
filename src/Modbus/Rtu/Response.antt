-- ===== src/Modbus/Rtu/Response.antt =====
-- What `parse_response` accepts and refuses.
use Prim.Native.Nat.{bit_and, bit_or}
use freeway_pi.Base.{
  ℕ, zero, suc, ◌+◌, ◌-◌, ◌/◌, ◌%◌, ◌≤◌, ◌<◌, ◌≡◌, refl, sym, ap, ap₂, ◌∙◌, true, List, [], ◌∷◌,
  ◌++◌, arith, nonzero, length, get_or, take, drop, length-append, length-drop, take-append, All,
  ok, err,
}
use freeway_pi.Base.Bits.{bit_and_low, bit_and_top, bit_or_top}
use freeway_pi.Modbus.Crc.{IsByte, append_crc, check_crc, crc16}
use freeway_pi.Modbus.Crc.Residue.{check_crc-append_crc}
use freeway_pi.Modbus.Pdu.{exception}
use freeway_pi.Modbus.Rtu.{parse_response}

length-append_crc : (buf : List ℕ) → length (append_crc buf) ≡ length buf + 2
unfolding append_crc
length-append_crc buf = length-append buf _

take-append_crc : (buf : List ℕ) → take (length (append_crc buf) - 2) (append_crc buf) ≡ buf
unfolding append_crc
take-append_crc buf = take-append _ buf _ (omega (arith, length-append_crc buf))

-- A frame of the expected unit and function gives its payload back.
parse_response-append_crc :
    (slave fc : ℕ) (payload : List ℕ)
    → IsByte slave
    → fc < 128
    → All IsByte payload
    → 1 ≤ length payload
    → parse_response (append_crc (slave ∷ fc ∷ payload)) slave fc ≡ ok payload
unfolding parse_response append_crc
parse_response-append_crc slave fc payload hs hf hp h = ground (
  arith,
  length-append payload
      (crc16 (slave ∷ fc ∷ payload) % 256 ∷ crc16 (slave ∷ fc ∷ payload) / 256 % 256 ∷ []),
  length-append_crc (slave ∷ fc ∷ payload),
  check_crc-append_crc (slave ∷ fc ∷ payload),
  take-append_crc (slave ∷ fc ∷ payload),
  bit_and_top fc,
)

-- The unit's refusal comes back as the exception it is.
parse_response_exception :
    (slave fc code : ℕ)
    → IsByte slave
    → fc < 128
    → IsByte code
    → parse_response (append_crc (slave ∷ bit_or fc 0x80 ∷ code ∷ [])) slave fc
      ≡ err (exception fc code)
unfolding parse_response append_crc
parse_response_exception slave fc code hs hf hc = ground (
  arith,
  check_crc-append_crc (slave ∷ bit_or fc 0x80 ∷ code ∷ []),
  bit_or_top fc,
  bit_and_top (fc + 128),
  bit_and_low (fc + 128),
)

two_left : (xs : List ℕ) → length xs ≡ 2 → xs ≡ get_or xs 0 0 ∷ get_or xs 1 0 ∷ []
two_left [] h = absurd (omega arith)
two_left (a ∷ []) h = absurd (omega arith)
two_left (a ∷ b ∷ []) h = refl
two_left (a ∷ b ∷ c ∷ xs) h = absurd (omega arith)

take-append-drop : (n : ℕ) (xs : List ℕ) → take n xs ++ drop n xs ≡ xs
take-append-drop zero xs = refl
take-append-drop (suc n) [] = refl
take-append-drop (suc n) (x ∷ xs) = ap (◌∷◌ x) (take-append-drop n xs)

-- What the check accepts is what `AppendCRC` makes.
check_crc-only :
    (frame : List ℕ) → check_crc frame ≡ true → frame ≡ append_crc (take (length frame - 2) frame)
unfolding check_crc append_crc
check_crc-only frame h =
    sym (take-append-drop (length frame - 2) frame)
    ∙ ap (◌++◌ (take (length frame - 2) frame))
        (two_left _ two ∙ ap₂ (λ x y. x ∷ y ∷ []) (sums h).0 (sums h).1)
  where
    two : length (drop (length frame - 2) frame) ≡ 2
    two = ground (arith, length-drop (length frame - 2) frame)

    sums :
        check_crc frame ≡ true
        → (get_or (drop (length frame - 2) frame) 0 0 ≡ crc16 (take (length frame - 2) frame) % 256)
          × (get_or (drop (length frame - 2) frame) 1 0
              ≡ crc16 (take (length frame - 2) frame) / 256 % 256)
    sums h = ground arith

head_two :
    (n : ℕ) (xs : List ℕ)
    → 2 ≤ n
    → n ≤ length xs
    → take n xs ≡ get_or xs 0 0 ∷ get_or xs 1 0 ∷ drop 2 (take n xs)
head_two zero xs h l = absurd (omega arith)
head_two (suc zero) xs h l = absurd (omega arith)
head_two (suc (suc n)) [] h l = absurd (omega arith)
head_two (suc (suc n)) (a ∷ []) h l = absurd (omega arith)
head_two (suc (suc n)) (a ∷ b ∷ xs) h l = refl

-- A payload comes only from the frame that carries it: the unit's address, the function, the payload
-- and its checksum, and nothing else.
pub parse_response_sound :
    (frame : List ℕ) (slave fc : ℕ) (payload : List ℕ)
    → parse_response frame slave fc ≡ ok payload
    → frame ≡ append_crc (slave ∷ fc ∷ payload)
unfolding parse_response
parse_response_sound frame slave fc payload h =
    ground (arith, check_crc-only frame, head_two (length frame - 2) frame)

three_bytes :
    (frame : List ℕ)
    → length frame ≡ 5
    → take (length frame - 2) frame ≡ get_or frame 0 0 ∷ get_or frame 1 0 ∷ get_or frame 2 0 ∷ []
three_bytes [] h = absurd (omega arith)
three_bytes (a ∷ []) h = absurd (omega arith)
three_bytes (a ∷ b ∷ []) h = absurd (omega arith)
three_bytes (a ∷ b ∷ c ∷ []) h = absurd (omega arith)
three_bytes (a ∷ b ∷ c ∷ d ∷ []) h = absurd (omega arith)
three_bytes (a ∷ b ∷ c ∷ d ∷ e ∷ []) h = refl
three_bytes (a ∷ b ∷ c ∷ d ∷ e ∷ f ∷ xs) h = absurd (omega arith)

get_or-IsByte : (bs : List ℕ) (i : ℕ) → All IsByte bs → get_or bs i 0 < 256
get_or-IsByte [] i h = omega arith
get_or-IsByte (b ∷ bs) zero h = h.0
get_or-IsByte (b ∷ bs) (suc i) h = get_or-IsByte bs i h.1

-- An exception comes only from the frame of five bytes that carries it.
pub parse_response_exception_sound :
    (frame : List ℕ) (slave fc function code : ℕ)
    → length frame ≡ 5
    → All IsByte frame
    → parse_response frame slave fc ≡ err (exception function code)
    → (frame ≡ append_crc (slave ∷ bit_or fc 0x80 ∷ code ∷ [])) × (function ≡ fc)
unfolding parse_response
parse_response_exception_sound frame slave fc function code h hb e = ground (
  arith,
  check_crc-only frame,
  three_bytes frame h,
  get_or-IsByte frame 1 hb,
  bit_and_low (get_or frame 1 0),
  bit_and_top (get_or frame 1 0),
  bit_or_top fc,
)

-- Only a frame whose second byte has its top bit set is read as an exception.
pub parse_response_exception_bit :
    (frame : List ℕ) (slave fc function code : ℕ)
    → parse_response frame slave fc ≡ err (exception function code)
    → nonzero (bit_and (get_or frame 1 0) 0x80) ≡ true
unfolding parse_response
parse_response_exception_bit frame slave fc function code e = ground arith
