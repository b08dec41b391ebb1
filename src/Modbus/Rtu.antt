-- ===== src/Modbus/Rtu.antt =====
-- internal/modbus/rtu.go: the frames on the serial line. A uint16 is a number below 65536, a byte
-- slice a list of numbers below 256.
pub mod Registers
pub mod Coils
pub mod Response
use Prim.Native.Nat.{bit_and, bit_or}
use freeway_pi.Base.{
  ℕ, zero, suc, ◌+◌, ◌-◌, ◌*◌, ◌/◌, ◌%◌, ◌^◌, ◌≤◌, ◌<◌, min, max, ◌≡◌, refl, sym, ap, ap₂, subst,
  ◌∙◌, fun_ext, ◌≢◌, ◌↔◌, ◌⊎◌, inl, inr, Bool, true, false, not, ◌&&◌, ◌||◌, Option, none, some,
  List, [], ◌∷◌, ◌++◌, map, arith, ltb, leb, ◌==◌, if◌then◌else◌, ltb→lt, lt→ltb, leb→le, ==_iff,
  Bool-cases, Option-cases, nonzero, length, get_or, set, take, drop, replicate, length-append,
  length-take, length-drop, length-replicate, take-append, drop-append, All, length-map, All-append,
  All-append_left, All-append_right, length-set, get_or-set_self, get_or-set_ne, get_or-drop,
  drop-nil, drop-drop, Result, ◌>>=◌, ◌>>◌, fail_if, ok, err,
}
use freeway_pi.Modbus.Crc.{append_crc, check_crc}
use freeway_pi.Modbus.Pdu.{
  Error, exception, no_response_length, short_frame, bad_crc, wrong_slave, wrong_exception,
  wrong_function, empty_payload, payload_length, fc_read_coils, fc_read_discrete_inputs,
  fc_read_holding_registers, fc_read_input_registers, fc_write_single_coil,
  fc_write_single_register, fc_write_multiple_coils, fc_write_multiple_registers,
}

-- `binary.BigEndian.AppendUint16` on an empty buffer.
abbrev pub be16 : ℕ → List ℕ
be16 v = v / 256 % 256 ∷ v % 256 ∷ []

-- `binary.BigEndian.Uint16` at an offset.
abbrev pub word_at : List ℕ → ℕ → ℕ
word_at bs i = get_or bs i 0 * 256 + get_or bs (i + 1) 0

unfoldable pub build_read : ℕ → ℕ → ℕ → ℕ → List ℕ
build_read slave fc addr quantity = append_crc (slave ∷ fc ∷ (be16 addr ++ be16 quantity))

unfoldable pub build_write_single_register : ℕ → ℕ → ℕ → List ℕ
build_write_single_register slave addr value =
    append_crc (slave ∷ fc_write_single_register ∷ (be16 addr ++ be16 value))

unfoldable pub build_write_single_coil : ℕ → ℕ → Bool → List ℕ
build_write_single_coil slave addr on =
    let v = if on then 0xFF00 else 0 in
    append_crc (slave ∷ fc_write_single_coil ∷ (be16 addr ++ be16 v))

unfoldable pub words_bytes : List ℕ → List ℕ
words_bytes [] = []
words_bytes (v ∷ vs) = be16 v ++ words_bytes vs

unfoldable pub build_write_multiple_registers : ℕ → ℕ → List ℕ → List ℕ
build_write_multiple_registers slave addr values = append_crc (
    slave
    ∷ fc_write_multiple_registers
    ∷ (be16 addr
        ++ (be16 (length values % 65536) ++ (2 * length values % 256 ∷ words_bytes values))))

-- The loop that sets one bit of `packed` for each value; `i` is the value's index.
unfoldable pub pack_loop : ℕ → List Bool → List ℕ → List ℕ
pack_loop i [] packed = packed
pack_loop i (v ∷ vs) packed =
    pack_loop (i + 1) vs
      (if v then set packed (i / 8) (bit_or (get_or packed (i / 8) 0) (2 ^ (i % 8))) else packed)

unfoldable pub pack_coils : List Bool → List ℕ
pack_coils values = pack_loop 0 values (replicate ((length values + 7) / 8) 0)

unfoldable pub build_write_multiple_coils : ℕ → ℕ → List Bool → List ℕ
build_write_multiple_coils slave addr values =
    let nbytes = (length values + 7) / 8 in
    append_crc (
      slave
      ∷ fc_write_multiple_coils
      ∷ (be16 addr ++ (be16 (length values % 65536) ++ (nbytes % 256 ∷ pack_coils values))))

-- `(quantity+7)/8` in uint16, so the sum wraps.
abbrev pub coil_bytes : ℕ → ℕ
coil_bytes quantity = (quantity + 7) % 65536 / 8

unfoldable pub response_len : ℕ → ℕ → Result Error ℕ
response_len fc quantity =
    if fc == fc_read_coils || fc == fc_read_discrete_inputs
    then ok (5 + coil_bytes quantity)
    else if fc == fc_read_holding_registers || fc == fc_read_input_registers
    then ok (5 + 2 * quantity)
    else if fc == fc_write_single_coil
        || (fc == fc_write_single_register
            || (fc == fc_write_multiple_coils || fc == fc_write_multiple_registers))
    then ok 8
    else err (no_response_length fc)

abbrev pub exception_len : ℕ
exception_len = 5

-- The part behind the slave check: an exception, or the payload without its checksum.
read_answer : List ℕ → ℕ → ℕ → Result Error (List ℕ)
read_answer frame fc got =
    if nonzero (bit_and got 0x80)
    then (if not (bit_and got 0x7f == fc)
        then err (wrong_exception (bit_and got 0x7f) fc)
        else err (exception fc (get_or frame 2 0)))
    else if not (got == fc)
    then err (wrong_function got fc)
    else ok (drop 2 (take (length frame - 2) frame))

unfoldable pub parse_response : List ℕ → ℕ → ℕ → Result Error (List ℕ)
unfolding read_answer
parse_response frame slave fc = do
  fail_if (ltb (length frame) exception_len) (short_frame (length frame))
  fail_if (not (check_crc frame)) (bad_crc (length frame))
  fail_if (not (get_or frame 0 0 == slave)) (wrong_slave (get_or frame 0 0) slave)
  read_answer frame fc (get_or frame 1 0)

-- The loop of `DecodeRegisters`, from index `i` for `n` rounds.
unfoldable pub decode_words : List ℕ → ℕ → ℕ → List ℕ
decode_words payload i zero = []
decode_words payload i (suc n) = word_at payload (1 + 2 * i) ∷ decode_words payload (i + 1) n

unfoldable pub decode_registers : List ℕ → ℕ → Result Error (List ℕ)
decode_registers payload quantity = do
  fail_if (ltb (length payload) 1) empty_payload
  let n = get_or payload 0 0
  fail_if (not (n == 2 * quantity) || ltb (length payload) (1 + n))
      (payload_length n (2 * quantity))
  ok (decode_words payload 0 quantity)

-- The loop of `DecodeBits`, from index `i` for `n` rounds.
unfoldable pub decode_flags : List ℕ → ℕ → ℕ → List Bool
decode_flags payload i zero = []
decode_flags payload i (suc n) =
    nonzero (bit_and (get_or payload (1 + i / 8) 0) (2 ^ (i % 8))) ∷ decode_flags payload (i + 1) n

unfoldable pub decode_bits : List ℕ → ℕ → Result Error (List Bool)
decode_bits payload quantity = do
  fail_if (ltb (length payload) 1) empty_payload
  let n = get_or payload 0 0
  let want = coil_bytes quantity
  fail_if (not (n == want) || ltb (length payload) (1 + n)) (payload_length n want)
  ok (decode_flags payload 0 quantity)
