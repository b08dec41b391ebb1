-- ===== src/Modbus/Tcp.antt =====
-- internal/modbus/tcp.go: frames on the network. A reader is the list of bytes that are still to
-- come before its end.
pub mod RoundTrip
use Prim.Native.Nat.{bit_or}
use freeway_pi.Base.{
  ℕ, ◌+◌, ◌-◌, ◌*◌, Bool, ◌||◌, not, List, [], ◌∷◌, ◌++◌, ltb, ◌==◌, if◌then◌else◌, length, get_or,
  take, drop, ◌%◌, Result, ok, err, ◌>>=◌, ◌>>◌, fail_if,
}
use freeway_pi.Modbus.Pdu.{
  Error, eof, unexpected_eof, bad_protocol, length_too_small, pdu_too_long, empty_pdu,
  short_request, unsupported_function, fc_read_coils, fc_read_discrete_inputs,
  fc_read_holding_registers, fc_read_input_registers, fc_write_single_coil,
  fc_write_single_register, fc_write_multiple_coils, fc_write_multiple_registers,
}
use freeway_pi.Modbus.Rtu.{be16, word_at}

abbrev pub mbap_header_len : ℕ
mbap_header_len = 7

abbrev pub max_pdu_len : ℕ
max_pdu_len = 253

pub record TcpFrame : Type 0 where
  pub transaction : ℕ
  pub unit : ℕ
  pub pdu : List ℕ

-- `io.ReadFull` into a buffer of `n` bytes, `n` not 0: the bytes and what is left, `eof` where the
-- reader has ended, and `unexpected_eof` where it ends inside the buffer.
unfoldable pub read_full : ℕ → List ℕ → Result Error (List ℕ × List ℕ)
read_full n r =
    if length r == 0
    then err eof
    else if ltb (length r) n
    then err unexpected_eof
    else ok (take n r, drop n r)

-- The second `ReadFull` of `ReadTCPFrame`: an end there is never a clean one.
read_body : ℕ → List ℕ → Result Error (List ℕ × List ℕ)
read_body n r = elim (read_full n r) [
  | ok p ↦ ok p
  | err eof ↦ err unexpected_eof
  | err other ↦ err other
]

unfoldable pub read_tcp_frame : List ℕ → Result Error (TcpFrame × List ℕ)
unfolding read_full read_body
read_tcp_frame r = do
  (head, body) ← read_full mbap_header_len r
  fail_if (not (word_at head 2 == 0)) (bad_protocol (word_at head 2))
  fail_if (ltb (word_at head 4) 2) (length_too_small (word_at head 4))
  let pdu_len = word_at head 4 - 1
  fail_if (ltb max_pdu_len pdu_len) (pdu_too_long pdu_len)
  (pdu, rest) ← read_body pdu_len body
  ok (record { transaction = word_at head 0; unit = get_or head 6 0; pdu = pdu }, rest)

unfoldable pub encode : TcpFrame → List ℕ
encode f = be16 f.transaction ++ (be16 0 ++ (be16 ((length f.pdu + 1) % 65536) ++ (f.unit ∷ f.pdu)))

unfoldable pub exception_pdu : ℕ → ℕ → List ℕ
exception_pdu fc code = bit_or fc 0x80 ∷ code ∷ []

-- The two groups of the `switch`: requests with a count, and single writes.
abbrev pub has_quantity : ℕ → Bool
has_quantity fc =
    fc == fc_read_coils
    || (fc == fc_read_discrete_inputs
        || (fc == fc_read_holding_registers
            || (fc == fc_read_input_registers
                || (fc == fc_write_multiple_coils || fc == fc_write_multiple_registers))))

abbrev pub is_single_write : ℕ → Bool
is_single_write fc = fc == fc_write_single_coil || fc == fc_write_single_register

unfoldable pub request_quantity : List ℕ → Result Error ℕ
request_quantity [] = err empty_pdu
request_quantity (fc ∷ args) =
    if has_quantity fc
    then (if ltb (length (fc ∷ args)) 5
        then err (short_request fc (length (fc ∷ args)))
        else ok (word_at (fc ∷ args) 3))
    else if is_single_write fc
    then (if ltb (length (fc ∷ args)) 5 then err (short_request fc (length (fc ∷ args))) else ok 1)
    else err (unsupported_function fc)
