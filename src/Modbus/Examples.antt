-- ===== src/Modbus/Examples.antt =====
-- Runs of the protocol code, and its theorems at concrete inputs.
use freeway_pi.Base.{
  ℕ, zero, suc, ◌+◌, ◌≡◌, refl, subst, inl, inr, Bool, true, false, none, List, [], ◌∷◌, ◌++◌,
  arith, leb, if◌then◌else◌, Bool-cases, length, take, drop, length-take, length-drop, All, Result,
  ok, err,
}
use freeway_pi.Modbus.Crc.{
  IsByte, crc16, crc_loop, crc_byte, crc_bits, crc_bit, append_crc, check_crc,
}
use freeway_pi.Modbus.Crc.Residue.{check_crc_detects}
use freeway_pi.Modbus.Rtu.{pack_loop, pack_coils, parse_response, response_len}
use freeway_pi.Modbus.Tcp.{request_quantity, TcpFrame, read_tcp_frame, encode}
use freeway_pi.Modbus.Tcp.RoundTrip.{read_tcp_frame-encode}
use freeway_pi.Modbus.Client.{
  Transport, Client, ReadError, deadline_exceeded, execute_as, execute_loop, attempt, execute_pdu,
}
use freeway_pi.Modbus.Client.Retries.{Story, execute_as-Story}
use freeway_pi.Modbus.Client.Answers.{FillsBuffers, last_response, execute_pdu_transparent}

-- The answer of unit 1 to a read of one holding register that holds 210.
abbrev answer_body : List ℕ
answer_body = 1 ∷ 3 ∷ 2 ∷ 0 ∷ 210 ∷ []

abbrev answer : List ℕ
answer = 1 ∷ 3 ∷ 2 ∷ 0 ∷ 210 ∷ 0x38 ∷ 0x19 ∷ []

answer_made : append_crc answer_body ≡ answer
unfolding append_crc crc16 crc_loop crc_byte crc_bits crc_bit
answer_made = refl

answer_checked : check_crc answer ≡ true
unfolding check_crc crc16 crc_loop crc_byte crc_bits crc_bit
answer_checked = refl

answer_bytes : All IsByte answer
answer_bytes = omega arith

-- The value 210 read as 211.
check_crc_detects_example : check_crc (1 ∷ 3 ∷ 2 ∷ 0 ∷ 211 ∷ 0x38 ∷ 0x19 ∷ []) ≡ false
check_crc_detects_example =
    check_crc_detects (1 ∷ 3 ∷ 2 ∷ []) (0x38 ∷ 0x19 ∷ []) 0 210 0 211 answer_bytes (omega arith)
      (omega arith) (inr (omega arith)) answer_checked

abbrev coils : List Bool
coils = true ∷ false ∷ true ∷ true ∷ false ∷ false ∷ false ∷ false ∷ true ∷ []

coils_packed : pack_coils coils ≡ 13 ∷ 1 ∷ []
unfolding pack_coils pack_loop
coils_packed = refl

abbrev request : TcpFrame
request = record { transaction = 7; unit = 1; pdu = 3 ∷ 0 ∷ 135 ∷ 0 ∷ 1 ∷ [] }

request_encoded : encode request ≡ 0 ∷ 7 ∷ 0 ∷ 0 ∷ 0 ∷ 6 ∷ 1 ∷ 3 ∷ 0 ∷ 135 ∷ 0 ∷ 1 ∷ []
unfolding encode
request_encoded = refl

read_tcp_frame-encode_example : read_tcp_frame (encode request ++ 9 ∷ []) ≡ ok (request, 9 ∷ [])
read_tcp_frame-encode_example = read_tcp_frame-encode request (9 ∷ []) (omega arith)

abbrev stream : List ℕ
stream = 0 ∷ 7 ∷ 0 ∷ 0 ∷ 0 ∷ 6 ∷ 1 ∷ 3 ∷ 0 ∷ 135 ∷ 0 ∷ 1 ∷ 9 ∷ []

stream_read : read_tcp_frame stream ≡ ok (request, 9 ∷ [])
unfolding read_tcp_frame
stream_read = refl

-- A line on which the unit sends one answer, again and again; the state is how much of it is read.
abbrev replay : List ℕ → ℕ → ℕ → Result ReadError (List ℕ) × ℕ
replay bytes n pos =
    if leb (pos + n) (length bytes)
    then (ok (take n (drop pos bytes)), pos + n)
    else (err deadline_exceeded, 0)

abbrev line : Transport
line = record {
  World = ℕ;
  now = λ w. 0;
  sleep = λ d w. w;
  drain = λ w. (none, 0);
  write = λ p w. (none, w);
  read_full = λ n deadline w. replay answer n w;
}

All-take : (n : ℕ) (xs : List ℕ) → All IsByte xs → All IsByte (take n xs)
All-take zero xs h = tt
All-take (suc n) [] h = tt
All-take (suc n) (x ∷ xs) h = (h.0, All-take n xs h.1)

All-drop : (n : ℕ) (xs : List ℕ) → All IsByte xs → All IsByte (drop n xs)
All-drop zero xs h = h
All-drop (suc n) [] h = tt
All-drop (suc n) (x ∷ xs) h = All-drop n xs h.1

replay_filled :
    (bytes : List ℕ) (n pos : ℕ) (p : List ℕ)
    → All IsByte bytes
    → (replay bytes n pos).0 ≡ ok p
    → (length p ≡ n) × All IsByte p
replay_filled bytes n pos p h e = elim (Bool-cases (leb (pos + n) (length bytes))) [
  | inl fits ↦ got fits (rw fits at e)
  | inr short ↦ cc (rw short at e)
]
  where
    got :
        leb (pos + n) (length bytes) ≡ true
        → ◌≡◌ {A = Result ReadError (List ℕ)} (ok (take n (drop pos bytes))) (ok p)
        → (length p ≡ n) × All IsByte p
    got fits same =
        let e : take n (drop pos bytes) ≡ p = cc same in
        subst (λ (q : List ℕ). (length q ≡ n) × All IsByte q) e
          (
            ground (arith, length-take n (drop pos bytes), length-drop pos bytes),
            All-take n (drop pos bytes) (All-drop pos bytes h),
          )

line_fills : FillsBuffers line
line_fills = record { filled = λ n deadline w p e. replay_filled answer n w p answer_bytes e }

abbrev master : Client
master = record { slave = 1; timeout_ns = 1000; inter_frame = 10; retries = 2; last_done = 0 }

execute_as-Story_example :
    Story 3 0
      (execute_as line master 1 (1 ∷ []) 3 1 0).exchanges
      (execute_as line master 1 (1 ∷ []) 3 1 0).result
execute_as-Story_example = execute_as-Story line master 1 (1 ∷ []) 3 1 0

answered : (execute_pdu line master 1 request.pdu 0).result ≡ ok (3 ∷ 2 ∷ 0 ∷ 210 ∷ [])
unfolding execute_pdu request_quantity execute_loop attempt response_len parse_response check_crc
    crc16 crc_loop crc_byte crc_bits crc_bit
answered = refl

execute_pdu_transparent_example :
    last_response (execute_pdu line master 1 request.pdu 0).exchanges
    ≡ append_crc (1 ∷ 3 ∷ 2 ∷ 0 ∷ 210 ∷ [])
execute_pdu_transparent_example =
    execute_pdu_transparent line line_fills master 1 request.pdu 0 (3 ∷ 2 ∷ 0 ∷ 210 ∷ []) answered

-- The check value of CRC-16/MODBUS, from the source's own test.
crc16_check_value : crc16 (49 ∷ 50 ∷ 51 ∷ 52 ∷ 53 ∷ 54 ∷ 55 ∷ 56 ∷ 57 ∷ []) ≡ 0x4B37
unfolding crc16 crc_loop crc_byte crc_bits crc_bit
crc16_check_value = refl
