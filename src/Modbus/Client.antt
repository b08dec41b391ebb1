-- ===== src/Modbus/Client.antt =====
-- internal/modbus/client.go: one request and its answer, with retries. The transport is the
-- interface of the source, as a record of operations on a state of its own; time is in nanoseconds.
pub mod Retries
pub mod Answers
use Prim.Native.Nat.{bit_and}
use freeway_pi.Base.{
  ℕ, zero, suc, ◌+◌, ◌-◌, ◌*◌, ◌/◌, ◌%◌, ◌^◌, ◌≤◌, ◌<◌, min, max, ◌≡◌, refl, sym, ap, ap₂, subst,
  ◌∙◌, fun_ext, ◌≢◌, ◌↔◌, ◌⊎◌, inl, inr, Bool, true, false, not, ◌&&◌, ◌||◌, Option, none, some,
  List, [], ◌∷◌, ◌++◌, map, arith, ltb, leb, ◌==◌, if◌then◌else◌, ltb→lt, lt→ltb, leb→le, ==_iff,
  Bool-cases, Option-cases, nonzero, length, get_or, set, take, drop, replicate, length-append,
  length-take, length-drop, length-replicate, take-append, drop-append, All, length-map, All-append,
  All-append_left, All-append_right, length-set, get_or-set_self, get_or-set_ne, get_or-drop,
  drop-nil, drop-drop, Result, ◌>>=◌, ◌>>◌, fail_if, ok, err,
}
use freeway_pi.Modbus.Crc.{append_crc}
use freeway_pi.Modbus.Pdu.{
  Error, exception, timeout, transport, drain_failed, write_failed, truncated, is_exception,
  fc_read_coils, fc_read_holding_registers, fc_read_input_registers, fc_write_single_coil,
  fc_write_single_register, fc_write_multiple_coils, fc_write_multiple_registers,
}
use freeway_pi.Modbus.Rtu.{
  exception_len, response_len, parse_response, decode_registers, decode_bits, build_read,
  build_write_single_register, build_write_single_coil, build_write_multiple_registers,
  build_write_multiple_coils,
}
use freeway_pi.Modbus.Tcp.{request_quantity, exception_pdu}

-- What `ReadFull` of a transport reports: its deadline, or an error of its own.
pub data ReadError : Type 0 where
  deadline_exceeded : ReadError
  other : (code : ℕ) → ReadError

pub record Transport : Type 1 where
  pub World : Type 0
  pub now : World → ℕ
  pub sleep : ℕ → World → World
  pub drain : World → Option ℕ × World
  pub write : List ℕ → World → Option ℕ × World
  pub read_full : ℕ → ℕ → World → Result ReadError (List ℕ) × World

pub record Exchange : Type 0 where
  pub request : List ℕ
  pub response : List ℕ
  pub turnaround : ℕ
  pub error : Option Error
  pub attempt : ℕ

pub record Client : Type 0 where
  pub slave : ℕ
  pub timeout_ns : ℕ
  pub inter_frame : ℕ
  pub retries : ℕ
  pub last_done : ℕ

unfoldable pub normalize_read_err : ReadError → Error
normalize_read_err deadline_exceeded = timeout
normalize_read_err (other code) = transport code

-- The cause that a truncated answer's error wraps.
truncation_cause : ReadError → Option ℕ
truncation_cause deadline_exceeded = none
truncation_cause (other code) = some code

unfoldable pub error_of : Result Error (List ℕ) → Option Error
error_of (ok payload) = none
error_of (err e) = some e

module _ (t : Transport) where
  open t use {World, now, sleep, drain, write, read_full}

  -- What one attempt leaves: the payload or the error, the record handed to `OnExchange`, the client
  -- with its `lastDone`, and the transport.
  pub record Outcome : Type 0 where
    pub result : Result Error (List ℕ)
    pub exchange : Exchange
    pub client : Client
    pub world : World

  -- One attempt's end. `stop` is the time behind the last read, and `lastDone` is taken after it.
  finish : Client → List ℕ → ℕ → List ℕ → ℕ → Result Error (List ℕ) → World → Outcome
  unfolding error_of
  finish c request n response turnaround result w = record {
    result = result;
    exchange = record {
      request = request;
      response = response;
      turnaround = turnaround;
      error = error_of result;
      attempt = n;
    };
    client = record c { last_done = now w };
    world = w;
  }

  -- Behind the read of the rest of the frame.
  after_rest :
      Client → ℕ → List ℕ → ℕ → ℕ → ℕ → List ℕ → ℕ → Result ReadError (List ℕ) × World → Outcome
  unfolding finish truncation_cause
  after_rest c slave request fc n start head total (ok rest, w) =
      finish c request n (head ++ rest) (now w - start) (parse_response (head ++ rest) slave fc) w
  after_rest c slave request fc n start head total (err e, w) =
      finish c request n head (now w - start) (err (truncated total (truncation_cause e))) w

  -- The length of the whole frame, by its second byte.
  frame_length : ℕ → ℕ → ℕ → Result Error ℕ
  frame_length second fc quantity =
      if nonzero (bit_and second 0x80) then ok exception_len else response_len fc quantity

  read_rest : Client → ℕ → List ℕ → ℕ → ℕ → ℕ → ℕ → List ℕ → Result Error ℕ → World → Outcome
  unfolding finish after_rest
  read_rest c slave request fc n start deadline head (ok total) w =
      after_rest c slave request fc n start head total (read_full (total - 2) deadline w)
  read_rest c slave request fc n start deadline head (err e) w =
      finish c request n [] (now w - start) (err e) w

  -- Behind the read of the two bytes of the header.
  after_head : Client → ℕ → List ℕ → ℕ → ℕ → ℕ → ℕ → ℕ → Result ReadError (List ℕ) × World → Outcome
  unfolding finish read_rest frame_length normalize_read_err
  after_head c slave request fc quantity n start deadline (ok head, w) =
      read_rest c slave request fc n start deadline head
        (frame_length (get_or head 1 0) fc quantity) w
  after_head c slave request fc quantity n start deadline (err e, w) =
      finish c request n [] (now w - start) (err (normalize_read_err e)) w

  after_write : Client → ℕ → List ℕ → ℕ → ℕ → ℕ → Option ℕ × World → Outcome
  unfolding finish after_head
  after_write c slave request fc quantity n (some code, w) =
      finish c request n [] 0 (err (write_failed code)) w
  after_write c slave request fc quantity n (none, w) =
      after_head c slave request fc quantity n (now w) (now w + c.timeout_ns)
        (read_full 2 (now w + c.timeout_ns) w)

  after_drain : Client → ℕ → List ℕ → ℕ → ℕ → ℕ → Option ℕ × World → Outcome
  unfolding finish after_write
  after_drain c slave request fc quantity n (some code, w) =
      finish c request n [] 0 (err (drain_failed code)) w
  after_drain c slave request fc quantity n (none, w) =
      after_write c slave request fc quantity n (write request w)

  -- `time.Until(lastDone + InterFrame)`, slept out where it is positive.
  unfoldable pub keep_gap : Client → World → World
  keep_gap c w =
      if ltb (now w) (c.last_done + c.inter_frame)
      then sleep (c.last_done + c.inter_frame - now w) w
      else w

  unfoldable pub attempt : Client → ℕ → List ℕ → ℕ → ℕ → ℕ → World → Outcome
  unfolding after_drain keep_gap
  attempt c slave request fc quantity n w =
      after_drain c slave request fc quantity n (drain (keep_gap c w))

  -- What a run of attempts leaves; `exchanges` is what `OnExchange` was called with, in order.
  pub record Run : Type 0 where
    pub result : Result Error (List ℕ)
    pub exchanges : List Exchange
    pub client : Client
    pub world : World

  add_exchange : Exchange → Run → Run
  add_exchange ex r = record r { exchanges = ex ∷ r.exchanges }

  -- `return nil, lastErr`; no error yet is Go's nil.
  give_up : Option Error → Result Error (List ℕ)
  give_up none = ok []
  give_up (some e) = err e

  -- A run that ends with this attempt.
  stop : Outcome → Run
  stop o = record {
    result = o.result;
    exchanges = o.exchange ∷ [];
    client = o.client;
    world = o.world;
  }

  -- What follows an attempt: an answer ends the run, an exception too, and any other error goes on to
  -- the rest of the loop.
  conclude : Outcome → Run → Result Error (List ℕ) → Run
  unfolding add_exchange stop is_exception
  conclude o rest (ok payload) = stop o
  conclude o rest (err e) = if is_exception e then stop o else add_exchange o.exchange rest

  -- The loop of `executeAs`: `left` attempts are left and this is number `n`.
  unfoldable pub execute_loop :
      (left n : ℕ) → Option Error → Client → ℕ → List ℕ → ℕ → ℕ → World → Run
  unfolding give_up conclude error_of
  execute_loop zero n last c slave request fc quantity w = record {
    result = give_up last;
    exchanges = [];
    client = c;
    world = w;
  }
  execute_loop (suc left) n last c slave request fc quantity w =
      let o = attempt c slave request fc quantity n w in
      let rest =
        execute_loop left (n + 1) (error_of o.result) o.client slave request fc quantity o.world in
      conclude o rest o.result

  unfoldable pub execute_as : Client → ℕ → List ℕ → ℕ → ℕ → World → Run
  execute_as c slave request fc quantity w =
      execute_loop (c.retries + 1) 0 none c slave request fc quantity w

  unfoldable pub execute : Client → List ℕ → ℕ → ℕ → World → Run
  unfolding execute_as
  execute c request fc quantity w = execute_as c c.slave request fc quantity w

  -- A read's values, or the error of the run or of the decoding.
  unfoldable pub read_holding : Client → ℕ → ℕ → World → Result Error (List ℕ) × Run
  unfolding execute
  read_holding c addr quantity w =
      let r =
        execute c (build_read c.slave fc_read_holding_registers addr quantity)
          fc_read_holding_registers quantity w in
      (r.result >>= (λ payload. decode_registers payload quantity), r)

  pub read_input : Client → ℕ → ℕ → World → Result Error (List ℕ) × Run
  unfolding execute
  read_input c addr quantity w =
      let r =
        execute c (build_read c.slave fc_read_input_registers addr quantity) fc_read_input_registers
          quantity w in
      (r.result >>= (λ payload. decode_registers payload quantity), r)

  unfoldable pub read_coils : Client → ℕ → ℕ → World → Result Error (List Bool) × Run
  unfolding execute
  read_coils c addr quantity w =
      let r = execute c (build_read c.slave fc_read_coils addr quantity) fc_read_coils quantity w in
      (r.result >>= (λ payload. decode_bits payload quantity), r)

  -- The writes: the error is the run's, and the echo is not looked at.
  unfoldable pub write_single_register : Client → ℕ → ℕ → World → Run
  unfolding execute
  write_single_register c addr value w =
      execute c (build_write_single_register c.slave addr value) fc_write_single_register 1 w

  unfoldable pub write_single_coil : Client → ℕ → Bool → World → Run
  unfolding execute
  write_single_coil c addr on w =
      execute c (build_write_single_coil c.slave addr on) fc_write_single_coil 1 w

  unfoldable pub write_registers : Client → ℕ → List ℕ → World → Run
  unfolding execute
  write_registers c addr values w =
      execute c (build_write_multiple_registers c.slave addr values) fc_write_multiple_registers
        (length values % 65536) w

  unfoldable pub write_coils : Client → ℕ → List Bool → World → Run
  unfolding execute
  write_coils c addr values w =
      execute c (build_write_multiple_coils c.slave addr values) fc_write_multiple_coils
        (length values % 65536) w

  -- The unit's payload as a PDU again: its exceptions are answers, and the rest are failures.
  unfoldable pub pdu_of : ℕ → Result Error (List ℕ) → Result Error (List ℕ)
  pdu_of fc (ok payload) = ok (fc ∷ payload)
  pdu_of fc (err (exception function code)) = ok (exception_pdu function code)
  pdu_of fc (err e) = err e

  -- Behind the sizing of the request, which makes no attempt where it fails.
  send_sized : Client → ℕ → List ℕ → World → Result Error ℕ → Run
  unfolding execute_as pdu_of
  send_sized c unit pdu w (err e) = record { result = err e; exchanges = []; client = c; world = w }
  send_sized c unit pdu w (ok quantity) =
      let fc = get_or pdu 0 0 in
      let r = execute_as c unit (append_crc (unit ∷ pdu)) fc quantity w in
      record r { result = pdu_of fc r.result }

  -- The gateway's path.
  unfoldable pub execute_pdu : Client → ℕ → List ℕ → World → Run
  unfolding send_sized
  execute_pdu c unit pdu w = send_sized c unit pdu w (request_quantity pdu)
