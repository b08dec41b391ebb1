-- ===== src/Modbus/Client/Answers.antt =====
-- What the client hands back is what stood on the wire.
use Prim.Native.Nat.{bit_and, bit_or}
use freeway_pi.Base.{
  ℕ, zero, suc, ◌+◌, ◌-◌, ◌≤◌, ◌≡◌, refl, sym, ap, subst, ◌∙◌, ◌⊎◌, inl, inr, true, false, Option,
  none, some, List, [], ◌∷◌, ◌++◌, arith, Bool-cases, nonzero, length, get_or, length-append, All,
  All-append, Result, ok, err,
}
use freeway_pi.Modbus.Crc.{IsByte, append_crc}
use freeway_pi.Modbus.Pdu.{Error, exception, no_response_length, is_exception}
use freeway_pi.Modbus.Rtu.{parse_response, response_len}
use freeway_pi.Modbus.Tcp.{request_quantity, exception_pdu}
use freeway_pi.Modbus.Rtu.Response.{
  parse_response_sound, parse_response_exception_sound, parse_response_exception_bit,
}
use freeway_pi.Modbus.Client.Retries.{loop-Story, Story-length}
use freeway_pi.Modbus.Client.{
  Transport, Client, Exchange, Outcome, Run, ReadError, deadline_exceeded, other, error_of, attempt,
  execute_loop, execute_as, execute_pdu, send_sized, pdu_of, after_rest, read_rest, after_head,
  after_write, after_drain, conclude, give_up, keep_gap, frame_length,
}

-- What the source relies on of a transport: `ReadFull` fills the buffer or returns an error, and a
-- buffer holds bytes.
pub record FillsBuffers (t : Transport) : Type 0 where
  pub filled :
      (n deadline : ℕ) (w : t.World) (p : List ℕ)
      → (t.read_full n deadline w).0 ≡ ok p
      → (length p ≡ n) × All IsByte p

-- The result of a request to `slave` for function `fc` is what the frame says: a payload is its own
-- frame without the address, the function and the checksum, and an exception is the five bytes of
-- the unit's refusal.
abbrev pub Heard : ℕ → ℕ → Result Error (List ℕ) → List ℕ → Type 0
Heard slave fc (ok payload) frame = frame ≡ append_crc (slave ∷ fc ∷ payload)
Heard slave fc (err (exception function code)) frame =
    (frame ≡ append_crc (slave ∷ bit_or fc 0x80 ∷ code ∷ [])) × (function ≡ fc)
Heard slave fc (err _) frame = Unit {0}

head_of_two : (head rest : List ℕ) → length head ≡ 2 → get_or (head ++ rest) 1 0 ≡ get_or head 1 0
head_of_two [] rest h = absurd (omega arith)
head_of_two (a ∷ []) rest h = absurd (omega arith)
head_of_two (a ∷ b ∷ xs) rest h = refl

parse-Heard :
    (frame : List ℕ) (slave fc : ℕ) (r : Result Error (List ℕ))
    → parse_response frame slave fc ≡ r
    → All IsByte frame
    → (nonzero (bit_and (get_or frame 1 0) 0x80) ≡ true → length frame ≡ 5)
    → Heard slave fc r frame
parse-Heard frame slave fc (ok payload) e hb five = parse_response_sound frame slave fc payload e
parse-Heard frame slave fc (err (exception f code)) e hb five =
    parse_response_exception_sound frame slave fc f code
      (five (parse_response_exception_bit frame slave fc f code e)) hb e
parse-Heard frame slave fc (err _) e hb five = tt

-- The frame on the wire in the last exchange of a run.
abbrev pub last_response : List Exchange → List ℕ
last_response [] = []
last_response (ex ∷ []) = ex.response
last_response (ex ∷ more ∷ exs) = last_response (more ∷ exs)

module _ (t : Transport) (fills : FillsBuffers t) where
  open t use {World}

  module _ (c : Client) (slave : ℕ) (request : List ℕ) (fc quantity n : ℕ) where
    abbrev OutcomeHeard : Outcome t → Type 0
    OutcomeHeard o = Heard slave fc o.result o.exchange.response

    after_rest-Heard :
        (start : ℕ) (head : List ℕ) (total : ℕ) (a : Result ReadError (List ℕ) × World)
        → length head ≡ 2
        → All IsByte head
        → ((rest : List ℕ) → a.0 ≡ ok rest → (length rest ≡ total - 2) × All IsByte rest)
        → (nonzero (bit_and (get_or head 1 0) 0x80) ≡ true → total ≡ 5)
        → OutcomeHeard (after_rest t c slave request fc n start head total a)
    unfolding after_rest
    after_rest-Heard start head total (ok rest, w) two bytes full five =
        let (size, rest_bytes) = full rest refl in
        parse-Heard (head ++ rest) slave fc _ refl (All-append IsByte head rest bytes rest_bytes)
          (λ top. omega (
            arith,
            length-append head rest,
            five (sym (ap (λ (x : ℕ). nonzero (bit_and x 0x80)) (head_of_two head rest two)) ∙ top),
          ))
    after_rest-Heard start head total (err e, w) two bytes full five = tt

    frame_length_exception :
        (second total : ℕ)
        → frame_length t second fc quantity ≡ ok total
        → nonzero (bit_and second 0x80) ≡ true
        → total ≡ 5
    unfolding frame_length
    frame_length_exception second total e top = ground arith

    frame_length_error :
        (second : ℕ) (e : Error) (frame : List ℕ)
        → frame_length t second fc quantity ≡ err e
        → Heard slave fc (err e) frame
    unfolding frame_length response_len
    frame_length_error second e frame h =
        subst (λ (x : Error). Heard slave fc (err x) frame) (unsized second e h) tt
      where
        unsized :
            (second : ℕ) (e : Error)
            → frame_length t second fc quantity ≡ err e
            → no_response_length fc ≡ e
        unsized second e h = ground arith

    read_rest-Heard :
        (start deadline : ℕ) (head : List ℕ) (a : Result Error ℕ) (w : World)
        → length head ≡ 2
        → All IsByte head
        → frame_length t (get_or head 1 0) fc quantity ≡ a
        → OutcomeHeard (read_rest t c slave request fc n start deadline head a w)
    unfolding read_rest
    read_rest-Heard start deadline head (ok total) w two bytes e =
        after_rest-Heard start head total (t.read_full (total - 2) deadline w) two bytes
          (λ rest r. fills.filled (total - 2) deadline w rest r)
          (frame_length_exception (get_or head 1 0) total e)
    read_rest-Heard start deadline head (err x) w two bytes e =
        frame_length_error (get_or head 1 0) x [] e

    after_head-Heard :
        (start deadline : ℕ) (a : Result ReadError (List ℕ) × World)
        → ((head : List ℕ) → a.0 ≡ ok head → (length head ≡ 2) × All IsByte head)
        → OutcomeHeard (after_head t c slave request fc quantity n start deadline a)
    unfolding after_head
    after_head-Heard start deadline (ok head, w) full =
        let (two, bytes) = full head refl in read_rest-Heard start deadline head _ w two bytes refl
    after_head-Heard start deadline (err deadline_exceeded, w) full = tt
    after_head-Heard start deadline (err (other code), w) full = tt

    after_write-Heard :
        (a : Option ℕ × World) → OutcomeHeard (after_write t c slave request fc quantity n a)
    unfolding after_write
    after_write-Heard (some code, w) = tt
    after_write-Heard (none, w) =
        after_head-Heard (t.now w) (t.now w + c.timeout_ns)
          (t.read_full 2 (t.now w + c.timeout_ns) w)
          (λ head r. fills.filled 2 (t.now w + c.timeout_ns) w head r)

    after_drain-Heard :
        (a : Option ℕ × World) → OutcomeHeard (after_drain t c slave request fc quantity n a)
    unfolding after_drain
    after_drain-Heard (some code, w) = tt
    after_drain-Heard (none, w) = after_write-Heard (t.write request w)

    attempt-Heard : (w : World) → OutcomeHeard (attempt t c slave request fc quantity n w)
    unfolding attempt
    attempt-Heard w = after_drain-Heard (t.drain (keep_gap t c w))

failure-Heard :
    (slave fc : ℕ) (e : Error) (frame : List ℕ)
    → is_exception e ≡ false
    → Heard slave fc (err e) frame
unfolding is_exception
failure-Heard slave fc (exception function code) frame h = cc
failure-Heard slave fc _ frame h = tt

last_response-cons :
    (ex : Exchange) (exs : List Exchange)
    → 1 ≤ length exs
    → last_response (ex ∷ exs) ≡ last_response exs
last_response-cons ex [] h = absurd (omega arith)
last_response-cons ex (more ∷ exs) h = refl

module _ (t : Transport) (fills : FillsBuffers t) where
  open t use {World}

  abbrev RunHeard : ℕ → ℕ → Run t → Type 0
  RunHeard slave fc r = Heard slave fc r.result (last_response r.exchanges)

  -- One more attempt in front of a run that has been heard, or of nothing.
  conclude-Heard :
      (slave fc : ℕ) (o : Outcome t) (rest : Run t) (r : Result Error (List ℕ))
      → o.result ≡ r
      → Heard slave fc r o.exchange.response
      → (1 ≤ length rest.exchanges) × RunHeard slave fc rest
        ⊎ (rest.exchanges ≡ []) × (rest.result ≡ give_up t (error_of r))
      → RunHeard slave fc (conclude t o rest r)
  unfolding conclude
  conclude-Heard slave fc o rest (ok payload) e h later = rw e h
  conclude-Heard slave fc o rest (err f) e h later = elim (Bool-cases (is_exception f)) [
    | inl stops ↦ rw (stops, e) h
    | inr goes_on ↦ rw goes_on (go goes_on later)
  ]
    where
      go :
          is_exception f ≡ false
          → (1 ≤ length rest.exchanges) × RunHeard slave fc rest
            ⊎ (rest.exchanges ≡ []) × (rest.result ≡ give_up t (error_of (err f)))
          → Heard slave fc rest.result (last_response (o.exchange ∷ rest.exchanges))
      go g (inl (some_made, heard)) =
          rw (last_response-cons o.exchange rest.exchanges some_made) heard
      go g (inr (none_made, given_up)) =
          rw given_up (unfold give_up error_of in failure-Heard slave fc f _ g)

  loop-Heard :
      (left n : ℕ) (last : Option Error) (c : Client) (slave : ℕ) (request : List ℕ)
      (fc quantity : ℕ) (w : World)
      → RunHeard slave fc (execute_loop t (suc left) n last c slave request fc quantity w)
  unfolding execute_loop
  loop-Heard zero n last c slave request fc quantity w =
      conclude-Heard slave fc (attempt t c slave request fc quantity n w) _ _ refl
        (attempt-Heard t fills c slave request fc quantity n w) (inr (refl, refl))
  loop-Heard (suc left) n last c slave request fc quantity w =
      let o = attempt t c slave request fc quantity n w in
      let rest =
        execute_loop t (suc left) (n + 1) (error_of o.result) o.client slave request fc quantity
          o.world in
      let heard =
        loop-Heard left (n + 1) (error_of o.result) o.client slave request fc quantity o.world in
      let some_made =
        (Story-length (
          loop-Story t left (n + 1) (error_of o.result) o.client slave request fc quantity
            o.world)).0 in
      conclude-Heard slave fc o rest _ refl (attempt-Heard t fills c slave request fc quantity n w)
        (inl (some_made, heard))

  execute_as-Heard :
      (c : Client) (slave : ℕ) (request : List ℕ) (fc quantity : ℕ) (w : World)
      → RunHeard slave fc (execute_as t c slave request fc quantity w)
  execute_as-Heard c slave request fc quantity w =
      let e : c.retries + 1 ≡ suc c.retries = omega arith in
      unfold execute_as in rw e (loop-Heard c.retries 0 none c slave request fc quantity w)

  pdu_of-Heard :
      (unit fc : ℕ) (r : Result Error (List ℕ)) (frame answer : List ℕ)
      → Heard unit fc r frame
      → pdu_of t fc r ≡ ok answer
      → frame ≡ append_crc (unit ∷ answer)
  unfolding pdu_of exception_pdu
  pdu_of-Heard unit fc (ok payload) frame answer h e = ground arith
  pdu_of-Heard unit fc (err (exception function code)) frame answer h e = ground arith
  pdu_of-Heard unit fc (err _) frame answer h e = cc

  send_sized-Heard :
      (c : Client) (unit : ℕ) (pdu : List ℕ) (w : World) (answer : List ℕ) (q : Result Error ℕ)
      → (send_sized t c unit pdu w q).result ≡ ok answer
      → last_response (send_sized t c unit pdu w q).exchanges ≡ append_crc (unit ∷ answer)
  unfolding send_sized
  send_sized-Heard c unit pdu w answer (err e) h = cc
  send_sized-Heard c unit pdu w answer (ok quantity) h =
      pdu_of-Heard unit (get_or pdu 0 0) _ _ answer
        (execute_as-Heard c unit (append_crc (unit ∷ pdu)) (get_or pdu 0 0) quantity w) h

  -- What the gateway's path answers with is the unit's own frame: the last frame on the wire is the
  -- address, the PDU that is returned, exceptions included, and its checksum.
  pub execute_pdu_transparent :
      (c : Client) (unit : ℕ) (pdu : List ℕ) (w : World) (answer : List ℕ)
      → (execute_pdu t c unit pdu w).result ≡ ok answer
      → last_response (execute_pdu t c unit pdu w).exchanges ≡ append_crc (unit ∷ answer)
  unfolding execute_pdu
  execute_pdu_transparent c unit pdu w answer e =
      send_sized-Heard c unit pdu w answer (request_quantity pdu) e
