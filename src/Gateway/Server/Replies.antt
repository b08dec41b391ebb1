-- ===== src/Gateway/Server/Replies.antt =====
-- What the gateway's replies and counters say, whichever way a request goes.
use freeway_pi.Base.{
  ℕ, ◌+◌, ◌%◌, ◌^◌, ◌<◌, ◌≡◌, refl, ap, ◌⊎◌, inl, inr, Bool, true, false, some, List, [], ◌∷◌,
  arith, if◌then◌else◌, get_or, All, Result, ok, err,
}
use freeway_pi.Base.Bits.{nonzero-or_top}
use freeway_pi.Base.{◌+◌, ◌%◌, ◌^◌, some, get_or, if◌then◌else◌}
use freeway_pi.Modbus.Pdu.{Error}
use freeway_pi.Modbus.Tcp.{TcpFrame, exception_pdu, request_quantity}
use freeway_pi.Gateway.Breaker.{Breaker, allow}
use freeway_pi.Gateway.Server.{
  ClientInfo, Server, up, note, reply, is_refusal, after_bus, after_breaker, after_check,
  execute_with, execute,
}

-- The client's entry with one request counted, as an error or not; the counters have 64 bits.
pub record Noted (now : ℕ) (req : TcpFrame) (failed : Bool) (e f : ClientInfo) : Type 0 where
  pub requests : f.requests ≡ (e.requests + 1) % 2 ^ 64
  pub errors : f.errors ≡ (if failed then (e.errors + 1) % 2 ^ 64 else e.errors)
  pub last_request : f.last_request ≡ some now
  pub last_function : f.last_function ≡ get_or req.pdu 0 e.last_function
  pub last_unit : f.last_unit ≡ req.unit
  pub id : f.id ≡ e.id
  pub connected : f.connected ≡ e.connected

note-Noted :
    (now : ℕ) (req : TcpFrame) (failed shown : Bool) (e : ClientInfo)
    → shown ≡ failed
    → Noted now req shown e (note now req failed e)
unfolding note
note-Noted now req failed shown e same = record {
  requests = refl;
  errors = rw (same) refl;
  last_request = refl;
  last_function = refl;
  last_unit = refl;
  id = refl;
  connected = refl;
}

-- What one answered request does, with the reply's PDU deciding how it counts.
abbrev pub Counted :
    (now : ℕ) → TcpFrame → Server → ClientInfo → TcpFrame × (Server × ClientInfo) → Type 0
Counted now req s e r =
    (r.0.transaction ≡ req.transaction)
    × (r.0.unit ≡ req.unit)
    × (r.1.0.served ≡ (s.served + 1) % 2 ^ 64)
    × (r.1.0.clients ≡ s.clients)
    × (r.1.0.conns ≡ s.conns)
    × Noted now req (is_refusal r.0.pdu) e r.1.1

exception_pdu-is_refusal : (fc code : ℕ) → fc < 256 → is_refusal (exception_pdu fc code) ≡ true
unfolding is_refusal exception_pdu
exception_pdu-is_refusal fc code h = nonzero-or_top fc h

reply-Counted :
    (now : ℕ) (req : TcpFrame) (pdu : List ℕ) (failed : Bool) (s t : Server) (e : ClientInfo)
    → is_refusal pdu ≡ failed
    → t.served ≡ s.served
    → t.clients ≡ s.clients
    → t.conns ≡ s.conns
    → Counted now req s e (reply now req pdu failed t e)
unfolding reply
reply-Counted now req pdu failed s t e refusal same clients conns =
    (refl, refl, ap up same, clients, conns, note-Noted now req failed (is_refusal pdu) e refusal)

after_bus-Counted :
    (now later : ℕ) (req : TcpFrame) (fc : ℕ) (answer : Result Error (List ℕ)) (s t : Server)
    (e : ClientInfo)
    → fc < 256
    → t.served ≡ s.served
    → t.clients ≡ s.clients
    → t.conns ≡ s.conns
    → Counted now req s e (after_bus now later req fc answer t e)
unfolding after_bus
after_bus-Counted now later req fc (ok out) s t e h same clients conns =
    reply-Counted now req out _ s _ e refl same clients conns
after_bus-Counted now later req fc (err why) s t e h same clients conns =
    reply-Counted now req _ true s _ e (exception_pdu-is_refusal fc _ h) same clients conns

after_breaker-Counted :
    (now later : ℕ) (req : TcpFrame) (fc : ℕ) (answer : Result Error (List ℕ)) (p : Bool × Breaker)
    (s : Server) (e : ClientInfo)
    → fc < 256
    → Counted now req s e (after_breaker now later req fc answer p s e)
unfolding after_breaker
after_breaker-Counted now later req fc answer (false, b) s e h =
    reply-Counted now req _ true s _ e (exception_pdu-is_refusal fc _ h) refl refl refl
after_breaker-Counted now later req fc answer (true, b) s e h =
    after_bus-Counted now later req fc answer s _ e h refl refl refl

after_check-Counted :
    (now later : ℕ) (req : TcpFrame) (fc : ℕ) (answer : Result Error (List ℕ)) (c : Result Error ℕ)
    (s : Server) (e : ClientInfo)
    → fc < 256
    → Counted now req s e (after_check now later req fc answer c s e)
unfolding after_check
after_check-Counted now later req fc answer (err why) s e h =
    reply-Counted now req _ true s s e (exception_pdu-is_refusal fc _ h) refl refl refl
after_check-Counted now later req fc answer (ok quantity) s e h =
    after_breaker-Counted now later req fc answer _ s e h

execute_with-Counted :
    (now later : ℕ) (answer : Result Error (List ℕ)) (req : TcpFrame) (pdu : List ℕ) (s : Server)
    (e : ClientInfo)
    → All (λ b. b < 256) pdu
    → Counted now req s e (execute_with now later answer req pdu s e)
unfolding execute_with
execute_with-Counted now later answer req [] s e bytes =
    reply-Counted now req _ true s s e (exception_pdu-is_refusal 0 1 (omega arith)) refl refl refl
execute_with-Counted now later answer req (fc ∷ args) s e bytes =
    after_check-Counted now later req fc answer _ s e bytes.0

-- For a request of bytes: the reply carries the request's transaction and unit, one request more is
-- served, no connection and no other client is touched, and the client's entry counts one request,
-- as an error exactly when the reply is an exception, whether the gateway, the breaker or the unit
-- made it.
pub execute-Counted :
    (now later : ℕ) (bus : TcpFrame → Result Error (List ℕ)) (req : TcpFrame) (s : Server)
    (e : ClientInfo)
    → All (λ b. b < 256) req.pdu
    → Counted now req s e (execute now later bus req s e)
unfolding execute
execute-Counted now later bus req s e bytes =
    execute_with-Counted now later (bus req) req req.pdu s e bytes

execute_with_same :
    (now later : ℕ) (answer other : Result Error (List ℕ)) (req : TcpFrame) (pdu : List ℕ)
    (s : Server) (e : ClientInfo)
    → ((why : Error) × (request_quantity pdu ≡ err why)) ⊎ ((allow now later s.breaker).0 ≡ false)
    → execute_with now later answer req pdu s e ≡ execute_with now later other req pdu s e
unfolding execute_with after_check after_breaker
execute_with_same now later answer other req [] s e h = refl
execute_with_same now later answer other req (fc ∷ args) s e (inl (why, bad)) =
    rw (bad, execute_with) refl
execute_with_same now later answer other req (fc ∷ args) s e (inr refused) = ground arith

-- A request that the gateway cannot frame, or that comes while the breaker is open and not due, gets
-- the same reply and leaves the same state behind whatever the bus would answer.
execute_without_bus :
    (now later : ℕ) (bus other : TcpFrame → Result Error (List ℕ)) (req : TcpFrame) (s : Server)
    (e : ClientInfo)
    → ((why : Error) × (request_quantity req.pdu ≡ err why))
      ⊎ ((allow now later s.breaker).0 ≡ false)
    → execute now later bus req s e ≡ execute now later other req s e
unfolding execute
execute_without_bus now later bus other req s e h =
    execute_with_same now later (bus req) (other req) req req.pdu s e h
