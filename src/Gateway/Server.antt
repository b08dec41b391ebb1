-- ===== src/Gateway/Server.antt =====
-- internal/gateway/server.go: what the server keeps, and one request answered. The answer of the
-- bus is an argument: the result of the job that `execute` hands to `bus.Do`.
pub mod Replies
pub mod Sessions
use Prim.Native.Nat.{bit_and}
use freeway_pi.Base.{
  ℕ, zero, suc, ◌+◌, ◌-◌, ◌*◌, ◌/◌, ◌%◌, ◌^◌, ◌≤◌, ◌<◌, min, max, ◌≡◌, refl, sym, ap, ap₂, subst,
  ◌∙◌, fun_ext, ◌≢◌, ◌↔◌, ◌⊎◌, inl, inr, Bool, true, false, not, ◌&&◌, ◌||◌, Option, none, some,
  List, [], ◌∷◌, ◌++◌, map, arith, ltb, leb, ◌==◌, if◌then◌else◌, ltb→lt, lt→ltb, leb→le, ==_iff,
  Bool-cases, Option-cases, nonzero, length, get_or, set, take, drop, replicate, length-append,
  length-take, length-drop, length-replicate, take-append, drop-append, All, length-map, All-append,
  All-append_left, All-append_right, length-set, get_or-set_self, get_or-set_ne, get_or-drop,
  drop-nil, drop-drop, Result, ◌>>=◌, ◌>>◌, fail_if, ok, err,
}
use freeway_pi.Modbus.Pdu.{Error, exception_illegal_function, exception_gateway_target_no_response}
use freeway_pi.Modbus.Tcp.{TcpFrame, exception_pdu, request_quantity}
use freeway_pi.Gateway.Breaker.{Breaker, allow, success, failure, BreakerState, state}

abbrev pub max_clients : ℕ
max_clients = 64

pub record ClientInfo : Type 0 where
  pub id : ℕ
  pub connected : ℕ
  pub last_request : Option ℕ
  pub requests : ℕ
  pub errors : ℕ
  pub last_function : ℕ
  pub last_unit : ℕ

-- Connections are numbers; a client's entry is in `clients` while it is registered.
pub record Server : Type 0 where
  pub breaker : Breaker
  pub clients : List ClientInfo
  pub conns : List ℕ
  pub next_id : ℕ
  pub refused : ℕ
  pub served : ℕ

-- A counter of 64 bits.
abbrev pub up : ℕ → ℕ
up n = (n + 1) % 2 ^ 64

unfoldable pub note : (now : ℕ) → TcpFrame → Bool → ClientInfo → ClientInfo
note now req failed e = record e {
  requests = up e.requests;
  errors = if failed then up e.errors else e.errors;
  last_request = some now;
  last_function = get_or req.pdu 0 e.last_function;
  last_unit = req.unit;
}

-- The closure `reply` of `execute`.
unfoldable pub reply :
    (now : ℕ) → TcpFrame → List ℕ → Bool → Server → ClientInfo → TcpFrame × (Server × ClientInfo)
reply now req pdu failed s e = (
  record { transaction = req.transaction; unit = req.unit; pdu = pdu },
  (record s { served = up s.served }, note now req failed e),
)

-- `len(out) > 0 && out[0]&0x80 != 0`.
unfoldable pub is_refusal : List ℕ → Bool
is_refusal [] = false
is_refusal (b ∷ _) = nonzero (bit_and b 0x80)

-- The rest of `execute` once the bus has answered.
unfoldable pub after_bus :
    (now later : ℕ)
    → TcpFrame
    → ℕ
    → Result Error (List ℕ)
    → Server
    → ClientInfo
    → TcpFrame × (Server × ClientInfo)
after_bus now later req fc (ok out) s e =
    reply now req out (is_refusal out) (record s { breaker = success s.breaker }) e
after_bus now later req fc (err why) s e =
    reply now req (exception_pdu fc exception_gateway_target_no_response) true
      (record s { breaker = failure now later s.breaker }) e

-- The rest of `execute` once the breaker was asked.
unfoldable pub after_breaker :
    (now later : ℕ)
    → TcpFrame
    → ℕ
    → Result Error (List ℕ)
    → Bool × Breaker
    → Server
    → ClientInfo
    → TcpFrame × (Server × ClientInfo)
after_breaker now later req fc answer (false, b) s e =
    reply now req (exception_pdu fc exception_gateway_target_no_response) true
      (record s { breaker = b }) e
after_breaker now later req fc answer (true, b) s e =
    after_bus now later req fc answer (record s { breaker = b }) e

-- The rest of `execute` once the request was looked at.
unfoldable pub after_check :
    (now later : ℕ)
    → TcpFrame
    → ℕ
    → Result Error (List ℕ)
    → Result Error ℕ
    → Server
    → ClientInfo
    → TcpFrame × (Server × ClientInfo)
after_check now later req fc answer (err why) s e =
    reply now req (exception_pdu fc exception_illegal_function) true s e
after_check now later req fc answer (ok quantity) s e =
    after_breaker now later req fc answer (allow now later s.breaker) s e

-- `execute` with the request's PDU and the answer that the bus would give.
unfoldable pub execute_with :
    (now later : ℕ)
    → Result Error (List ℕ)
    → TcpFrame
    → List ℕ
    → Server
    → ClientInfo
    → TcpFrame × (Server × ClientInfo)
execute_with now later answer req [] s e =
    reply now req (exception_pdu 0 exception_illegal_function) true s e
execute_with now later answer req (fc ∷ args) s e =
    after_check now later req fc answer (request_quantity (fc ∷ args)) s e

unfoldable pub execute :
    (now later : ℕ)
    → (TcpFrame → Result Error (List ℕ))
    → TcpFrame
    → Server
    → ClientInfo
    → TcpFrame × (Server × ClientInfo)
execute now later bus req s e = execute_with now later (bus req) req req.pdu s e

pub record ServerStats : Type 0 where
  pub connected : ℕ
  pub served : ℕ
  pub refused : ℕ
  pub breaker : BreakerState

unfoldable pub stats : Server → ServerStats
stats s = record {
  connected = length s.clients;
  served = s.served;
  refused = s.refused;
  breaker = state s.breaker;
}
