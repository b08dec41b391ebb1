-- ===== src/Gateway/Examples.antt =====
-- The gateway's theorems at concrete inputs.
use freeway_pi.Base.{
  ℕ, ◌/◌, ◌≤◌, ◌≡◌, refl, none, some, List, [], ◌∷◌, arith, ◌==◌, length, get_or, Result, ok, err,
}
use freeway_pi.Modbus.Pdu.{Error, timeout}
use freeway_pi.Modbus.Tcp.{TcpFrame}
use freeway_pi.Gateway.Breaker.{Breaker, allow, failure}
use freeway_pi.Gateway.Breaker.Probes.{Call, asks, fails, probes, SpacedFrom, probes_spaced}
use freeway_pi.Gateway.Acl.{Netip}
use freeway_pi.Gateway.Server.{ClientInfo, Server, execute}
use freeway_pi.Gateway.Server.Replies.{Counted, execute-Counted}
use freeway_pi.Gateway.Server.Sessions.{
  arrives, registers, Reaches, here, then_step, arrive, register, Holds, Reaches-Holds,
}
use freeway_pi.Base.{◌≤◌, ℕ}
use freeway_pi.Base.Texts.{codes, is_empty, same_text, cut, cut_after}
use freeway_pi.Gateway.Names.{
  new_resolver, find_entry, put_entry, tidy_name, name, with_entry, start_lookup, resolve,
  answer_entry, land, tidy_host, drop_id, cut_last, host_part, trim_dot, before_hyphen,
  is_device_id, all_hex, is_hex,
}
use freeway_pi.Gateway.Names.Flights.{
  Event, step, asked, landed, flights, run, is_pending, run-flights,
}

-- Open since 100, with the next probe due at 150.
abbrev open_breaker : Breaker
open_breaker = record {
  threshold = 3;
  cooldown = 50;
  consecutive = 3;
  retry_at = 150;
  opened = some 100;
  trips = 1;
}

abbrev calls : List Call
calls = asks 120 120 ∷ asks 151 152 ∷ fails 160 160 ∷ asks 170 170 ∷ asks 205 205 ∷ []

calls-probes : probes open_breaker calls ≡ 151 ∷ 205 ∷ []
unfolding probes allow failure
calls-probes = refl

probes_spaced_example : SpacedFrom 50 150 (probes open_breaker calls)
probes_spaced_example = probes_spaced open_breaker calls (omega arith) (omega arith)

-- Addresses and prefixes are numbers: a prefix covers the addresses with the same tens, and a text
-- of one number is an address, of two a prefix.
abbrev numbers : Netip
numbers = record {
  Text = List ℕ;
  Addr = ℕ;
  Prefix = ℕ;
  trim_space = λ t. t;
  is_empty = λ t. length t == 0;
  has_slash = λ t. length t == 2;
  parse_prefix = λ t. some (get_or t 0 0);
  masked = λ p. p / 10;
  parse_addr = λ t. some (get_or t 0 0);
  single_host = λ a. a / 10;
  unmap = λ a. a;
  contains = λ p a. a / 10 == p;
}

abbrev texts : List (List ℕ)
texts = [] ∷ (42 ∷ 10 ∷ []) ∷ (77 ∷ []) ∷ []

abbrev server : Server
server = record {
  breaker = open_breaker;
  clients = [];
  conns = [];
  next_id = 0;
  refused = 0;
  served = 0;
}

abbrev entry : ClientInfo
entry = record {
  id = 1;
  connected = 0;
  last_request = none;
  requests = 0;
  errors = 0;
  last_function = 0;
  last_unit = 0;
}

-- A read of one holding register.
abbrev request : TcpFrame
request = record { transaction = 7; unit = 1; pdu = 3 ∷ 0 ∷ 135 ∷ 0 ∷ 1 ∷ [] }

abbrev silent : TcpFrame → Result Error (List ℕ)
silent req = err timeout

abbrev answering : TcpFrame → Result Error (List ℕ)
answering req = ok (3 ∷ 2 ∷ 0 ∷ 210 ∷ [])

execute-Counted_example :
    Counted 160 request server entry (execute 160 161 answering request server entry)
execute-Counted_example = execute-Counted 160 161 answering request server entry (omega arith)

abbrev after_two : Server
after_two = register 5 (arrive 4 server)

two_steps : Reaches server after_two
unfolding arrive
two_steps = then_step (then_step here (arrives 4)) (registers 5 (omega arith))

Reaches-Holds_example : Holds after_two
Reaches-Holds_example = Reaches-Holds refl refl two_steps

-- A name asked for twice, found, and asked for again when it has grown old.
abbrev questions : List Event
questions =
    asked 10 (codes "192.0.2.41")
    ∷ asked 11 (codes "192.0.2.41")
    ∷ landed 12 (codes "192.0.2.41") (some (codes "homey.lan." ∷ []))
    ∷ asked 9000000000000 (codes "192.0.2.41")
    ∷ []

run-flights_example :
    (flights (codes "192.0.2.41") (run questions new_resolver).running ≤ 1)
    × (flights (codes "192.0.2.41") (run questions new_resolver).running
        ≡ is_pending (find_entry (codes "192.0.2.41") (run questions new_resolver).entries))
run-flights_example = run-flights questions (codes "192.0.2.41")

flies_once : flights (codes "192.0.2.41") (run questions new_resolver).running ≡ 1
unfolding flights run new_resolver step name is_empty with_entry find_entry start_lookup put_entry
    same_text resolve answer_entry land
flies_once = refl

tidied : tidy_name (codes "shelly-0a1b2c3d4e5f.lan.") ≡ codes "shelly"
unfolding tidy_name tidy_host drop_id cut_last host_part cut trim_dot cut_after is_empty
    before_hyphen is_device_id all_hex is_hex
tidied = refl
