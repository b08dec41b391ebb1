-- ===== src/Gateway/Server/Sessions.antt =====
-- internal/gateway/server.go: the connections' lives. A handler's stretches between two locks are
-- the steps, so that the handlers of several connections interleave.
use freeway_pi.Base.{
  ℕ, ◌+◌, ◌^◌, ◌≤◌, ◌<◌, ◌≡◌, sym, subst, ◌≢◌, inl, inr, none, List, [], ◌∷◌, arith, leb, ◌==◌,
  if◌then◌else◌, Bool-cases, length, All,
}
use freeway_pi.Gateway.Server.{max_clients, ClientInfo, Server, up}

unfoldable pub remove : ℕ → List ℕ → List ℕ
remove c [] = []
remove c (x ∷ xs) = let rest = remove c xs in if x == c then rest else x ∷ rest

unfoldable pub remove_client : ℕ → List ClientInfo → List ClientInfo
remove_client id [] = []
remove_client id (e ∷ es) = let rest = remove_client id es in if e.id == id then rest else e ∷ rest

-- The first stretch of `handle`: the new connection is held, or refused at the ceiling.
unfoldable pub arrive : (conn : ℕ) → Server → Server
arrive conn s =
    if leb max_clients (length s.conns)
    then record s { refused = up s.refused }
    else record s { conns = conn ∷ s.conns }

-- A peer that the access list does not admit.
unfoldable pub refuse : Server → Server
refuse s = record s { refused = up s.refused }

unfoldable pub register : (now : ℕ) → Server → Server
register now s = record s {
  next_id = up s.next_id;
  clients =
      record {
        id = up s.next_id;
        connected = now;
        last_request = none;
        requests = 0;
        errors = 0;
        last_function = 0;
        last_unit = 0;
      }
      ∷ s.clients;
}

unfoldable pub deregister : (id : ℕ) → Server → Server
deregister id s = record s { clients = remove_client id s.clients }

-- The last deferred stretch of `handle`.
unfoldable pub hang_up : (conn : ℕ) → Server → Server
hang_up conn s = record s { conns = remove conn s.conns }

-- What the handlers of all connections do, in the order in which they take the lock. A server
-- registers fewer than 2^64 clients, so that its 64-bit ids do not start again.
pub data Step : Server → Server → Type 0 where
  arrives : {s : Server} (conn : ℕ) → Step s (arrive conn s)
  refuses : {s : Server} → Step s (refuse s)
  registers : {s : Server} (now : ℕ) → s.next_id + 1 < 2 ^ 64 → Step s (register now s)
  deregisters : {s : Server} (id : ℕ) → Step s (deregister id s)
  hangs_up : {s : Server} (conn : ℕ) → Step s (hang_up conn s)

pub data Reaches (s : Server) : Server → Type 0 where
  here : Reaches s s
  then_step : {t u : Server} → Reaches s t → Step t u → Reaches s u

-- Every id was given out before, and no two entries share one.
abbrev pub Fresh : ℕ → List ClientInfo → Type 0
Fresh bound [] = Unit {0}
Fresh bound (e ∷ es) = (e.id ≤ bound) × All (λ f. e.id ≢ f.id) es × Fresh bound es

abbrev pub Holds : Server → Type 0
Holds s = (length s.conns ≤ max_clients) × Fresh s.next_id s.clients

length-remove : (c : ℕ) (xs : List ℕ) → length (remove c xs) ≤ length xs
unfolding remove
length-remove c [] = omega arith
length-remove c (x ∷ xs) = grind (arith, length-remove c xs)

All-remove_client :
    (P : ClientInfo → Type 0) (id : ℕ) (es : List ClientInfo)
    → All P es
    → All P (remove_client id es)
unfolding remove_client
All-remove_client P id [] h = tt
All-remove_client P id (e ∷ es) h = elim (Bool-cases (e.id == id)) [
  | inl same ↦ rw (same, remove_client) (All-remove_client P id es h.1)
  | inr other ↦ rw (other, remove_client) (h.0, All-remove_client P id es h.1)
]

Fresh-remove_client :
    (bound id : ℕ) (es : List ClientInfo) → Fresh bound es → Fresh bound (remove_client id es)
unfolding remove_client
Fresh-remove_client bound id [] h = tt
Fresh-remove_client bound id (e ∷ es) h = elim (Bool-cases (e.id == id)) [
  | inl same ↦ rw (same, remove_client) (Fresh-remove_client bound id es h.2)
  | inr other ↦
      rw (other, remove_client)
        (h.0, All-remove_client _ id es h.1, Fresh-remove_client bound id es h.2)
]

Fresh-above : (bound : ℕ) (es : List ClientInfo) → Fresh bound es → Fresh (bound + 1) es
Fresh-above bound [] h = tt
Fresh-above bound (e ∷ es) h = (omega (arith, h.0), h.1, Fresh-above bound es h.2)

Fresh-new : (bound : ℕ) (es : List ClientInfo) → Fresh bound es → All (λ f. bound + 1 ≢ f.id) es
Fresh-new bound [] h = tt
Fresh-new bound (e ∷ es) h = (omega (arith, h.0), Fresh-new bound es h.2)

up_below : (n : ℕ) → n + 1 < 2 ^ 64 → up n ≡ n + 1
up_below n h = omega arith

Step-Holds : {s t : Server} → Step s t → Holds s → Holds t
unfolding arrive refuse register deregister hang_up
Step-Holds (arrives {s = s} conn) h = elim (Bool-cases (leb max_clients (length s.conns))) [
  | inl full ↦ rw (full, arrive) h
  | inr room ↦ rw (room, arrive) (ground arith, h.1)
]
Step-Holds refuses h = h
Step-Holds (registers {s = s} now room) h = (
  h.0,
  subst (λ k. (k ≤ k) × All (λ f. k ≢ f.id) s.clients × Fresh k s.clients)
      (sym (up_below s.next_id room))
      (omega arith, Fresh-new s.next_id s.clients h.1, Fresh-above s.next_id s.clients h.1),
)
Step-Holds (deregisters {s = s} id) h = (h.0, Fresh-remove_client s.next_id id s.clients h.1)
Step-Holds (hangs_up {s = s} conn) h = (omega (arith, length-remove conn s.conns, h.0), h.1)

-- From a server that holds nothing, however the handlers interleave: at most 64 connections are
-- held, and no two registered clients share an id.
pub Reaches-Holds : {s t : Server} → s.conns ≡ [] → s.clients ≡ [] → Reaches s t → Holds t
Reaches-Holds no_conns no_clients here = rw (no_conns, no_clients) (omega arith, tt)
Reaches-Holds no_conns no_clients (then_step path step) =
    Step-Holds step (Reaches-Holds no_conns no_clients path)
