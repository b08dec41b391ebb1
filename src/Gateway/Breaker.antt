-- ===== src/Gateway/Breaker.antt =====
-- internal/gateway/breaker.go. Times are numbers of nanoseconds; an operation that reads the clock
-- twice takes both readings. `none` is Go's zero time.
pub mod Probes
pub mod Opening
use freeway_pi.Base.{
  ℕ, zero, suc, ◌+◌, ◌-◌, ◌*◌, ◌/◌, ◌%◌, ◌^◌, ◌≤◌, ◌<◌, min, max, ◌≡◌, refl, sym, ap, ap₂, subst,
  ◌∙◌, fun_ext, ◌≢◌, ◌↔◌, ◌⊎◌, inl, inr, Bool, true, false, not, ◌&&◌, ◌||◌, Option, none, some,
  List, [], ◌∷◌, ◌++◌, map, arith, ltb, leb, ◌==◌, if◌then◌else◌, ltb→lt, lt→ltb, leb→le, ==_iff,
  Bool-cases, Option-cases, nonzero, length, get_or, set, take, drop, replicate, length-append,
  length-take, length-drop, length-replicate, take-append, drop-append, All, length-map, All-append,
  All-append_left, All-append_right, length-set, get_or-set_self, get_or-set_ne, get_or-drop,
  drop-nil, drop-drop, Result, ◌>>=◌, ◌>>◌, fail_if, ok, err,
}

pub record Breaker : Type 0 where
  pub threshold : ℕ
  pub cooldown : ℕ
  pub consecutive : ℕ
  pub retry_at : ℕ
  pub opened : Option ℕ
  pub trips : ℕ

-- A threshold or a cooldown that is not positive is replaced; the options' numbers are cut at 0.
unfoldable pub new_breaker : (threshold cooldown : ℕ) → Breaker
new_breaker threshold cooldown = record {
  threshold = if threshold == 0 then 3 else threshold;
  cooldown = if cooldown == 0 then 5_000_000_000 else cooldown;
  consecutive = 0;
  retry_at = 0;
  opened = none;
  trips = 0;
}

unfoldable pub allow : (now later : ℕ) → Breaker → Bool × Breaker
allow now later b =
    if ltb b.consecutive b.threshold
    then (true, b)
    else if ltb now b.retry_at
    then (false, b)
    else (true, record b { retry_at = later + b.cooldown })

unfoldable pub success : Breaker → Breaker
success b = record b { consecutive = 0; opened = none }

unfoldable pub failure : (now later : ℕ) → Breaker → Breaker
failure now later b =
    let c = record b { consecutive = b.consecutive + 1 } in
    if b.consecutive + 1 == b.threshold
    then record c { opened = some now; retry_at = later + b.cooldown; trips = b.trips + 1 }
    else c

pub record BreakerState : Type 0 where
  pub open_now : Bool
  pub consecutive : ℕ
  pub since : Option ℕ
  pub trips : ℕ

unfoldable pub state : Breaker → BreakerState
state b = record {
  open_now = leb b.threshold b.consecutive;
  consecutive = b.consecutive;
  since = b.opened;
  trips = b.trips;
}
