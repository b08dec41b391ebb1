-- ===== src/Control.antt =====
-- internal/control: what a person asks of the unit, and what is said about the unit.
--
-- An instant is its nanoseconds since 1970, never 0; the share of failed attempts is two numbers, the
-- failed ones and all. Go compares the quotient as a float with 0.02 and 0.01; up to 256 attempts
-- that is the comparison of the products.
pub mod Line
pub mod Countdown
pub mod Applying
mod Examples
use freeway_pi.Base.{
  ℕ, zero, suc, ◌+◌, ◌-◌, ◌*◌, ◌/◌, ◌%◌, ◌^◌, ◌≤◌, ◌<◌, min, max, ◌≡◌, refl, sym, ap, ap₂, subst,
  ◌∙◌, fun_ext, ◌≢◌, ◌↔◌, ◌⊎◌, inl, inr, Bool, true, false, not, ◌&&◌, ◌||◌, Option, none, some,
  List, [], ◌∷◌, ◌++◌, map, arith, ltb, leb, ◌==◌, if◌then◌else◌, ltb→lt, lt→ltb, leb→le, ==_iff,
  Bool-cases, Option-cases, nonzero, length, get_or, set, take, drop, replicate, length-append,
  length-take, length-drop, length-replicate, take-append, drop-append, All, length-map, All-append,
  All-append_left, All-append_right, length-set, get_or-set_self, get_or-set_ne, get_or-drop,
  drop-nil, drop-drop, Result, ◌>>=◌, ◌>>◌, fail_if, ok, err,
}
use freeway_pi.Base.Texts.{Text, is_empty}
use freeway_pi.Modbus.Pdu.{Error, exception}
use freeway_pi.Bus.Poller.{RereadError, refused}
use freeway_pi.Eda.{Write}
use freeway_pi.Eda.Modes.{Mode, overpressure, boost, normal, same_mode}

-- `bus.EnoughSamples` and `eda.DegradedAfter`.
abbrev pub enough_samples : ℕ
enough_samples = 64

abbrev pub degraded_after : ℕ
degraded_after = 300000000000

-- `rate > eda.DegradedErrorRate` and `rate < eda.HealthyErrorRate`.
unfoldable pub is_bad : (failed samples : ℕ) → Bool
is_bad failed samples = ltb samples (failed * 50)

unfoldable pub is_healthy : (failed samples : ℕ) → Bool
is_healthy failed samples = ltb (failed * 100) samples

-- What `unstableAt` remembers; `over_since` is 0 while the rate is not past the mark.
pub record Steadiness : Type 0 where
  pub degraded : Bool
  pub over_since : ℕ

unfoldable pub past_mark : (now after : ℕ) → Steadiness → Steadiness
past_mark now after s =
    let since = if s.over_since == 0 then now else s.over_since in
    record {
      degraded = s.degraded || (leb since now && leb after (now - since));
      over_since = since;
    }

unfoldable pub unstable_at : (now after failed samples : ℕ) → Steadiness → Steadiness
unstable_at now after failed samples s =
    if ltb samples enough_samples
    then s
    else if is_bad failed samples
    then past_mark now after s
    else if is_healthy failed samples
    then record { degraded = false; over_since = 0 }
    else record s { over_since = 0 }

pub data LinkStatus : Type 0 where
  down : LinkStatus
  incomplete_pass : LinkStatus
  error_rate : LinkStatus
  up : LinkStatus

-- What the dot of the interface shows; the error rate is looked at only for a full, fresh snapshot.
unfoldable pub link :
    (stale incomplete : Bool)
    → (now after failed samples : ℕ) → Steadiness
    → LinkStatus × Steadiness
link stale incomplete now after failed samples s =
    let looked = unstable_at now after failed samples s in
    if stale
    then (down, s)
    else if incomplete
    then (incomplete_pass, s)
    else (if looked.degraded then error_rate else up, looked)

-- `timedModeTracker`; `mode` is `none` for the empty string.
pub record Tracker : Type 0 where
  pub since : ℕ
  pub minutes : ℕ
  pub known : Bool
  pub mode : Option Mode

unfoldable pub new_tracker : Tracker
new_tracker = record { since = 0; minutes = 0; known = false; mode = none }

-- The minutes of the mode that runs, and 0 for one without an end of its own.
unfoldable pub timed_minutes : Mode → (overpressure_minutes boost_minutes : ℕ) → ℕ
timed_minutes overpressure o b = o
timed_minutes boost o b = b
timed_minutes _ o b = 0

unfoldable pub is_mode : Mode → Option Mode → Bool
is_mode m none = false
is_mode m (some n) = same_mode m n

unfoldable pub track : (now : ℕ) → (first_look : Bool) → Mode → (minutes : ℕ) → Tracker → Tracker
track now first_look m minutes t =
    if ltb 0 minutes && not (is_mode m t.mode)
    then record { since = now; minutes = minutes; known = not first_look; mode = some m }
    else if minutes == 0
    then record { since = 0; minutes = t.minutes; known = false; mode = none }
    else t

unfoldable pub observe :
    (now : ℕ)
    → (first_look : Bool) → Mode
    → (overpressure_minutes boost_minutes : ℕ) → Tracker
    → Tracker
observe now first_look m o b t = track now first_look m (timed_minutes m o b) t

abbrev pub minute : ℕ
minute = 60000000000

-- Behind the end, nothing is said; a clock that went back is read as no time passed.
unfoldable pub remaining : (now : ℕ) → Tracker → Option ℕ
remaining now t =
    if not t.known || (t.since == 0)
    then none
    else if ltb (t.minutes * minute) (now - t.since)
    then none
    else some (t.minutes * minute - (now - t.since))

abbrev pub clock_write_lead : ℕ
clock_write_lead = 250000000

-- `now.Truncate(time.Minute).Add(time.Minute)`, or the minute after it where that is too close.
unfoldable pub next_clock_write : ℕ → ℕ
next_clock_write now =
    let target = now / minute * minute + minute in
    if ltb (target - now) (clock_write_lead + 250000000) then target + minute else target

-- What a failed write is called: the key of the message, and the error.
pub data Explained : Type 0 where
  plain : Error → Explained
  address : Error → Explained
  value : Error → Explained
  read_only : Error → Explained
  failure : Error → Explained
  busy : Error → Explained

unfoldable pub is_writing : ℕ → Bool
is_writing function = (function == 5) || (function == 6) || (function == 15) || (function == 16)

unfoldable pub explain : Error → Explained
explain (exception function code) =
    if code == 2
    then address (exception function code)
    else if code == 3
    then value (exception function code)
    else if code == 4
    then (if is_writing function
        then read_only (exception function code)
        else failure (exception function code))
    else if code == 6
    then busy (exception function code)
    else plain (exception function code)
explain e = plain e

-- The names of the unit: the one that it was given, and the family that it last reported.
pub record Names : Type 0 where
  pub name : Text
  pub family : Text

-- The family in the state, kept where it is not empty, and the name to show.
unfoldable pub display_name : (family : Text) → Names → Text × Names
display_name family n =
    let kept = if is_empty family then n.family else family in
    (if is_empty n.name then family else n.name, record n { family = kept })

-- `decoded` is the family in the current snapshot, if that can be decoded.
unfoldable pub unit_name : (decoded : Option Text) → Names → Text × Names
unit_name decoded n =
    if is_empty n.name
    then elim decoded [ some family ↦ display_name family n | none ↦ (n.family, n) ]
    else (n.name, n)

-- `Apply` over what the bus and the poller do to the world: a write, and the reading back of what
-- was written.
module _ {ℓ} {W : Type ℓ} (write : Write → W → Result Error (Unit {0}) × W)
    (reread : Write → W → Result RereadError (Unit {0}) × W) where
  -- Behind the reading back: without it, the loop is left and nothing is reported.
  unfoldable pub after_reread :
      (W → Result Explained (Unit {0}) × W)
      → Result RereadError (Unit {0}) × W
      → Result Explained (Unit {0}) × W
  after_reread rest (err e, w) = (ok tt, w)
  after_reread rest (ok _, w) = rest w

  unfoldable pub after_writing :
      Write
      → (W → Result Explained (Unit {0}) × W)
      → Result Error (Unit {0}) × W
      → Result Explained (Unit {0}) × W
  after_writing x rest (err e, w) = (err (explain e), w)
  after_writing x rest (ok _, w) = after_reread rest (reread x w)

  unfoldable pub apply : List Write → W → Result Explained (Unit {0}) × W
  apply [] w = (ok tt, w)
  apply (x ∷ xs) w = after_writing x (λ v. apply xs v) (write x w)
