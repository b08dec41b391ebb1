-- ===== src/Host/Restarts.antt =====
-- A restart that is wanted is asked for, at the time that was chosen and not outside of its window.
use freeway_pi.Base.{
  ℕ, suc, ◌+◌, ◌-◌, ◌*◌, ◌%◌, ◌≤◌, ◌<◌, ◌≡◌, refl, ◌⊎◌, inl, inr, Bool, true, false, none, some,
  List, [], ◌∷◌, arith, ltb, if◌then◌else◌, Bool-cases,
}
use freeway_pi.Notify.{Notifier, raise}
use freeway_pi.Notify.Watcher.Raised.{is_raised, is_raised-raise_self}
use freeway_pi.Host.{
  RebootPolicy, target, due_at, reboot_window, Turn, reboot_key, reboot_required, RebootWatch,
  watch_turn, watch_on, watch_reboot, minute_ns, day_ns,
}

-- The clock's ticker: so many ticks a minute apart, each late by at most `late`, with the polls of the
-- other between them, at any time.
unfoldable pub Ticks : (late start n : ℕ) → List Turn → Type 0
Ticks late start n [] = n ≡ 0
Ticks late start n (t ∷ turns) =
    (t.is_wanted ≡ true)
    × (((t.on_clock ≡ false) × Ticks late start n turns)
        ⊎ ((m : ℕ) × (n ≡ suc m)
            × (t.on_clock ≡ true)
            × (start ≤ t.at)
            × (t.at ≤ start + late)
            × Ticks late (start + minute_ns) m turns))

-- `Reboot` was called within the window of the time on its day and no later than `latest`, and the
-- event was raised.
abbrev pub CalledBy : (reboot : ℕ → Bool) → (at latest : ℕ) → RebootWatch → Type 0
CalledBy reboot at latest w =
    (t : ℕ) × (w.called ≡ some (t, reboot t))
    × (at ≤ t % day_ns)
    × (t % day_ns < at + reboot_window)
    × (t ≤ latest)
    × (is_raised reboot_key w.notifier ≡ true)

module _ (works reboot : ℕ → Bool) (p : RebootPolicy) where
  turn-poll :
      (t : Turn) (n : Notifier)
      → t.is_wanted ≡ true
      → t.on_clock ≡ false
      → (watch_turn works reboot p t n).called ≡ none
  unfolding watch_turn
  turn-poll t n wanted poll = rw (wanted, poll) refl

  turn-clock :
      (t : Turn) (n : Notifier) (b : Bool)
      → p.is_auto ≡ true
      → t.is_wanted ≡ true
      → t.on_clock ≡ true
      → due_at t.at p.hour p.minute reboot_window ≡ b
      → watch_turn works reboot p t n ≡ (
          if b
          then record {
            notifier = raise works reboot_required n;
            called = some (t.at, reboot t.at);
          }
          else record { notifier = n; called = none })
  unfolding watch_turn
  turn-clock t n true auto wanted clock due = rw (wanted, clock, auto, due) refl
  turn-clock t n false auto wanted clock early = rw (wanted, clock, auto, early) refl

-- The time comes on the day of `goal`, if no day ends in between.
due-goal :
    (hour minute now goal days : ℕ)
    → goal ≡ target hour minute + days * day_ns
    → days ≤ 1
    → goal ≤ now
    → now < goal + reboot_window
    → target hour minute + (now - goal) < day_ns
    → due_at now hour minute reboot_window ≡ true
unfolding due_at
due-goal hour minute now goal days e few begun still whole =
    let same : now % day_ns ≡ target hour minute + (now - goal) = omega arith in
    rw (same) (ground arith)

due-window :
    (hour minute now : ℕ)
    → due_at now hour minute reboot_window ≡ true
    → (target hour minute ≤ now % day_ns) × (now % day_ns < target hour minute + reboot_window)
unfolding due_at
due-window hour minute now due = (ground (arith, due), ground (arith, due))

calls :
    (works reboot : ℕ → Bool) (p : RebootPolicy) (turns : List Turn)
    (late start n goal days latest : ℕ) (note : Notifier)
    → p.is_auto ≡ true
    → goal ≡ target p.hour p.minute + days * day_ns
    → days ≤ 1
    → late + minute_ns ≤ reboot_window
    → target p.hour p.minute + minute_ns + late ≤ day_ns
    → goal + minute_ns + late ≤ latest
    → Ticks late start n turns
    → start < goal + minute_ns
    → goal + minute_ns ≤ start + n * minute_ns
    → CalledBy reboot (target p.hour p.minute) latest (watch_reboot works reboot p turns note)
unfolding Ticks watch_reboot watch_on
calls works reboot p [] late start n goal days latest note auto e few soon whole last none_left
      before enough =
    absurd (omega arith)
calls works reboot p (t ∷ turns) late start n goal days latest note auto e few soon whole last
      (wanted, inl (poll, ticks)) before enough =
    rw (turn-poll works reboot p t note wanted poll) (
      calls works reboot p turns late start n goal days latest _ auto e few soon whole last ticks
        before enough)
calls works reboot p (t ∷ turns) late start n goal days latest note auto e few soon whole last
      (wanted, inr (m, count, clock, from, upto, ticks)) before enough =
    elim (Bool-cases (due_at t.at p.hour p.minute reboot_window)) [
      | inl due ↦
          let (opened, open_still) = due-window p.hour p.minute t.at due in
          rw (turn-clock works reboot p t note true auto wanted clock due) (
            t.at,
            refl,
            opened,
            open_still,
            omega arith,
            is_raised-raise_self works reboot_required note,
          )
      | inr not_due ↦
          let early : t.at < goal = elim (Bool-cases (ltb t.at goal)) [
            | inl early ↦ ground (arith, early)
            | inr begun ↦
                let due =
                  due-goal p.hour p.minute t.at goal days e few (ground (arith, begun))
                    (omega arith) (ground (arith, begun)) in
                absurd cc
          ] in
          rw (turn-clock works reboot p t note false auto wanted clock not_due) (
            calls works reboot p turns late (start + minute_ns) m goal days latest note auto e few
              soon whole last ticks (omega arith) (omega arith))
    ]

-- With the automatic policy and a time of day, and a package that wants a restart all along, whenever
-- of a day the clock's ticks begin, and whatever polls come in between: within the 1440 ticks of a day,
-- each late by at most half a minute, Reboot is called, inside of the window of a minute and a half
-- that opens at the time on that day, no later than a day and the lateness of a tick after the
-- beginning, and the event was raised. The ticks that belong to the time must not be late past midnight.
-- Whether the box goes down is up to the call: the loop ends either way.
pub watch_reboot_calls :
    (works reboot : ℕ → Bool) (p : RebootPolicy) (turns : List Turn) (late start : ℕ) (n : Notifier)
    → p.is_auto ≡ true
    → late + minute_ns ≤ reboot_window
    → target p.hour p.minute + minute_ns + late ≤ day_ns
    → start < day_ns
    → Ticks late start 1440 turns
    → CalledBy reboot
        (target p.hour p.minute)
        (start + day_ns + late)
        (watch_reboot works reboot p turns n)
watch_reboot_calls works reboot p turns late start n auto soon whole within ticks =
    let at = target p.hour p.minute in
    elim (Bool-cases (ltb start (at + minute_ns))) [
      | inl today ↦
          calls works reboot p turns late start 1440 at 0 _ n auto (omega arith) (omega arith) soon
            whole (omega arith) ticks (ground (arith, today)) (omega arith)
      | inr gone ↦
          let passed : at + minute_ns ≤ start = ground (arith, gone) in
          calls works reboot p turns late start 1440 (at + day_ns) 1 _ n auto (omega arith)
            (omega arith) soon whole (omega arith) ticks (omega arith) (omega arith)
    ]
