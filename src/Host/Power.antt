-- ===== src/Host/Power.antt =====
-- internal/power/power.go: how often the supply has sagged, counted from the lines of the kernel. A
-- line is what `parse` makes of it: `none`, or when, and whether the supply sagged or came back; 0 is
-- Go's zero time.
use freeway_pi.Base.{
  ℕ, suc, ◌+◌, ◌-◌, ◌≤◌, ◌≡◌, refl, Bool, true, false, ◌||◌, Option, none, some, List, [], ◌∷◌,
  arith, ltb, ◌==◌, if◌then◌else◌,
}
use freeway_pi.Notify.{Event, Notifier, warning, raise, clear}

pub record State : Type 0 where
  pub watched : Bool
  pub now : Bool
  pub events : ℕ
  pub first : ℕ
  pub last : ℕ

pub record PowerWatcher : Type 0 where
  pub state : State
  pub drained : ℕ

unfoldable pub ever : State → Bool
ever s = ltb 0 s.events

-- The loop over the lines, from what was counted before.
unfoldable pub count_lines : List (Option (ℕ × Bool)) → State → State
count_lines [] s = s
count_lines (none ∷ lines) s = count_lines lines s
count_lines (some (at, false) ∷ lines) s = count_lines lines (record s { now = false })
count_lines (some (at, true) ∷ lines) s = count_lines lines (record s {
  now = true;
  events = suc s.events;
  last = at;
  first = if s.first == 0 then at else s.first;
})

-- What is kept where the ring of the kernel has lost lines.
unfoldable pub keep_count : (before next : State) → State
keep_count before next =
    if ltb next.events before.events
    then record next {
      events = before.events;
      last = if ltb next.last before.last then before.last else next.last;
      first = if (next.first == 0) || ltb before.first next.first then before.first else next.first;
    }
    else next

-- `sample`; without lines the answer before stands.
unfoldable pub sample : Option (List (Option (ℕ × Bool))) → PowerWatcher → PowerWatcher
sample none w = w
sample (some lines) w = record w {
  state =
      keep_count w.state (
        count_lines lines
          (record { watched = true; now = false; events = 0; first = 0; last = 0 }));
}

-- `Drain`.
unfoldable pub drain : PowerWatcher → Bool × PowerWatcher
drain w = (ltb w.drained w.state.events, record w { drained = w.state.events })

abbrev pub undervoltage : Event
undervoltage = record { key = 1; kind = 1; severity = warning; resolved = false }

-- `tell`.
unfoldable pub tell : (ℕ → Bool) → (now quiet : ℕ) → State → Notifier → Notifier
tell works now quiet s n =
    if s.events == 0
    then n
    else if s.now || ltb (now - s.last) quiet
    then raise works undervoltage n
    else clear works 1 n

pub data Step : Type 0 where
  sampling : Option (List (Option (ℕ × Bool))) → Step
  draining : Step

-- Samples and drains in any order, with how many drains said yes.
unfoldable pub steps : List Step → PowerWatcher → ℕ × PowerWatcher
steps [] w = (0, w)
steps (sampling lines ∷ more) w = steps more (sample lines w)
steps (draining ∷ more) w =
    let rest = steps more (drain w).1 in ((if (drain w).0 then 1 else 0) + rest.0, rest.1)

sample-grows :
    (lines : Option (List (Option (ℕ × Bool)))) (w : PowerWatcher)
    → w.state.events ≤ (sample lines w).state.events
unfolding sample keep_count
sample-grows none w = omega arith
sample-grows (some lines) w = ground arith

sample-drained :
    (lines : Option (List (Option (ℕ × Bool)))) (w : PowerWatcher)
    → (sample lines w).drained ≡ w.drained
unfolding sample
sample-drained none w = refl
sample-drained (some lines) w = refl

-- Over any samples and drains, of a kernel log that may lose lines or not be read: the count never goes
-- down, and no more drains say that the supply sagged than there were new events.
pub steps-drain :
    (todo : List Step) (w : PowerWatcher)
    → w.drained ≤ w.state.events
    → (w.state.events ≤ (steps todo w).1.state.events)
      × ((steps todo w).0 + w.drained ≤ (steps todo w).1.state.events)
unfolding steps drain
steps-drain [] w h = (omega arith, omega arith)
steps-drain (sampling lines ∷ more) w h =
    let grows = sample-grows lines w in
    let kept = sample-drained lines w in
    let rest = steps-drain more (sample lines w) (omega arith) in
    (omega (arith, rest.0), omega (arith, rest.1))
steps-drain (draining ∷ more) w h =
    let rest = steps-drain more (record w { drained = w.state.events }) (omega arith) in
    (rest.0, ground (arith, rest.1))
