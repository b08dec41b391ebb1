-- ===== src/Notify/Watcher/Reconciled.antt =====
-- After a look, the conditions that are raised are those that were found.
use freeway_pi.Base.{
  ℕ, ◌-◌, ◌≡◌, refl, sym, ap, subst, ◌∙◌, inl, inr, Bool, true, false, not, ◌&&◌, ◌||◌, Option,
  none, some, List, [], ◌∷◌, arith, ltb, leb, ◌==◌, if◌then◌else◌, Bool-cases, All,
}
use freeway_pi.Control.{LinkStatus, down, incomplete_pass, error_rate, up}
use freeway_pi.Eda.Alarms.{Alarm, active_alarms}
use freeway_pi.Notify.{critical, warning, Tracked, Notifier, clear}
use freeway_pi.Notify.Watcher.{
  link_down, link_degraded, clock_dst, service_due, Watcher, Sight, event, raise_link_down,
  link_is_degraded, check_link, check_clock, is_due, check_service, has_code, check_alarms,
  check_rest, check,
}
use freeway_pi.Base.{ap, ◌∙◌}
use freeway_pi.Notify.Watcher.Downs.{
  Look, check_all, Dated, has_lasted, down_from, check_all-has_lasted,
}
use freeway_pi.Notify.Watcher.Codes.{check_alarms-codes, IsKeyed-check_alarms}
use freeway_pi.Notify.Watcher.Raised.{
  is_raised, IsKeyed, is_raised-raise, is_raised-clear, IsKeyed-raise, IsKeyed-clear,
}

IsKeyed-check_clock :
    (works : ℕ → ℕ → Bool) (is_dst : Bool) (n : Notifier)
    → All IsKeyed n.active
    → All IsKeyed (check_clock works is_dst n).active
unfolding check_clock event
IsKeyed-check_clock works true n h = IsKeyed-raise (works clock_dst) _ n refl h
IsKeyed-check_clock works false n h = IsKeyed-clear (works clock_dst) clock_dst n h

IsKeyed-check_service :
    (works : ℕ → ℕ → Bool) (s : Sight) (n : Notifier)
    → All IsKeyed n.active
    → All IsKeyed (check_service works s n).active
unfolding check_service event
IsKeyed-check_service works s n h = elim (Bool-cases (is_due s)) [
  | inl due ↦ rw (due) (IsKeyed-raise (works service_due) _ n refl h)
  | inr later ↦ rw (later) (IsKeyed-clear (works service_due) service_due n h)
]

IsKeyed-check_link :
    (works : ℕ → ℕ → Bool) (now : ℕ) (link : LinkStatus) (w : Watcher)
    → All IsKeyed w.notifier.active
    → All IsKeyed (check_link works now link w).notifier.active
unfolding check_link link_is_degraded raise_link_down event
IsKeyed-check_link works now down w h = elim (Bool-cases (w.down_since == 0)) [
  | inl first ↦ rw (first) h
  | inr again ↦ elim (Bool-cases (ltb (now - w.down_since) w.down_after)) [
    | inl early ↦ rw (again, early) h
    | inr late ↦ rw (again, late) (IsKeyed-raise (works link_down) _ w.notifier refl h)
  ]
]
IsKeyed-check_link works now incomplete_pass w h =
    IsKeyed-raise (works link_degraded) _ _ refl
      (IsKeyed-clear (works link_down) link_down w.notifier h)
IsKeyed-check_link works now error_rate w h =
    IsKeyed-raise (works link_degraded) _ _ refl
      (IsKeyed-clear (works link_down) link_down w.notifier h)
IsKeyed-check_link works now up w h =
    IsKeyed-clear (works link_degraded) link_degraded _
      (IsKeyed-clear (works link_down) link_down w.notifier h)

is_raised-check_clock :
    (works : ℕ → ℕ → Bool) (is_dst : Bool) (n : Notifier) (k : ℕ)
    → is_raised k (check_clock works is_dst n) ≡ (if clock_dst == k then is_dst else is_raised k n)
unfolding check_clock event
is_raised-check_clock works true n k =
    is_raised-raise (works clock_dst) (event clock_dst 1 warning) n k
is_raised-check_clock works false n k = is_raised-clear (works clock_dst) clock_dst n k

is_raised-check_service :
    (works : ℕ → ℕ → Bool) (s : Sight) (n : Notifier) (k : ℕ)
    → is_raised k (check_service works s n) ≡ (if service_due == k then is_due s else is_raised k n)
unfolding check_service event
is_raised-check_service works s n k = elim (Bool-cases (is_due s)) [
  | inl due ↦ rw (due) (is_raised-raise (works service_due) _ n k)
  | inr later ↦ rw (later) (is_raised-clear (works service_due) service_due n k)
]

-- What is to be raised of the link: a line that is down once that has lasted, a degraded one while it
-- answers, and neither on a line that is well.
unfoldable pub link_wanted : (has_lasted : Bool) → LinkStatus → Notifier → ℕ → Bool
link_wanted has_lasted down n k = is_raised k n || ((link_down == k) && has_lasted)
link_wanted has_lasted up n k = not (link_down == k) && not (link_degraded == k) && is_raised k n
link_wanted has_lasted _ n k = (link_degraded == k) || (not (link_down == k) && is_raised k n)

-- The line has been down for the time that it may.
abbrev overdue : (now : ℕ) → Watcher → Bool
overdue now w = not (w.down_since == 0) && leb w.down_after (now - w.down_since)

degraded_raised :
    (works : ℕ → ℕ → Bool) (w : Watcher) (k : ℕ)
    → is_raised k (link_is_degraded works w).notifier
      ≡ ((link_degraded == k) || (not (link_down == k) && is_raised k w.notifier))
unfolding link_is_degraded event
degraded_raised works w k =
    let cleared = clear (works link_down) link_down w.notifier in
    is_raised-raise (works link_degraded) (event link_degraded 0 warning) cleared k
    ∙ ground (arith, is_raised-clear (works link_down) link_down w.notifier k)

is_raised-check_link :
    (works : ℕ → ℕ → Bool) (now : ℕ) (link : LinkStatus) (w : Watcher) (k : ℕ)
    → is_raised k (check_link works now link w).notifier
      ≡ link_wanted (overdue now w) link w.notifier k
unfolding check_link link_is_degraded raise_link_down event link_wanted
is_raised-check_link works now down w k = elim (Bool-cases (w.down_since == 0)) [
  | inl first ↦ ground arith
  | inr again ↦ elim (Bool-cases (ltb (now - w.down_since) w.down_after)) [
    | inl early ↦ ground arith
    | inr late ↦
        let raised = is_raised-raise (works link_down) (event link_down 0 critical) w.notifier k in
        rw (again, late) (raised ∙ ground arith)
  ]
]
is_raised-check_link works now incomplete_pass w k = degraded_raised works w k
is_raised-check_link works now error_rate w k = degraded_raised works w k
is_raised-check_link works now up w k =
    let cleared = clear (works link_down) link_down w.notifier in
    is_raised-clear (works link_degraded) link_degraded cleared k
    ∙ ground (arith, is_raised-clear (works link_down) link_down w.notifier k)

-- What is to be raised after a look, by the key of the condition: the alarms that are on, a service
-- that is due, a clock an hour off, and what is to be raised of the link. Alarms that could not be
-- read stay as they are.
unfoldable pub wanted_but_alarms : (has_lasted : Bool) → Sight → Notifier → ℕ → Bool
wanted_but_alarms has_lasted s n k =
    if service_due == k
    then s.service_enabled && ltb 0 s.interval_days && (s.days_remaining == 0)
    else if clock_dst == k
    then s.is_dst
    else link_wanted has_lasted s.link n k

unfoldable pub wanted : (has_lasted : Bool) → Sight → Option (List Alarm) → Notifier → ℕ → Bool
wanted has_lasted s none n k = wanted_but_alarms has_lasted s n k
wanted has_lasted s (some alarms) n k =
    if leb 4 k then has_code (k - 4) (active_alarms alarms) else wanted_but_alarms has_lasted s n k

check_rest-wanted :
    (works : ℕ → ℕ → Bool) (now : ℕ) (s : Sight) (w : Watcher) (k : ℕ)
    (alarms : Option (List Alarm))
    → All IsKeyed w.notifier.active
    → is_raised k (
        check_alarms works alarms (
          check_service works s
            (check_clock works s.is_dst (check_link works now s.link w).notifier)))
      ≡ wanted (overdue now w) s alarms w.notifier k
unfolding wanted wanted_but_alarms check_alarms
check_rest-wanted works now s w k alarms keyed =
    let looked = (check_link works now s.link w).notifier in
    let timed = check_clock works s.is_dst looked in
    let served = check_service works s timed in
    let before : is_raised k served ≡ wanted_but_alarms (overdue now w) s w.notifier k =
      is_raised-check_service works s timed k
      ∙ unfold is_due in
        ground (
          arith,
          is_raised-check_clock works s.is_dst looked k,
          is_raised-check_link works now s.link w k,
        ) in
    let keyed_still =
      IsKeyed-check_service works s timed
        (IsKeyed-check_clock works s.is_dst looked (IsKeyed-check_link works now s.link w keyed)) in
    go alarms served before keyed_still
  where
    go :
        (alarms : Option (List Alarm)) (n : Notifier)
        → is_raised k n ≡ wanted_but_alarms (overdue now w) s w.notifier k
        → All IsKeyed n.active
        → is_raised k (check_alarms works alarms n) ≡ wanted (overdue now w) s alarms w.notifier k
    go none n before h = before
    go (some alarms) n before h = check_alarms-codes works alarms n k h ∙ rw (before) refl

IsKeyed-check :
    (works : ℕ → ℕ → Bool) (now : ℕ) (s : Option Sight) (w : Watcher)
    → All IsKeyed w.notifier.active
    → All IsKeyed (check works now s w).notifier.active
unfolding check check_rest
IsKeyed-check works now none w h = h
IsKeyed-check works now (some s) w h = IsKeyed-check_alarms works s.alarms _ (
    IsKeyed-check_service works s _
      (IsKeyed-check_clock works s.is_dst _ (IsKeyed-check_link works now s.link w h)))

IsKeyed-check_all :
    (looks : List Look) (w : Watcher)
    → All IsKeyed w.notifier.active
    → All IsKeyed (check_all looks w).notifier.active
unfolding check_all
IsKeyed-check_all [] w h = h
IsKeyed-check_all (l ∷ looks) w h =
    IsKeyed-check_all looks _ (IsKeyed-check l.works l.at l.sight w h)

-- After any looks, and then one at a unit whose state could be read, whatever the channels answer: a
-- condition is raised exactly when it was found. An alarm is when it is on, where the log could be
-- read; the service when it is switched on, has an interval, and no day remains; the clock when it is
-- an hour off. The link is down when it was and still does not answer, or does not answer and has not
-- for the time that it may, counted from the first look that found it down and after which none found
-- it answering; and it is degraded when it answers badly, or did before it stopped. The watcher starts
-- with nothing raised and no line down, and the clock is never at zero.
pub check-wanted :
    (works : ℕ → ℕ → Bool) (now : ℕ) (s : Sight) (k : ℕ) (looks : List Look) (start : Watcher)
    → start.notifier.active ≡ []
    → start.down_since ≡ 0
    → All Dated looks
    → let w = check_all looks start in
      is_raised k (check works now (some s) w).notifier
      ≡ wanted (has_lasted now start.down_after (down_from looks)) s s.alarms w.notifier k
unfolding check check_rest
check-wanted works now s k looks start empty fresh dated =
    let w = check_all looks start in
    check_rest-wanted works now s w k s.alarms (
      IsKeyed-check_all looks start
        (subst (λ (m : List (ℕ × Tracked)). All IsKeyed m) (sym empty) tt))
    ∙ ap (λ (b : Bool). wanted b s s.alarms w.notifier k)
        (check_all-has_lasted now looks start dated fresh)
