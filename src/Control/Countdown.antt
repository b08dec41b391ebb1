-- ===== src/Control/Countdown.antt =====
-- The end of a timed mode, counted from when it was seen to start.
use freeway_pi.Base.{
  ℕ, ◌-◌, ◌*◌, ◌<◌, ◌≡◌, refl, ap, ◌∙◌, Bool, true, false, ◌&&◌, none, some, List, [], ◌∷◌, ◌++◌,
  arith, ltb, ◌==◌, if◌then◌else◌, lt→ltb, All,
}
use freeway_pi.Eda.Modes.{Mode, same_mode}
use freeway_pi.Control.{Tracker, track, observe, timed_minutes, is_mode, remaining, minute}

-- One look at the unit: when, its mode, and its two durations.
pub record Seen : Type 0 where
  pub at : ℕ
  pub mode : Mode
  pub overpressure_minutes : ℕ
  pub boost_minutes : ℕ

unfoldable pub observe_all : List Seen → Tracker → Tracker
observe_all [] t = t
observe_all (s ∷ looks) t =
    observe_all looks (observe s.at false s.mode s.overpressure_minutes s.boost_minutes t)

-- The look still finds this mode, with a duration that is not 0.
unfoldable pub Still : Mode → Seen → Type 0
Still m s =
    (same_mode s.mode m ≡ true) × (0 < timed_minutes s.mode s.overpressure_minutes s.boost_minutes)

module _ (m : Mode) where
  -- A look that finds the mode still running changes nothing.
  observe-Still :
      (s : Seen) (t : Tracker)
      → Still m s
      → t.mode ≡ some m
      → observe s.at false s.mode s.overpressure_minutes s.boost_minutes t ≡ t
  unfolding observe track Still is_mode
  observe-Still s t (same, some_time) running =
      let positive : (timed_minutes s.mode s.overpressure_minutes s.boost_minutes == 0) ≡ false =
        ground arith in
      rw
        (
          running,
          same,
          positive,
          and_false (ltb 0 (timed_minutes s.mode s.overpressure_minutes s.boost_minutes)),
        )
        refl
    where
      and_false : (b : Bool) → (b && false) ≡ false
      and_false true = refl
      and_false false = refl

  observe_all-Still :
      (looks : List Seen) (t : Tracker)
      → All (Still m) looks
      → t.mode ≡ some m
      → observe_all looks t ≡ t
  unfolding observe_all
  observe_all-Still [] t still running = refl
  observe_all-Still (s ∷ looks) t (first, still) running =
      rw (observe-Still s t first running) (observe_all-Still looks t still running)

-- What is remembered of a start.
unfoldable counted_from : Seen → Tracker
counted_from s = record {
  since = s.at;
  minutes = timed_minutes s.mode s.overpressure_minutes s.boost_minutes;
  known = true;
  mode = some s.mode;
}

counted_from-mode : (s : Seen) → (counted_from s).mode ≡ some s.mode
unfolding counted_from
counted_from-mode s = refl

observe-starts :
    (s : Seen) (t : Tracker)
    → is_mode s.mode t.mode ≡ false
    → 0 < timed_minutes s.mode s.overpressure_minutes s.boost_minutes
    → observe s.at false s.mode s.overpressure_minutes s.boost_minutes t ≡ counted_from s
unfolding observe track counted_from
observe-starts s t fresh some_time = rw (fresh, lt→ltb _ _ some_time) refl

remaining-counted_from :
    (s : Seen) (now : ℕ)
    → 0 < s.at
    → let whole = timed_minutes s.mode s.overpressure_minutes s.boost_minutes * minute in
      remaining now (counted_from s)
      ≡ (if ltb whole (now - s.at) then none else some (whole - (now - s.at)))
unfolding remaining counted_from
remaining-counted_from s now begun =
    let dated : (s.at == 0) ≡ false = ground arith in rw (dated) refl

-- A look that finds no duration ends what was counted.
ended :
    (now : ℕ) (s : Seen) (t : Tracker)
    → timed_minutes s.mode s.overpressure_minutes s.boost_minutes ≡ 0
    → remaining now (observe s.at false s.mode s.overpressure_minutes s.boost_minutes t) ≡ none
unfolding observe track remaining
ended now s t nothing = rw (nothing) refl

observe_all-snoc :
    (looks : List Seen) (s : Seen) (t : Tracker)
    → observe_all (looks ++ (s ∷ [])) t
      ≡ observe s.at false s.mode s.overpressure_minutes s.boost_minutes (observe_all looks t)
unfolding observe_all
observe_all-snoc [] s t = refl
observe_all-snoc (l ∷ looks) s t = observe_all-snoc looks s _

-- A timed mode that is seen to start with a duration above 0, by a look that is not the first and that
-- found another mode before it, is counted down from that look: as long as the later looks find the
-- mode, and durations above 0, whatever those are, what is left is the duration found at the start
-- less the time since, and nothing is said once that is over; and nothing is said after one more look
-- that finds the duration 0, as every look does that finds a mode without one.
pub observe_all-remaining :
    (start : Seen) (looks : List Seen) (before : Tracker) (now : ℕ)
    → is_mode start.mode before.mode ≡ false
    → 0 < timed_minutes start.mode start.overpressure_minutes start.boost_minutes
    → 0 < start.at
    → All (Still start.mode) looks
    → let whole =
        timed_minutes start.mode start.overpressure_minutes start.boost_minutes * minute in
      (remaining now (observe_all (start ∷ looks) before)
        ≡ (if ltb whole (now - start.at) then none else some (whole - (now - start.at))))
      × ((last : Seen)
          → timed_minutes last.mode last.overpressure_minutes last.boost_minutes ≡ 0
          → remaining now (observe_all (start ∷ (looks ++ (last ∷ []))) before) ≡ none)
unfolding observe_all
observe_all-remaining start looks before now fresh some_time begun still =
    let counted =
      observe_all-Still start.mode looks (counted_from start) still (counted_from-mode start) in
    (
      ap (λ (t : Tracker). remaining now (observe_all looks t))
            (observe-starts start before fresh some_time)
          ∙ ap (λ (t : Tracker). remaining now t) counted
          ∙ remaining-counted_from start now begun,
      λ last nothing. rw (observe_all-snoc looks last _) (ended now last _ nothing),
    )
