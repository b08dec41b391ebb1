-- ===== src/Host/Examples.antt =====
-- A night with an update that wants a restart.
use freeway_pi.Base.{
  ℕ, zero, suc, ◌+◌, ◌≤◌, ◌≡◌, refl, inr, true, false, none, some, List, [], ◌∷◌, arith,
}
use freeway_pi.Notify.{warning, new_notifier}
use freeway_pi.Host.{RebootPolicy, Turn, target, parse_reboot_at, watch_reboot, minute_ns, day_ns}
use freeway_pi.Host.Power.{Step, sampling, draining, PowerWatcher, steps, steps-drain}
use freeway_pi.Host.Restarts.{Ticks, CalledBy, watch_reboot_calls}

abbrev four : RebootPolicy
four = record { is_auto = true; hour = 4; minute = 0 }

-- Ticks of the clock a quarter of a minute late, with nothing in between.
unfoldable ticks : ℕ → ℕ → List Turn
ticks start zero = []
ticks start (suc n) =
    record { at = start + 15000000000; on_clock = true; is_wanted = true }
    ∷ ticks (start + minute_ns) n

ticks-Ticks : (n start : ℕ) → Ticks 15000000000 start n (ticks start n)
unfolding Ticks ticks
ticks-Ticks zero start = refl
ticks-Ticks (suc n) start =
    (refl, inr (n, refl, refl, omega arith, omega arith, ticks-Ticks n (start + minute_ns)))

-- Ten in the morning, when the time has passed.
abbrev ten : ℕ
ten = 36000000000000

watch_reboot_calls_example :
    CalledBy
      (λ t. false)
      (target 4 0)
      (ten + day_ns + 15000000000)
      (watch_reboot (λ c. true) (λ t. false) four (ticks ten 1440) (new_notifier (1 ∷ []) warning))
unfolding target
watch_reboot_calls_example =
    watch_reboot_calls (λ c. true) (λ t. false) four (ticks ten 1440) 15000000000 ten
      (new_notifier (1 ∷ []) warning) refl (omega arith) (omega arith) (omega arith)
      (ticks-Ticks 1440 ten)

-- A text that is no time is four in the morning.
fallback : parse_reboot_at none ≡ (4, 0)
unfolding parse_reboot_at
fallback = refl

-- Two sags, one of which is later lost from the log.
abbrev week : List Step
week =
    sampling (some (some (100, true) ∷ none ∷ some (200, true) ∷ []))
    ∷ draining
    ∷ sampling (some (some (200, true) ∷ some (300, false) ∷ []))
    ∷ draining
    ∷ sampling none
    ∷ []

abbrev unseen : PowerWatcher
unseen = record {
  state = record { watched = false; now = false; events = 0; first = 0; last = 0 };
  drained = 0;
}

steps-drain_example :
    (0 ≤ (steps week unseen).1.state.events)
    × ((steps week unseen).0 + 0 ≤ (steps week unseen).1.state.events)
steps-drain_example = steps-drain week unseen (omega arith)
