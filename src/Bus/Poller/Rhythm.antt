-- ===== src/Bus/Poller/Rhythm.antt =====
-- When the next pass starts.
use freeway_pi.Base.{
  ℕ, ◌+◌, ◌-◌, ◌*◌, ◌/◌, ◌≤◌, ◌<◌, ◌≡◌, refl, ◌⊎◌, inl, inr, arith, ltb, Bool-cases,
}
use native.Mathlib.Nat.{div-add-mod', mod-lt, add-mul}
use freeway_pi.Bus.Poller.{next_delay}

times : (q k i : ℕ) → (q + k) * i ≡ q * i + k * i
times q k i = add-mul q k i

-- Which boundary is waited for, from the one before now.
next_delay-cases :
    (interval now before : ℕ)
    → 0 < interval
    → now / interval * interval ≡ before
    → before ≤ now
    → now < before + interval
    → ((next_delay interval now ≡ before + interval - now)
        × (interval / 10 ≤ before + interval - now))
      ⊎ ((next_delay interval now ≡ before + interval - now + interval)
          × (before + interval - now < interval / 10))
unfolding next_delay
next_delay-cases interval now before h e below above =
    elim (Bool-cases (ltb (before + interval - now) (interval / 10))) [
      | inl near ↦ inr (rw (e) ground arith, ground arith)
      | inr far ↦ inl (rw (e) ground arith, ground arith)
    ]

-- The next pass starts on a multiple of the interval, at least a tenth of it from now and at
-- most eleven tenths.
next_delay_on_grid :
    (interval now : ℕ)
    → 0 < interval
    → ((k : ℕ) × (now + next_delay interval now ≡ k * interval))
      × (interval / 10 ≤ next_delay interval now)
      × (next_delay interval now ≤ interval + interval / 10)
unfolding next_delay
next_delay_on_grid interval now h =
    let cell = div-add-mod' now interval in
    let short = mod-lt now h in
    elim (next_delay-cases interval now (now / interval * interval) h refl (omega (arith, cell))
      (omega (arith, cell, short))) [
        | inl (e, far) ↦ (
          (now / interval + 1, omega (arith, e, times (now / interval) 1 interval)),
          omega (arith, e),
          omega (arith, e),
        )
        | inr (e, near) ↦ (
          (now / interval + 2, omega (arith, e, times (now / interval) 2 interval)),
          omega (arith, e),
          omega (arith, e),
        )
      ]
