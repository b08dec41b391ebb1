-- ===== src/Control/Line/Looks.antt =====
-- The history of the looks at the line, and what it says.
use freeway_pi.Base.{
  ℕ, ◌+◌, ◌≤◌, ◌<◌, ◌≡◌, refl, ◌⊎◌, inl, inr, Bool, true, false, not, ◌&&◌, ◌||◌, List, [], ◌∷◌,
  arith, ltb, Bool-cases,
}
use freeway_pi.Control.{enough_samples, is_bad, is_healthy, Steadiness, past_mark, unstable_at}

pub record Look : Type 0 where
  pub at : ℕ
  pub failed : ℕ
  pub samples : ℕ

unfoldable pub is_judged : Look → Bool
is_judged l = not (ltb l.samples enough_samples)

-- The look finds the rate past the mark.
unfoldable pub finds_bad : Look → Bool
finds_bad l = is_judged l && is_bad l.failed l.samples

-- The look finds the rate low enough to forgive the line.
unfoldable pub finds_healthy : Look → Bool
finds_healthy l = is_judged l && not (is_bad l.failed l.samples) && is_healthy l.failed l.samples

-- The looks, the newest first, from a line that was well.
unfoldable pub after_looks : (after : ℕ) → List Look → Steadiness
after_looks after [] = record { degraded = false; over_since = 0 }
after_looks after (l ∷ h) = unstable_at l.at after l.failed l.samples (after_looks after h)

-- Since the instant `t`, at which a look found the rate past the mark, every look that could judge it
-- has.
unfoldable pub Over : ℕ → List Look → Type 0
Over t [] = ⊥
Over t (l ∷ h) =
    ((finds_bad l ≡ true) × (l.at ≡ t)) ⊎ (((not (is_judged l) || finds_bad l) ≡ true) × Over t h)

-- At some look the rate had been past the mark for `after`, and no look since found it low again.
unfoldable pub Fell : ℕ → List Look → Type 0
Fell after [] = ⊥
Fell after (l ∷ h) =
    ((t : ℕ) × (finds_bad l ≡ true) × Over t (l ∷ h) × (t + after ≤ l.at))
    ⊎ ((finds_healthy l ≡ false) × Fell after h)

-- The clock does not go back, and is not at zero.
unfoldable pub Ordered : ℕ → List Look → Type 0
Ordered t [] = Unit {0}
Ordered t (l ∷ h) = (0 < l.at) × (l.at ≤ t) × Ordered l.at h

-- What a look finds, and what it does.
unfoldable pub Finds : (judged past well : Bool) → ℕ → Look → Steadiness → Steadiness → Type 0
Finds judged past well after l s new =
    (is_judged l ≡ judged)
    × (finds_bad l ≡ past)
    × (finds_healthy l ≡ well)
    × (unstable_at l.at after l.failed l.samples s ≡ new)

unfoldable pub Branch : ℕ → Look → Steadiness → Type 0
Branch after l s =
    Finds false false false after l s s
    ⊎ Finds true true false after l s (past_mark l.at after s)
    ⊎ Finds true false true after l s (record { degraded = false; over_since = 0 })
    ⊎ Finds true false false after l s (record s { over_since = 0 })

pub branch : (after : ℕ) (l : Look) (s : Steadiness) → Branch after l s
unfolding Branch Finds unstable_at finds_bad finds_healthy is_judged
branch after l s = elim (Bool-cases (ltb l.samples 64)) [
  | inl few ↦ rw (few) (inl (refl, refl, refl, refl))
  | inr enough ↦ elim (Bool-cases (is_bad l.failed l.samples)) [
    | inl past ↦ rw (enough, past) (inr (inl (refl, refl, refl, refl)))
    | inr low ↦ elim (Bool-cases (is_healthy l.failed l.samples)) [
      | inl well ↦ rw (enough, low, well) (inr (inr (inl (refl, refl, refl, refl))))
      | inr middling ↦ rw (enough, low, middling) (inr (inr (inr (refl, refl, refl, refl))))
    ]
  ]
]

pub Over-bound : (h : List Look) (bound t : ℕ) → Ordered bound h → Over t h → (0 < t) × (t ≤ bound)
unfolding Over Ordered
Over-bound [] bound t ordered over = absurd over
Over-bound (l ∷ h) bound t (some_time, past, ordered) (inl (_, here)) = (omega arith, omega arith)
Over-bound (l ∷ h) bound t (some_time, past, ordered) (inr (_, over)) =
    let earlier = Over-bound h l.at t ordered over in (earlier.0, omega (arith, earlier.1))
