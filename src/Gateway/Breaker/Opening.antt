-- ===== src/Gateway/Breaker/Opening.antt =====
-- When the breaker is open, and how its trips are counted.
use freeway_pi.Base.{
  ℕ, ◌+◌, ◌≤◌, ◌<◌, ◌≡◌, refl, ◌⊎◌, inl, inr, not, ◌&&◌, none, some, List, [], ◌∷◌, arith, ltb,
  ◌==◌, if◌then◌else◌, Bool-cases,
}
use freeway_pi.Gateway.Breaker.{Breaker, new_breaker, allow, failure, success, state}

-- Any call of the breaker, with the clock's readings.
pub data Event : Type 0 where
  asked : (now later : ℕ) → Event
  answered : Event
  failed : (now later : ℕ) → Event

unfoldable pub apply : Event → Breaker → Breaker
apply (asked now later) b = (allow now later b).1
apply answered b = success b
apply (failed now later) b = failure now later b

unfoldable pub run : List Event → Breaker → Breaker
run [] b = b
run (e ∷ es) b = run es (apply e b)

-- How often an event finds the breaker closed and leaves it open.
unfoldable pub openings : List Event → Breaker → ℕ
openings [] b = 0
openings (e ∷ es) b =
    let rest = openings es (apply e b) in
    if not (state b).open_now && (state (apply e b)).open_now then 1 + rest else rest

-- An open breaker says since when, and a closed one does not.
abbrev pub IsValid : Breaker → Type 0
IsValid b =
    (0 < b.threshold)
    × ((b.consecutive < b.threshold) × (b.opened ≡ none)
        ⊎ ((b.threshold ≤ b.consecutive) × ((t : ℕ) × (b.opened ≡ some t))))

new_breaker-IsValid : (threshold cooldown : ℕ) → IsValid (new_breaker threshold cooldown)
unfolding new_breaker
new_breaker-IsValid threshold cooldown = elim (Bool-cases (threshold == 0)) [
  | inl z ↦ (ground arith, inl (ground arith, refl))
  | inr n ↦ (ground arith, inl (ground arith, refl))
]

apply-IsValid : (e : Event) (b : Breaker) → IsValid b → IsValid (apply e b)
unfolding apply allow success failure
apply-IsValid (asked now later) b valid = elim (Bool-cases (ltb b.consecutive b.threshold)) [
  | inl closed ↦ rw (closed, apply) valid
  | inr tripped ↦ elim (Bool-cases (ltb now b.retry_at)) [
    | inl early ↦ rw (tripped, early, apply) valid
    | inr due ↦ rw (tripped, due, apply) valid
  ]
]
apply-IsValid answered b valid = (valid.0, inl (valid.0, refl))
apply-IsValid (failed now later) b (positive, valid) =
    elim (Bool-cases (b.consecutive + 1 == b.threshold)) [
      | inl now_open ↦ rw (now_open, apply) (positive, inr (ground arith, (now, refl)))
      | inr other ↦
          rw (other, apply)
            (
              positive,
              elim valid [
                | inl (closed, none_yet) ↦ inl (ground arith, none_yet)
                | inr (tripped, since) ↦ inr (omega arith, since)
              ],
            )
    ]

run-IsValid : (es : List Event) (b : Breaker) → IsValid b → IsValid (run es b)
unfolding run
run-IsValid [] b valid = valid
run-IsValid (e ∷ es) b valid = run-IsValid es (apply e b) (apply-IsValid e b valid)

apply-trips :
    (e : Event) (b : Breaker)
    → 0 < b.threshold
    → (apply e b).trips
      ≡ b.trips + (if not (state b).open_now && (state (apply e b)).open_now then 1 else 0)
unfolding apply allow success failure state
apply-trips (asked now later) b h = ground arith
apply-trips answered b h = ground arith
apply-trips (failed now later) b h = ground arith

run-trips : (es : List Event) (b : Breaker) → IsValid b → (run es b).trips ≡ b.trips + openings es b
unfolding run openings
run-trips [] b valid = omega arith
run-trips (e ∷ es) b valid =
    grind (arith, apply-trips e b valid.0, run-trips es (apply e b) (apply-IsValid e b valid))

new_breaker-trips : (threshold cooldown : ℕ) → (new_breaker threshold cooldown).trips ≡ 0
unfolding new_breaker
new_breaker-trips threshold cooldown = refl

-- Over any history of calls from a new breaker on: the breaker stays valid, so that it is open
-- exactly when it says since when, and its trips are the times it went from closed to open.
run-new_breaker :
    (threshold cooldown : ℕ) (es : List Event)
    → IsValid (run es (new_breaker threshold cooldown))
      × ((run es (new_breaker threshold cooldown)).trips
          ≡ openings es (new_breaker threshold cooldown))
run-new_breaker threshold cooldown es = (
  run-IsValid es _ (new_breaker-IsValid threshold cooldown),
  omega (
    arith,
    new_breaker-trips threshold cooldown,
    run-trips es (new_breaker threshold cooldown) (new_breaker-IsValid threshold cooldown),
  ),
)
