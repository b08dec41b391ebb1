-- ===== src/Gateway/Breaker/Probes.antt =====
-- An open breaker over any sequence of calls.
use freeway_pi.Base.{
  ℕ, ◌+◌, ◌≤◌, ◌≡◌, ◌⊎◌, inl, inr, true, false, List, [], ◌∷◌, arith, ltb, if◌then◌else◌,
  Bool-cases, All,
}
use freeway_pi.Gateway.Breaker.{Breaker, allow, failure}

-- The calls that can come while nothing succeeds, with the clock's readings.
pub data Call : Type 0 where
  asks : (now later : ℕ) → Call
  fails : (now later : ℕ) → Call

-- The second reading of the clock is not before the first.
abbrev pub IsTimed : Call → Type 0
IsTimed (asks now later) = now ≤ later
IsTimed (fails now later) = now ≤ later

-- The times at which a request was let through to the bus.
unfoldable pub probes : Breaker → List Call → List ℕ
probes b [] = []
probes b (asks now later ∷ calls) =
    let rest = probes (allow now later b).1 calls in
    if (allow now later b).0 then now ∷ rest else rest
probes b (fails now later ∷ calls) = probes (failure now later b) calls

-- Every time is at least `gap` behind the one before it, and the first is not before `from`.
abbrev pub SpacedFrom : ℕ → ℕ → List ℕ → Type 0
SpacedFrom gap from [] = Unit {0}
SpacedFrom gap from (t ∷ ts) = (from ≤ t) × SpacedFrom gap (t + gap) ts

SpacedFrom-weaken :
    (gap from before : ℕ) (ts : List ℕ)
    → before ≤ from
    → SpacedFrom gap from ts
    → SpacedFrom gap before ts
SpacedFrom-weaken gap from before [] h s = tt
SpacedFrom-weaken gap from before (t ∷ ts) h s = (omega arith, s.1)

allow_open :
    (now later : ℕ) (b : Breaker)
    → b.threshold ≤ b.consecutive
    → (((allow now later b).0 ≡ true)
        × (b.retry_at ≤ now)
        × ((allow now later b).1 ≡ record b { retry_at = later + b.cooldown }))
      ⊎ (((allow now later b).0 ≡ false) × ((allow now later b).1 ≡ b))
unfolding allow
allow_open now later b h = elim (Bool-cases (ltb now b.retry_at)) [
  | inl early ↦ inr (ground arith, ground arith)
  | inr due ↦ inl (ground arith, ground arith, ground arith)
]

failure_open :
    (now later : ℕ) (b : Breaker)
    → b.threshold ≤ b.consecutive
    → failure now later b ≡ record b { consecutive = b.consecutive + 1 }
unfolding failure
failure_open now later b h = ground arith

-- Open, and with nothing succeeding, the breaker lets requests through at least one cooldown apart,
-- the first not before the time that opening it set; failures in between, of requests that were on
-- their way, change nothing.
pub probes_spaced :
    (b : Breaker) (calls : List Call)
    → b.threshold ≤ b.consecutive
    → All IsTimed calls
    → SpacedFrom b.cooldown b.retry_at (probes b calls)
unfolding probes
probes_spaced b [] h timed = tt
probes_spaced b (asks now later ∷ calls) h timed = elim (allow_open now later b h) [
  | inl (through, due, next) ↦
      rw (through, next)
        (
          due,
          SpacedFrom-weaken b.cooldown (later + b.cooldown) (now + b.cooldown) _ (omega arith)
              (probes_spaced (record b { retry_at = later + b.cooldown }) calls h timed.1),
        )
  | inr (refused, same) ↦ rw (refused, same) (probes_spaced b calls h timed.1)
]
probes_spaced b (fails now later ∷ calls) h timed =
    rw (failure_open now later b h)
      (probes_spaced (record b { consecutive = b.consecutive + 1 }) calls (omega arith) timed.1)
