-- ===== src/Auth/Evicting.antt =====
-- The loop that makes room for a challenge comes to its end.
use freeway_pi.Base.{
  ℕ, zero, suc, ◌+◌, ◌≤◌, ◌<◌, ◌≡◌, refl, ap, ◌∙◌, inl, inr, false, List, [], arith, leb,
  Bool-cases, length,
}
use freeway_pi.Base.Texts.{Text}
use freeway_pi.Auth.{remove, oldest, evict, max_nonces}
use freeway_pi.Auth.Nonces.Entries.{length-evict, has-oldest_first, length-remove_found}

evict_short : (fuel : ℕ) (m : List (Text × ℕ)) → length m < 256 → evict fuel m ≡ m
unfolding evict
evict_short zero m h = refl
evict_short (suc fuel) m h = let room : leb 256 (length m) ≡ false = ground arith in rw (room) refl

-- Rounds to spare change nothing.
evict_more :
    (fuel extra : ℕ) (m : List (Text × ℕ))
    → length m ≤ fuel + 255
    → evict (fuel + extra) m ≡ evict fuel m
unfolding evict
evict_more zero extra m h = evict_short (0 + extra) m (omega arith)
evict_more (suc fuel) extra m h =
    let next = evict_more fuel extra in
    let step : suc fuel + extra ≡ suc (fuel + extra) = omega arith in
    elim (Bool-cases (leb 256 (length m))) [
      | inl full ↦
          let less = length-remove_found _ m (has-oldest_first m (ground arith)) in
          ap (λ f. evict f m) step
          ∙ rw (full) (next (remove (oldest ([], 0) m).0 m) (omega (arith, less)))
      | inr room ↦ ap (λ f. evict f m) step ∙ rw (room) refl
    ]

-- The loop over the outstanding challenges, whatever they are, ends by its own test: with a round
-- for each challenge that there is, or any more, the result is the same, and it has room for one
-- more.
pub evict_ends :
    (extra : ℕ) (m : List (Text × ℕ))
    → (evict (length m + extra) m ≡ evict (length m) m) × (length (evict (length m) m) < max_nonces)
evict_ends extra m =
    (evict_more (length m) extra m (omega arith), length-evict (length m) m (omega arith))
