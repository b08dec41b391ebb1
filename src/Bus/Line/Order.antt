-- ===== src/Bus/Line/Order.antt =====
-- Which job the bus takes next.
use freeway_pi.Base.{◌≡◌, refl, sym, ◌∙◌, ◌≢◌, ◌⊎◌, inl, inr, List, [], ◌∷◌, ◌++◌}
use freeway_pi.Bus.Line.{
  Priority, write, client, poll, Queues, Picks, picks_write, picks_client, picks_poll, Next, first,
  second, third,
}

unfoldable pub queue : {J : Type 0} → Priority → Queues J → List J
queue write q = q.writes
queue client q = q.clients
queue poll q = q.polls

-- Between two selects callers may have sent jobs, each to the end of its queue.
abbrev pub Grows : {J : Type 0} → Queues J → Queues J → Type 0
Grows {J} q r = (p : Priority) → (more : List J) × (queue p r ≡ queue p q ++ more)

-- The job is the oldest of its queue, and nothing else leaves.
abbrev pub TakesOldest : {J : Type 0} → Queues J → Priority → J → Queues J → Type 0
TakesOldest q p j r =
    (queue p q ≡ j ∷ queue p r) × ((o : Priority) → (o ≡ p) ⊎ (queue o q ≡ queue o r))

Picks-others :
    {J : Type 0} {q r : Queues J} {p : Priority} {j : J}
    → Picks q p j r
    → (o : Priority) → (o ≡ p) ⊎ (queue o q ≡ queue o r)
unfolding queue
Picks-others picks_write write = inl refl
Picks-others picks_write client = inr refl
Picks-others picks_write poll = inr refl
Picks-others picks_client write = inr refl
Picks-others picks_client client = inl refl
Picks-others picks_client poll = inr refl
Picks-others picks_poll write = inr refl
Picks-others picks_poll client = inr refl
Picks-others picks_poll poll = inl refl

Picks-oldest :
    {J : Type 0} {q r : Queues J} {p : Priority} {j : J} → Picks q p j r → queue p q ≡ j ∷ queue p r
unfolding queue
Picks-oldest picks_write = refl
Picks-oldest picks_client = refl
Picks-oldest picks_poll = refl

empty_front : {J : Type 0} (xs ys : List J) → xs ++ ys ≡ [] → xs ≡ []
empty_front [] ys e = refl
empty_front (x ∷ xs) ys e = absurd cc

write_not_poll : write ≢ poll
write_not_poll e = cc

grown_some :
    {J : Type 0} (q r : Queues J) (p : Priority) → Grows q r → queue p r ≡ [] → queue p q ≡ []
grown_some q r p grows empty = empty_front (queue p q) (grows p).0 (sym (grows p).1 ∙ empty)

-- While a write waits nothing else is taken, and while a client's request waits no poll is; of the
-- priority that is chosen the oldest job goes, and the rest stay in order. The queues may grow
-- between the first two looks that the bus takes at them, and Go picks any ready case.
pub Next-order :
    {J : Type 0} (q1 q2 q3 r : Queues J) (p : Priority) (j : J)
    → Grows q1 q2
    → Next q1 q2 q3 p j r
    → ((q1.writes ≡ []) ⊎ (p ≡ write))
      × ((q1.clients ≡ []) ⊎ (p ≢ poll))
      × (TakesOldest q1 p j r ⊎ (TakesOldest q2 p j r ⊎ TakesOldest q3 p j r))
unfolding queue
Next-order q1 q2 q3 r p j grows (first picks) =
    (inr refl, inr (λ e. write_not_poll e), inl (Picks-oldest picks, Picks-others picks))
Next-order q1 q2 q3 r p j grows (second idle not_poll picks) =
    (inl idle, inr not_poll, inr (inl (Picks-oldest picks, Picks-others picks)))
Next-order q1 q2 q3 r p j grows (third idle idle2 no_clients picks) = (
  inl idle,
  inl (grown_some q1 q2 client grows no_clients),
  inr (inr (Picks-oldest picks, Picks-others picks)),
)
