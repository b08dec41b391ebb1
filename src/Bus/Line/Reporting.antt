-- ===== src/Bus/Line/Reporting.antt =====
-- What the journal says of a fault, from the first failure to the answer that ends it.
use freeway_pi.Base.{
  ℕ, ◌+◌, ◌<◌, ◌≡◌, refl, ◌∙◌, inl, inr, Bool, true, false, not, Option, none, some, List, [], ◌∷◌,
  ◌++◌, arith, ◌==◌, if◌then◌else◌, Bool-cases,
}
use freeway_pi.Bus.Line.{
  Message, answering_again, could_not_reopen, reopened, Line, reopen_after, healthy, after_reopen,
  Outcome, answered, failed, serve, serve_all,
}

-- The reopenings of a fault, with `c` failures since the last: what the port does at every twelfth.
unfoldable pub reopenings : ℕ → List Bool → List Bool
reopenings c [] = []
reopenings c (works ∷ rest) =
    let again = reopenings 0 rest in
    let later = reopenings (c + 1) rest in if c + 1 == reopen_after then works ∷ again else later

unfoldable pub message : Bool → Message
message works = if works then reopened else could_not_reopen

unfoldable pub same : Bool → Bool → Bool
same true b = b
same false b = not b

-- One line for the first reopening and one for each that turns out other than the one before it,
-- then one for the answer if anything was reopened.
unfoldable pub story : Option Bool → List Bool → List Message
story none [] = []
story (some last) [] = answering_again ∷ []
story none (works ∷ rest) = message works ∷ story (some works) rest
story (some last) (works ∷ rest) =
    let tail = story (some works) rest in if same last works then tail else message works ∷ tail

-- A fault: jobs that all fail, then one that is answered.
unfoldable pub fault : List Bool → List Outcome
fault [] = answered ∷ []
fault (works ∷ rest) = failed works ∷ fault rest

Remembers : Option Bool → Line → Type 0
Remembers none l = (l.reopens ≡ 0) × (l.reopen_failed ≡ false)
Remembers (some works) l = (0 < l.reopens) × (l.reopen_failed ≡ not works)

after_reopen_says :
    (works : Bool) (last : Option Bool) (l m : Line)
    → Remembers last l
    → m.reopens ≡ l.reopens + 1
    → m.reopen_failed ≡ l.reopen_failed
    → (rest : List Bool)
    → Remembers (some works) (after_reopen works m).0
      × (story last (works ∷ rest) ≡ (after_reopen works m).1 ++ story (some works) rest)
      × ((after_reopen works m).0.consecutive ≡ m.consecutive)
unfolding after_reopen Remembers story same message
after_reopen_says true none l m h e f rest =
    ((ground arith, ground arith), ground arith, ground arith)
after_reopen_says false none l m h e f rest =
    ((ground arith, ground arith), ground arith, ground arith)
after_reopen_says true (some true) l m h e f rest =
    ((ground arith, ground arith), ground arith, ground arith)
after_reopen_says true (some false) l m h e f rest =
    ((ground arith, ground arith), ground arith, ground arith)
after_reopen_says false (some true) l m h e f rest =
    ((ground arith, ground arith), ground arith, ground arith)
after_reopen_says false (some false) l m h e f rest =
    ((ground arith, ground arith), ground arith, ground arith)

serve_early :
    (works : Bool) (l : Line)
    → l.consecutive < reopen_after
    → (l.consecutive + 1 == reopen_after) ≡ false
    → serve true (failed works) l ≡ (record l { consecutive = l.consecutive + 1 }, [])
unfolding serve
serve_early works l few early = ground arith

serve_due :
    (works : Bool) (l : Line)
    → (l.consecutive + 1 == reopen_after) ≡ true
    → serve true (failed works) l
      ≡ after_reopen works (record l { consecutive = 0; reopens = l.reopens + 1 })
unfolding serve
serve_due works l due = ground arith

Remembers-moved :
    (last : Option Bool) (l m : Line)
    → m.reopens ≡ l.reopens
    → m.reopen_failed ≡ l.reopen_failed
    → Remembers last l
    → Remembers last m
unfolding Remembers
Remembers-moved none l m e f h = (e ∙ h.0, f ∙ h.1)
Remembers-moved (some works) l m e f h = (omega (arith, h.0), f ∙ h.1)

serve_answer :
    (last : Option Bool) (l : Line)
    → Remembers last l
    → serve_all true (fault []) l ≡ (healthy, story last [])
unfolding serve_all serve fault story Remembers
serve_answer none l h = ground (arith, h.0)
serve_answer (some works) l h = ground (arith, h.0)

-- From any point of a fault on.
serve_fault :
    (ws : List Bool) (last : Option Bool) (l : Line)
    → Remembers last l
    → l.consecutive < reopen_after
    → serve_all true (fault ws) l ≡ (healthy, story last (reopenings l.consecutive ws))
unfolding serve_all fault reopenings
serve_fault [] last l says few = serve_answer last l says
serve_fault (works ∷ ws) last l says few = elim (Bool-cases (l.consecutive + 1 == reopen_after)) [
  | inl due ↦
      let m = record l { consecutive = 0; reopens = l.reopens + 1 } in
      let (next, lines, count) =
        after_reopen_says works last l m says refl refl (reopenings 0 ws) in
      let rest = serve_fault ws (some works) (after_reopen works m).0 next (omega (arith, count)) in
      rw (serve_due works l due, due, rest, count, lines) refl
  | inr early ↦
      let m = record l { consecutive = l.consecutive + 1 } in
      let rest = serve_fault ws last m (Remembers-moved last l m refl refl says) (ground arith) in
      rw (serve_early works l few early, early) rest
]

-- A fault and the answer that ends it, on a bus that was well: the reopenings are tried at every
-- twelfth failure, and the journal has one line for the first, one for each that turns out other
-- than the one before it, and one for the answer if there was any; then the bus is well again.
pub serve_fault-story :
    (ws : List Bool) → serve_all true (fault ws) healthy ≡ (healthy, story none (reopenings 0 ws))
unfolding healthy Remembers
serve_fault-story ws = serve_fault ws none healthy (refl, refl) (omega arith)
