-- ===== src/Notify/Journal.antt =====
-- The conditions that are raised, and the messages of the journal.
use freeway_pi.Base.{
  ℕ, ◌≡◌, refl, ap, ◌∙◌, ◌⊎◌, inl, inr, Bool, true, false, not, ◌&&◌, Option, none, some, List, [],
  ◌∷◌, arith, ltb, ◌==◌, if◌then◌else◌, Bool-cases, length,
}
use freeway_pi.Notify.{
  Event, Tracked, Outcome, sent_to, Notifier, lookup, delete, put, record_outcome, dispatch,
  remember, level,
}

unfoldable pub is_sent : Outcome → Bool
is_sent (sent_to delivered) = true
is_sent _ = false

-- The messages of a journal under one key, the newest first: false for a start, true for an
-- all-clear.
unfoldable pub announced : ℕ → List (Event × Outcome) → List Bool
announced k [] = []
announced k ((e, o) ∷ rest) =
    let before = announced k rest in if e.key == k && is_sent o then e.resolved ∷ before else before

-- The newest message is a start.
unfoldable pub StartsWith : List Bool → Type 0
StartsWith [] = ⊥
StartsWith (resolved ∷ rest) = resolved ≡ false

-- Every all-clear follows a start.
unfoldable pub InOrder : List Bool → Type 0
InOrder [] = Unit {0}
InOrder (true ∷ rest) = StartsWith rest × InOrder rest
InOrder (false ∷ rest) = InOrder rest

pub lookup-delete_self : (k : ℕ) (m : List (ℕ × Tracked)) → lookup k (delete k m) ≡ none
unfolding lookup delete
lookup-delete_self k [] = refl
lookup-delete_self k ((j, t) ∷ m) = ground (arith, lookup-delete_self k m)

pub lookup-delete_other :
    (k j : ℕ) (m : List (ℕ × Tracked)) → (j == k) ≡ false → lookup k (delete j m) ≡ lookup k m
unfolding lookup delete
lookup-delete_other k j [] h = refl
lookup-delete_other k j ((i, t) ∷ m) h = ground (arith, lookup-delete_other k j m h)

pub lookup-put_self : (k : ℕ) (t : Tracked) (m : List (ℕ × Tracked)) → lookup k (put k t m) ≡ some t
unfolding lookup put
lookup-put_self k t m = ground arith

pub lookup-put_other :
    (k j : ℕ) (t : Tracked) (m : List (ℕ × Tracked))
    → (j == k) ≡ false
    → lookup k (put j t m) ≡ lookup k m
unfolding lookup put
lookup-put_other k j t m h = ground (arith, lookup-delete_other k j m h)

-- What sending does to the notifier: either nothing is announced, or the event is.
pub dispatch-cases :
    (works : ℕ → Bool) (e : Event) (n : Notifier)
    → ((dispatch works e n).1.active ≡ n.active)
      × ((((dispatch works e n).0 ≡ false)
            × ((k : ℕ) → announced k (dispatch works e n).1.journal ≡ announced k n.journal))
          ⊎ (((dispatch works e n).0 ≡ true)
              × ((k : ℕ)
                  → announced k (dispatch works e n).1.journal ≡ (
                      if e.key == k
                      then e.resolved ∷ announced k n.journal
                      else announced k n.journal))))
unfolding dispatch record_outcome announced is_sent
dispatch-cases works e n =
    elim (Bool-cases (ltb (level e.severity) (level n.least) && not e.resolved)) [
      | inl quiet ↦ (ground arith, inl (ground arith, λ k. ground arith))
      | inr loud ↦ elim (Bool-cases (length n.channels == 0)) [
        | inl nobody ↦ (ground arith, inl (ground arith, λ k. ground arith))
        | inr somebody ↦ (ground arith, inr (ground arith, λ k. ground arith))
      ]
    ]

unfoldable pub is_told : Option Tracked → Bool
is_told none = false
is_told (some t) = t.notified

-- What holds for one key at all times.
abbrev pub Holds : ℕ → Notifier → Type 0
Holds k n =
    ((is_told (lookup k n.active) ≡ false) ⊎ StartsWith (announced k n.journal))
    × InOrder (announced k n.journal)

-- A change of the notifier that another key does not notice.
pub Holds-same :
    (k : ℕ) (n m : Notifier)
    → lookup k m.active ≡ lookup k n.active
    → announced k m.journal ≡ announced k n.journal
    → Holds k n
    → Holds k m
Holds-same k n m e f h = rw (e, f) h

pub dispatch-other :
    (works : ℕ → Bool) (e : Event) (n : Notifier) (k : ℕ)
    → (e.key == k) ≡ false
    → announced k (dispatch works e n).1.journal ≡ announced k n.journal
dispatch-other works e n k other = elim (dispatch-cases works e n).1 [
  | inl (silent, same) ↦ same k
  | inr (sent, more) ↦ more k ∙ rw (other) refl
]

pub remember-journal :
    (k : ℕ) (t : Option Tracked) (p : Bool × Notifier) → (remember k t p).journal ≡ p.1.journal
unfolding remember
remember-journal k none (told, n) = refl
remember-journal k (some t) (told, n) = refl

pub remember-other :
    (k j : ℕ) (t : Option Tracked) (p : Bool × Notifier)
    → (j == k) ≡ false
    → lookup k (remember j t p).active ≡ lookup k p.1.active
unfolding remember
remember-other k j none (told, n) h = refl
remember-other k j (some t) (told, n) h = lookup-put_other k j _ n.active h

-- After a raise the condition is told exactly when sending said so.
pub remember_self :
    (k : ℕ) (t : Tracked) (o : Option Tracked) (p : Bool × Notifier)
    → o ≡ some t
    → is_told (lookup k (remember k o p).active) ≡ p.0
unfolding remember is_told
remember_self k t none (told, n) h = absurd cc
remember_self k t (some u) (told, n) h = ap is_told (lookup-put_self k _ n.active)
