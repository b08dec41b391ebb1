-- ===== src/Notify/Repeats.antt =====
-- Raising what is raised already.
use freeway_pi.Base.{ℕ, ◌≡◌, refl, ap, ◌∙◌, inl, inr, Bool, false, Option, none, some, Option-cases}
use freeway_pi.Notify.{
  Event, Tracked, Notifier, lookup, put, dispatch, remember, raise_new, raise_if, raise,
}
use freeway_pi.Notify.Journal.{lookup-put_self, dispatch-cases}

remember-raised :
    (k : ℕ) (t : Tracked) (o : Option Tracked) (p : Bool × Notifier)
    → o ≡ some t
    → (u : Tracked) × (lookup k (remember k o p).active ≡ some u)
unfolding remember
remember-raised k t none (told, n) h = absurd cc
remember-raised k t (some u) (told, n) h = (_, lookup-put_self k _ n.active)

raise_raised :
    (works : ℕ → Bool) (e : Event) (n : Notifier)
    → (u : Tracked) × (lookup e.key (raise works e n).active ≡ some u)
unfolding raise raise_if raise_new
raise_raised works e n = elim (Option-cases (lookup e.key n.active)) [
  | inr (t, already) ↦ (t, rw (already, raise, raise_if) already)
  | inl fresh ↦
      let first : Notifier = record n {
        active = put e.key (record { event = e; notified = false }) n.active;
      } in
      let p = dispatch works e first in
      let raised =
        ap (lookup e.key) (dispatch-cases works e first).0 ∙ lookup-put_self e.key _ n.active in
      rw (fresh, raise, raise_if) (remember-raised e.key _ (lookup e.key p.1.active) p raised)
]

raise_known :
    (works : ℕ → Bool) (e : Event) (n : Notifier) (u : Tracked)
    → lookup e.key n.active ≡ some u
    → raise works e n ≡ n
unfolding raise raise_if
raise_known works e n u known = rw (known, raise, raise_if) refl

-- While a condition is raised, raising it again changes nothing and sends nothing, whatever the
-- second event says beside its key and whatever the channels would answer.
raise_again :
    (works again : ℕ → Bool) (e f : Event) (n : Notifier)
    → f.key ≡ e.key
    → raise again f (raise works e n) ≡ raise works e n
raise_again works again e f n same =
    let (u, raised) = raise_raised works e n in
    raise_known again f (raise works e n) u
      (ap (λ j. lookup j (raise works e n).active) same ∙ raised)
