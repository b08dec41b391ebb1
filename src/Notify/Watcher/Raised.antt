-- ===== src/Notify/Watcher/Raised.antt =====
-- Which conditions are raised, after each call of the notifier and each round of them.
use freeway_pi.Base.{
  ℕ, ◌≡◌, refl, sym, ap, subst, ◌∙◌, ◌⊎◌, inl, inr, Bool, true, false, Option, none, some, List, [],
  ◌∷◌, arith, leb, ◌==◌, if◌then◌else◌, Bool-cases, Option-cases, All,
}
use freeway_pi.Notify.{
  Event, Tracked, Notifier, lookup, delete, put, dispatch, remember, raise_new, raise_if, raise,
  clear_if, clear, all_clear,
}
use freeway_pi.Notify.Journal.{
  lookup-delete_self, lookup-delete_other, lookup-put_self, lookup-put_other, dispatch-cases,
  remember-other,
}

unfoldable pub is_some {ℓ} : {A : Type ℓ} → Option A → Bool
is_some none = false
is_some (some _) = true

unfoldable pub is_raised : ℕ → Notifier → Bool
is_raised k n = is_some (lookup k n.active)

-- What is tracked under a key is an event with this key, and is of the alarms' kind exactly where the
-- key is one of theirs.
unfoldable pub IsKeyed : ℕ × Tracked → Type 0
IsKeyed (k, t) = (t.event.key ≡ k) × ((t.event.kind == 3) ≡ leb 4 k)

dispatch-active :
    (works : ℕ → Bool) (e : Event) (n : Notifier) → (dispatch works e n).1.active ≡ n.active
dispatch-active works e n = (dispatch-cases works e n).0

is_some-remember :
    (k : ℕ) (o : Option Tracked) (p : Bool × Notifier)
    → o ≡ lookup k p.1.active
    → is_some (lookup k (remember k o p).active) ≡ is_some o
unfolding remember is_some
is_some-remember k none (told, n) same = ap is_some (sym same)
is_some-remember k (some t) (told, n) same = ap is_some (lookup-put_self k _ n.active)

-- After a raise the condition is raised, and the others are as they were.
pub is_raised-raise_self :
    (works : ℕ → Bool) (e : Event) (n : Notifier) → is_raised e.key (raise works e n) ≡ true
unfolding is_raised raise raise_if raise_new is_some
is_raised-raise_self works e n = elim (Option-cases (lookup e.key n.active)) [
  | inr (t, known) ↦ rw (known) (ap is_some known)
  | inl missing ↦
      let first = record n {
        active = put e.key (record { event = e; notified = false }) n.active;
      } in
      rw (missing) (
        is_some-remember e.key _ (dispatch works e first) refl
        ∙ ap (λ (m : List (ℕ × Tracked)). is_some (lookup e.key m)) (dispatch-active works e first)
        ∙ ap is_some (lookup-put_self e.key _ n.active))
]

pub is_raised-raise_other :
    (works : ℕ → Bool) (e : Event) (n : Notifier) (k : ℕ)
    → (e.key == k) ≡ false
    → is_raised k (raise works e n) ≡ is_raised k n
unfolding is_raised raise raise_if raise_new
is_raised-raise_other works e n k other = elim (Option-cases (lookup e.key n.active)) [
  | inr (t, known) ↦ rw (known) refl
  | inl missing ↦
      let first = record n {
        active = put e.key (record { event = e; notified = false }) n.active;
      } in
      rw (missing) (
        ap is_some (remember-other k e.key _ (dispatch works e first) other)
        ∙ ap (λ (m : List (ℕ × Tracked)). is_some (lookup k m)) (dispatch-active works e first)
        ∙ ap is_some (lookup-put_other k e.key _ n.active other))
]

clear-active :
    (works : ℕ → Bool) (k : ℕ) (n : Notifier)
    → ((lookup k n.active ≡ none) × ((clear works k n).active ≡ n.active))
      ⊎ ((clear works k n).active ≡ delete k n.active)
unfolding clear clear_if
clear-active works k n = elim (Option-cases (lookup k n.active)) [
  | inl missing ↦ rw (missing) (inl (refl, refl))
  | inr (t, known) ↦ elim (Bool-cases t.notified) [
    | inl told ↦
        rw (known, told)
          (inr
            (dispatch-active works (all_clear k t.event) (record n { active = delete k n.active })))
    | inr untold ↦ rw (known, untold) (inr refl)
  ]
]

pub is_raised-clear_self :
    (works : ℕ → Bool) (k : ℕ) (n : Notifier) → is_raised k (clear works k n) ≡ false
unfolding is_raised is_some
is_raised-clear_self works k n = elim (clear-active works k n) [
  | inl (missing, same) ↦
      ap (λ (m : List (ℕ × Tracked)). is_some (lookup k m)) same ∙ ap is_some missing
  | inr less ↦
      ap (λ (m : List (ℕ × Tracked)). is_some (lookup k m)) less
      ∙ ap is_some (lookup-delete_self k n.active)
]

pub is_raised-clear_other :
    (works : ℕ → Bool) (j : ℕ) (n : Notifier) (k : ℕ)
    → (j == k) ≡ false
    → is_raised k (clear works j n) ≡ is_raised k n
unfolding is_raised
is_raised-clear_other works j n k other = elim (clear-active works j n) [
  | inl (_, same) ↦ ap (λ (m : List (ℕ × Tracked)). is_some (lookup k m)) same
  | inr less ↦
      ap (λ (m : List (ℕ × Tracked)). is_some (lookup k m)) less
      ∙ ap is_some (lookup-delete_other k j n.active other)
]

-- Both at once, for any key.
pub is_raised-raise :
    (works : ℕ → Bool) (e : Event) (n : Notifier) (k : ℕ)
    → is_raised k (raise works e n) ≡ (if e.key == k then true else is_raised k n)
is_raised-raise works e n k = elim (Bool-cases (e.key == k)) [
  | inl same ↦
      let here : e.key ≡ k = ground arith in
      rw (same) (
        subst (λ (x : ℕ). is_raised x (raise works e n) ≡ true) here
          (is_raised-raise_self works e n))
  | inr other ↦ rw (other) (is_raised-raise_other works e n k other)
]

pub is_raised-clear :
    (works : ℕ → Bool) (j : ℕ) (n : Notifier) (k : ℕ)
    → is_raised k (clear works j n) ≡ (if j == k then false else is_raised k n)
is_raised-clear works j n k = elim (Bool-cases (j == k)) [
  | inl same ↦
      let here : j ≡ k = ground arith in
      rw (same) (
        subst (λ (x : ℕ). is_raised x (clear works j n) ≡ false) here
          (is_raised-clear_self works j n))
  | inr other ↦ rw (other) (is_raised-clear_other works j n k other)
]

IsKeyed-delete : (k : ℕ) (m : List (ℕ × Tracked)) → All IsKeyed m → All IsKeyed (delete k m)
unfolding delete
IsKeyed-delete k [] h = tt
IsKeyed-delete k ((j, t) ∷ m) (first, h) = elim (Bool-cases (j == k)) [
  | inl same ↦ rw (same) (IsKeyed-delete k m h)
  | inr other ↦ rw (other) (first, IsKeyed-delete k m h)
]

IsKeyed-put :
    (k : ℕ) (t : Tracked) (m : List (ℕ × Tracked))
    → IsKeyed (k, t)
    → All IsKeyed m
    → All IsKeyed (put k t m)
unfolding put
IsKeyed-put k t m here h = (here, IsKeyed-delete k m h)

IsKeyed-lookup :
    (k : ℕ) (t : Tracked) (m : List (ℕ × Tracked))
    → All IsKeyed m
    → lookup k m ≡ some t
    → IsKeyed (k, t)
unfolding lookup IsKeyed
IsKeyed-lookup k t [] h found = absurd cc
IsKeyed-lookup k t ((j, u) ∷ m) (first, h) found = elim (Bool-cases (j == k)) [
  | inl same ↦
      let it : some u ≡ some t = rw same at found in
      let this : u ≡ t = cc in
      let key : j ≡ k = ground arith in
      subst (λ (x : Tracked). IsKeyed (k, x)) this (subst (λ (x : ℕ). IsKeyed (x, u)) key first)
  | inr other ↦ IsKeyed-lookup k t m h (rw other at found)
]

IsKeyed-remember :
    (k : ℕ) (o : Option Tracked) (p : Bool × Notifier)
    → o ≡ lookup k p.1.active
    → All IsKeyed p.1.active
    → All IsKeyed (remember k o p).active
unfolding remember IsKeyed
IsKeyed-remember k none (told, n) same h = h
IsKeyed-remember k (some t) (told, n) same h =
    IsKeyed-put k _ n.active (IsKeyed-lookup k t n.active h (sym same)) h

pub IsKeyed-raise :
    (works : ℕ → Bool) (e : Event) (n : Notifier)
    → (e.kind == 3) ≡ leb 4 e.key
    → All IsKeyed n.active
    → All IsKeyed (raise works e n).active
unfolding raise raise_if raise_new IsKeyed
IsKeyed-raise works e n fits h = elim (Option-cases (lookup e.key n.active)) [
  | inr (t, known) ↦ rw (known) h
  | inl missing ↦
      let first = record n {
        active = put e.key (record { event = e; notified = false }) n.active;
      } in
      rw (missing) (
        IsKeyed-remember e.key _ (dispatch works e first) refl (
          subst (λ (m : List (ℕ × Tracked)). All IsKeyed m) (sym (dispatch-active works e first))
            (IsKeyed-put e.key _ n.active (refl, fits) h)))
]

pub IsKeyed-clear :
    (works : ℕ → Bool) (k : ℕ) (n : Notifier)
    → All IsKeyed n.active
    → All IsKeyed (clear works k n).active
IsKeyed-clear works k n h = elim (clear-active works k n) [
  | inl (_, same) ↦ subst (λ (m : List (ℕ × Tracked)). All IsKeyed m) (sym same) h
  | inr less ↦
      subst (λ (m : List (ℕ × Tracked)). All IsKeyed m) (sym less) (IsKeyed-delete k n.active h)
]
