-- ===== src/Notify/Announced.antt =====
-- No message twice while a condition lasts, and an all-clear only for what was announced.
use freeway_pi.Base.{
  ℕ, ◌≡◌, refl, sym, ap, subst, ◌∙◌, ◌≢◌, ◌⊎◌, inl, inr, Bool, true, false, Option, none, some,
  List, [], ◌∷◌, ◌==◌, ==_iff, Bool-cases, Option-cases,
}
use freeway_pi.Notify.{
  Severity, Event, Tracked, Notifier, new_notifier, lookup, delete, put, dispatch, remember,
  raise_new, raise_if, raise, all_clear, clear_if, clear, set_channels,
}
use freeway_pi.Notify.Journal.{
  announced, StartsWith, InOrder, is_told, Holds, lookup-delete_self, lookup-delete_other,
  lookup-put_self, lookup-put_other, dispatch-cases, Holds-same, dispatch-other, remember-journal,
  remember-other, remember_self,
}

-- A message under a key, on top of those before it.
announced-more :
    (works : ℕ → Bool) (e : Event) (n : Notifier)
    → ((dispatch works e n).0 ≡ false)
        × (announced e.key (dispatch works e n).1.journal ≡ announced e.key n.journal)
      ⊎ ((dispatch works e n).0 ≡ true)
        × (announced e.key (dispatch works e n).1.journal ≡ e.resolved ∷ announced e.key n.journal)
announced-more works e n = elim (dispatch-cases works e n).1 [
  | inl (silent, same) ↦ inl (silent, same e.key)
  | inr (sent, more) ↦
      let here : (e.key == e.key) ≡ true = (==_iff e.key e.key).1 refl in
      inr (sent, more e.key ∙ rw (here) refl)
]

raise_new-Holds_self :
    (works : ℕ → Bool) (e : Event) (n : Notifier)
    → e.resolved ≡ false
    → Holds e.key n
    → Holds e.key (raise_new works e n)
unfolding raise_new InOrder StartsWith
raise_new-Holds_self works e n start h =
    let first : Notifier = record n {
      active = put e.key (record { event = e; notified = false }) n.active;
    } in
    let p = dispatch works e first in
    let o = lookup e.key p.1.active in
    let raised =
      ap (lookup e.key) (dispatch-cases works e first).0 ∙ lookup-put_self e.key _ n.active in
    let told = remember_self e.key _ o p raised in
    let said = ap (announced e.key) (remember-journal e.key o p) in
    elim (announced-more works e first) [
      | inl (silent, same) ↦ (inl (told ∙ silent), subst InOrder (sym (said ∙ same)) h.1)
      | inr (sent, more) ↦
          let newest = said ∙ more ∙ ap (λ b. b ∷ announced e.key n.journal) start in
          (inr (subst StartsWith (sym newest) refl), subst InOrder (sym newest) h.1)
    ]

raise_new-Holds :
    (works : ℕ → Bool) (e : Event) (n : Notifier) (k : ℕ)
    → e.resolved ≡ false
    → Holds k n
    → Holds k (raise_new works e n)
unfolding raise_new
raise_new-Holds works e n k start h =
    let first : Notifier = record n {
      active = put e.key (record { event = e; notified = false }) n.active;
    } in
    let p = dispatch works e first in
    let o = lookup e.key p.1.active in
    elim (Bool-cases (e.key == k)) [
      | inr other ↦
          Holds-same k n (remember e.key o p)
            (remember-other k e.key o p other
              ∙ ap (lookup k) (dispatch-cases works e first).0
              ∙ lookup-put_other k e.key _ n.active other)
            (ap (announced k) (remember-journal e.key o p) ∙ dispatch-other works e first k other) h
      | inl same ↦
          let here = (==_iff e.key k).0 same in
          subst (λ j. Holds j (raise_new works e n)) here
            (raise_new-Holds_self works e n start (subst (λ j. Holds j n) (sym here) h))
    ]

deleted-Holds :
    (j k : ℕ) (n : Notifier) → Holds k n → Holds k (record n { active = delete j n.active })
unfolding is_told
deleted-Holds j k n h = elim (Bool-cases (j == k)) [
  | inr other ↦
      Holds-same k n (record n { active = delete j n.active })
        (lookup-delete_other k j n.active other) refl h
  | inl same ↦
      let here = (==_iff j k).0 same in
      (
        inl (
            ap is_told
              (ap (λ i. lookup k (delete i n.active)) here ∙ lookup-delete_self k n.active)),
        h.1,
      )
]

-- The all-clear of a condition that was told.
resolved-Holds :
    (works : ℕ → Bool) (e : Event) (n : Notifier) (k : ℕ)
    → e.resolved ≡ true
    → lookup e.key n.active ≡ none
    → StartsWith (announced e.key n.journal)
    → Holds k n
    → Holds k (dispatch works e n).1
unfolding InOrder is_told
resolved-Holds works e n k ends gone started h =
    let kept = (dispatch-cases works e n).0 in
    elim (Bool-cases (e.key == k)) [
      | inr other ↦
          Holds-same k n (dispatch works e n).1 (ap (lookup k) kept)
            (dispatch-other works e n k other) h
      | inl same ↦
          let here = (==_iff e.key k).0 same in
          subst (λ j. Holds j (dispatch works e n).1) here
            (
              inl (ap is_told (ap (lookup e.key) kept ∙ gone)),
              elim (announced-more works e n) [
                | inl (silent, as_before) ↦
                    subst InOrder (sym as_before)
                      (subst (λ j. InOrder (announced j n.journal)) (sym here) h.1)
                | inr (sent, more) ↦
                    subst InOrder (sym (more ∙ ap (λ b. b ∷ announced e.key n.journal) ends))
                      (started, subst (λ j. InOrder (announced j n.journal)) (sym here) h.1)
              ],
            )
    ]

was_told : (t : Tracked) (o : Option Tracked) → o ≡ some t → t.notified ≡ true → is_told o ≢ false
unfolding is_told
was_told t o e told silent =
    let yes : is_told o ≡ true = ap is_told e ∙ told in
    let clash : true ≡ false = sym yes ∙ silent in cc

told_started :
    (j : ℕ) (t : Tracked) (n : Notifier)
    → lookup j n.active ≡ some t
    → t.notified ≡ true
    → Holds j n
    → StartsWith (announced j n.journal)
told_started j t n present told h = elim h.0 [
  | inl silent ↦ absurd (was_told t (lookup j n.active) present told silent)
  | inr started ↦ started
]

clear-Holds :
    (works : ℕ → Bool) (j k : ℕ) (n : Notifier) → Holds k n → Holds j n → Holds k (clear works j n)
unfolding clear clear_if all_clear is_told
clear-Holds works j k n h hj = elim (Option-cases (lookup j n.active)) [
  | inl absent ↦ rw (absent, clear, clear_if) h
  | inr (t, present) ↦ elim (Bool-cases t.notified) [
    | inr silent ↦ rw (present, clear, clear_if, silent) (deleted-Holds j k n h)
    | inl told ↦
        rw (present, clear, clear_if, told)
          (resolved-Holds works (all_clear j t.event) (record n { active = delete j n.active }) k
            refl (lookup-delete_self j n.active) (told_started j t n present told hj)
            (deleted-Holds j k n h))
  ]
]

-- A call of the notifier. A condition that is raised is not resolved.
pub data Call : Type 0 where
  raises : (works : ℕ → Bool) (key kind : ℕ) (severity : Severity) → Call
  clears : (works : ℕ → Bool) (key : ℕ) → Call
  configures : (channels : List ℕ) (least : Severity) → Call

unfoldable pub call : Call → Notifier → Notifier
call (raises works key kind severity) n =
    raise works (record { key = key; kind = kind; severity = severity; resolved = false }) n
call (clears works key) n = clear works key n
call (configures channels least) n = set_channels channels least n

unfoldable pub calls : List Call → Notifier → Notifier
calls [] n = n
calls (c ∷ cs) n = calls cs (call c n)

call-Holds : (c : Call) (n : Notifier) → ((k : ℕ) → Holds k n) → (k : ℕ) → Holds k (call c n)
unfolding call raise raise_if set_channels
call-Holds (raises works key kind severity) n h k = elim (Option-cases (lookup key n.active)) [
  | inl fresh ↦ rw (fresh, call, raise, raise_if) (raise_new-Holds works _ n k refl (h k))
  | inr (t, already) ↦ rw (already, call, raise, raise_if) (h k)
]
call-Holds (clears works key) n h k = clear-Holds works key k n (h k) (h key)
call-Holds (configures channels least) n h k = h k

calls-Holds :
    (cs : List Call) (n : Notifier) → ((k : ℕ) → Holds k n) → (k : ℕ) → Holds k (calls cs n)
unfolding calls
calls-Holds [] n h k = h k
calls-Holds (c ∷ cs) n h k = calls-Holds cs (call c n) (call-Holds c n h) k

-- Over any history of calls, one after the other, on a new notifier, whatever its channels answer and
-- however it is reconfigured: among the messages sent under one key, every all-clear comes directly
-- after a start, so that nothing is cleared that was not announced, and nothing twice.
pub calls-InOrder :
    (channels : List ℕ) (least : Severity) (cs : List Call) (k : ℕ)
    → InOrder (announced k (calls cs (new_notifier channels least)).journal)
unfolding new_notifier announced lookup is_told InOrder
calls-InOrder channels least cs k =
    (calls-Holds cs (new_notifier channels least) (λ j. (inl refl, tt)) k).1
