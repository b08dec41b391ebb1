-- ===== src/Notify/Watcher/Codes.antt =====
-- After the round over the alarms, those that are raised are those that are on.
use freeway_pi.Base.{
  ℕ, ◌-◌, ◌≡◌, refl, sym, subst, ◌∙◌, ◌⊎◌, inl, inr, Bool, true, false, not, ◌&&◌, ◌||◌, Option,
  none, some, List, [], ◌∷◌, arith, leb, ◌==◌, if◌then◌else◌, Bool-cases, All,
}
use freeway_pi.Eda.Alarms.{Alarm, active_alarms}
use freeway_pi.Notify.{Event, Tracked, Notifier, lookup, raise, clear}
use freeway_pi.Notify.Watcher.{
  alarm_key, alarm_kind, event, has_code, drop_code, by_code, severity_of, raise_each, events,
  is_over, clear_each, check_alarms,
}
use freeway_pi.Notify.Watcher.Raised.{
  is_some, is_raised, IsKeyed, is_raised-raise_self, is_raised-raise_other, is_raised-clear_self,
  is_raised-clear_other, IsKeyed-raise, IsKeyed-clear,
}

has_code-drop_code :
    (c d : ℕ) (m : List Alarm)
    → has_code c (drop_code d m) ≡ (if d == c then false else has_code c m)
unfolding has_code drop_code
has_code-drop_code c d [] = ground arith
has_code-drop_code c d (a ∷ m) = ground (arith, has_code-drop_code c d m)

has_code-by_code :
    (c : ℕ) (alarms m : List Alarm)
    → has_code c (by_code alarms m) ≡ (has_code c alarms || has_code c m)
unfolding has_code by_code
has_code-by_code c [] m = refl
has_code-by_code c (a ∷ alarms) m =
    ground
      (arith, has_code-by_code c alarms (a ∷ drop_code a.code m), has_code-drop_code c a.code m)

-- Raising the alarms raises those, and leaves the rest.
is_raised-raise_each :
    (works : ℕ → ℕ → Bool) (k : ℕ) (active : List Alarm) (n : Notifier)
    → is_raised k (raise_each works active n)
      ≡ ((leb 4 k && has_code (k - 4) active) || is_raised k n)
unfolding raise_each has_code event
is_raised-raise_each works k [] n = ground arith
is_raised-raise_each works k (a ∷ active) n =
    let e = event (alarm_key a.code) alarm_kind (severity_of a.class) in
    let more = raise (works (alarm_key a.code)) e n in
    let rest = is_raised-raise_each works k active more in
    elim (Bool-cases (alarm_key a.code == k)) [
      | inl same ↦
          let here : alarm_key a.code ≡ k = ground arith in
          let raised : is_raised k more ≡ true =
            subst (λ (x : ℕ). is_raised x more ≡ true) here
              (is_raised-raise_self (works (alarm_key a.code)) e n) in
          ground (arith, rest)
      | inr other ↦
          let kept : is_raised k more ≡ is_raised k n =
            is_raised-raise_other (works (alarm_key a.code)) e n k other in
          ground (arith, rest)
    ]

pub IsKeyed-raise_each :
    (works : ℕ → ℕ → Bool) (active : List Alarm) (n : Notifier)
    → All IsKeyed n.active
    → All IsKeyed (raise_each works active n).active
unfolding raise_each event
IsKeyed-raise_each works [] n h = h
IsKeyed-raise_each works (a ∷ active) n h =
    IsKeyed-raise_each works active _
      (IsKeyed-raise (works (alarm_key a.code)) _ n (ground arith) h)

-- A condition that is raised is among the events that are gone through.
unfoldable pub Lists : ℕ → List Event → Type 0
Lists k [] = ⊥
Lists k (e ∷ es) = (e.key ≡ k) × ((e.kind == 3) ≡ leb 4 k) ⊎ Lists k es

is_raised-Lists :
    (k : ℕ) (m : List (ℕ × Tracked))
    → All IsKeyed m
    → is_some (lookup k m) ≡ true
    → Lists k (events m)
unfolding is_some lookup IsKeyed Lists events
is_raised-Lists k [] h raised = absurd cc
is_raised-Lists k ((j, t) ∷ m) ((key, kind), h) raised = elim (Bool-cases (j == k)) [
  | inl same ↦ let here : j ≡ k = ground arith in inl (key ∙ here, rw (sym here) kind)
  | inr other ↦ inr (is_raised-Lists k m h (rw other at raised))
]

true-false : true ≡ false → ⊥
true-false e = absurd cc

-- Clearing takes away what is listed and over, and leaves the rest.
module _ (works : ℕ → ℕ → Bool) (active : List Alarm) (k : ℕ) where
  -- The key is one of an alarm that is not among the active ones.
  abbrev KeyIsOver : Bool → Type 0
  KeyIsOver b = (leb 4 k && not (has_code (k - 4) active)) ≡ b

  over-here : (e : Event) → e.key ≡ k → is_over active e ≡ true → KeyIsOver true
  unfolding is_over
  over-here e same over =
      let there : (leb 4 e.key && not (has_code (e.key - 4) active)) ≡ true = ground arith in
      subst (λ (x : ℕ). (leb 4 x && not (has_code (x - 4) active)) ≡ true) same there

  listed-over :
      (e : Event) → e.key ≡ k → (e.kind == 3) ≡ leb 4 k → KeyIsOver true → is_over active e ≡ true
  unfolding is_over
  listed-over e same kind over =
      let there : (leb 4 e.key && not (has_code (e.key - 4) active)) ≡ true =
        subst (λ (x : ℕ). (leb 4 x && not (has_code (x - 4) active)) ≡ true) (sym same) over in
      ground arith

  other-key : (e : Event) → is_over active e ≡ true → KeyIsOver false → (e.key == k) ≡ false
  other-key e over kept = elim (Bool-cases (e.key == k)) [
    | inr other ↦ other
    | inl same ↦ absurd (true-false (sym (over-here e (ground arith) over) ∙ kept))
  ]

  cleared_other :
      (e : Event) (n : Notifier)
      → (e.key == k) ≡ false
      → (gone : Bool)
      → is_raised k (if gone then clear (works e.key) e.key n else n) ≡ is_raised k n
  cleared_other e n other true = is_raised-clear_other (works e.key) e.key n k other
  cleared_other e n other false = refl

  is_raised-clear_each_kept :
      (es : List Event) (n : Notifier)
      → KeyIsOver false
      → is_raised k (clear_each works active es n) ≡ is_raised k n
  unfolding clear_each
  is_raised-clear_each_kept [] n kept = refl
  is_raised-clear_each_kept (e ∷ es) n kept = elim (Bool-cases (is_over active e)) [
    | inl over ↦ rw (over) (
        is_raised-clear_each_kept es (clear (works e.key) e.key n) kept
        ∙ is_raised-clear_other (works e.key) e.key n k (other-key e over kept))
    | inr still ↦ rw (still) (is_raised-clear_each_kept es n kept)
  ]

  -- One step towards the end: quiet from here on, or still to come.
  one_cleared :
      (e : Event) (es : List Event) (n : Notifier)
      → KeyIsOver true
      → (is_raised k n ≡ false) ⊎ Lists k (e ∷ es)
      → (is_raised k (if is_over active e then clear (works e.key) e.key n else n) ≡ false)
        ⊎ Lists k es
  unfolding Lists
  one_cleared e es n over how = elim (Bool-cases (e.key == k)) [
    | inl same ↦ elim (Bool-cases (is_over active e)) [
      | inl gone ↦
          let here : e.key ≡ k = ground arith in
          rw (gone) (
            inl (
              subst (λ (x : ℕ). is_raised x (clear (works e.key) e.key n) ≡ false) here
                (is_raised-clear_self (works e.key) e.key n)))
      | inr still ↦ rw (still) (elim how [
        | inl quiet ↦ inl quiet
        | inr (inl (key, kind)) ↦ absurd (true-false (sym (listed-over e key kind over) ∙ still))
        | inr (inr later) ↦ inr later
      ])
    ]
    | inr other ↦
        let kept : is_raised k (if is_over active e then clear (works e.key) e.key n else n)
            ≡ is_raised k n =
          cleared_other e n other (is_over active e) in
        elim how [
          | inl quiet ↦ inl (kept ∙ quiet)
          | inr (inl (key, kind)) ↦ absurd (ground arith)
          | inr (inr later) ↦ inr later
        ]
  ]

  is_raised-clear_each_gone :
      (es : List Event) (n : Notifier)
      → KeyIsOver true
      → (is_raised k n ≡ false) ⊎ Lists k es
      → is_raised k (clear_each works active es n) ≡ false
  unfolding clear_each Lists
  is_raised-clear_each_gone [] n over (inl quiet) = quiet
  is_raised-clear_each_gone [] n over (inr listed) = absurd listed
  is_raised-clear_each_gone (e ∷ es) n over how =
      is_raised-clear_each_gone es _ over (one_cleared e es n over how)

has_code-by_code_nil :
    (c : ℕ) (alarms : List Alarm) → has_code c (by_code alarms []) ≡ has_code c alarms
unfolding has_code
has_code-by_code_nil c alarms = has_code-by_code c alarms [] ∙ or_false (has_code c alarms)
  where
    or_false : (b : Bool) → (b || false) ≡ b
    or_false true = refl
    or_false false = refl

quiet_or_listed :
    (k : ℕ) (n : Notifier)
    → All IsKeyed n.active
    → (is_raised k n ≡ false) ⊎ Lists k (events n.active)
unfolding is_raised
quiet_or_listed k n keyed = elim (Bool-cases (is_some (lookup k n.active))) [
  | inl raised ↦ inr (is_raised-Lists k n.active keyed raised)
  | inr quiet ↦ inl quiet
]

-- The alarms that are raised are those that are on, and the other conditions stay.
pub check_alarms-codes :
    (works : ℕ → ℕ → Bool) (alarms : List Alarm) (n : Notifier) (k : ℕ)
    → All IsKeyed n.active
    → is_raised k (check_alarms works (some alarms) n)
      ≡ (if leb 4 k then has_code (k - 4) (active_alarms alarms) else is_raised k n)
unfolding check_alarms
check_alarms-codes works alarms n k keyed =
    let active = by_code (active_alarms alarms) [] in
    let raised = raise_each works active n in
    let codes : has_code (k - 4) active ≡ has_code (k - 4) (active_alarms alarms) =
      has_code-by_code_nil (k - 4) (active_alarms alarms) in
    let before : is_raised k raised ≡ ((leb 4 k && has_code (k - 4) active) || is_raised k n) =
      is_raised-raise_each works k active n in
    elim (Bool-cases (leb 4 k && not (has_code (k - 4) active))) [
      | inl over ↦
          let gone : is_raised k (clear_each works active (events raised.active) raised) ≡ false =
            is_raised-clear_each_gone works active k (events raised.active) raised over
              (quiet_or_listed k raised (IsKeyed-raise_each works active n keyed)) in
          gone ∙ ground (arith, codes)
      | inr kept ↦
          is_raised-clear_each_kept works active k (events raised.active) raised kept
          ∙ ground (arith, codes, before)
    ]

cleared-IsKeyed :
    (works : ℕ → ℕ → Bool) (e : Event) (n : Notifier) (over : Bool)
    → All IsKeyed n.active
    → All IsKeyed (if over then clear (works e.key) e.key n else n).active
cleared-IsKeyed works e n true h = IsKeyed-clear (works e.key) e.key n h
cleared-IsKeyed works e n false h = h

pub IsKeyed-clear_each :
    (works : ℕ → ℕ → Bool) (active : List Alarm) (es : List Event) (n : Notifier)
    → All IsKeyed n.active
    → All IsKeyed (clear_each works active es n).active
unfolding clear_each
IsKeyed-clear_each works active [] n h = h
IsKeyed-clear_each works active (e ∷ es) n h =
    IsKeyed-clear_each works active es _ (cleared-IsKeyed works e n (is_over active e) h)

pub IsKeyed-check_alarms :
    (works : ℕ → ℕ → Bool) (alarms : Option (List Alarm)) (n : Notifier)
    → All IsKeyed n.active
    → All IsKeyed (check_alarms works alarms n).active
unfolding check_alarms
IsKeyed-check_alarms works none n h = h
IsKeyed-check_alarms works (some alarms) n h =
    IsKeyed-clear_each works _ _ _
      (IsKeyed-raise_each works (by_code (active_alarms alarms) []) n h)
