-- ===== src/Notify/Watcher/Downs.antt =====
-- Since when the line has been down, told by the history of the looks.
use freeway_pi.Base.{
  ℕ, ◌-◌, ◌<◌, ◌≡◌, refl, sym, ap, ◌∙◌, inl, inr, Bool, true, false, not, ◌&&◌, Option, none, some,
  List, [], ◌∷◌, arith, leb, ◌==◌, if◌then◌else◌, Bool-cases, All,
}
use freeway_pi.Control.{LinkStatus, down, incomplete_pass, error_rate, up}
use freeway_pi.Notify.Watcher.{Watcher, Sight, raise_link_down, link_is_degraded, check_link, check}

-- One look: which channels take the messages, when, and what is found.
pub record Look : Type 0 where
  pub works : ℕ → ℕ → Bool
  pub at : ℕ
  pub sight : Option Sight

unfoldable pub check_all : List Look → Watcher → Watcher
check_all [] w = w
check_all (l ∷ looks) w = check_all looks (check l.works l.at l.sight w)

unfoldable pub is_down : LinkStatus → Bool
is_down down = true
is_down _ = false

unfoldable pub sees_down : Option Sight → Bool
sees_down none = false
sees_down (some s) = is_down s.link

unfoldable pub sees_answer : Option Sight → Bool
sees_answer none = false
sees_answer (some s) = not (is_down s.link)

-- No look finds the line answering; one at a unit whose state cannot be read finds nothing.
unfoldable pub silent : List Look → Bool
silent [] = true
silent (l ∷ looks) = not (sees_answer l.sight) && silent looks

-- The first look that finds the line down and after which none finds it answering.
unfoldable pub down_from : List Look → Option ℕ
down_from [] = none
down_from (l ∷ looks) =
    let rest = down_from looks in if sees_down l.sight && silent looks then some l.at else rest

-- Since that look the line has been down for so long.
unfoldable pub has_lasted : (now after : ℕ) → Option ℕ → Bool
has_lasted now after none = false
has_lasted now after (some t) = leb after (now - t)

unfoldable or_never : Option ℕ → ℕ
or_never none = 0
or_never (some t) = t

abbrev pub Dated : Look → Type 0
Dated l = 0 < l.at

link-down_since :
    (works : ℕ → ℕ → Bool) (now : ℕ) (link : LinkStatus) (w : Watcher)
    → ((check_link works now link w).down_since
        ≡ (if is_down link then if w.down_since == 0 then now else w.down_since else 0))
      × ((check_link works now link w).down_after ≡ w.down_after)
unfolding check_link link_is_degraded raise_link_down is_down
link-down_since works now down w = (ground arith, ground arith)
link-down_since works now incomplete_pass w = (refl, refl)
link-down_since works now error_rate w = (refl, refl)
link-down_since works now up w = (refl, refl)

-- What a look remembers, by what it finds.
unfoldable next_since : (seen answer : Bool) → (now before : ℕ) → ℕ
next_since seen answer now before =
    if seen then if before == 0 then now else before else if answer then 0 else before

check-down_since :
    (works : ℕ → ℕ → Bool) (now : ℕ) (o : Option Sight) (w : Watcher)
    → ((check works now o w).down_since ≡ next_since (sees_down o) (sees_answer o) now w.down_since)
      × ((check works now o w).down_after ≡ w.down_after)
unfolding check sees_down sees_answer next_since
check-down_since works now none w = (refl, refl)
check-down_since works now (some s) w =
    let (since, after) = link-down_since works now s.link w in
    elim (Bool-cases (is_down s.link)) [
      | inl here ↦ (since ∙ rw (here) refl, after)
      | inr gone ↦ (since ∙ rw (gone) refl, after)
    ]

not_both : (o : Option Sight) → (sees_down o && sees_answer o) ≡ false
unfolding sees_down sees_answer
not_both none = refl
not_both (some s) = ground arith

-- What is remembered after the looks, from an instant that was remembered before them.
unfoldable since_after : (silent : Bool) → (before : ℕ) → (first : ℕ) → ℕ
since_after quiet before first = if quiet && not (before == 0) then before else first

or_never-if :
    (b : Bool) (t : ℕ) (f : Option ℕ)
    → or_never (if b then some t else f) ≡ (if b then t else or_never f)
unfolding or_never
or_never-if true t f = refl
or_never-if false t f = refl

since_after-next :
    (seen answer quiet : Bool) (now before first : ℕ)
    → (seen && answer) ≡ false
    → 0 < now
    → since_after quiet (next_since seen answer now before) first
      ≡ since_after (not answer && quiet) before (if seen && quiet then now else first)
unfolding since_after next_since
since_after-next true true quiet now before first h dated = absurd cc
since_after-next true false quiet now before first h dated = ground arith
since_after-next false true quiet now before first h dated = ground arith
since_after-next false false quiet now before first h dated = ground arith

check_all-down_since :
    (looks : List Look) (w : Watcher)
    → All Dated looks
    → ((check_all looks w).down_since
        ≡ since_after (silent looks) w.down_since (or_never (down_from looks)))
      × ((check_all looks w).down_after ≡ w.down_after)
unfolding check_all silent down_from
check_all-down_since [] w dated = (unfold since_after or_never in ground arith, refl)
check_all-down_since (l ∷ looks) w (first, dated) =
    let next = check l.works l.at l.sight w in
    let (since, after) = check_all-down_since looks next dated in
    let (now_since, now_after) = check-down_since l.works l.at l.sight w in
    let quiet = silent looks in
    let never = or_never (down_from looks) in
    (
      since
          ∙ ap (λ (b : ℕ). since_after quiet b never) now_since
          ∙ since_after-next (sees_down l.sight) (sees_answer l.sight) quiet l.at w.down_since never
              (not_both l.sight) first
          ∙ ap (since_after (not (sees_answer l.sight) && quiet) w.down_since)
              (sym (or_never-if (sees_down l.sight && quiet) l.at (down_from looks))),
      after ∙ now_after,
    )

down_from-Dated : (looks : List Look) (t : ℕ) → All Dated looks → down_from looks ≡ some t → 0 < t
unfolding down_from
down_from-Dated [] t dated h = absurd cc
down_from-Dated (l ∷ looks) t (first, dated) h =
    elim (Bool-cases (sees_down l.sight && silent looks)) [
      | inl here ↦ ground (arith, first, rw here at h)
      | inr later ↦ down_from-Dated looks t dated (rw (later) at h)
    ]

since_lasted :
    (now after : ℕ) (o : Option ℕ)
    → ((t : ℕ) → o ≡ some t → 0 < t)
    → (not (or_never o == 0) && leb after (now - or_never o)) ≡ has_lasted now after o
unfolding or_never has_lasted
since_lasted now after none dated = refl
since_lasted now after (some t) dated = ground (arith, dated t refl)

-- Whether a line that is down has been so for the time that it may, as the watcher sees it.
pub check_all-has_lasted :
    (now : ℕ) (looks : List Look) (start : Watcher)
    → All Dated looks
    → start.down_since ≡ 0
    → let w = check_all looks start in
      (not (w.down_since == 0) && leb w.down_after (now - w.down_since))
      ≡ has_lasted now start.down_after (down_from looks)
check_all-has_lasted now looks start dated fresh =
    let (since, after) = check_all-down_since looks start dated in
    let simpler : (check_all looks start).down_since ≡ or_never (down_from looks) =
      since ∙ rw (fresh) (unfold since_after in ground arith) in
    rw (simpler, after)
      (since_lasted now start.down_after (down_from looks) (λ t. down_from-Dated looks t dated))
