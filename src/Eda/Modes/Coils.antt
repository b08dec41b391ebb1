-- ===== src/Eda/Modes/Coils.antt =====
-- The mode coils: which one a write sets or clears, and that no other mode notices.
use freeway_pi.Base.{
  ℕ, zero, suc, ◌<◌, ◌≡◌, refl, sym, ap, subst, ◌∙◌, ◌≢◌, ◌⊎◌, inl, inr, Bool, true, false, Option,
  none, some, List, [], ◌∷◌, arith, ◌==◌, if◌then◌else◌, ==_iff, Bool-cases, length, get_or, set,
  All, get_or-set_self, get_or-set_ne,
}
use freeway_pi.Eda.Modes.{
  Mode, normal, stop, away, long_away, overpressure, max_heating, max_cooling, boost, other,
  mode_coil, code, same_mode, mode_list,
}

-- Of the mode coils the unit has set that of the mode, and no other.
abbrev pub Selects : Mode → List Bool → Type 0
Selects m coils = All (λ p. get_or coils p.1 false ≡ same_mode m p.0) mode_list

-- A coil that selects no mode.
abbrev pub IsOther : ℕ → Type 0
IsOther i = All (λ p. p.1 ≢ i) mode_list

uncode : ℕ → Mode
uncode zero = normal
uncode (suc zero) = stop
uncode (suc (suc zero)) = away
uncode (suc (suc (suc zero))) = long_away
uncode (suc (suc (suc (suc zero)))) = overpressure
uncode (suc (suc (suc (suc (suc zero))))) = max_heating
uncode (suc (suc (suc (suc (suc (suc zero)))))) = max_cooling
uncode (suc (suc (suc (suc (suc (suc (suc zero))))))) = boost
uncode _ = other

uncode-code : (m : Mode) → uncode (code m) ≡ m
unfolding uncode code
uncode-code normal = refl
uncode-code stop = refl
uncode-code away = refl
uncode-code long_away = refl
uncode-code overpressure = refl
uncode-code max_heating = refl
uncode-code max_cooling = refl
uncode-code boost = refl
uncode-code other = refl

pub same_mode-≡ : (m p : Mode) → same_mode m p ≡ true → m ≡ p
unfolding same_mode
same_mode-≡ m p h = sym (uncode-code m) ∙ ap uncode ((==_iff (code m) (code p)).0 h) ∙ uncode-code p

same_mode_refl : (m : Mode) → same_mode m m ≡ true
unfolding same_mode
same_mode_refl m = (==_iff (code m) (code m)).1 refl

All-zip :
    {A : Type 0} (P Q R : A → Type 0) (xs : List A)
    → ((a : A) → P a → Q a → R a)
    → All P xs
    → All Q xs
    → All R xs
All-zip P Q R [] f ps qs = tt
All-zip P Q R (x ∷ xs) f (p, ps) (q, qs) = (f x p q, All-zip P Q R xs f ps qs)

listed : All (λ p. mode_coil p.0 ≡ some p.1) mode_list
unfolding mode_coil
listed = (refl, (refl, (refl, (refl, (refl, (refl, (refl, tt)))))))

uncoil : Option ℕ → Mode
uncoil none = normal
uncoil (some c) =
    if c == 0
    then stop
    else if c == 1
    then away
    else if c == 2
    then long_away
    else if c == 3
    then overpressure
    else if c == 6
    then max_heating
    else if c == 7
    then max_cooling
    else boost

uncoil-mode_coil : (m : Mode) (c : ℕ) → mode_coil m ≡ some c → uncoil (mode_coil m) ≡ m
unfolding uncoil mode_coil
uncoil-mode_coil normal c h = absurd cc
uncoil-mode_coil stop c h = refl
uncoil-mode_coil away c h = refl
uncoil-mode_coil long_away c h = refl
uncoil-mode_coil overpressure c h = refl
uncoil-mode_coil max_heating c h = refl
uncoil-mode_coil max_cooling c h = refl
uncoil-mode_coil boost c h = refl
uncoil-mode_coil other c h = absurd cc

mode_coil_inj : (m p : Mode) (c k : ℕ) → mode_coil m ≡ some c → mode_coil p ≡ some k → c ≡ k → m ≡ p
mode_coil_inj m p c k mc pk e =
    sym (uncoil-mode_coil m c mc)
    ∙ ap uncoil (mc ∙ ap (λ (n : ℕ). some n) e ∙ sym pk)
    ∙ uncoil-mode_coil p k pk

pub some_inj : {c k : ℕ} → ◌≡◌ {A = Option ℕ} (some c) (some k) → c ≡ k
some_inj h = cc

not_both : (b : Bool) → b ≡ true → b ≢ false
not_both b t f = cc

normal_none : (p : Mode) (k : ℕ) → mode_coil p ≡ some k → same_mode normal p ≡ false
unfolding mode_coil same_mode code
normal_none normal k h = absurd cc
normal_none stop k h = refl
normal_none away k h = refl
normal_none long_away k h = refl
normal_none overpressure k h = refl
normal_none max_heating k h = refl
normal_none max_cooling k h = refl
normal_none boost k h = refl
normal_none other k h = refl

-- What a write to the coil `c` of the mode `m` makes of the coil `k` of the mode `p`.
written :
    (m p : Mode) (c k : ℕ) (bit : Bool) (coils : List Bool)
    → mode_coil m ≡ some c
    → mode_coil p ≡ some k
    → c < length coils
    → ((same_mode m p ≡ true) × (get_or (set coils c bit) k false ≡ bit))
      ⊎ ((same_mode m p ≡ false) × (get_or (set coils c bit) k false ≡ get_or coils k false))
written m p c k bit coils mc pk room = elim (Bool-cases (same_mode m p)) [
  | inl same ↦
      let here : c ≡ k = some_inj (sym mc ∙ ap mode_coil (same_mode-≡ m p same) ∙ pk) in
      inl (
        same,
        ap (λ (i : ℕ). get_or (set coils c bit) i false) (sym here)
            ∙ get_or-set_self coils c bit false room,
      )
  | inr differ ↦ inr (
    differ,
    get_or-set_ne coils c k bit false (λ e.
        not_both (same_mode m p)
          (subst (λ q. same_mode m q ≡ true) (mode_coil_inj m p c k mc pk e) (same_mode_refl m))
          differ),
  )
]

-- Switching a mode's coil off leaves no mode coil set.
pub clear :
    (m : Mode) (c : ℕ) (coils : List Bool)
    → mode_coil m ≡ some c
    → c < length coils
    → Selects m coils
    → Selects normal (set coils c false)
clear m c coils mc room =
    All-zip (λ p. mode_coil p.0 ≡ some p.1) (λ p. get_or coils p.1 false ≡ same_mode m p.0)
      (λ p. get_or (set coils c false) p.1 false ≡ same_mode normal p.0) mode_list
      (λ (p, k) pk old. elim (written m p c k false coils mc pk room) [
        | inl (same, now) ↦ now ∙ sym (normal_none p k pk)
        | inr (differ, now) ↦ now ∙ old ∙ differ ∙ sym (normal_none p k pk)
      ])
      listed

pub choose :
    (m : Mode) (c : ℕ) (coils : List Bool)
    → mode_coil m ≡ some c
    → c < length coils
    → Selects normal coils
    → Selects m (set coils c true)
choose m c coils mc room =
    All-zip (λ p. mode_coil p.0 ≡ some p.1) (λ p. get_or coils p.1 false ≡ same_mode normal p.0)
      (λ p. get_or (set coils c true) p.1 false ≡ same_mode m p.0) mode_list
      (λ (p, k) pk old. elim (written m p c k true coils mc pk room) [
        | inl (same, now) ↦ now ∙ sym same
        | inr (differ, now) ↦ now ∙ old ∙ normal_none p k pk ∙ sym differ
      ])
      listed

pub other_ne : (m : Mode) (c i : ℕ) → mode_coil m ≡ some c → IsOther i → c ≢ i
unfolding mode_coil
other_ne normal c i h o = absurd cc
other_ne stop c i h o = λ e. o.0 (some_inj h ∙ e)
other_ne away c i h o = λ e. o.1.1.1.1.1.1.0 (some_inj h ∙ e)
other_ne long_away c i h o = λ e. o.1.1.1.1.1.0 (some_inj h ∙ e)
other_ne overpressure c i h o = λ e. o.1.0 (some_inj h ∙ e)
other_ne max_heating c i h o = λ e. o.1.1.1.0 (some_inj h ∙ e)
other_ne max_cooling c i h o = λ e. o.1.1.1.1.0 (some_inj h ∙ e)
other_ne boost c i h o = λ e. o.1.1.0 (some_inj h ∙ e)
other_ne other c i h o = absurd cc

pub coil_below : (m : Mode) (c : ℕ) → mode_coil m ≡ some c → c < 11
unfolding mode_coil
coil_below normal c h = absurd cc
coil_below stop c h = omega (arith, some_inj h)
coil_below away c h = omega (arith, some_inj h)
coil_below long_away c h = omega (arith, some_inj h)
coil_below overpressure c h = omega (arith, some_inj h)
coil_below max_heating c h = omega (arith, some_inj h)
coil_below max_cooling c h = omega (arith, some_inj h)
coil_below boost c h = omega (arith, some_inj h)
coil_below other c h = absurd cc
