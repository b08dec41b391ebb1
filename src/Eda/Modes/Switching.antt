-- ===== src/Eda/Modes/Switching.antt =====
-- Choosing a mode does what it says.
use freeway_pi.Base.{
  ℕ, ◌≤◌, ◌≡◌, refl, subst, ◌∙◌, inl, inr, Bool, true, false, none, some, List, [], ◌∷◌, ◌++◌,
  arith, Bool-cases, Option-cases, length, get_or, length-set, get_or-set_ne, ok,
}
use freeway_pi.Eda.{Write, coil_write, Unit16, do_write, do_writes}
use freeway_pi.Eda.Modes.{
  Mode, normal, stop, away, long_away, overpressure, max_heating, max_cooling, boost, other,
  mode_coil, code, same_mode, coil_of, is_known, set_mode, first_set, decode_mode,
}
use freeway_pi.Eda.Modes.Coils.{Selects, IsOther, clear, choose, other_ne, coil_below, same_mode-≡}

-- All but the mode coils is as it was.
pub record Keeps (u v : Unit16) : Type 0 where
  pub same_holding : v.holding ≡ u.holding
  pub same_size : length v.coils ≡ length u.coils
  pub same_others : (i : ℕ) → IsOther i → get_or v.coils i false ≡ get_or u.coils i false

Keeps-refl : (u : Unit16) → Keeps u u
Keeps-refl u = record { same_holding = refl; same_size = refl; same_others = λ i o. refl }

Keeps-trans : (u v w : Unit16) → Keeps u v → Keeps v w → Keeps u w
Keeps-trans u v w k l = record {
  same_holding = l.same_holding ∙ k.same_holding;
  same_size = l.same_size ∙ k.same_size;
  same_others = λ i o. l.same_others i o ∙ k.same_others i o;
}

Keeps-coil :
    (m : Mode) (c : ℕ) (bit : Bool) (u : Unit16)
    → mode_coil m ≡ some c
    → Keeps u (do_write (coil_write c bit) u)
unfolding do_write
Keeps-coil m c bit u mc = record {
  same_holding = refl;
  same_size = length-set u.coils c bit;
  same_others = λ i o. get_or-set_ne u.coils c i bit false (other_ne m c i mc o);
}

do_writes-append :
    (ws vs : List Write) (u : Unit16) → do_writes (ws ++ vs) u ≡ do_writes vs (do_writes ws u)
unfolding do_writes
do_writes-append [] vs u = refl
do_writes-append (w ∷ ws) vs u = do_writes-append ws vs (do_write w u)

-- What a list of writes has to do: from one mode to another.
abbrev pub Switches : Mode → Mode → Unit16 → Unit16 → Type 0
Switches current want u v = (Selects current u.coils → Selects want v.coils) × Keeps u v

coilless : (m : Mode) → is_known m ≡ true → mode_coil m ≡ none → m ≡ normal
unfolding mode_coil is_known
coilless normal k h = refl
coilless stop k h = absurd cc
coilless away k h = absurd cc
coilless long_away k h = absurd cc
coilless overpressure k h = absurd cc
coilless max_heating k h = absurd cc
coilless max_cooling k h = absurd cc
coilless boost k h = absurd cc
coilless other k h = absurd cc

turn_off :
    (m : Mode) (u : Unit16)
    → is_known m ≡ true
    → 11 ≤ length u.coils
    → Switches m normal u (do_writes (coil_of false (mode_coil m)) u)
unfolding do_writes coil_of do_write
turn_off m u known room = elim (Option-cases (mode_coil m)) [
  | inl no_coil ↦
      rw (no_coil, coil_of)
        (
          subst (λ q. Selects m u.coils → Selects q u.coils) (coilless m known no_coil) (λ h. h),
          Keeps-refl u,
        )
  | inr (c, mc) ↦
      rw (mc, coil_of)
        (clear m c u.coils mc (omega (arith, coil_below m c mc)), Keeps-coil m c false u mc)
]

turn_on :
    (m : Mode) (u : Unit16)
    → is_known m ≡ true
    → 11 ≤ length u.coils
    → Switches normal m u (do_writes (coil_of true (mode_coil m)) u)
unfolding do_writes coil_of do_write
turn_on m u known room = elim (Option-cases (mode_coil m)) [
  | inl no_coil ↦
      rw (no_coil, coil_of)
        (
          subst (λ q. Selects q u.coils → Selects m u.coils) (coilless m known no_coil) (λ h. h),
          Keeps-refl u,
        )
  | inr (c, mc) ↦
      rw (mc, coil_of)
        (choose m c u.coils mc (omega (arith, coil_below m c mc)), Keeps-coil m c true u mc)
]

decode-Selects :
    (m : Mode) (coils : List Bool) → is_known m ≡ true → Selects m coils → decode_mode coils ≡ m
unfolding decode_mode first_set same_mode code is_known
decode-Selects normal coils known h =
    rw
      (
        decode_mode, first_set, h.0, h.1.0, h.1.1.0, h.1.1.1.0, h.1.1.1.1.0, h.1.1.1.1.1.0,
        h.1.1.1.1.1.1.0,
      )
      refl
decode-Selects stop coils known h = rw (decode_mode, first_set, h.0) refl
decode-Selects away coils known h =
    rw
      (
        decode_mode, first_set, h.0, h.1.0, h.1.1.0, h.1.1.1.0, h.1.1.1.1.0, h.1.1.1.1.1.0,
        h.1.1.1.1.1.1.0,
      )
      refl
decode-Selects long_away coils known h =
    rw (decode_mode, first_set, h.0, h.1.0, h.1.1.0, h.1.1.1.0, h.1.1.1.1.0, h.1.1.1.1.1.0) refl
decode-Selects overpressure coils known h = rw (decode_mode, first_set, h.0, h.1.0) refl
decode-Selects max_heating coils known h =
    rw (decode_mode, first_set, h.0, h.1.0, h.1.1.0, h.1.1.1.0) refl
decode-Selects max_cooling coils known h =
    rw (decode_mode, first_set, h.0, h.1.0, h.1.1.0, h.1.1.1.0, h.1.1.1.1.0) refl
decode-Selects boost coils known h = rw (decode_mode, first_set, h.0, h.1.0, h.1.1.0) refl
decode-Selects other coils known h = absurd cc

set_mode_same :
    (current want : Mode)
    → is_known want ≡ true
    → same_mode current want ≡ true
    → set_mode current want ≡ ok []
unfolding set_mode
set_mode_same current want known same = rw (known, same, set_mode) refl

set_mode_other :
    (current want : Mode)
    → is_known want ≡ true
    → same_mode current want ≡ false
    → set_mode current want
      ≡ ok (coil_of false (mode_coil current) ++ coil_of true (mode_coil want))
unfolding set_mode
set_mode_other current want known differ = rw (known, differ, set_mode) refl

switch :
    (current want : Mode) (u : Unit16)
    → is_known current ≡ true
    → is_known want ≡ true
    → 11 ≤ length u.coils
    → Switches current want u
        (do_writes (coil_of false (mode_coil current) ++ coil_of true (mode_coil want)) u)
switch current want u known_current known_want room =
    let mid = do_writes (coil_of false (mode_coil current)) u in
    let (cleared, kept) = turn_off current u known_current room in
    let (chosen, held) = turn_on want mid known_want (omega (arith, kept.same_size)) in
    rw (do_writes-append (coil_of false (mode_coil current)) (coil_of true (mode_coil want)) u)
      (λ h. chosen (cleared h), Keeps-trans u mid _ kept held)

-- A known mode, chosen on a unit that is in a known mode and has no other mode coil set: the writes
-- are made without an error, after them the unit has the coil of the chosen mode set and no other
-- mode coil, so that it is decoded as that mode, and every other coil and all registers are as they
-- were.
pub set_mode-Selects :
    (current want : Mode) (u : Unit16)
    → is_known current ≡ true
    → is_known want ≡ true
    → 11 ≤ length u.coils
    → Selects current u.coils
    → (ws : List Write) × (set_mode current want ≡ ok ws)
      × Selects want (do_writes ws u).coils
      × (decode_mode (do_writes ws u).coils ≡ want)
      × Keeps u (do_writes ws u)
unfolding do_writes
set_mode-Selects current want u known_current known_want room here =
    elim (Bool-cases (same_mode current want)) [
      | inl same ↦
          let now = subst (λ m. Selects m u.coils) (same_mode-≡ current want same) here in
          (
            [],
            set_mode_same current want known_want same,
            now,
            decode-Selects want u.coils known_want now,
            Keeps-refl u,
          )
      | inr differ ↦
          let (chosen, kept) = switch current want u known_current known_want room in
          (
            coil_of false (mode_coil current) ++ coil_of true (mode_coil want),
            set_mode_other current want known_want differ,
            chosen here,
            decode-Selects want _ known_want (chosen here),
            kept,
          )
    ]
