-- ===== src/Net/Networks/Heard.antt =====
-- Each network once, the strongest first, and none that was heard left out.
use freeway_pi.Base.{
  ◌≡◌, refl, sym, subst, ◌∙◌, ◌≢◌, ◌⊎◌, inl, inr, true, false, List, [], ◌∷◌, arith, Bool-cases,
  All,
}
use freeway_pi.Base.Ints.{ℤ, pos, negsuc}
use freeway_pi.Base.Texts.{Text, same_text, same_text_refl, same_text→eq}
use freeway_pi.Net.Routes.{below}
use freeway_pi.Net.Networks.{Network, stronger, hear_network}

-- The list shows the network that was heard, at least as strong and active if it was.
unfoldable pub Shows : Network → List Network → Type 0
Shows n [] = ⊥
Shows n (m ∷ rest) =
    ((m.ssid ≡ n.ssid) × (below m.signal n.signal ≡ false) × (n.active ≡ true → m.active ≡ true))
    ⊎ Shows n rest

unfoldable pub Distinct : List Network → Type 0
Distinct [] = Unit
Distinct (n ∷ rest) = All (λ (m : Network). m.ssid ≢ n.ssid) rest × Distinct rest

unfoldable pub Falling : List Network → Type 0
Falling [] = Unit
Falling (n ∷ rest) = All (λ (m : Network). below n.signal m.signal ≡ false) rest × Falling rest

below_irrefl : (a : ℤ) → below a a ≡ false
unfolding below
below_irrefl (pos a) = ground arith
below_irrefl (negsuc a) = ground arith

pub below_asym : (a b : ℤ) → below a b ≡ true → below b a ≡ false
unfolding below
below_asym (pos a) (pos b) h = ground arith
below_asym (pos a) (negsuc b) h = absurd cc
below_asym (negsuc a) (pos b) h = refl
below_asym (negsuc a) (negsuc b) h = ground arith

-- What is not below stays so of anything less.
pub below_down : (a b c : ℤ) → below a b ≡ false → below b c ≡ false → below a c ≡ false
unfolding below
below_down (pos a) (pos b) (pos c) h g = ground arith
below_down (pos a) b (negsuc c) h g = refl
below_down (pos a) (negsuc b) (pos c) h g = absurd cc
below_down (negsuc a) (pos b) c h g = absurd cc
below_down (negsuc a) (negsuc b) (pos c) h g = absurd cc
below_down (negsuc a) (negsuc b) (negsuc c) h g = ground arith

ne-same : (t u : Text) → same_text t u ≡ false → t ≢ u
ne-same t u h e = absurd (let same : same_text t u ≡ true = rw (e) (same_text_refl u) in cc)

stronger_lem : (m n : Network) → ((stronger m n).ssid ≡ m.ssid) ⊎ ((stronger m n).ssid ≡ n.ssid)
unfolding stronger
stronger_lem m n = elim (Bool-cases (below m.signal n.signal)) [
  | inl less ↦ rw (less) (inr refl)
  | inr not_less ↦ elim (Bool-cases n.active) [
    | inl active ↦ rw (not_less, active) (inl refl)
    | inr idle ↦ rw (not_less, idle) (inl refl)
  ]
]

stronger-ssid : (m n : Network) → m.ssid ≡ n.ssid → (stronger m n).ssid ≡ n.ssid
stronger-ssid m n e = elim (stronger_lem m n) [ inl a ↦ a ∙ e | inr b ↦ b ]

-- What the network there was showed, and the one heard, the stronger of both shows.
stronger-shows :
    (m n : Network)
    → (below (stronger m n).signal m.signal ≡ false)
      × (below (stronger m n).signal n.signal ≡ false)
      × (m.active ≡ true → (stronger m n).active ≡ true)
      × (n.active ≡ true → (stronger m n).active ≡ true)
unfolding stronger
stronger-shows m n = elim (Bool-cases (below m.signal n.signal)) [
  | inl less ↦ rw (less) (
    below_asym m.signal n.signal less,
    below_irrefl n.signal,
    (λ (h : m.active ≡ true). ground (arith, h)),
    (λ (h : n.active ≡ true). ground (arith, h)),
  )
  | inr not_less ↦ elim (Bool-cases n.active) [
    | inl active ↦
        rw (not_less, active)
          (below_irrefl m.signal, not_less, (λ (h : m.active ≡ true). refl), λ h. refl)
    | inr idle ↦ rw (not_less, idle) (below_irrefl m.signal, not_less, (λ h. h), λ h. absurd cc)
  ]
]

pub hear_network-Shows : (n : Network) (l : List Network) → Shows n (hear_network n l)
unfolding hear_network Shows
hear_network-Shows n [] = inl (refl, below_irrefl n.signal, λ h. h)
hear_network-Shows n (m ∷ rest) =
    let later = hear_network-Shows n rest in
    elim (Bool-cases (same_text m.ssid n.ssid)) [
      | inl same ↦
          let (_, signal, _, active) = stronger-shows m n in
          rw (same) (inl (stronger-ssid m n (same_text→eq m.ssid n.ssid same), signal, active))
      | inr different ↦ rw (different) (inr later)
    ]

pub hear_network-keeps : (n o : Network) (l : List Network) → Shows o l → Shows o (hear_network n l)
unfolding hear_network Shows
hear_network-keeps n o [] h = absurd h
hear_network-keeps n o (m ∷ rest) h =
    let later = hear_network-keeps n o rest in
    elim (Bool-cases (same_text m.ssid n.ssid)) [
      | inr different ↦
          rw (different) (elim h [ inl here ↦ inl here | inr there ↦ inr (later there) ])
      | inl same ↦ rw (same) (elim h [
        | inr there ↦ inr there
        | inl (ssid, signal, active) ↦
            let e = same_text→eq m.ssid n.ssid same in
            let (more, _, kept, _) = stronger-shows m n in
            inl (
              stronger-ssid m n e ∙ sym e ∙ ssid,
              below_down (stronger m n).signal m.signal o.signal more signal,
              λ g. kept (active g),
            )
      ])
    ]

All-hear :
    (P : Text → Type 0) (n : Network) (l : List Network)
    → P n.ssid
    → All (λ (m : Network). P m.ssid) l
    → All (λ (m : Network). P m.ssid) (hear_network n l)
unfolding hear_network
All-hear P n [] h g = (h, tt)
All-hear P n (m ∷ rest) h (here, more) =
    let later = All-hear P n rest h more in
    elim (Bool-cases (same_text m.ssid n.ssid)) [
      | inl same ↦
          rw (same) (subst P (sym (stronger-ssid m n (same_text→eq m.ssid n.ssid same))) h, more)
      | inr different ↦ rw (different) (here, later)
    ]

pub hear_network-Distinct :
    (n : Network) (l : List Network) → Distinct l → Distinct (hear_network n l)
unfolding hear_network Distinct
hear_network-Distinct n [] h = (tt, tt)
hear_network-Distinct n (m ∷ rest) (apart, more) =
    let later = hear_network-Distinct n rest more in
    elim (Bool-cases (same_text m.ssid n.ssid)) [
      | inl same ↦
          let e = same_text→eq m.ssid n.ssid same in
          rw (same) (
            subst (λ (t : Text). All (λ (o : Network). o.ssid ≢ t) rest)
                (e ∙ sym (stronger-ssid m n e)) apart,
            more,
          )
      | inr different ↦ rw (different) (
        All-hear (λ (t : Text). t ≢ m.ssid) n rest (λ e. ne-same m.ssid n.ssid different (sym e))
            apart,
        later,
      )
    ]
