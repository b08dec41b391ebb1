-- ===== src/Net/Networks/Sorted.antt =====
-- The networks in the order in which they are shown.
use freeway_pi.Base.{
  ◌≡◌, sym, ◌≢◌, inl, inr, Bool, false, Option, none, some, List, [], ◌∷◌, map, Bool-cases, All,
}
use freeway_pi.Base.Texts.{Text}
use freeway_pi.Net.Routes.{below}
use freeway_pi.Net.Terse.{unterse}
use freeway_pi.Net.Helper.{trim_space}
use freeway_pi.Net.Networks.{
  Network, network_of, hear_network, hear_option, hear_all, place, sort_networks, parse_networks,
}
use freeway_pi.Net.Networks.Heard.{
  Shows, Distinct, Falling, below_asym, below_down, hear_network-Shows, hear_network-keeps,
  hear_network-Distinct,
}

All-place :
    (P : Network → Type 0) (n : Network) (l : List Network) → P n → All P l → All P (place n l)
unfolding place
All-place P n [] h g = (h, tt)
All-place P n (m ∷ rest) h (here, more) =
    let later = All-place P n rest h more in
    elim (Bool-cases (below n.signal m.signal)) [
      | inl weaker ↦ rw (weaker) (here, later)
      | inr ahead ↦ rw (ahead) (h, (here, more))
    ]

place-Shows : (o n : Network) (l : List Network) → Shows o (n ∷ l) → Shows o (place n l)
unfolding place Shows
place-Shows o n [] h = h
place-Shows o n (m ∷ rest) h =
    let first = λ (e : Shows o (n ∷ [])).
      place-Shows o n rest (unfold Shows in elim e [ inl a ↦ inl a | inr b ↦ absurd b ]) in
    let later = λ (e : Shows o rest). place-Shows o n rest (inr e) in
    elim (Bool-cases (below n.signal m.signal)) [
      | inr ahead ↦ rw (ahead) h
      | inl weaker ↦ rw (weaker) (elim h [
        | inl here ↦ inr (first (inl here))
        | inr (inl second) ↦ inl second
        | inr (inr there) ↦ inr (later there)
      ])
    ]

place-Distinct :
    (n : Network) (l : List Network)
    → All (λ (m : Network). m.ssid ≢ n.ssid) l
    → Distinct l
    → Distinct (place n l)
unfolding place Distinct
place-Distinct n [] h g = (tt, tt)
place-Distinct n (m ∷ rest) (here, more) (apart, distinct) =
    let later = place-Distinct n rest more distinct in
    elim (Bool-cases (below n.signal m.signal)) [
      | inl weaker ↦
          rw (weaker)
            (All-place (λ (o : Network). o.ssid ≢ m.ssid) n rest (λ e. here (sym e)) apart, later)
      | inr ahead ↦ rw (ahead) ((here, more), (apart, distinct))
    ]

All-below :
    (n m : Network) (l : List Network)
    → below n.signal m.signal ≡ false
    → All (λ (o : Network). below m.signal o.signal ≡ false) l
    → All (λ (o : Network). below n.signal o.signal ≡ false) l
All-below n m [] h g = tt
All-below n m (o ∷ l) h (here, more) =
    (below_down n.signal m.signal o.signal h here, All-below n m l h more)

place-Falling : (n : Network) (l : List Network) → Falling l → Falling (place n l)
unfolding place Falling
place-Falling n [] h = (tt, tt)
place-Falling n (m ∷ rest) (most, falling) =
    let later = place-Falling n rest falling in
    elim (Bool-cases (below n.signal m.signal)) [
      | inl weaker ↦ rw (weaker) (
        All-place (λ (o : Network). below m.signal o.signal ≡ false) n rest
            (below_asym n.signal m.signal weaker) most,
        later,
      )
      | inr ahead ↦ rw (ahead) ((ahead, All-below n m rest ahead most), (most, falling))
    ]

All-sort : (P : Network → Type 0) (l : List Network) → All P l → All P (sort_networks l)
unfolding sort_networks
All-sort P [] h = tt
All-sort P (n ∷ l) (here, more) = All-place P n (sort_networks l) here (All-sort P l more)

sort_networks-Shows : (o : Network) (l : List Network) → Shows o l → Shows o (sort_networks l)
unfolding sort_networks Shows
sort_networks-Shows o [] h = h
sort_networks-Shows o (n ∷ l) h =
    let later = sort_networks-Shows o l in
    place-Shows o n (sort_networks l)
      (unfold Shows in elim h [ inl a ↦ inl a | inr b ↦ inr (later b) ])

sort_networks-Distinct : (l : List Network) → Distinct l → Distinct (sort_networks l)
unfolding sort_networks Distinct
sort_networks-Distinct [] h = tt
sort_networks-Distinct (n ∷ l) (apart, more) =
    place-Distinct n (sort_networks l) (All-sort (λ (m : Network). m.ssid ≢ n.ssid) l apart)
      (sort_networks-Distinct l more)

sort_networks-Falling : (l : List Network) → Falling (sort_networks l)
unfolding sort_networks Falling
sort_networks-Falling [] = tt
sort_networks-Falling (n ∷ l) = place-Falling n (sort_networks l) (sort_networks-Falling l)

hear_all-Distinct :
    (l : List (Option Network)) (known : List Network)
    → Distinct known
    → Distinct (hear_all l known)
unfolding hear_all hear_option
hear_all-Distinct [] known h = h
hear_all-Distinct (none ∷ l) known h = hear_all-Distinct l known h
hear_all-Distinct (some n ∷ l) known h =
    hear_all-Distinct l (hear_network n known) (hear_network-Distinct n known h)

hear_all-keeps :
    (o : Network) (l : List (Option Network)) (known : List Network)
    → Shows o known
    → Shows o (hear_all l known)
unfolding hear_all hear_option
hear_all-keeps o [] known h = h
hear_all-keeps o (none ∷ l) known h = hear_all-keeps o l known h
hear_all-keeps o (some n ∷ l) known h =
    hear_all-keeps o l (hear_network n known) (hear_network-keeps n o known h)

-- A line about a network has it among those shown.
unfoldable pub Counted : List Network → Option Network → Type 0
Counted out none = Unit
Counted out (some n) = Shows n out

All-Counted :
    (l : List (Option Network)) (known : List Network) → All (Counted (hear_all l known)) l
unfolding hear_all hear_option Counted
All-Counted [] known = tt
All-Counted (none ∷ l) known = (tt, All-Counted l known)
All-Counted (some n ∷ l) known = (
  hear_all-keeps n l (hear_network n known) (hear_network-Shows n known),
  All-Counted l (hear_network n known),
)

Counted-sorted :
    (known : List Network) (l : List (Option Network))
    → All (Counted known) l
    → All (Counted (sort_networks known)) l
unfolding Counted
Counted-sorted known [] h = tt
Counted-sorted known (none ∷ l) (_, more) = (tt, Counted-sorted known l more)
Counted-sorted known (some n ∷ l) (here, more) =
    (sort_networks-Shows n known here, Counted-sorted known l more)

-- The list made of any lines names no network twice and never has a stronger one behind a weaker;
-- and each line about a network has that network in it, at least as strong, and active if the line
-- says so.
pub parse_networks_lem :
    (saved : Text → Bool) (lines : List Text)
    → Distinct (parse_networks saved lines)
      × Falling (parse_networks saved lines)
      × All
          (Counted (parse_networks saved lines))
          (map (λ line. network_of saved (unterse (trim_space line))) lines)
unfolding parse_networks
parse_networks_lem saved lines =
    let heard = map (λ (l : Text). network_of saved (unterse (trim_space l))) lines in
    (
      sort_networks-Distinct (hear_all heard [])
          (hear_all-Distinct heard [] (unfold Distinct in tt)),
      sort_networks-Falling (hear_all heard []),
      Counted-sorted (hear_all heard []) heard (All-Counted heard []),
    )
