-- ===== src/Net/Networks.antt =====
-- internal/netconf/wifi.go: the networks that the radio hears, each once and the strongest first,
-- and the country it is in. A line comes with its white space trimmed.
pub mod Heard
pub mod Sorted
use freeway_pi.Base.{
  ℕ, zero, suc, ◌+◌, ◌-◌, ◌*◌, ◌/◌, ◌%◌, ◌^◌, ◌≤◌, ◌<◌, min, max, ◌≡◌, refl, sym, ap, ap₂, subst,
  ◌∙◌, fun_ext, ◌≢◌, ◌↔◌, ◌⊎◌, inl, inr, Bool, true, false, not, ◌&&◌, ◌||◌, Option, none, some,
  List, [], ◌∷◌, ◌++◌, map, arith, ltb, leb, ◌==◌, if◌then◌else◌, ltb→lt, lt→ltb, leb→le, ==_iff,
  Bool-cases, Option-cases, nonzero, length, get_or, set, take, drop, replicate, length-append,
  length-take, length-drop, length-replicate, take-append, drop-append, All, length-map, All-append,
  All-append_left, All-append_right, length-set, get_or-set_self, get_or-set_ne, get_or-drop,
  drop-nil, drop-drop, Result, ◌>>=◌, ◌>>◌, fail_if, Result-cases, ok, err,
}
use freeway_pi.Base.Ints.{ℤ, pos, negsuc}
use freeway_pi.Base.Texts.{Text, codes, same_text, is_empty, cut}
use freeway_pi.Net.Helper.{cut_prefix, trim_space}
use freeway_pi.Net.Routes.{atoi, below}
use freeway_pi.Net.Terse.{unterse}

pub record Network : Type 0 where
  pub ssid : Text
  pub signal : ℤ
  pub security : Text
  pub is_open : Bool
  pub active : Bool
  pub saved : Bool

unfoldable pub is_open_security : Text → Bool
is_open_security t = is_empty t || same_text t (codes "--")

unfoldable pub network_of : (saved : Text → Bool) → List Text → Option Network
network_of saved (in_use ∷ ssid ∷ signal ∷ security ∷ rest) =
    if is_empty ssid
    then none
    else some (record {
      ssid = ssid;
      signal = atoi signal;
      security = if is_open_security security then [] else security;
      is_open = is_open_security security;
      active = same_text in_use (codes "*");
      saved = saved ssid;
    })
network_of saved parts = none

-- What stays of the network there was and of one more line about it.
unfoldable pub stronger : (prev n : Network) → Network
stronger prev n =
    if below prev.signal n.signal
    then record n { active = n.active || prev.active }
    else if n.active
    then record prev { active = true }
    else prev

-- `best` and `order` as one list, in the order in which the networks were first heard.
unfoldable pub hear_network : Network → List Network → List Network
hear_network n [] = n ∷ []
hear_network n (m ∷ rest) =
    let later = hear_network n rest in
    if same_text m.ssid n.ssid then stronger m n ∷ rest else m ∷ later

unfoldable pub hear_option : Option Network → List Network → List Network
hear_option none known = known
hear_option (some n) known = hear_network n known

unfoldable pub hear_all : List (Option Network) → List Network → List Network
hear_all [] known = known
hear_all (n ∷ rest) known = hear_all rest (hear_option n known)

-- `sort.SliceStable` by falling signal: a network goes behind the stronger ones that came later.
unfoldable pub place : Network → List Network → List Network
place n [] = n ∷ []
place n (m ∷ rest) =
    let later = place n rest in if below n.signal m.signal then m ∷ later else n ∷ m ∷ rest

unfoldable pub sort_networks : List Network → List Network
sort_networks [] = []
sort_networks (n ∷ rest) = place n (sort_networks rest)

unfoldable pub parse_networks : (saved : Text → Bool) → List Text → List Network
parse_networks saved lines =
    sort_networks (hear_all (map (λ line. network_of saved (unterse (trim_space line))) lines) [])

unfoldable pub is_capital : ℕ → Bool
is_capital c = leb 65 c && leb c 90

unfoldable pub is_country : Text → Bool
is_country (a ∷ b ∷ []) = is_capital a && is_capital b
is_country t = false

-- What stands before the first colon.
unfoldable pub before_colon : Text → Option (Text × Text) → Text
before_colon t none = t
before_colon t (some (before, after)) = before

unfoldable pub country_of : Option Text → Text
country_of none = []
country_of (some rest) = trim_space (before_colon rest (cut 58 rest))

-- `countryFrom`.
unfoldable pub country_from : List Text → Text
country_from [] = []
country_from (l ∷ lines) =
    let code = country_of (cut_prefix (codes "country ") (trim_space l)) in
    let later = country_from lines in if is_country code then code else later
