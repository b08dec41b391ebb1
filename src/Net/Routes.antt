-- ===== src/Net/Routes.antt =====
-- internal/netconf/netconf.go: the device that the default route leaves by.
pub mod Best
use freeway_pi.Base.{
  ℕ, zero, suc, ◌+◌, ◌-◌, ◌*◌, ◌/◌, ◌%◌, ◌^◌, ◌≤◌, ◌<◌, min, max, ◌≡◌, refl, sym, ap, ap₂, subst,
  ◌∙◌, fun_ext, ◌≢◌, ◌↔◌, ◌⊎◌, inl, inr, Bool, true, false, not, ◌&&◌, ◌||◌, Option, none, some,
  List, [], ◌∷◌, ◌++◌, map, arith, ltb, leb, ◌==◌, if◌then◌else◌, ltb→lt, lt→ltb, leb→le, ==_iff,
  Bool-cases, Option-cases, nonzero, length, get_or, set, take, drop, replicate, length-append,
  length-take, length-drop, length-replicate, take-append, drop-append, All, length-map, All-append,
  All-append_left, All-append_right, length-set, get_or-set_self, get_or-set_ne, get_or-drop,
  drop-nil, drop-drop, Result, ◌>>=◌, ◌>>◌, fail_if, Result-cases, ok, err,
}
use freeway_pi.Base.Ints.{ℤ, pos, negsuc}
use freeway_pi.Base.Texts.{Text, codes, same_text, is_empty, unsigned}
use freeway_pi.Net.Helper.{space_size, cut_prefix}

-- `strings.Fields`, with the field that is being read, and how many bytes are left of a white space.
unfoldable pub put_field : Text → List Text → List Text
put_field cur rest = if is_empty cur then rest else cur ∷ rest

unfoldable pub fields_loop : (left : ℕ) → (cur : Text) → Text → List Text
fields_loop left cur [] = put_field cur []
fields_loop (suc left) cur (x ∷ t) = fields_loop left cur t
fields_loop zero cur (x ∷ t) =
    let size = space_size (x ∷ t) in
    let rest = fields_loop (size - 1) (if size == 0 then cur ++ (x ∷ []) else []) t in
    if size == 0 then rest else put_field cur rest

unfoldable pub fields : Text → List Text
fields t = fields_loop 0 [] t

-- `strconv.Atoi` without its error: 0 where there is no number, and the bound of 64 bits where the
-- number is past it.
unfoldable pub up_to : Option ℕ → ℤ
up_to none = pos 0
up_to (some n) = pos (min n (2 ^ 63 - 1))

unfoldable pub down_to : Option ℕ → ℤ
down_to none = pos 0
down_to (some zero) = pos 0
down_to (some (suc n)) = negsuc (min n (2 ^ 63 - 1))

unfoldable pub atoi : Text → ℤ
atoi [] = pos 0
atoi (x ∷ t) =
    if x == 43
    then up_to (unsigned t)
    else if x == 45
    then down_to (unsigned t)
    else up_to (unsigned (x ∷ t))

-- The words `dev` and `metric`, each with the field behind it.
unfoldable pub read_fields : List Text → (dev : Text) → (metric : ℤ) → Text × ℤ
read_fields [] dev metric = (dev, metric)
read_fields (f ∷ []) dev metric = (dev, metric)
read_fields (f ∷ g ∷ rest) dev metric =
    read_fields (g ∷ rest) (if same_text f (codes "dev") then g else dev)
      (if same_text f (codes "metric") then atoi g else metric)

unfoldable pub below : ℤ → ℤ → Bool
below (pos a) (pos b) = ltb a b
below (pos a) (negsuc b) = false
below (negsuc a) (pos b) = true
below (negsuc a) (negsuc b) = ltb b a

unfoldable pub is_some : {A : Type 0} → Option A → Bool
is_some none = false
is_some (some a) = true

-- A line that is a default route by a device, with the device and its metric.
unfoldable pub usable : Text × ℤ → Option (Text × ℤ)
usable (dev, metric) = if is_empty dev then none else some (dev, metric)

unfoldable pub route_of : Text → Option (Text × ℤ)
route_of line =
    if is_some (cut_prefix (codes "default ") line)
    then usable (read_fields (fields line) [] (pos 0))
    else none

unfoldable pub better : Option (Text × ℤ) → (best : Text) → (best_metric : ℤ) → Text × ℤ
better none best best_metric = (best, best_metric)
better (some (dev, metric)) best best_metric =
    if below metric best_metric then (dev, metric) else (best, best_metric)

unfoldable pub pick_loop : List Text → Text × ℤ → Text
pick_loop [] (best, best_metric) = best
pick_loop (line ∷ lines) (best, best_metric) =
    pick_loop lines (better (route_of line) best best_metric)

unfoldable pub pick_default_device : List Text → Text
pick_default_device lines = pick_loop lines ([], pos (2 ^ 63 - 1))

-- `Link`, and the lines of the connections that are up, split into their fields.
pub record Link : Type 0 where
  pub connection : Text
  pub device : Text
  pub wireless : Bool
  pub primary : Bool

-- `strings.Contains(t, "wireless")`.
unfoldable pub has_part : (part t : Text) → Bool
has_part part [] = is_empty part
has_part part (x ∷ t) = is_some (cut_prefix part (x ∷ t)) || has_part part t

unfoldable pub link_of : (primary : Text) → List Text → Option Link
link_of primary (name ∷ device ∷ kind ∷ rest) =
    if same_text kind (codes "loopback")
    then none
    else some (record {
      connection = name;
      device = device;
      wireless = has_part (codes "wireless") kind;
      primary = same_text device primary;
    })
link_of primary parts = none

unfoldable pub keep_link : Option Link → List Link → List Link
keep_link none rest = rest
keep_link (some l) rest = l ∷ rest

unfoldable pub links_of : (primary : Text) → List (List Text) → List Link
links_of primary [] = []
links_of primary (parts ∷ lines) = keep_link (link_of primary parts) (links_of primary lines)

unfoldable pub any_primary : List Link → Bool
any_primary [] = false
any_primary (l ∷ rest) = l.primary || any_primary rest

unfoldable pub mark_first : List Link → List Link
mark_first [] = []
mark_first (l ∷ rest) = record l { primary = true } ∷ rest

-- `Links`.
unfoldable pub links : (primary : Text) → List (List Text) → List Link
links primary lines =
    let out = links_of primary lines in if any_primary out then out else mark_first out

-- The loop of `ReadConnection`: an empty name wants the primary connection.
unfoldable pub is_wanted : (want : Text) → Link → Bool
is_wanted want l = if is_empty want then l.primary else same_text l.connection want

unfoldable pub find_link : (want : Text) → List Link → Option Link
find_link want [] = none
find_link want (l ∷ rest) =
    let later = find_link want rest in if is_wanted want l then some l else later
