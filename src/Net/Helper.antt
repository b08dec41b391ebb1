-- ===== src/Net/Helper.antt =====
-- internal/privhelper: one request, and the answer to it. Net/Helper/Requests is about what the
-- helper reads of a request.
pub mod Requests
use freeway_pi.Base.{
  ℕ, zero, suc, ◌+◌, ◌-◌, ◌*◌, ◌/◌, ◌%◌, ◌^◌, ◌≤◌, ◌<◌, min, max, ◌≡◌, refl, sym, ap, ap₂, subst,
  ◌∙◌, fun_ext, ◌≢◌, ◌↔◌, ◌⊎◌, inl, inr, Bool, true, false, not, ◌&&◌, ◌||◌, Option, none, some,
  List, [], ◌∷◌, ◌++◌, map, arith, ltb, leb, ◌==◌, if◌then◌else◌, ltb→lt, lt→ltb, leb→le, ==_iff,
  Bool-cases, Option-cases, nonzero, length, get_or, set, take, drop, replicate, length-append,
  length-take, length-drop, length-replicate, take-append, drop-append, All, length-map, All-append,
  All-append_left, All-append_right, length-set, get_or-set_self, get_or-set_ne, get_or-drop,
  drop-nil, drop-drop, Result, ◌>>=◌, ◌>>◌, fail_if, Result-cases, ok, err,
}
use freeway_pi.Base.Texts.{Text, codes, cut, is_empty, format_int}

pub record Field : Type 0 where
  pub key : Text
  pub value : Text

-- What a call fails with. The code, the English and the detail of a refusal are kept as they came.
pub data HelperError : Type 0 where
  unreachable : HelperError
  line_break : (key : Text) → HelperError
  broken : HelperError
  refused : (id : Text) → (detail : Option Text) → HelperError
  plain : Text → HelperError
  no_address : HelperError
  no_netmask : HelperError
  no_ssid : HelperError
  bad_psk : HelperError
  bad_country : HelperError

-- `strings.ContainsAny(v, "\n\r")`.
unfoldable pub has_break : Text → Bool
has_break [] = false
has_break (x ∷ t) = x == 10 || (x == 13 || has_break t)

unfoldable pub line : Field → Text
line f = f.key ++ (61 ∷ (f.value ++ (10 ∷ [])))

unfoldable pub write_field : Field → Result HelperError Text
write_field f = if has_break f.value then err (line_break f.key) else ok (line f)

unfoldable pub write_fields : List Field → Result HelperError Text
write_fields [] = ok (46 ∷ 10 ∷ [])
write_fields (f ∷ fields) = do first ← write_field f; rest ← write_fields fields; ok (first ++ rest)

-- The request of an operation.
unfoldable pub request : (op : Text) → List Field → Result HelperError Text
request op fields = write_fields (record { key = codes "op"; value = op } ∷ fields)

unfoldable pub is_space : ℕ → Bool
is_space x = x == 32 || (leb 9 x && leb x 13)

-- The white space of Unicode outside of ASCII, in two bytes and in three.
unfoldable pub is_pair_space : ℕ → ℕ → Bool
is_pair_space a b = a == 0xC2 && (b == 0x85 || b == 0xA0)

unfoldable pub is_wide_space : ℕ → ℕ → ℕ → Bool
is_wide_space a b c =
    (a == 0xE1 && b == 0x9A && c == 0x80)
    || (a == 0xE2
        && b == 0x80
        && ((leb 0x80 c && leb c 0x8A) || c == 0xA8 || c == 0xA9 || c == 0xAF))
    || (a == 0xE2 && b == 0x81 && c == 0x9F)
    || (a == 0xE3 && b == 0x80 && c == 0x80)

-- How many bytes the white space at the front has.
unfoldable pub space_size : Text → ℕ
space_size t =
    if is_space (get_or t 0 0)
    then 1
    else if is_pair_space (get_or t 0 0) (get_or t 1 0)
    then 2
    else if is_wide_space (get_or t 0 0) (get_or t 1 0) (get_or t 2 0)
    then 3
    else 0

-- The text behind the white space at its front, of whose first character so many bytes are left.
unfoldable pub trim_from : ℕ → Text → Text
trim_from k [] = []
trim_from (suc k) (x ∷ t) = trim_from k t
trim_from zero (x ∷ t) =
    let rest = trim_from (space_size (x ∷ t) - 1) t in
    if space_size (x ∷ t) == 0 then x ∷ t else rest

unfoldable pub trim_left : Text → Text
trim_left t = trim_from 0 t

-- The white space at the end goes too: nothing is kept of a text that is nothing else.
unfoldable pub trim_right : Text → Text
trim_right [] = []
trim_right (x ∷ t) =
    let rest = trim_right t in if is_empty (trim_left (x ∷ t)) then [] else x ∷ rest

unfoldable pub trim_space : Text → Text
trim_space t = trim_right (trim_left t)

-- `strings.CutPrefix`.
unfoldable pub cut_prefix : (prefix t : Text) → Option Text
cut_prefix [] t = some t
cut_prefix (p ∷ prefix) [] = none
cut_prefix (p ∷ prefix) (x ∷ t) = if x == p then cut_prefix prefix t else none

-- `refusal`, after the text was cut at its first tab, and again at the next. `has` is the catalogue
-- of messages.
unfoldable pub refusal_of :
    (has : Text → Bool) → (code english : Text) → (detail : Option Text) → HelperError
refusal_of has code english detail =
    if has (codes "helper." ++ code)
    then refused (codes "helper." ++ code) detail
    else plain english

unfoldable pub with_detail :
    (has : Text → Bool) → (code rest : Text) → Option (Text × Text) → HelperError
with_detail has code rest none = refusal_of has code rest none
with_detail has code rest (some (english, detail)) = refusal_of has code english (some detail)

unfoldable pub with_code : (has : Text → Bool) → (rest : Text) → Option (Text × Text) → HelperError
with_code has rest none = plain rest
with_code has rest (some (code, after)) = with_detail has code after (cut 9 after)

unfoldable pub refusal : (has : Text → Bool) → Text → HelperError
refusal has rest = with_code has rest (cut 9 rest)

unfoldable pub judge : (has : Text → Bool) → (answer : Text) → Option Text → Result HelperError Text
judge has answer none = ok answer
judge has answer (some rest) = err (refusal has rest)

-- The socket: it cannot be reached, or it answers a request, or fails.
pub data Socket : Type 0 where
  away : Socket
  reached : (Text → Option Text) → Socket

unfoldable pub hear : (has : Text → Bool) → Option Text → Result HelperError Text
hear has none = err broken
hear has (some out) =
    let answer = trim_space (take 65536 out) in
    judge has answer (cut_prefix (codes "feil: ") answer)

unfoldable pub call :
    Socket → (has : Text → Bool) → (op : Text) → List Field → Result HelperError Text
call away has op fields = err unreachable
call (reached talk) has op fields = do text ← request op fields; hear has (talk text)

unfoldable pub is_ok : Result HelperError Text → Bool
is_ok (ok _) = true
is_ok (err _) = false

unfoldable pub available : Socket → (has : Text → Bool) → Bool
available s has = is_ok (call s has (codes "check") [])

-- `Config` of netconf.go, as far as it is applied.
pub record Settings : Type 0 where
  pub connection : Text
  pub dhcp : Bool
  pub address : Text
  pub gateway : Text
  pub dns : List Text

unfoldable pub contains : ℕ → Text → Bool
contains c [] = false
contains c (x ∷ t) = x == c || contains c t

-- `strings.Join(dns, ",")`.
unfoldable pub join : (separator : ℕ) → List Text → Text
join c [] = []
join c (t ∷ []) = t
join c (t ∷ u ∷ rest) = t ++ (c ∷ join c (u ∷ rest))

unfoldable pub apply_fields : Settings → (revert_seconds : ℕ) → List Field
apply_fields c revert =
    record { key = codes "connection"; value = c.connection }
    ∷ record { key = codes "revert"; value = format_int revert }
    ∷ (if c.dhcp
        then record { key = codes "dhcp"; value = codes "1" } ∷ []
        else record { key = codes "dhcp"; value = codes "0" }
          ∷ record { key = codes "address"; value = c.address }
          ∷ record { key = codes "gateway"; value = c.gateway }
          ∷ record { key = codes "dns"; value = join 44 c.dns }
          ∷ [])

-- `Apply`.
unfoldable pub apply_settings :
    Socket → (has : Text → Bool) → Settings → (revert_seconds : ℕ) → Result HelperError Text
apply_settings s has c revert = do
  fail_if (not c.dhcp && is_empty c.address) no_address
  fail_if (not c.dhcp && not (contains 47 c.address)) no_netmask
  call s has (codes "apply") (apply_fields c revert)

unfoldable pub confirm : Socket → (has : Text → Bool) → Result HelperError Text
confirm s has = call s has (codes "confirm") []

-- `Join` of wifi.go, up to what it says of a failure.
unfoldable pub join_network :
    Socket
    → (has : Text → Bool) → (ssid psk : Text) → (revert_seconds : ℕ) → Result HelperError Text
join_network s has ssid psk revert = do
  fail_if (is_empty ssid) no_ssid
  fail_if (not (is_empty psk) && (ltb (length psk) 8 || ltb 64 (length psk))) bad_psk
  call s has (codes "wifi-connect") (
      record { key = codes "ssid"; value = ssid }
      ∷ record { key = codes "psk"; value = psk }
      ∷ record { key = codes "revert"; value = format_int revert }
      ∷ [])

unfoldable pub forget : Socket → (has : Text → Bool) → (ssid : Text) → Result HelperError Text
forget s has ssid =
    call s has (codes "wifi-forget") (record { key = codes "ssid"; value = ssid } ∷ [])
