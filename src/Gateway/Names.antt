-- ===== src/Gateway/Names.antt =====
-- internal/gateway/resolve.go: the names of clients, always answered from the cache. A lookup runs
-- beside the rest; its start and its end are steps of their own. What DNS answers, and the parsing of
-- addresses, are arguments; instants are nanoseconds, and 0 is the zero time.
pub mod Flights
use freeway_pi.Base.{
  ℕ, zero, suc, ◌+◌, ◌-◌, ◌*◌, ◌/◌, ◌%◌, ◌^◌, ◌≤◌, ◌<◌, min, max, ◌≡◌, refl, sym, ap, ap₂, subst,
  ◌∙◌, fun_ext, ◌≢◌, ◌↔◌, ◌⊎◌, inl, inr, Bool, true, false, not, ◌&&◌, ◌||◌, Option, none, some,
  List, [], ◌∷◌, ◌++◌, map, arith, ltb, leb, ◌==◌, if◌then◌else◌, ltb→lt, lt→ltb, leb→le, ==_iff,
  Bool-cases, Option-cases, nonzero, length, get_or, set, take, drop, replicate, length-append,
  length-take, length-drop, length-replicate, take-append, drop-append, All, length-map, All-append,
  All-append_left, All-append_right, length-set, get_or-set_self, get_or-set_ne, get_or-drop,
  drop-nil, drop-drop, Result, ◌>>=◌, ◌>>◌, fail_if, Result-cases, ok, err,
}
use freeway_pi.Base.Texts.{Text, same_text, is_empty, cut}

pub record NameEntry : Type 0 where
  pub name : Text
  pub expires : ℕ
  pub pending : Bool

-- The cache, and the addresses of the lookups that are running.
pub record Resolver : Type 0 where
  pub entries : List (Text × NameEntry)
  pub running : List Text

unfoldable pub new_resolver : Resolver
new_resolver = record { entries = []; running = [] }

unfoldable pub find_entry : Text → List (Text × NameEntry) → Option NameEntry
find_entry ip [] = none
find_entry ip ((k, e) ∷ m) = let rest = find_entry ip m in if same_text k ip then some e else rest

unfoldable pub put_entry : Text → NameEntry → List (Text × NameEntry) → List (Text × NameEntry)
put_entry ip e [] = (ip, e) ∷ []
put_entry ip e ((k, f) ∷ m) =
    let rest = put_entry ip e m in if same_text k ip then (k, e) ∷ m else (k, f) ∷ rest

-- `nameTTL` and `nameMissTTL`.
abbrev pub name_ttl : ℕ
name_ttl = 30 * 60 * 1_000_000_000

abbrev pub name_miss_ttl : ℕ
name_miss_ttl = 4 * 3600 * 1_000_000_000

unfoldable pub start_lookup : Text → NameEntry → Resolver → Text × Resolver
start_lookup ip e r = (
  e.name,
  record {
    entries = put_entry ip (record e { pending = true }) r.entries;
    running = ip ∷ r.running;
  },
)

unfoldable pub with_entry : (now : ℕ) → Text → Option NameEntry → Resolver → Text × Resolver
with_entry now ip none r = start_lookup ip (record { name = []; expires = 0; pending = false }) r
with_entry now ip (some e) r =
    if ltb now e.expires || e.pending then (e.name, r) else start_lookup ip e r

-- `Name`.
unfoldable pub name : (now : ℕ) → Text → Resolver → Text × Resolver
name now ip r = if is_empty ip then ([], r) else with_entry now ip (find_entry ip r.entries) r

-- `strings.TrimSuffix(ptr, ".")`.
unfoldable pub trim_dot : Text → Text
trim_dot [] = []
trim_dot (x ∷ t) = let rest = trim_dot t in if x == 46 && is_empty t then [] else x ∷ rest

unfoldable pub host_part : Text → Option (Text × Text) → Text
host_part t none = t
host_part t (some (host, rest)) = if is_empty host then t else host

unfoldable pub is_hex : ℕ → Bool
is_hex c = (leb 48 c && leb c 57) || ((leb 97 c && leb c 102) || (leb 65 c && leb c 70))

unfoldable pub all_hex : Text → Bool
all_hex [] = true
all_hex (x ∷ t) = is_hex x && all_hex t

unfoldable pub is_device_id : Text → Bool
is_device_id t = leb 12 (length t) && all_hex t

-- What stands before the last hyphen, and what stands after it.
unfoldable pub before_hyphen : ℕ → Text → Option (Text × Text) → Option (Text × Text)
before_hyphen x t (some (before, after)) = some (x ∷ before, after)
before_hyphen x t none = if x == 45 then some ([], t) else none

unfoldable pub cut_last : Text → Option (Text × Text)
cut_last [] = none
cut_last (x ∷ t) = before_hyphen x t (cut_last t)

unfoldable pub drop_id : Text → Option (Text × Text) → Text
drop_id t none = t
drop_id t (some (before, after)) = if not (is_empty before) && is_device_id after then before else t

unfoldable pub tidy_host : Text → Text
tidy_host t = drop_id t (cut_last t)

-- `tidyName`.
unfoldable pub tidy_name : Text → Text
tidy_name ptr = let t = trim_dot ptr in tidy_host (host_part t (cut 46 t))

-- The entry that the names found, or a failed lookup, leave.
unfoldable pub answer_entry : (now : ℕ) → Option (List Text) → NameEntry
answer_entry now (some (first ∷ rest)) = record {
  name = tidy_name first;
  expires = now + name_ttl;
  pending = false;
}
answer_entry now _ = record { name = []; expires = now + name_miss_ttl; pending = false }

-- One running lookup of the address fewer.
unfoldable pub land : Text → List Text → List Text
land ip [] = []
land ip (k ∷ m) = let rest = land ip m in if same_text k ip then m else k ∷ rest

-- The end of `resolve`.
unfoldable pub resolve : (now : ℕ) → Text → Option (List Text) → Resolver → Resolver
resolve now ip names r = record {
  entries = put_entry ip (answer_entry now names) r.entries;
  running = land ip r.running;
}

-- `describe`, with the host of an address and its unmapping.
unfoldable pub describe :
    (split unmap : Text → Text) → (now : ℕ) → Text → Resolver → Text × Resolver
describe split unmap now addr r = name now (unmap (split addr)) r
