-- ===== src/Gateway/Acl.antt =====
-- internal/gateway/acl.go. Texts, addresses and prefixes are those of Go's strings and net/netip,
-- which the model takes as a parameter.
use freeway_pi.Base.{
  ◌≡◌, refl, ◌⊎◌, inl, inr, Bool, true, false, not, ◌&&◌, ◌||◌, Option, none, some, List, [], ◌∷◌,
  arith, if◌then◌else◌, Bool-cases, Option-cases,
}

pub record Netip : Type 1 where
  pub Text : Type 0
  pub Addr : Type 0
  pub Prefix : Type 0
  pub trim_space : Text → Text
  pub is_empty : Text → Bool
  pub has_slash : Text → Bool
  pub parse_prefix : Text → Option Prefix
  pub masked : Prefix → Prefix
  pub parse_addr : Text → Option Addr
  -- `netip.PrefixFrom(addr, addr.BitLen())`.
  pub single_host : Addr → Prefix
  pub unmap : Addr → Addr
  pub contains : Prefix → Addr → Bool

pub record Acl (N : Netip) : Type 0 where
  pub enabled : Bool
  pub allowed : List N.Prefix

unfoldable pub new_acl : (N : Netip) → Acl N
new_acl N = record { enabled = false; allowed = [] }

unfoldable pub parse_entry : (N : Netip) → N.Text → Option N.Prefix
parse_entry N e =
    if N.has_slash e
    then (elim (N.parse_prefix e) [ none ↦ none | some p ↦ some (N.masked p) ])
    else elim (N.parse_addr e) [ none ↦ none | some addr ↦ some (N.single_host addr) ]

-- `append`, where there was no error.
unfoldable pub add_entry : {A : Type 0} → Option A → Option (List A) → Option (List A)
add_entry (some p) (some ps) = some (p ∷ ps)
add_entry (some p) none = none
add_entry none _ = none

-- `none` where an entry is no address and no range.
unfoldable pub parse_entries : (N : Netip) → List N.Text → Option (List N.Prefix)
parse_entries N [] = some []
parse_entries N (raw ∷ entries) =
    let rest = parse_entries N entries in
    if N.is_empty (N.trim_space raw)
    then rest
    else add_entry (parse_entry N (N.trim_space raw)) rest

-- The list after a call, and whether the call was accepted.
unfoldable pub set_acl : (N : Netip) → Bool → List N.Text → Acl N → Bool × Acl N
set_acl N enabled entries a = elim (parse_entries N entries) [
  | none ↦ (false, a)
  | some prefixes ↦ (true, record { enabled = enabled; allowed = prefixes })
]

unfoldable pub any_contains : (N : Netip) → List N.Prefix → N.Addr → Bool
any_contains N [] addr = false
any_contains N (p ∷ ps) addr = N.contains p addr || any_contains N ps addr

unfoldable pub allows : (N : Netip) → Acl N → N.Addr → Bool
allows N a addr = if not a.enabled then false else any_contains N a.allowed (N.unmap addr)

-- What a text on the list is meant to admit.
unfoldable pub covers : (N : Netip) → N.Addr → N.Text → Bool
covers N addr raw = not (N.is_empty (N.trim_space raw)) && elim (parse_entry N (N.trim_space raw)) [
  | none ↦ false
  | some p ↦ N.contains p (N.unmap addr)
]

unfoldable pub any_covers : (N : Netip) → N.Addr → List N.Text → Bool
any_covers N addr [] = false
any_covers N addr (raw ∷ entries) = covers N addr raw || any_covers N addr entries

-- The prefixes of the entries cover what the texts are meant to.
parse_entries-covers :
    (N : Netip) (addr : N.Addr) (entries : List N.Text)
    → (parse_entries N entries ≡ none)
      ⊎ ((prefixes : List N.Prefix) × (parse_entries N entries ≡ some prefixes)
          × (any_contains N prefixes (N.unmap addr) ≡ any_covers N addr entries))
unfolding parse_entries any_contains any_covers add_entry covers
parse_entries-covers N addr [] = inr ([], refl, refl)
parse_entries-covers N addr (raw ∷ entries) = elim (Bool-cases (N.is_empty (N.trim_space raw))) [
  | inl blank ↦ rw (blank, parse_entries, any_covers) (parse_entries-covers N addr entries)
  | inr text ↦ elim (Option-cases (parse_entry N (N.trim_space raw))) [
    | inl bad ↦ inl (ground arith)
    | inr (p, good) ↦ elim (parse_entries-covers N addr entries) [
      | inl bad ↦ inl (ground arith)
      | inr (prefixes, parsed, same) ↦ inr (p ∷ prefixes, ground arith, ground arith)
    ]
  ]
]

-- A call is either refused, and then leaves the list as it was, or accepted, and then the list
-- admits an address exactly when it is enabled and one of the texts covers the address: it is not
-- blank, parses as an address or a range, and that contains the address, unmapped.
set_acl-allows :
    (N : Netip) (enabled : Bool) (entries : List N.Text) (a : Acl N) (addr : N.Addr)
    → (set_acl N enabled entries a ≡ (false, a))
      ⊎ (((set_acl N enabled entries a).0 ≡ true)
          × (allows N (set_acl N enabled entries a).1 addr
              ≡ (enabled && any_covers N addr entries)))
unfolding set_acl allows
set_acl-allows N enabled entries a addr = elim (parse_entries-covers N addr entries) [
  | inl bad ↦ inl (ground arith)
  | inr (prefixes, parsed, same) ↦ inr (ground arith, ground arith)
]
