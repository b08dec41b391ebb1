-- ===== src/Eda/Settings/Table.antt =====
-- The table of settings as a whole: where its rows lie, and how a row is found.
use freeway_pi.Base.{
  ℕ, ◌+◌, ◌≤◌, ◌<◌, ◌≡◌, refl, subst, ◌⊎◌, inl, inr, Bool, true, false, not, ◌&&◌, ◌||◌, some, List,
  [], ◌∷◌, arith, ltb, leb, ◌==◌, if◌then◌else◌, Bool-cases, All,
}
use freeway_pi.Base.Ints.{ℤ, pos, negsuc}
use freeway_pi.Base.Texts.{Text, same_text}
use freeway_pi.Eda.Settings.{Setting, SettingValue, settings, find_setting}
use freeway_pi.Eda.Settings.Numbers.{nearest, IsSmall}

-- What the page shows of a setting that was given a value.
unfoldable pub entered : Setting → (number : ℤ) → (boolean : Bool) → SettingValue
entered s number boolean = record {
  setting = s;
  number = if s.coil then pos 0 else nearest s.scale number;
  bool = if s.coil then boolean else false;
}

abbrev pub width : Setting → ℕ
width s = if s.has_twin then 2 else 1

unfoldable pub is_small : ℤ → Bool
is_small (pos n) = leb n 10000
is_small (negsuc n) = ltb n 10000

-- A row of the table that can be written: its place is on the unit, and its bounds are small.
unfoldable pub is_sound : Setting → Bool
is_sound s =
    if s.coil
    then ltb s.addr 55
    else ((s.scale == 1 || s.scale == 10)
        && (is_small s.least && (is_small s.most && ltb (s.addr + width s) 728)))

-- Two rows with one key are at one place, and any others are apart.
unfoldable pub fits : Setting → Setting → Bool
fits s t =
    if same_text t.key s.key
    then t.addr == s.addr && (t.scale == s.scale && (if s.coil then t.coil else not t.coil))
    else if s.coil
    then not t.coil || not (t.addr == s.addr)
    else t.coil || (ltb t.addr s.addr || leb (s.addr + width s) t.addr)

unfoldable pub all_of : (Setting → Bool) → List Setting → Bool
all_of check [] = true
all_of check (s ∷ rest) = check s && all_of check rest

pub all_of-All :
    (check : Setting → Bool) (l : List Setting)
    → all_of check l ≡ true
    → All (λ s. check s ≡ true) l
unfolding all_of
all_of-All check [] h = tt
all_of-All check (s ∷ rest) h = (ground arith, all_of-All check rest (ground arith))

pub table_checked : all_of (λ s. is_sound s && all_of (fits s) settings) settings ≡ true
unfolding all_of is_sound is_small fits settings same_text
table_checked = refl

pub find_setting-All :
    (P : Setting → Type 0) (key : Text) (l : List Setting)
    → All P l
    → (s : Setting) → find_setting key l ≡ some s
    → P s × (same_text s.key key ≡ true)
unfolding find_setting
find_setting-All P key [] h s e = absurd cc
find_setting-All P key (t ∷ rest) h s e = elim (Bool-cases (same_text t.key key)) [
  | inl here ↦ let same : t ≡ s = ground (arith, here, e) in (subst P same h.0, rw (← same) here)
  | inr no_match ↦ find_setting-All P key rest h.1 s (ground (arith, no_match, e))
]

pub is_small-IsSmall : (z : ℤ) → is_small z ≡ true → IsSmall z
unfolding is_small IsSmall
is_small-IsSmall (pos n) h = ground arith
is_small-IsSmall (negsuc n) h = ground arith

pub and-true : (a b : Bool) → (a && b) ≡ true → (a ≡ true) × (b ≡ true)
and-true true b h = (refl, h)
and-true false b h = absurd cc

pub width-pos : (s : Setting) → 0 < width s
width-pos s = ground arith

pub one_or_ten : (n : ℕ) → (n == 1 || n == 10) ≡ true → (n ≡ 1) ⊎ (n ≡ 10)
one_or_ten n h = elim (Bool-cases (n == 1)) [
  | inl one ↦ inl (ground arith)
  | inr not_one ↦ inr (ground (arith, h, not_one))
]

pub before_or_after : (a b w : ℕ) → (ltb b a || leb (a + w) b) ≡ true → (b < a) ⊎ (a + w ≤ b)
before_or_after a b w h = elim (Bool-cases (ltb b a)) [
  | inl before ↦ inl (ground arith)
  | inr not_before ↦ inr (ground (arith, h, not_before))
]
