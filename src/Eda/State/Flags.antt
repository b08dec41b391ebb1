-- ===== src/Eda/State/Flags.antt =====
-- The flags that are shown of the state word are the word.
use freeway_pi.Base.{
  ℕ, zero, suc, ◌+◌, ◌*◌, ◌/◌, ◌%◌, ◌^◌, ◌<◌, ◌≡◌, refl, ◌∙◌, ◌⊎◌, inl, inr, List, [], ◌∷◌, map,
  arith, ◌==◌, if◌then◌else◌, Bool-cases, nonzero, All,
}
use Prim.Native.Nat.{bit_and}
use freeway_pi.Base.Bits.{bit_and-one, bit_and-double}
use freeway_pi.Eda.State.{Flag, flag_names, flags_among, decode_flags}

-- The sum of the bits of the flags.
unfoldable pub word : List Flag → ℕ
word [] = 0
word (f ∷ rest) = f.bit + word rest

powers : ℕ → List ℕ
powers zero = []
powers (suc n) = 1 ∷ map (λ b. b * 2) (powers n)

masked : (state : ℕ) → List ℕ → ℕ
masked state [] = 0
masked state (b ∷ rest) = bit_and state b + masked state rest

masked-double :
    (l : List ℕ) (state : ℕ) → masked state (map (λ b. b * 2) l) ≡ masked (state / 2) l * 2
unfolding masked
masked-double [] state = refl
masked-double (b ∷ l) state = omega (arith, masked-double l state, bit_and-double state b)

masked-powers : (n state : ℕ) → state < 2 ^ n → masked state (powers n) ≡ state
unfolding masked powers
masked-powers zero state h = omega arith
masked-powers (suc n) state h = omega (
  arith,
  bit_and-one state,
  masked-double (powers n) state,
  masked-powers n (state / 2) (omega arith),
)

-- A mask of one bit leaves that bit or nothing.
OneBit : ℕ → Type 0
OneBit b = (state : ℕ) → (bit_and state b ≡ 0) ⊎ (bit_and state b ≡ b)

double-OneBit : (b : ℕ) → OneBit b → OneBit (b * 2)
unfolding OneBit
double-OneBit b h state = elim (h (state / 2)) [
  | inl e ↦ inl (omega (arith, bit_and-double state b, e))
  | inr e ↦ inr (omega (arith, bit_and-double state b, e))
]

one-OneBit : OneBit 1
unfolding OneBit
one-OneBit state = elim (Bool-cases (state % 2 == 0)) [
  | inl e ↦ inl (bit_and-one state ∙ ground arith)
  | inr e ↦ inr (bit_and-one state ∙ ground arith)
]

map-OneBit : (l : List ℕ) → All OneBit l → All OneBit (map (λ b. b * 2) l)
map-OneBit [] h = tt
map-OneBit (b ∷ l) (first, more) = (double-OneBit b first, map-OneBit l more)

powers-OneBit : (n : ℕ) → All OneBit (powers n)
unfolding powers
powers-OneBit zero = tt
powers-OneBit (suc n) = (one-OneBit, map-OneBit (powers n) (powers-OneBit n))

shown_or_not :
    (f : Flag) (more : List Flag) (b : ℕ)
    → b ≡ 0
    → word (if nonzero b then f ∷ more else more) ≡ word more
shown_or_not f more b h = rw (h) refl

shown_bit :
    (f : Flag) (more : List Flag) (b : ℕ)
    → b ≡ f.bit
    → word (if nonzero b then f ∷ more else more) ≡ f.bit + word more
unfolding word
shown_bit f more b h = elim (Bool-cases (nonzero b)) [
  | inl some_bit ↦ rw (some_bit) refl
  | inr no_bit ↦ rw (no_bit) (ground (arith, h, no_bit))
]

word-flags_among :
    (l : List Flag) (state : ℕ)
    → All OneBit (map (λ (f : Flag). f.bit) l)
    → word (flags_among l state) ≡ masked state (map (λ (f : Flag). f.bit) l)
unfolding word flags_among masked OneBit
word-flags_among [] state h = refl
word-flags_among (f ∷ l) state (first, more) = elim (first state) [
  | inl e ↦ omega (
    arith,
    shown_or_not f (flags_among l state) (bit_and state f.bit) e,
    e,
    word-flags_among l state more,
  )
  | inr e ↦ omega (
    arith,
    shown_bit f (flags_among l state) (bit_and state f.bit) e,
    e,
    word-flags_among l state more,
  )
]

bits-powers : map (λ (f : Flag). f.bit) flag_names ≡ powers 16
unfolding flag_names powers
bits-powers = refl

-- The bits of the flags shown add up to the state word, whatever it is.
word-decode_flags : (state : ℕ) → state < 65536 → word (decode_flags state) ≡ state
unfolding decode_flags
word-decode_flags state h =
    word-flags_among flag_names state (rw (bits-powers) (powers-OneBit 16))
    ∙ rw (bits-powers) (masked-powers 16 state (omega arith))
