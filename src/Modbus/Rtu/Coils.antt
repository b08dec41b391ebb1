-- ===== src/Modbus/Rtu/Coils.antt =====
-- The coil payload: bits packed eight to a byte, lowest first, and read back.
use Prim.Native.Nat.{bit_and, bit_or, bit_and-bitwise}
use freeway_pi.Base.{
  ℕ, zero, suc, ◌+◌, ◌-◌, ◌*◌, ◌/◌, ◌%◌, ◌^◌, ◌≤◌, ◌<◌, ◌≡◌, refl, ap, ap₂, ◌∙◌, inl, inr, Bool,
  true, false, ◌&&◌, ◌||◌, List, [], ◌∷◌, arith, ltb, leb, ◌==◌, ltb→lt, ==_iff, Bool-cases,
  nonzero, length, get_or, set, replicate, length-replicate, All, length-set, get_or-set_self,
  get_or-set_ne, ok,
}
use freeway_pi.Base.Bits.{holds_below, holds_below_at}
use freeway_pi.Modbus.Crc.{IsByte}
use freeway_pi.Modbus.Rtu.{pack_loop, pack_coils, decode_flags, decode_bits}

-- Coil `j` of a packed payload.
abbrev pub bit_at : List ℕ → ℕ → Bool
bit_at packed j = nonzero (bit_and (get_or packed (j / 8) 0) (2 ^ (j % 8)))

same_bool : Bool → Bool → Bool
same_bool true b = b
same_bool false true = false
same_bool false false = true

same_bool_sound : (a b : Bool) → same_bool a b ≡ true → a ≡ b
unfolding same_bool
same_bool_sound a b h = ground arith

bit_table :
    holds_below
      (λ s.
        holds_below
          (λ t.
            holds_below
              (λ x.
                same_bool
                  (nonzero (bit_and (bit_or x (2 ^ s)) (2 ^ t)))
                  (s == t || nonzero (bit_and x (2 ^ t))))
              256)
          8)
      8
    ≡ true
unfolding holds_below same_bool
bit_table = refl

-- Setting bit `s` of a byte makes that bit 1 and leaves the others.
bit_set :
    (x s t : ℕ)
    → x < 256
    → s < 8
    → t < 8
    → nonzero (bit_and (bit_or x (2 ^ s)) (2 ^ t)) ≡ (s == t || nonzero (bit_and x (2 ^ t)))
bit_set x s t hx hs ht =
    same_bool_sound _ _
      (holds_below_at _ 256 (holds_below_at _ 8 (holds_below_at _ 8 bit_table s hs) t ht) x hx)

byte_table : holds_below (λ s. holds_below (λ x. ltb (bit_or x (2 ^ s)) 256) 256) 8 ≡ true
unfolding holds_below
byte_table = refl

bit_set-IsByte : (x s : ℕ) → x < 256 → s < 8 → bit_or x (2 ^ s) < 256
bit_set-IsByte x s hx hs =
    ltb→lt _ _ (holds_below_at _ 256 (holds_below_at _ 8 byte_table s hs) x hx)

-- One round of the loop where the coil is on.
set_bit : ℕ → List ℕ → List ℕ
set_bit i packed = set packed (i / 8) (bit_or (get_or packed (i / 8) 0) (2 ^ (i % 8)))

get_or-IsByte : (bs : List ℕ) (i : ℕ) → All IsByte bs → get_or bs i 0 < 256
get_or-IsByte [] i h = omega arith
get_or-IsByte (b ∷ bs) zero h = h.0
get_or-IsByte (b ∷ bs) (suc i) h = get_or-IsByte bs i h.1

set-IsByte : (bs : List ℕ) (i v : ℕ) → All IsByte bs → v < 256 → All IsByte (set bs i v)
set-IsByte [] i v h hv = h
set-IsByte (b ∷ bs) zero v h hv = (hv, h.1)
set-IsByte (b ∷ bs) (suc i) v h hv = (h.0, set-IsByte bs i v h.1 hv)

set_bit-IsByte : (i : ℕ) (packed : List ℕ) → All IsByte packed → All IsByte (set_bit i packed)
unfolding set_bit
set_bit-IsByte i packed h =
    set-IsByte packed (i / 8) _ h
      (bit_set-IsByte _ (i % 8) (get_or-IsByte packed (i / 8) h) (omega arith))

bit_at_same :
    (q s t : ℕ) (bs : List ℕ)
    → All IsByte bs
    → q < length bs
    → s < 8
    → t < 8
    → nonzero (bit_and (get_or (set bs q (bit_or (get_or bs q 0) (2 ^ s))) q 0) (2 ^ t))
      ≡ (s == t || nonzero (bit_and (get_or bs q 0) (2 ^ t)))
bit_at_same q s t bs h hq hs ht =
    ap (λ (x : ℕ). nonzero (bit_and x (2 ^ t))) (get_or-set_self bs q _ 0 hq)
    ∙ bit_set (get_or bs q 0) s t (get_or-IsByte bs q h) hs ht

same_place : (i j : ℕ) → i / 8 ≡ j / 8 → (i % 8 == j % 8) ≡ (i == j)
same_place i j e = ground arith

bit_at-set_bit :
    (i j : ℕ) (packed : List ℕ)
    → All IsByte packed
    → i / 8 < length packed
    → bit_at (set_bit i packed) j ≡ (i == j || bit_at packed j)
unfolding set_bit
bit_at-set_bit i j packed h hi = elim (Bool-cases (i / 8 == j / 8)) [
  | inl same ↦
      let e : i / 8 ≡ j / 8 = (==_iff _ _).0 same in
      rw (← e) (
        bit_at_same (i / 8) (i % 8) (j % 8) packed h hi (omega arith) (omega arith)
        ∙ ap (λ (b : Bool). b || nonzero (bit_and (get_or packed (i / 8) 0) (2 ^ (j % 8))))
            (same_place i j e))
  | inr other ↦
      ap (λ (x : ℕ). nonzero (bit_and x (2 ^ (j % 8))))
        (get_or-set_ne packed (i / 8) (j / 8) _ 0 (λ e. cc (other, (==_iff _ _).1 e)))
      ∙ ap (λ (b : Bool). b || bit_at packed j) (different other)
]
  where
    different : (i / 8 == j / 8) ≡ false → false ≡ (i == j)
    different o = ground arith

get_or_here : (v : Bool) (vs : List Bool) (i j : ℕ) → i ≡ j → get_or (v ∷ vs) (j - i) false ≡ v
get_or_here v vs i j e =
    let z : j - i ≡ 0 = omega arith in ap (λ (t : ℕ). get_or (v ∷ vs) t false) z

get_or_behind :
    (v : Bool) (vs : List Bool) (i j : ℕ)
    → i < j
    → get_or (v ∷ vs) (j - i) false ≡ get_or vs (j - (i + 1)) false
get_or_behind v vs i j h =
    let z : j - i ≡ suc (j - (i + 1)) = omega arith in ap (λ (t : ℕ). get_or (v ∷ vs) t false) z

length-set_bit : (i : ℕ) (packed : List ℕ) → length (set_bit i packed) ≡ length packed
unfolding set_bit
length-set_bit i packed = length-set packed (i / 8) _

-- One more value, in front of the values that the rest of the loop writes.
pack_step :
    (old : Bool) (v : Bool) (vs : List Bool) (i j : ℕ)
    → ((v && i == j || old) || (leb (i + 1) j && get_or vs (j - (i + 1)) false))
      ≡ (old || (leb i j && get_or (v ∷ vs) (j - i) false))
pack_step old v vs i j = ground (arith, get_or_here v vs i j, get_or_behind v vs i j)

-- After the loop coil `j` is the value at `j`, or what was there before it.
pack_loop-bit_at :
    (i j : ℕ) (vs : List Bool) (packed : List ℕ)
    → All IsByte packed
    → i + length vs ≤ 8 * length packed
    → bit_at (pack_loop i vs packed) j ≡ (bit_at packed j || (leb i j && get_or vs (j - i) false))
unfolding pack_loop set_bit
pack_loop-bit_at i j [] packed h l = ground arith
pack_loop-bit_at i j (true ∷ vs) packed h l =
    pack_loop-bit_at (i + 1) j vs (set_bit i packed) (set_bit-IsByte i packed h)
      (omega (arith, length-set_bit i packed))
    ∙ ap (λ (b : Bool). b || (leb (i + 1) j && get_or vs (j - (i + 1)) false))
        (bit_at-set_bit i j packed h (omega arith))
    ∙ pack_step (bit_at packed j) true vs i j
pack_loop-bit_at i j (false ∷ vs) packed h l =
    pack_loop-bit_at (i + 1) j vs packed h (omega arith) ∙ pack_step (bit_at packed j) false vs i j

pack_loop-length :
    (i : ℕ) (vs : List Bool) (packed : List ℕ) → length (pack_loop i vs packed) ≡ length packed
unfolding pack_loop set_bit
pack_loop-length i [] packed = refl
pack_loop-length i (true ∷ vs) packed =
    pack_loop-length (i + 1) vs (set_bit i packed) ∙ length-set_bit i packed
pack_loop-length i (false ∷ vs) packed = pack_loop-length (i + 1) vs packed

zero_bytes : (n : ℕ) → All IsByte (replicate n 0)
zero_bytes zero = tt
zero_bytes (suc n) = (omega arith, zero_bytes n)

get_or-replicate : (n i : ℕ) → get_or {A = ℕ} (replicate n 0) i 0 ≡ 0
get_or-replicate zero i = refl
get_or-replicate (suc n) zero = refl
get_or-replicate (suc n) (suc i) = get_or-replicate n i

-- Every coil of the packed bytes is the value at its index, and off beyond the values.
pub pack_coils-bit_at : (vs : List Bool) (j : ℕ) → bit_at (pack_coils vs) j ≡ get_or vs j false
unfolding pack_coils
pack_coils-bit_at vs j =
    pack_loop-bit_at 0 j vs (replicate n 0) (zero_bytes n)
      (omega (arith, length-replicate {A = ℕ} n 0))
    ∙ ap (λ (x : ℕ). nonzero (bit_and x (2 ^ (j % 8))) || (leb 0 j && get_or vs (j - 0) false))
        (get_or-replicate n (j / 8))
    ∙ ap (λ (b : Bool). b || (leb 0 j && get_or vs (j - 0) false)) (bit_and_none (2 ^ (j % 8)))
    ∙ from_start
  where
    n : ℕ
    n = (length vs + 7) / 8

    bit_and_none : (m : ℕ) → nonzero (bit_and 0 m) ≡ false
    bit_and_none m = ap nonzero (bit_and-bitwise 0 m)

    minus_none : (j : ℕ) → j - 0 ≡ j
    minus_none j = omega arith

    from_start : (false || (leb 0 j && get_or vs (j - 0) false)) ≡ get_or vs j false
    from_start = ground (arith, ap (λ (t : ℕ). get_or vs t false) (minus_none j))

pub length-pack_coils : (vs : List Bool) → length (pack_coils vs) ≡ (length vs + 7) / 8
unfolding pack_coils
length-pack_coils vs =
    pack_loop-length 0 vs (replicate ((length vs + 7) / 8) 0) ∙ length-replicate {A = ℕ} _ 0

-- The bits behind the byte count, read from coil `i` on, are the values.
decode_flags_lem :
    (count i : ℕ) (packed : List ℕ) (vs : List Bool)
    → ((k : ℕ) → bit_at packed (i + k) ≡ get_or vs k false)
    → decode_flags (count ∷ packed) i (length vs) ≡ vs
unfolding decode_flags
decode_flags_lem count i packed [] h = refl
decode_flags_lem count i packed (v ∷ vs) h =
    ap₂ ◌∷◌ (first (h 0)) (decode_flags_lem count (i + 1) packed vs (λ k. next k (h (suc k))))
  where
    behind : get_or (count ∷ packed) (1 + i / 8) 0 ≡ get_or packed (i / 8) 0
    behind =
        let e : 1 + i / 8 ≡ suc (i / 8) = omega arith in
        ap (λ (t : ℕ). get_or (count ∷ packed) t 0) e

    first :
        bit_at packed (i + 0) ≡ v
        → nonzero (bit_and (get_or (count ∷ packed) (1 + i / 8) 0) (2 ^ (i % 8))) ≡ v
    first e =
        let z : i ≡ i + 0 = omega arith in
        ap (λ (x : ℕ). nonzero (bit_and x (2 ^ (i % 8)))) behind ∙ ap (bit_at packed) z ∙ e

    next :
        (k : ℕ)
        → bit_at packed (i + suc k) ≡ get_or vs k false
        → bit_at packed (i + 1 + k) ≡ get_or vs k false
    next k e = let z : i + 1 + k ≡ i + suc k = omega arith in ap (bit_at packed) z ∙ e

-- A payload of a byte count and the packed coils decodes to the coils, for every count that a
-- uint16 holds without the wrap of the source's rounding.
decode_bits-pack_coils :
    (vs : List Bool)
    → length vs ≤ 65528
    → decode_bits ((length vs + 7) / 8 ∷ pack_coils vs) (length vs) ≡ ok vs
unfolding decode_bits
decode_bits-pack_coils vs h = ground (
  arith,
  length-pack_coils vs,
  decode_flags_lem ((length vs + 7) / 8) 0 (pack_coils vs) vs (λ (k : ℕ). at k),
)
  where
    at : (k : ℕ) → bit_at (pack_coils vs) (0 + k) ≡ get_or vs k false
    at k = let z : 0 + k ≡ k = omega arith in ap (bit_at (pack_coils vs)) z ∙ pack_coils-bit_at vs k
