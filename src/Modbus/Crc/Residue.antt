-- ===== src/Modbus/Crc/Residue.antt =====
-- What the check accepts: the frames whose checksum, taken over the checksum too, is 0.
use Prim.Native.Nat.{bit_xor}
use freeway_pi.Base.{
  ℕ, ◌-◌, ◌/◌, ◌%◌, ◌≤◌, ◌≡◌, ◌≢◌, refl, sym, ap, subst, ◌∙◌, true, false, ◌&&◌, List, [], ◌∷◌,
  ◌++◌, arith, All, All-append, All-append_left, All-append_right, leb, ◌==◌, length, length-append,
  take-append, drop-append, inl, inr, ◌⊎◌,
}
use freeway_pi.Base.Bits.Xor.{bit_xor_injective_right, bit_xor_fits}
use freeway_pi.Modbus.Crc.{IsByte, IsWord, crc_loop, crc_byte, crc16, append_crc, check_crc}
use freeway_pi.Modbus.Crc.Linear.{
  pair_mask, crc_byte_twice, crc_byte_twice-zero, crc_loop-append, crc_loop-IsWord,
  crc_loop_injective, crc_byte-IsWord, crc_bits_injective, crc_bits-IsWord,
}

module _ {ℓ} {A : Type ℓ} where
  -- A list of two entries or more ends in two entries.
  last_two :
      (x y : A) (zs : List A)
      → (front : List A) × (a : A) × (b : A) × (x ∷ y ∷ zs ≡ front ++ a ∷ b ∷ [])
  last_two x y [] = ([], x, y, refl)
  last_two x y (z ∷ zs) = let (front, a, b, e) = last_two y z zs in (x ∷ front, a, b, ap (◌∷◌ x) e)

crc16-IsWord : (bs : List ℕ) → All IsByte bs → IsWord (crc16 bs)
unfolding crc16
crc16-IsWord bs h = crc_loop-IsWord 0xFFFF bs (omega arith) h

-- A frame taken apart before its checksum.
check_crc-split :
    (body : List ℕ) (lo hi : ℕ)
    → 1 ≤ length body
    → check_crc (body ++ lo ∷ hi ∷ []) ≡ (lo == crc16 body % 256 && hi == crc16 body / 256 % 256)
unfolding check_crc
check_crc-split body lo hi h = ground (
  arith,
  length-append body (lo ∷ hi ∷ []),
  take-append (length (body ++ lo ∷ hi ∷ []) - 2) body (lo ∷ hi ∷ []),
  drop-append (length (body ++ lo ∷ hi ∷ []) - 2) body (lo ∷ hi ∷ []),
)

crc16-two :
    (body : List ℕ) (lo hi : ℕ)
    → crc16 (body ++ lo ∷ hi ∷ []) ≡ crc_byte (crc_byte (crc16 body) lo) hi
unfolding crc16 crc_loop
crc16-two body lo hi = crc_loop-append 0xFFFF body (lo ∷ hi ∷ [])

residue_split :
    (body : List ℕ) (lo hi : ℕ)
    → 1 ≤ length body
    → All IsByte body
    → IsByte lo
    → IsByte hi
    → check_crc (body ++ lo ∷ hi ∷ []) ≡ (crc16 (body ++ lo ∷ hi ∷ []) == 0)
residue_split body lo hi h hb hlo hhi =
    rw (check_crc-split body lo hi h, crc16-two body lo hi)
      (ground (
        arith,
        crc16-IsWord body hb,
        crc_byte_twice-zero (crc16 body) lo hi (crc16-IsWord body hb) hlo hhi,
      ))

residue_at :
    (frame body : List ℕ) (lo hi : ℕ)
    → frame ≡ body ++ lo ∷ hi ∷ []
    → 1 ≤ length body
    → All IsByte frame
    → check_crc frame ≡ (leb 3 (length frame) && crc16 frame == 0)
residue_at frame body lo hi e h hb =
    ap check_crc e
    ∙ residue_split body lo hi h (All-append_left IsByte body _ bytes)
        (All-append_right IsByte body _ bytes).0 (All-append_right IsByte body _ bytes).1.0
    ∙ ground (arith, e, ap length e, length-append body (lo ∷ hi ∷ []))
  where
    bytes : All IsByte (body ++ lo ∷ hi ∷ [])
    bytes = subst (All IsByte) e hb

-- A frame of bytes is accepted exactly when it has three bytes or more and the checksum over the
-- whole of it, its own last two bytes included, is 0.
check_crc_residue :
    (frame : List ℕ)
    → All IsByte frame
    → check_crc frame ≡ (leb 3 (length frame) && crc16 frame == 0)
check_crc_residue [] h = unfold check_crc in refl
check_crc_residue (x ∷ []) h = unfold check_crc in refl
check_crc_residue (x ∷ y ∷ []) h = unfold check_crc in refl
check_crc_residue (x ∷ y ∷ z ∷ zs) h =
    let (front, lo, hi, e) = last_two y z zs in
    residue_at (x ∷ y ∷ z ∷ zs) (x ∷ front) lo hi (ap (◌∷◌ x) e) (omega arith) h

-- `AppendCRC` makes a frame that `CheckCRC` accepts, from any bytes but none.
pub check_crc-append_crc :
    (buf : List ℕ) → 1 ≤ length buf → All IsByte buf → check_crc (append_crc buf) ≡ true
unfolding append_crc
check_crc-append_crc buf h hb = check_crc-split buf _ _ h ∙ ground arith

crc16-pair :
    (pre post : List ℕ) (a b : ℕ)
    → crc16 (pre ++ a ∷ b ∷ post) ≡ crc_loop (crc_byte (crc_byte (crc16 pre) a) b) post
unfolding crc16 crc_loop
crc16-pair pre post a b = crc_loop-append 0xFFFF pre (a ∷ b ∷ post)

crc_byte_twice_injective :
    (c a b a' b' : ℕ)
    → IsWord c
    → IsByte a
    → IsByte b
    → IsByte a'
    → IsByte b'
    → crc_byte (crc_byte c a) b ≡ crc_byte (crc_byte c a') b'
    → pair_mask a b ≡ pair_mask a' b'
crc_byte_twice_injective c a b a' b' hc ha hb ha' hb' e =
    bit_xor_injective_right (pair_mask a b) (pair_mask a' b') c (
      crc_bits_injective 8 _ _ (fits a b ha hb) (fits a' b' ha' hb') (
        crc_bits_injective 8 _ _ (crc_bits-IsWord 8 _ (fits a b ha hb))
          (crc_bits-IsWord 8 _ (fits a' b' ha' hb'))
          (sym (crc_byte_twice c a b ha) ∙ e ∙ crc_byte_twice c a' b' ha')))
  where
    fits : (x y : ℕ) → IsByte x → IsByte y → IsWord (bit_xor c (pair_mask x y))
    fits x y hx hy = bit_xor_fits 16 c (pair_mask x y) hc (omega arith)

-- The checksum tells two inputs apart that differ in two adjacent bytes.
crc16-pair_ne :
    (pre post : List ℕ) (a b a' b' : ℕ)
    → All IsByte (pre ++ a ∷ b ∷ post)
    → IsByte a'
    → IsByte b'
    → (a ≢ a') ⊎ (b ≢ b')
    → crc16 (pre ++ a ∷ b ∷ post) ≢ crc16 (pre ++ a' ∷ b' ∷ post)
crc16-pair_ne pre post a b a' b' h ha' hb' changed e = differ changed
  where
    tail_bytes : All IsByte (a ∷ b ∷ post)
    tail_bytes = All-append_right IsByte pre (a ∷ b ∷ post) h

    before : IsWord (crc16 pre)
    before = crc16-IsWord pre (All-append_left IsByte pre _ h)

    after : (x y : ℕ) → IsByte x → IsByte y → IsWord (crc_byte (crc_byte (crc16 pre) x) y)
    after x y hx hy = crc_byte-IsWord _ y (crc_byte-IsWord _ x before hx) hy

    same : pair_mask a b ≡ pair_mask a' b'
    same =
        crc_byte_twice_injective (crc16 pre) a b a' b' before tail_bytes.0 tail_bytes.1.0 ha' hb' (
          crc_loop_injective _ _ post (after a b tail_bytes.0 tail_bytes.1.0) (after a' b' ha' hb')
            tail_bytes.1.1 (sym (crc16-pair pre post a b) ∙ e ∙ crc16-pair pre post a' b'))

    differ : (a ≢ a') ⊎ (b ≢ b') → ⊥
    differ (inl n) = n (omega (arith, same, tail_bytes.0, tail_bytes.1.0))
    differ (inr n) = n (omega (arith, same, tail_bytes.0, tail_bytes.1.0))

-- Where a frame is accepted, no other frame that differs in one byte, or in two bytes side by side,
-- is accepted, wherever they stand.
pub check_crc_detects :
    (pre post : List ℕ) (a b a' b' : ℕ)
    → All IsByte (pre ++ a ∷ b ∷ post)
    → IsByte a'
    → IsByte b'
    → (a ≢ a') ⊎ (b ≢ b')
    → check_crc (pre ++ a ∷ b ∷ post) ≡ true
    → check_crc (pre ++ a' ∷ b' ∷ post) ≡ false
check_crc_detects pre post a b a' b' h ha' hb' changed accepted = ground (
  arith,
  check_crc_residue (pre ++ a ∷ b ∷ post) h,
  check_crc_residue (pre ++ a' ∷ b' ∷ post) altered,
  crc16-pair_ne pre post a b a' b' h ha' hb' changed,
)
  where
    altered : All IsByte (pre ++ a' ∷ b' ∷ post)
    altered =
        All-append IsByte pre _ (All-append_left IsByte pre _ h)
          (ha', (hb', (All-append_right IsByte pre (a ∷ b ∷ post) h).1.1))
