-- ===== src/Bus/Poller/Passes.antt =====
-- What a pass and a re-read leave in the snapshot.
use freeway_pi.Base.{
  ℕ, zero, suc, ◌+◌, ◌*◌, ◌≤◌, ◌<◌, ◌≡◌, refl, sym, ap, subst, ◌∙◌, ◌⊎◌, inl, inr, Bool, true,
  false, List, [], ◌∷◌, arith, ltb, leb, Bool-cases, length, get_or, replicate, length-replicate,
  Result, ok, err,
}
use freeway_pi.Modbus.Pdu.{Error}
use freeway_pi.Bus.Poller.{
  max_block, last_holding, Snapshot, overlay, take_block, block_size, take_blocks, take_coils, pass,
}
use freeway_pi.Bus.Poller.Copy.{
  get_or-overlay_in, get_or-overlay_past, length-copy_at, get_or-copy_at_in, get_or-copy_at_out,
}

-- The value at place `i` of an answer, and `z` where there is none.
unfoldable pub value_at : Result Error (List ℕ) → ℕ → ℕ → ℕ
value_at (ok regs) i z = get_or regs i 0
value_at (err why) i z = z

-- An answer has as many registers as were asked for.
abbrev pub Exact : (ℕ → ℕ → Result Error (List ℕ)) → Type 0
Exact read = (from count : ℕ) (regs : List ℕ) → read from count ≡ ok regs → length regs ≡ count

length-take_block :
    (from count : ℕ) (answer : Result Error (List ℕ)) (s : Snapshot)
    → length (take_block from count answer s).holding ≡ length s.holding
unfolding take_block
length-take_block from count (ok regs) s = length-copy_at s.holding from regs
length-take_block from count (err why) s = refl

take_block_in :
    (from count i : ℕ) (answer : Result Error (List ℕ)) (s : Snapshot)
    → ((regs : List ℕ) → answer ≡ ok regs → length regs ≡ count)
    → i < count
    → from + i < length s.holding
    → get_or (take_block from count answer s).holding (from + i) 0
      ≡ value_at answer i (get_or s.holding (from + i) 0)
unfolding take_block value_at
take_block_in from count i (ok regs) s exact h g =
    get_or-copy_at_in s.holding from regs i 0 (omega (arith, exact regs refl)) g
take_block_in from count i (err why) s exact h g = refl

take_block_out :
    (from count r : ℕ) (answer : Result Error (List ℕ)) (s : Snapshot)
    → ((regs : List ℕ) → answer ≡ ok regs → length regs ≡ count)
    → (r < from) ⊎ (from + count ≤ r)
    → get_or (take_block from count answer s).holding r 0 ≡ get_or s.holding r 0
unfolding take_block
take_block_out from count r (ok regs) s exact h =
    get_or-copy_at_out s.holding from regs r 0 (rw (exact regs refl) h)
take_block_out from count r (err why) s exact h = refl

block_size_fits : (addr i : ℕ) → i < max_block → addr + i ≤ last_holding → i < block_size addr
unfolding block_size
block_size_fits addr i h g = ground arith

block_size_most : (addr : ℕ) → addr ≤ last_holding → block_size addr ≤ max_block
unfolding block_size
block_size_most addr g = ground arith

take_blocks_before :
    (rounds addr r : ℕ) (read : ℕ → ℕ → Result Error (List ℕ)) (s : Snapshot)
    → Exact read
    → r < addr
    → get_or (take_blocks rounds addr read s).holding r 0 ≡ get_or s.holding r 0
unfolding take_blocks
take_blocks_before zero addr r read s exact h = refl
take_blocks_before (suc rounds) addr r read s exact h = elim (Bool-cases (leb addr last_holding)) [
  | inl more ↦
      rw (more, take_blocks)
        (take_blocks_before rounds (addr + max_block) r read _ exact (omega arith)
          ∙ take_block_out addr (block_size addr) r (read addr (block_size addr)) s
              (exact addr (block_size addr)) (inl h))
  | inr done ↦ rw (done, take_blocks) refl
]

take_blocks_here :
    (rounds addr i : ℕ) (read : ℕ → ℕ → Result Error (List ℕ)) (s : Snapshot)
    → Exact read
    → length s.holding ≡ last_holding + 1
    → i < max_block
    → addr + i ≤ last_holding
    → get_or (take_blocks (suc rounds) addr read s).holding (addr + i) 0
      ≡ value_at (read addr (block_size addr)) i (get_or s.holding (addr + i) 0)
unfolding take_blocks
take_blocks_here rounds addr i read s exact size ih rh =
    let more : leb addr last_holding ≡ true = ground arith in
    rw (more, take_blocks)
      (take_blocks_before rounds (addr + max_block) (addr + i) read _ exact (omega arith)
        ∙ take_block_in addr (block_size addr) i (read addr (block_size addr)) s
            (exact addr (block_size addr)) (block_size_fits addr i ih rh) (omega (arith, size, rh)))

-- Place `i` of the block at `b`, the `j`-th from `addr` on.
take_blocks_at :
    (rounds addr j b i : ℕ) (read : ℕ → ℕ → Result Error (List ℕ)) (s : Snapshot)
    → Exact read
    → length s.holding ≡ last_holding + 1
    → b ≡ addr + max_block * j
    → j < rounds
    → i < max_block
    → b + i ≤ last_holding
    → get_or (take_blocks rounds addr read s).holding (b + i) 0
      ≡ value_at (read b (block_size b)) i (get_or s.holding (b + i) 0)
unfolding take_blocks
take_blocks_at zero addr j b i read s exact size e jh ih rh = absurd (omega arith)
take_blocks_at (suc rounds) addr zero b i read s exact size e jh ih rh =
    let here : b ≡ addr = omega arith in
    subst
      (λ a.
        get_or (take_blocks (suc rounds) a read s).holding (b + i) 0
        ≡ value_at (read b (block_size b)) i (get_or s.holding (b + i) 0))
      here (take_blocks_here rounds b i read s exact size ih rh)
take_blocks_at (suc rounds) addr (suc j) b i read s exact size e jh ih rh =
    let more : leb addr last_holding ≡ true = ground arith in
    rw (more, take_blocks)
      (take_blocks_at rounds (addr + max_block) j b i read _ exact
          (length-take_block addr (block_size addr) (read addr (block_size addr)) s ∙ size)
          (omega arith) (omega arith) ih rh
        ∙ ap (value_at (read b (block_size b)) i) (
            take_block_out addr (block_size addr) (b + i) (read addr (block_size addr)) s
              (exact addr (block_size addr))
              (inr (omega (arith, block_size_most addr (omega arith))))))

get_or-replicate : (n i : ℕ) → get_or (replicate {A = ℕ} n 0) i 0 ≡ 0
get_or-replicate zero i = refl
get_or-replicate (suc n) zero = refl
get_or-replicate (suc n) (suc i) = get_or-replicate n i

take_coils-holding :
    (answer : Result Error (List Bool)) (s : Snapshot) → (take_coils answer s).holding ≡ s.holding
unfolding take_coils
take_coils-holding (ok bits) s = refl
take_coils-holding (err why) s = refl

-- The coil at place `i` of an answer, and none set where there is none.
unfoldable pub coil_at : Result Error (List Bool) → ℕ → Bool
coil_at (ok bits) i = get_or bits i false
coil_at (err why) i = false

get_or-unset : (n i : ℕ) → get_or (replicate {A = Bool} n false) i false ≡ false
get_or-unset zero i = refl
get_or-unset (suc n) zero = refl
get_or-unset (suc n) (suc i) = get_or-unset n i

get_or-past : (bits : List Bool) (i : ℕ) → length bits ≤ i → get_or bits i false ≡ false
get_or-past [] i h = refl
get_or-past (b ∷ bits) zero h = absurd (omega arith)
get_or-past (b ∷ bits) (suc i) h = get_or-past bits i (omega arith)

take_block-coils :
    (from count : ℕ) (answer : Result Error (List ℕ)) (s : Snapshot)
    → (take_block from count answer s).coils ≡ s.coils
unfolding take_block
take_block-coils from count (ok regs) s = refl
take_block-coils from count (err why) s = refl

take_blocks-coils :
    (rounds addr : ℕ) (read : ℕ → ℕ → Result Error (List ℕ)) (s : Snapshot)
    → (take_blocks rounds addr read s).coils ≡ s.coils
unfolding take_blocks
take_blocks-coils zero addr read s = refl
take_blocks-coils (suc rounds) addr read s = elim (Bool-cases (leb addr last_holding)) [
  | inr past ↦ rw (past) refl
  | inl inside ↦
      let answer = read addr (block_size addr) in
      let here = take_block-coils addr (block_size addr) answer s in
      let later =
        take_blocks-coils rounds (addr + max_block) read
          (take_block addr (block_size addr) answer s) in
      rw (inside) (later ∙ here)
]

take_coils-unset :
    (answer : Result Error (List Bool)) (s : Snapshot) (i : ℕ)
    → s.coils ≡ replicate 80 false
    → i < 80
    → get_or (take_coils answer s).coils i false ≡ coil_at answer i
unfolding take_coils coil_at
take_coils-unset (err why) s i unset h =
    ap (λ (l : List Bool). get_or l i false) unset ∙ get_or-unset 80 i
take_coils-unset (ok bits) s i unset h =
    ap (λ (l : List Bool). get_or (overlay l bits) i false) unset
    ∙ elim (Bool-cases (ltb i (length bits))) [
      | inl inside ↦
          get_or-overlay_in (replicate 80 false) bits i false (ground arith)
            (omega (arith, length-replicate {A = Bool} 80 false))
      | inr past ↦
          get_or-overlay_past (replicate 80 false) bits i false (ground arith)
          ∙ get_or-unset 80 i
          ∙ sym (get_or-past bits i (ground arith))
    ]

-- A pass has every coil of the map, as the read of the coils answered it.
pub pass_coil :
    (started finished : ℕ) (read : ℕ → ℕ → Result Error (List ℕ)) (coils : Result Error (List Bool))
    (i : ℕ)
    → i < 80
    → get_or (pass started finished read coils).coils i false ≡ coil_at coils i
unfolding pass
pass_coil started finished read coils i h =
    take_coils-unset coils _ i (take_blocks-coils 6 0 read _) h

-- A pass has every register of the map: place `i` of the block at 125 `j` is what the read of that
-- block answered there, and 0 where that read failed.
pub pass_register :
    (started finished : ℕ) (read : ℕ → ℕ → Result Error (List ℕ)) (coils : Result Error (List Bool))
    (j i : ℕ)
    → Exact read
    → i < max_block
    → max_block * j + i ≤ last_holding
    → get_or (pass started finished read coils).holding (max_block * j + i) 0
      ≡ value_at (read (max_block * j) (block_size (max_block * j))) i 0
unfolding pass
pass_register started finished read coils j i exact ih rh =
    let blank : Snapshot = record {
      started = started;
      finished = 0;
      holding = replicate (last_holding + 1) 0;
      coils = replicate 80 false;
      failed = [];
    } in
    ap (λ (l : List ℕ). get_or l (max_block * j + i) 0) (take_coils-holding coils _)
    ∙ take_blocks_at 6 0 j (max_block * j) i read blank exact (length-replicate {A = ℕ} 738 0)
        (omega arith) (omega arith) ih rh
    ∙ ap (value_at (read (max_block * j) (block_size (max_block * j))) i)
        (get_or-replicate 738 (max_block * j + i))
