-- ===== src/Bus/Poller/Rereading.antt =====
-- What a re-read after a write changes.
use freeway_pi.Base.{
  ℕ, ◌+◌, ◌-◌, ◌≤◌, ◌<◌, ◌≡◌, refl, ap, ◌∙◌, ◌⊎◌, inl, inr, Bool, true, false, ◌&&◌, some, List,
  arith, ltb, leb, if◌then◌else◌, Bool-cases, length, get_or, Result, ok, err,
}
use freeway_pi.Modbus.Pdu.{Error}
use freeway_pi.Bus.Poller.{
  Snapshot, Poller, copy_at, outside, swap, patch_registers, reread_registers,
}
use freeway_pi.Bus.Poller.Copy.{get_or-copy_at_in, get_or-copy_at_out}

-- The published snapshot after registers were put in from `addr` on, at one place.
pub record Patched (cur next : Snapshot) (addr : ℕ) (regs : List ℕ) (i : ℕ) : Type 0 where
  pub at_place : get_or next.holding i 0 ≡ (
      if leb addr i && ltb i (addr + length regs)
      then get_or regs (i - addr) 0
      else get_or cur.holding i 0)
  pub same_coils : next.coils ≡ cur.coils
  pub same_failed : next.failed ≡ cur.failed
  pub same_times : (next.started ≡ cur.started) × (next.finished ≡ cur.finished)

copied :
    (dst : List ℕ) (addr : ℕ) (regs : List ℕ) (i : ℕ)
    → addr + length regs ≤ length dst
    → get_or (copy_at dst addr regs) i 0 ≡ (
        if leb addr i && ltb i (addr + length regs)
        then get_or regs (i - addr) 0
        else get_or dst i 0)
copied dst addr regs i room = elim (Bool-cases (leb addr i && ltb i (addr + length regs))) [
  | inl within ↦
      let place : i ≡ addr + (i - addr) = ground (arith, within) in
      let few : i - addr < length regs = ground (arith, within) in
      rw (within) (
        ap (λ (k : ℕ). get_or (copy_at dst addr regs) k 0) place
        ∙ get_or-copy_at_in dst addr regs (i - addr) 0 few (omega (arith, few, room)))
  | inr beyond ↦ rw (beyond) (get_or-copy_at_out dst addr regs i 0 (ground (arith, beyond)))
]

swapped :
    (still : Bool) (addr i : ℕ) (regs : List ℕ) (cur : Snapshot) (p : Poller)
    → addr + length regs ≤ length cur.holding
    → ((still ≡ false)
        × (swap still (record cur { holding = copy_at cur.holding addr regs }) p ≡ p))
      ⊎ ((still ≡ true)
          × ((next : Snapshot) × ((swap still
                  (record cur { holding = copy_at cur.holding addr regs })
                  p).current
                ≡ some next)
              × Patched cur next addr regs i))
unfolding swap
swapped false addr i regs cur p room = inl (refl, refl)
swapped true addr i regs cur p room = inr (
  refl,
  (
    record cur { holding = copy_at cur.holding addr regs },
    refl,
    record {
      at_place = copied cur.holding addr regs i room;
      same_coils = refl;
      same_failed = refl;
      same_times = (refl, refl);
    },
  ),
)

reread_known :
    (still : Bool) (addr count : ℕ) (answer : Result Error (List ℕ)) (cur : Snapshot) (p : Poller)
    → p.current ≡ some cur
    → reread_registers still addr count answer p ≡ patch_registers still addr count answer cur p
unfolding reread_registers
reread_known still addr count answer cur p published = ground arith

-- A re-read of registers that the unit answered with as many as were asked for: it is refused where
-- they are outside the map, and otherwise, if no pass was published meanwhile, the published snapshot
-- has the answer in their place, and the old values, coils, failures and times elsewhere; if one was,
-- that pass stays.
pub reread_registers-Patched :
    (still : Bool) (addr i : ℕ) (regs : List ℕ) (cur : Snapshot) (p : Poller)
    → p.current ≡ some cur
    → ((length cur.holding < addr + length regs)
        × (reread_registers still addr (length regs) (ok regs) p
            ≡ err (outside addr (length regs))))
      ⊎ ((addr + length regs ≤ length cur.holding)
          × ((q : Poller) × (reread_registers still addr (length regs) (ok regs) p ≡ ok q)
              × (((still ≡ false) × (q ≡ p))
                  ⊎ ((still ≡ true)
                      × ((next : Snapshot) × (q.current ≡ some next)
                          × Patched cur next addr regs i)))))
unfolding patch_registers
reread_registers-Patched still addr i regs cur p published =
    elim (Bool-cases (ltb (length cur.holding) (addr + length regs))) [
      | inl past ↦ inl (
        ground arith,
        reread_known still addr (length regs) (ok regs) cur p published
            ∙ rw (past, patch_registers) refl,
      )
      | inr fits ↦ inr (
        ground arith,
        (
          swap still (record cur { holding = copy_at cur.holding addr regs }) p,
          reread_known still addr (length regs) (ok regs) cur p published
              ∙ rw (fits, patch_registers) refl,
          swapped still addr i regs cur p (ground arith),
        ),
      )
    ]
