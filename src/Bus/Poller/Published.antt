-- ===== src/Bus/Poller/Published.antt =====
-- When a pass is published.
use freeway_pi.Base.{
  ℕ, zero, suc, ◌+◌, ◌*◌, ◌%◌, ◌^◌, ◌≤◌, ◌≡◌, refl, ap, Bool, true, false, ◌&&◌, ◌||◌, some, List,
  arith, ltb, leb, ◌==◌, if◌then◌else◌, length, length-append, Result, ok, err,
}
use freeway_pi.Modbus.Pdu.{Error}
use freeway_pi.Bus.Poller.{
  max_block, last_holding, Snapshot, Poller, take_block, block_size, take_blocks, take_coils, pass,
  pass_blocks, publish, refresh,
}

unfoldable pub is_err : {A : Type 0} → Result Error A → Bool
is_err (ok _) = false
is_err (err _) = true

unfoldable pub failures : (rounds addr : ℕ) → (ℕ → ℕ → Result Error (List ℕ)) → ℕ
failures zero addr read = 0
failures (suc rounds) addr read =
    (if is_err (read addr (block_size addr)) then 1 else 0)
    + failures rounds (addr + max_block) read

take_block-failed :
    (from count : ℕ) (answer : Result Error (List ℕ)) (s : Snapshot)
    → length (take_block from count answer s).failed
      ≡ length s.failed + (if is_err answer then 1 else 0)
unfolding take_block is_err
take_block-failed from count (ok regs) s = omega arith
take_block-failed from count (err why) s = length-append s.failed _

take_coils-failed :
    (answer : Result Error (List Bool)) (s : Snapshot)
    → length (take_coils answer s).failed ≡ length s.failed + (if is_err answer then 1 else 0)
unfolding take_coils is_err
take_coils-failed (ok bits) s = omega arith
take_coils-failed (err why) s = length-append s.failed _

take_blocks-failed :
    (rounds addr : ℕ) (read : ℕ → ℕ → Result Error (List ℕ)) (s : Snapshot)
    → addr + max_block * rounds ≤ last_holding + max_block
    → length (take_blocks rounds addr read s).failed ≡ length s.failed + failures rounds addr read
unfolding take_blocks failures
take_blocks-failed zero addr read s h = omega arith
take_blocks-failed (suc rounds) addr read s h =
    let more : leb addr last_holding ≡ true = ground arith in
    let next = take_block addr (block_size addr) (read addr (block_size addr)) s in
    let rest = take_blocks-failed rounds (addr + max_block) read next (omega arith) in
    rw (more, take_blocks)
      (omega
        (arith, rest, take_block-failed addr (block_size addr) (read addr (block_size addr)) s))

failures_most :
    (rounds addr : ℕ) (read : ℕ → ℕ → Result Error (List ℕ)) → failures rounds addr read ≤ rounds
unfolding failures
failures_most zero addr read = omega arith
failures_most (suc rounds) addr read = grind (arith, failures_most rounds (addr + max_block) read)

pub pass-failed :
    (started finished : ℕ) (read : ℕ → ℕ → Result Error (List ℕ)) (coils : Result Error (List Bool))
    → length (pass started finished read coils).failed
      ≡ failures 6 0 read + (if is_err coils then 1 else 0)
unfolding pass
pass-failed started finished read coils = omega (
  arith,
  take_coils-failed coils (take_blocks 6 0 read _),
  take_blocks-failed 6 0 read _ (omega arith),
)

pub all_failed :
    (n f : ℕ) (b : Bool)
    → n ≡ f + (if b then 1 else 0)
    → f ≤ 6
    → (ltb 0 n && leb pass_blocks n) ≡ (f == 6 && b)
unfolding pass_blocks
all_failed n f true e h = ground arith
all_failed n f false e h = ground arith

pub any_failed : (n f : ℕ) (b : Bool) → n ≡ f + (if b then 1 else 0) → ltb 0 n ≡ (ltb 0 f || b)
any_failed n f true e = ground arith
any_failed n f false e = ground arith

-- A pass is published exactly unless all six reads of registers and the read of the coils failed;
-- then the snapshot before it stays. Every pass is counted, and a pass with any failure is counted
-- as one.
pub refresh_published :
    (started finished : ℕ) (read : ℕ → ℕ → Result Error (List ℕ)) (coils : Result Error (List Bool))
    (p : Poller)
    → ((refresh started finished read coils p).1.current ≡ (
        if failures 6 0 read == 6 && is_err coils
        then p.current
        else some (pass started finished read coils)))
      × ((refresh started finished read coils p).1.passes ≡ (p.passes + 1) % 2 ^ 64)
      × ((refresh started finished read coils p).1.failures ≡ (
          if ltb 0 (failures 6 0 read) || is_err coils
          then (p.failures + 1) % 2 ^ 64
          else p.failures))
unfolding refresh publish
refresh_published started finished read coils p =
    let n = pass-failed started finished read coils in
    (
      ap (λ (b : Bool). if b then p.current else some (pass started finished read coils))
          (all_failed _ (failures 6 0 read) (is_err coils) n (failures_most 6 0 read)),
      refl,
      ap (λ (b : Bool). if b then (p.failures + 1) % 2 ^ 64 else p.failures)
          (any_failed _ (failures 6 0 read) (is_err coils) n),
    )
