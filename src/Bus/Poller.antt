-- ===== src/Bus/Poller.antt =====
-- internal/bus/poller.go: passes over the register map. What the jobs of a pass answer and the
-- readings of the clock are arguments; times are numbers of nanoseconds.
pub mod Copy
pub mod Passes
pub mod Published
pub mod Rhythm
pub mod Rereading
use freeway_pi.Base.{
  ℕ, zero, suc, ◌+◌, ◌-◌, ◌*◌, ◌/◌, ◌%◌, ◌^◌, ◌≤◌, ◌<◌, min, max, ◌≡◌, refl, sym, ap, ap₂, subst,
  ◌∙◌, fun_ext, ◌≢◌, ◌↔◌, ◌⊎◌, inl, inr, Bool, true, false, not, ◌&&◌, ◌||◌, Option, none, some,
  List, [], ◌∷◌, ◌++◌, map, arith, ltb, leb, ◌==◌, if◌then◌else◌, ltb→lt, lt→ltb, leb→le, ==_iff,
  Bool-cases, Option-cases, nonzero, length, get_or, set, take, drop, replicate, length-append,
  length-take, length-drop, length-replicate, take-append, drop-append, All, length-map, All-append,
  All-append_left, All-append_right, length-set, get_or-set_self, get_or-set_ne, get_or-drop,
  drop-nil, drop-drop, Result, ◌>>=◌, ◌>>◌, fail_if, ok, err,
}
use freeway_pi.Modbus.Pdu.{Error}

abbrev pub max_block : ℕ
max_block = 125

abbrev pub last_holding : ℕ
last_holding = 737

abbrev pub last_coil : ℕ
last_coil = 79

abbrev pub default_interval : ℕ
default_interval = 10_000_000_000

pub data Kind : Type 0 where
  holding_block : Kind
  coil_block : Kind

pub record BlockError : Type 0 where
  pub kind : Kind
  pub from : ℕ
  pub count : ℕ
  pub why : Error

pub record Snapshot : Type 0 where
  pub started : ℕ
  pub finished : ℕ
  pub holding : List ℕ
  pub coils : List Bool
  pub failed : List BlockError

-- Go's `copy` onto the front of `dst`.
unfoldable pub overlay : {A : Type 0} → List A → List A → List A
overlay [] src = []
overlay (d ∷ dst) [] = d ∷ dst
overlay (d ∷ dst) (s ∷ src) = s ∷ overlay dst src

-- `copy(dst[from:], src)`.
unfoldable pub copy_at : {A : Type 0} → List A → ℕ → List A → List A
copy_at dst from src = take from dst ++ overlay (drop from dst) src

unfoldable pub next_delay : (interval now : ℕ) → ℕ
next_delay interval now =
    let d = now / interval * interval + interval - now in
    if interval == 0 then default_interval else if ltb d (interval / 10) then d + interval else d

-- One job of a pass for registers, and what it leaves in the snapshot.
unfoldable pub take_block : (from count : ℕ) → Result Error (List ℕ) → Snapshot → Snapshot
take_block from count (ok regs) s = record s { holding = copy_at s.holding from regs }
take_block from count (err why) s = record s {
  failed =
      s.failed ++ (record { kind = holding_block; from = from; count = count; why = why } ∷ []);
}

-- `n` of the loop.
unfoldable pub block_size : ℕ → ℕ
block_size addr =
    if ltb (last_holding + 1) (addr + max_block) then last_holding + 1 - addr else max_block

-- The loop over the blocks, with as many turns as `rounds` allows.
unfoldable pub take_blocks :
    (rounds addr : ℕ) → (ℕ → ℕ → Result Error (List ℕ)) → Snapshot → Snapshot
take_blocks zero addr read s = s
take_blocks (suc rounds) addr read s =
    let more =
      take_blocks rounds (addr + max_block) read
        (take_block addr (block_size addr) (read addr (block_size addr)) s) in
    if leb addr last_holding then more else s

unfoldable pub take_coils : Result Error (List Bool) → Snapshot → Snapshot
take_coils (ok bits) s = record s { coils = overlay s.coils bits }
take_coils (err why) s = record s {
  failed =
      s.failed ++ (record { kind = coil_block; from = 0; count = last_coil + 1; why = why } ∷ []);
}

-- The snapshot of a pass: 738 registers in blocks of 125 take six rounds.
unfoldable pub pass :
    (started finished : ℕ) → (ℕ → ℕ → Result Error (List ℕ)) → Result Error (List Bool) → Snapshot
pass started finished read coils =
    let blank : Snapshot = record {
      started = started;
      finished = 0;
      holding = replicate (last_holding + 1) 0;
      coils = replicate (last_coil + 1) false;
      failed = [];
    } in
    record (take_coils coils (take_blocks 6 0 read blank)) { finished = finished }

unfoldable pub pass_blocks : ℕ
pass_blocks = (last_holding + 1 + max_block - 1) / max_block + 1

pub record Poller : Type 0 where
  pub current : Option Snapshot
  pub passes : ℕ
  pub failures : ℕ
  pub last_err : Option BlockError

unfoldable pub first_failure : List BlockError → Option BlockError → Option BlockError
first_failure [] last = last
first_failure (e ∷ _) last = some e

-- The end of `Refresh`: the pass is counted, and published unless all of it failed.
unfoldable pub publish : Snapshot → Poller → Poller
unfolding pass_blocks
publish s p = record {
  passes = (p.passes + 1) % 2 ^ 64;
  failures = if ltb 0 (length s.failed) then (p.failures + 1) % 2 ^ 64 else p.failures;
  last_err = first_failure s.failed p.last_err;
  current =
      if ltb 0 (length s.failed) && leb pass_blocks (length s.failed) then p.current else some s;
}

unfoldable pub refresh :
    (started finished : ℕ)
    → (ℕ → ℕ → Result Error (List ℕ))
    → Result Error (List Bool)
    → Poller
    → Snapshot × Poller
refresh started finished read coils p =
    (pass started finished read coils, publish (pass started finished read coils) p)

-- How `Reread` ends: `outside` is a range that is not in the map, and asks nothing of the unit.
pub data RereadError : Type 0 where
  outside : (addr count : ℕ) → RereadError
  refused : Error → RereadError

-- The compare-and-swap at the end: `still` says whether the snapshot that was copied is still the
-- published one.
unfoldable pub swap : (still : Bool) → Snapshot → Poller → Poller
swap still next p = if still then record p { current = some next } else p

unfoldable pub patch_registers :
    (still : Bool) (addr count : ℕ)
    → Result Error (List ℕ)
    → Snapshot
    → Poller
    → Result RereadError Poller
patch_registers still addr count (err why) cur p =
    if ltb (length cur.holding) (addr + count) then err (outside addr count) else err (refused why)
patch_registers still addr count (ok regs) cur p =
    if ltb (length cur.holding) (addr + count)
    then err (outside addr count)
    else ok (swap still (record cur { holding = copy_at cur.holding addr regs }) p)

unfoldable pub patch_coils :
    (still : Bool) (addr count : ℕ)
    → Result Error (List Bool)
    → Snapshot
    → Poller
    → Result RereadError Poller
patch_coils still addr count (err why) cur p =
    if ltb (length cur.coils) (addr + count) then err (outside addr count) else err (refused why)
patch_coils still addr count (ok bits) cur p =
    if ltb (length cur.coils) (addr + count)
    then err (outside addr count)
    else ok (swap still (record cur { coils = copy_at cur.coils addr bits }) p)

-- `Reread` for registers: nothing to do before the first pass.
unfoldable pub reread_registers :
    (still : Bool) (addr count : ℕ) → Result Error (List ℕ) → Poller → Result RereadError Poller
reread_registers still addr count answer p = elim p.current [
  | none ↦ ok p
  | some cur ↦ patch_registers still addr count answer cur p
]

unfoldable pub reread_coils :
    (still : Bool) (addr count : ℕ) → Result Error (List Bool) → Poller → Result RereadError Poller
reread_coils still addr count answer p = elim p.current [
  | none ↦ ok p
  | some cur ↦ patch_coils still addr count answer cur p
]
