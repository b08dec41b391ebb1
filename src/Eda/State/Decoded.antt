-- ===== src/Eda/State/Decoded.antt =====
-- A pass of the poller and what is decoded of it.
use freeway_pi.Base.{
  ℕ, zero, suc, ◌+◌, ◌-◌, ◌≡◌, refl, ap, ap₂, ◌∙◌, ◌⊎◌, inl, inr, Bool, true, false, ◌&&◌, ◌||◌,
  Option, none, some, List, [], arith, ltb, leb, ◌==◌, Bool-cases, length, replicate,
  length-replicate, Result, ok, err,
}
use freeway_pi.Modbus.Pdu.{Error}
use freeway_pi.Bus.Poller.{
  Snapshot, Poller, last_holding, max_block, take_block, block_size, take_blocks, take_coils, pass,
  refresh,
}
use freeway_pi.Bus.Poller.Copy.{length-overlay, length-copy_at}
use freeway_pi.Bus.Poller.Passes.{coil_at, pass_coil, value_at, Exact, pass_register}
use freeway_pi.Bus.Poller.Published.{is_err, failures, any_failed, pass-failed, refresh_published}
use freeway_pi.Eda.{no_snapshot}
use freeway_pi.Eda.Output.{int16}
use freeway_pi.Eda.State.{
  Calendar, State, with_clock, decode_clock, decode_registers_of, decode_snapshot, decode,
}

take_block-length :
    (from count : ℕ) (answer : Result Error (List ℕ)) (s : Snapshot)
    → (length (take_block from count answer s).holding ≡ length s.holding)
      × ((take_block from count answer s).coils ≡ s.coils)
unfolding take_block
take_block-length from count (ok regs) s = (length-copy_at s.holding from regs, refl)
take_block-length from count (err why) s = (refl, refl)

take_blocks-length :
    (rounds addr : ℕ) (read : ℕ → ℕ → Result Error (List ℕ)) (s : Snapshot)
    → (length (take_blocks rounds addr read s).holding ≡ length s.holding)
      × ((take_blocks rounds addr read s).coils ≡ s.coils)
unfolding take_blocks
take_blocks-length zero addr read s = (refl, refl)
take_blocks-length (suc rounds) addr read s = elim (Bool-cases (leb addr last_holding)) [
  | inr past ↦ rw (past) (refl, refl)
  | inl inside ↦
      let answer = read addr (block_size addr) in
      let (a, b) = take_block-length addr (block_size addr) answer s in
      let (c, d) =
        take_blocks-length rounds (addr + max_block) read
          (take_block addr (block_size addr) answer s) in
      rw (inside) (c ∙ a, d ∙ b)
]

take_coils-length :
    (answer : Result Error (List Bool)) (s : Snapshot)
    → (length (take_coils answer s).coils ≡ length s.coils)
      × ((take_coils answer s).holding ≡ s.holding)
unfolding take_coils
take_coils-length (ok bits) s = (length-overlay s.coils bits, refl)
take_coils-length (err why) s = (refl, refl)

module _ (started finished : ℕ) (read : ℕ → ℕ → Result Error (List ℕ))
    (coils : Result Error (List Bool)) where
  pass-length :
      (length (pass started finished read coils).holding ≡ 738)
      × (length (pass started finished read coils).coils ≡ 80)
  unfolding pass
  pass-length =
      let blank : Snapshot = record {
        started = started;
        finished = 0;
        holding = replicate 738 0;
        coils = replicate 80 false;
        failed = [];
      } in
      let (a, b) = take_coils-length coils (take_blocks 6 0 read blank) in
      let (c, d) = take_blocks-length 6 0 read blank in
      (
        ap length b ∙ c ∙ length-replicate {A = ℕ} 738 0,
        a ∙ ap length d ∙ length-replicate {A = Bool} 80 false,
      )

  decode_pass :
      (cal : Calendar) (now stale_after : ℕ)
      → decode cal now stale_after (some (pass started finished read coils))
        ≡ ok (decode_snapshot cal now stale_after (pass started finished read coils))
  unfolding decode
  decode_pass cal now stale_after = let (a, b) = pass-length in rw (a, b) refl

with_clock-keeps :
    (cal : Calendar) (started : ℕ) (clock : Option ℕ) (st : State)
    → ((with_clock cal started clock st).incomplete ≡ st.incomplete)
      × ((with_clock cal started clock st).fan_setpoint ≡ st.fan_setpoint)
      × ((with_clock cal started clock st).setpoint ≡ st.setpoint)
      × ((with_clock cal started clock st).service ≡ st.service)
unfolding with_clock
with_clock-keeps cal started none st = (refl, refl, refl, refl)
with_clock-keeps cal started (some t) st = (refl, refl, refl, refl)

-- What is decoded of a pass, by what the reads of the pass answered.
pub record Answered (read : ℕ → ℕ → Result Error (List ℕ)) (coils : Result Error (List Bool))
    (st : State) : Type 0 where
  pub incomplete : st.incomplete ≡ (ltb 0 (failures 6 0 read) || is_err coils)
  pub fan_setpoint : st.fan_setpoint ≡ value_at (read 0 125) 53 0
  pub setpoint : st.setpoint ≡ int16 (value_at (read 125 125) 10 0)
  pub service_enabled : st.service.enabled ≡ coil_at coils 49
  pub interval_days : st.service.interval_days ≡ value_at (read 500 125) 38 0
  pub days_since : st.service.days_since ≡ value_at (read 625 113) 85 0
  pub days_remaining :
      st.service.days_remaining ≡ value_at (read 500 125) 38 0 - value_at (read 625 113) 85 0

decode_pass-Answered :
    (started finished : ℕ) (read : ℕ → ℕ → Result Error (List ℕ)) (coils : Result Error (List Bool))
    (cal : Calendar) (now stale_after : ℕ)
    → Exact read
    → Answered read coils (decode_snapshot cal now stale_after (pass started finished read coils))
unfolding decode_snapshot decode_registers_of block_size
decode_pass-Answered started finished read coils cal now stale_after exact =
    let s = pass started finished read coils in
    let st : State = record (decode_registers_of now stale_after s) {
      unit_clock = decode_clock cal s.holding;
    } in
    let (whole, fan, set_to, service) =
      with_clock-keeps cal s.started (decode_clock cal s.holding) st in
    let at = pass_register started finished read coils in
    record {
      incomplete =
          whole
          ∙ any_failed _ (failures 6 0 read) (is_err coils)
              (pass-failed started finished read coils);
      fan_setpoint = fan ∙ at 0 53 exact (omega arith) (omega arith);
      setpoint = set_to ∙ ap int16 (at 1 10 exact (omega arith) (omega arith));
      service_enabled =
          ap (λ x. x.enabled) service ∙ pass_coil started finished read coils 49 (omega arith);
      interval_days = ap (λ x. x.interval_days) service ∙ at 4 38 exact (omega arith) (omega arith);
      days_since = ap (λ x. x.days_since) service ∙ at 5 85 exact (omega arith) (omega arith);
      days_remaining =
          ap (λ x. x.days_remaining) service
          ∙ ap₂ ◌-◌ (at 4 38 exact (omega arith) (omega arith))
              (at 5 85 exact (omega arith) (omega arith));
    }

-- Decoding after the first pass of a poller, whatever its reads answer with as many registers as
-- they were asked for: there is no state exactly when every read failed; otherwise the state is
-- marked incomplete exactly when some read failed, and shows the fan level, the set temperature, the
-- interval of the service and the days since as the reads of their blocks answered them, and 0 where
-- those failed, the days that remain as their difference, not below 0, and the service as switched on
-- exactly when the read of the coils answered its coil as set.
pub decode_refresh :
    (started finished : ℕ) (read : ℕ → ℕ → Result Error (List ℕ)) (coils : Result Error (List Bool))
    (p : Poller) (cal : Calendar) (now stale_after : ℕ)
    → Exact read
    → p.current ≡ none
    → ((failures 6 0 read == 6 && is_err coils) ≡ true)
        × (decode cal now stale_after (refresh started finished read coils p).1.current
            ≡ err no_snapshot)
      ⊎ ((failures 6 0 read == 6 && is_err coils) ≡ false)
        × ((st : State) × (decode cal now stale_after
                (refresh started finished read coils p).1.current
              ≡ ok st)
            × Answered read coils st)
decode_refresh started finished read coils p cal now stale_after exact empty =
    let (published, _, _) = refresh_published started finished read coils p in
    elim (Bool-cases (failures 6 0 read == 6 && is_err coils)) [
      | inl all ↦ inl (all, rw (published, all, empty) (unfold decode in refl))
      | inr any ↦ inr (
        any,
        (
          decode_snapshot cal now stale_after (pass started finished read coils),
          rw (published, any) (decode_pass started finished read coils cal now stale_after),
          decode_pass-Answered started finished read coils cal now stale_after exact,
        ),
      )
    ]
