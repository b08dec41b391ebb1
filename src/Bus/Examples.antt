-- ===== src/Bus/Examples.antt =====
-- The bus's theorems at concrete inputs.
use freeway_pi.Base.{
  ℕ, ◌+◌, ◌*◌, ◌%◌, ◌^◌, ◌≤◌, ◌<◌, min, ◌≡◌, refl, ap, ◌∙◌, ◌≢◌, ◌⊎◌, inl, inr, Bool, true, false,
  none, some, List, [], ◌∷◌, ◌++◌, arith, ◌==◌, if◌then◌else◌, Bool-cases, length, get_or, take,
  replicate, length-replicate, Result, ok, err,
}
use freeway_pi.Modbus.Pdu.{Error, timeout}
use freeway_pi.Bus.Line.{
  write, client, poll, Queues, picks_write, first, answering_again, could_not_reopen, reopened,
  healthy, serve_all, serve, after_reopen,
}
use freeway_pi.Bus.Line.Order.{Grows, queue, TakesOldest, Next-order}
use freeway_pi.Bus.Line.Reporting.{fault, story, reopenings, serve_fault-story}
use freeway_pi.Bus.Window.{window, after_attempts}
use freeway_pi.Bus.Window.Recent.{bad, after_attempts_counts}
use freeway_pi.Bus.Poller.{Snapshot, outside, reread_registers, Poller, pass, block_size}
use freeway_pi.Bus.Poller.Rereading.{Patched, reread_registers-Patched}
use freeway_pi.Bus.Poller.Passes.{value_at, pass_register}

abbrev waiting : Queues ℕ
waiting = record { writes = 1 ∷ 2 ∷ []; clients = 3 ∷ []; polls = 4 ∷ [] }

abbrev left : Queues ℕ
left = record { writes = 2 ∷ []; clients = 3 ∷ []; polls = 4 ∷ [] }

waiting-Grows : Grows waiting waiting
unfolding queue
waiting-Grows write = ([], refl)
waiting-Grows client = ([], refl)
waiting-Grows poll = ([], refl)

Next-order_example :
    ((waiting.writes ≡ []) ⊎ (write ≡ write))
    × ((waiting.clients ≡ []) ⊎ (write ≢ poll))
    × (TakesOldest waiting write 1 left
        ⊎ (TakesOldest waiting write 1 left ⊎ TakesOldest waiting write 1 left))
Next-order_example =
    Next-order waiting waiting waiting left write 1 waiting-Grows (first picks_write)

-- The adapter is pulled out for 24 failures and then comes and goes.
abbrev flapping : List Bool
flapping = replicate 24 false ++ (replicate 12 true ++ (replicate 12 false ++ replicate 12 true))

flapping_lines :
    (serve_all true (fault flapping) healthy).1
    ≡ could_not_reopen ∷ reopened ∷ could_not_reopen ∷ reopened ∷ answering_again ∷ []
unfolding serve_all fault serve after_reopen healthy
flapping_lines = refl

serve_fault-story_example :
    serve_all true (fault flapping) healthy ≡ (healthy, story none (reopenings 0 flapping))
serve_fault-story_example = serve_fault-story flapping

abbrev attempts : List Bool
attempts = true ∷ (replicate 300 false ++ (true ∷ []))

after_attempts_counts_example :
    ((after_attempts attempts).recent_len ≡ min window (length attempts))
    × ((after_attempts attempts).recent_bad ≡ bad (take window attempts))
    × ((after_attempts attempts).exchanges ≡ length attempts % 2 ^ 64)
    × ((after_attempts attempts).exchange_errors ≡ bad attempts % 2 ^ 64)
after_attempts_counts_example = after_attempts_counts attempts

-- The unit holds 7 everywhere, and does not answer for the last block.
abbrev reads : ℕ → ℕ → Result Error (List ℕ)
reads from count = if from == 625 then err timeout else ok (replicate count 7)

reads_exact : (from count : ℕ) (regs : List ℕ) → reads from count ≡ ok regs → length regs ≡ count
reads_exact from count regs h = elim (Bool-cases (from == 625)) [
  | inl last ↦ absurd (ground arith)
  | inr other ↦
      let same : regs ≡ replicate count 7 = ground arith in
      ap (λ (l : List ℕ). length l) same ∙ length-replicate {A = ℕ} count 7
]

abbrev all_off : Result Error (List Bool)
all_off = ok (replicate 80 false)

pass_register_example :
    get_or (pass 1 2 reads all_off).holding (125 * 5 + 112) 0
    ≡ value_at (reads (125 * 5) (block_size (125 * 5))) 112 0
pass_register_example =
    pass_register 1 2 reads all_off 5 112 reads_exact (omega arith) (omega arith)

abbrev started : Poller
started = record { current = none; passes = 0; failures = 0; last_err = none }

abbrev published : Snapshot
published = record {
  started = 1;
  finished = 2;
  holding = replicate 738 5;
  coils = replicate 80 false;
  failed = [];
}

abbrev polled : Poller
polled = record { current = some published; passes = 1; failures = 0; last_err = none }

reread_registers-Patched_example :
    ((738 < 212) × (reread_registers true 210 2 (ok (8 ∷ 9 ∷ [])) polled ≡ err (outside 210 2)))
    ⊎ ((212 ≤ 738)
        × ((q : Poller) × (reread_registers true 210 2 (ok (8 ∷ 9 ∷ [])) polled ≡ ok q)
            × (((true ≡ false) × (q ≡ polled))
                ⊎ ((true ≡ true)
                    × ((next : Snapshot) × (q.current ≡ some next)
                        × Patched published next 210 (8 ∷ 9 ∷ []) 211)))))
reread_registers-Patched_example =
    reread_registers-Patched true 210 211 (8 ∷ 9 ∷ []) published polled refl
