-- ===== src/Control/Applying.antt =====
-- What a list of writes does to the unit, whatever the line does.
use freeway_pi.Base.{
  ◌≡◌, refl, sym, ap, subst, ◌∙◌, ◌⊎◌, inl, inr, List, [], ◌∷◌, ◌++◌, Result, ok, err,
}
use freeway_pi.Modbus.Pdu.{Error}
use freeway_pi.Bus.Poller.{RereadError}
use freeway_pi.Eda.{Write, Unit16, do_write, do_writes}
use freeway_pi.Control.{Explained, explain, apply, after_writing, after_reread}

-- What the bus promises about the unit: a write that is answered was done, one that is not answered
-- was done or was not, and reading back changes nothing.
pub record Carries {ℓ} {W : Type ℓ} (write : Write → W → Result Error (Unit {0}) × W)
    (reread : Write → W → Result RereadError (Unit {0}) × W) (unit : W → Unit16) : Type ℓ where
  pub written :
      (x : Write) (w : W) → (write x w).0 ≡ ok tt → unit (write x w).1 ≡ do_write x (unit w)
  pub unanswered :
      (x : Write) (w : W)
      → (unit (write x w).1 ≡ unit w) ⊎ (unit (write x w).1 ≡ do_write x (unit w))
  pub read : (x : Write) (w : W) → unit (reread x w).1 ≡ unit w

module _ {ℓ} {W : Type ℓ} (write : Write → W → Result Error (Unit {0}) × W)
    (reread : Write → W → Result RereadError (Unit {0}) × W) where
  -- How the writes end, for the unit before, the result, and the unit after: all were done, or the
  -- last that was done could not be read back, or it failed.
  unfoldable pub Ends : List Write → Unit16 → Result Explained (Unit {0}) → Unit16 → Type ℓ
  Ends xs before result after =
      ((result ≡ ok tt) × (after ≡ do_writes xs before))
      ⊎ ((done : List Write) × (x : Write) × (rest : List Write) × (xs ≡ done ++ (x ∷ rest))
          × (((result ≡ ok tt)
                × ((v : W) × (e : RereadError) × ((reread x v).0 ≡ err e))
                × (after ≡ do_writes (done ++ (x ∷ [])) before))
              ⊎ ((e : Error) × (result ≡ err (explain e))
                  × ((v : W) × ((write x v).0 ≡ err e))
                  × ((after ≡ do_writes done before)
                      ⊎ (after ≡ do_writes (done ++ (x ∷ [])) before)))))

  Ends-after :
      (x : Write) (xs : List Write) (before after : Unit16) (result : Result Explained (Unit {0}))
      → Ends xs (do_write x before) result after
      → Ends (x ∷ xs) before result after
  unfolding Ends do_writes
  Ends-after x xs before after result (inl whole) = inl whole
  Ends-after x xs before after result (inr (done, y, rest, split, how)) =
      inr (x ∷ done, y, rest, ap (◌∷◌ x) split, how)

  module _ (unit : W → Unit16) (bus : Carries write reread unit) where
    Ended : List Write → W → Result Explained (Unit {0}) × W → Type ℓ
    Ended xs w r = Ends xs (unit w) r.0 (unit r.1)

    -- Behind a write that was answered.
    reread-Ends :
        (x : Write) (xs : List Write) (w v : W)
        → unit v ≡ do_write x (unit w)
        → ((u : W) → Ended xs u (apply write reread xs u))
        → (r : Result RereadError (Unit {0}) × W) → r ≡ reread x v
        → Ended (x ∷ xs) w (after_reread write reread (λ u. apply write reread xs u) r)
    unfolding after_reread Ends do_writes Ended
    reread-Ends x xs w v wrote more (err e, u) same =
        let kept : unit u ≡ unit v = ap (λ r. unit r.1) same ∙ bus.read x v in
        inr ([], x, xs, refl, inl (refl, (v, e, sym (ap (λ r. r.0) same)), kept ∙ wrote))
    reread-Ends x xs w v wrote more (ok _, u) same =
        let kept : unit u ≡ unit v = ap (λ r. unit r.1) same ∙ bus.read x v in
        Ends-after x xs (unit w) _ _ (
          subst (λ b. Ends xs b (apply write reread xs u).0 (unit (apply write reread xs u).1))
            (kept ∙ wrote) (more u))

    write-Ends :
        (x : Write) (xs : List Write) (w : W)
        → ((u : W) → Ended xs u (apply write reread xs u))
        → (r : Result Error (Unit {0}) × W) → r ≡ write x w
        → Ended (x ∷ xs) w (after_writing write reread x (λ u. apply write reread xs u) r)
    unfolding after_writing Ends do_writes Ended
    write-Ends x xs w more (err e, u) same =
        let there : unit u ≡ unit (write x w).1 = ap (λ r. unit r.1) same in
        inr (
          [],
          x,
          xs,
          refl,
          inr (
            e,
            refl,
            (w, sym (ap (λ r. r.0) same)),
            elim (bus.unanswered x w) [
              | inl missed ↦ inl (there ∙ missed)
              | inr arrived ↦ inr (there ∙ arrived)
            ],
          ),
        )
    write-Ends x xs w more (ok _, u) same =
        let there : unit u ≡ unit (write x w).1 = ap (λ r. unit r.1) same in
        reread-Ends x xs w u (there ∙ bus.written x w (sym (ap (λ r. r.0) same))) more (reread x u)
          refl

    -- The writes are done in their order. Either all are, and the result is no error; or they are done
    -- up to one that could not be read back, and the result is no error either; or they are done up to
    -- one that failed, which was done or was not, and the result is its error, explained.
    pub apply-Ends :
        (xs : List Write) (w : W)
        → Ends xs (unit w) (apply write reread xs w).0 (unit (apply write reread xs w).1)
    unfolding apply Ends do_writes Ended
    apply-Ends [] w = inl (refl, refl)
    apply-Ends (x ∷ xs) w = write-Ends x xs w (λ u. apply-Ends xs u) (write x w) refl
