-- ===== src/Modbus/Client/Retries.antt =====
-- How often the client tries, and when it stops.
use freeway_pi.Base.{
  ℕ, zero, suc, ◌+◌, ◌-◌, ◌≤◌, ◌≡◌, refl, inl, inr, true, false, Option, none, some, List, [], ◌∷◌,
  arith, Bool-cases, length, Result, ok, err,
}
use freeway_pi.Modbus.Pdu.{Error, is_exception}
use freeway_pi.Modbus.Client.{
  Transport, Client, Exchange, Outcome, Run, ReadError, error_of, attempt, execute_loop, execute_as,
  after_rest, read_rest, after_head, after_write, after_drain, conclude, give_up, keep_gap,
}

-- The story of a run, told by its exchanges: with `left` attempts allowed and `n` made before.
-- A payload or an exception from the unit ends it, any other failure leads to one more attempt, and
-- the last failure is the run's error.
pub data Story : (left n : ℕ) → List Exchange → Result Error (List ℕ) → Type 0 where
  answered :
      {left n : ℕ} (ex : Exchange) (payload : List ℕ)
      → ex.attempt ≡ n
      → ex.error ≡ none
      → Story (suc left) n (ex ∷ []) (ok payload)
  refused :
      {left n : ℕ} (ex : Exchange) (e : Error)
      → ex.attempt ≡ n
      → ex.error ≡ some e
      → is_exception e ≡ true
      → Story (suc left) n (ex ∷ []) (err e)
  gave_up :
      {n : ℕ} (ex : Exchange) (e : Error)
      → ex.attempt ≡ n
      → ex.error ≡ some e
      → is_exception e ≡ false
      → Story 1 n (ex ∷ []) (err e)
  retried :
      {left n : ℕ} {exs : List Exchange} {r : Result Error (List ℕ)} (ex : Exchange) (e : Error)
      → ex.attempt ≡ n
      → ex.error ≡ some e
      → is_exception e ≡ false
      → Story (suc left) (n + 1) exs r
      → Story (suc (suc left)) n (ex ∷ exs) r

module _ (t : Transport) where
  open t use {World}

  -- What an outcome records of itself: the attempt's number, and its own error.
  abbrev Recorded : ℕ → Outcome t → Type 0
  Recorded n o = (o.exchange.attempt ≡ n) × (o.exchange.error ≡ error_of o.result)

  module _ (c : Client) (slave : ℕ) (request : List ℕ) (fc quantity n : ℕ) where
    after_rest-Recorded :
        (start : ℕ) (head : List ℕ) (total : ℕ) (a : Result ReadError (List ℕ) × World)
        → Recorded n (after_rest t c slave request fc n start head total a)
    unfolding after_rest
    after_rest-Recorded start head total (ok rest, w) = (refl, refl)
    after_rest-Recorded start head total (err e, w) = (refl, refl)

    read_rest-Recorded :
        (start deadline : ℕ) (head : List ℕ) (a : Result Error ℕ) (w : World)
        → Recorded n (read_rest t c slave request fc n start deadline head a w)
    unfolding read_rest
    read_rest-Recorded start deadline head (ok total) w =
        after_rest-Recorded start head total (t.read_full (total - 2) deadline w)
    read_rest-Recorded start deadline head (err e) w = (refl, refl)

    after_head-Recorded :
        (start deadline : ℕ) (a : Result ReadError (List ℕ) × World)
        → Recorded n (after_head t c slave request fc quantity n start deadline a)
    unfolding after_head
    after_head-Recorded start deadline (ok head, w) = read_rest-Recorded start deadline head _ w
    after_head-Recorded start deadline (err e, w) = (refl, refl)

    after_write-Recorded :
        (a : Option ℕ × World) → Recorded n (after_write t c slave request fc quantity n a)
    unfolding after_write
    after_write-Recorded (some code, w) = (refl, refl)
    after_write-Recorded (none, w) =
        after_head-Recorded (t.now w) (t.now w + c.timeout_ns)
          (t.read_full 2 (t.now w + c.timeout_ns) w)

    after_drain-Recorded :
        (a : Option ℕ × World) → Recorded n (after_drain t c slave request fc quantity n a)
    unfolding after_drain
    after_drain-Recorded (some code, w) = (refl, refl)
    after_drain-Recorded (none, w) = after_write-Recorded (t.write request w)

    attempt-Recorded : (w : World) → Recorded n (attempt t c slave request fc quantity n w)
    unfolding attempt
    attempt-Recorded w = after_drain-Recorded (t.drain (keep_gap t c w))

  conclude-Story :
      (left n : ℕ) (o : Outcome t) (rest : Run t) (r : Result Error (List ℕ))
      → o.result ≡ r
      → o.exchange.attempt ≡ n
      → o.exchange.error ≡ error_of r
      → Story (suc left) (n + 1) rest.exchanges rest.result
      → Story (suc (suc left)) n (conclude t o rest r).exchanges (conclude t o rest r).result
  unfolding conclude error_of
  conclude-Story left n o rest (ok payload) e a x s = rw e (answered o.exchange payload a x)
  conclude-Story left n o rest (err f) e a x s = elim (Bool-cases (is_exception f)) [
    | inl stops ↦ rw (stops, e) (refused o.exchange f a x stops)
    | inr goes_on ↦ rw goes_on (retried o.exchange f a x goes_on s)
  ]

  conclude_last-Story :
      (n : ℕ) (o : Outcome t) (rest : Run t) (r : Result Error (List ℕ))
      → o.result ≡ r
      → o.exchange.attempt ≡ n
      → o.exchange.error ≡ error_of r
      → rest.exchanges ≡ []
      → rest.result ≡ give_up t (error_of r)
      → Story 1 n (conclude t o rest r).exchanges (conclude t o rest r).result
  unfolding conclude give_up error_of
  conclude_last-Story n o rest (ok payload) e a x none_made given_up =
      rw e (answered o.exchange payload a x)
  conclude_last-Story n o rest (err f) e a x none_made given_up =
      elim (Bool-cases (is_exception f)) [
        | inl stops ↦ rw (stops, e) (refused o.exchange f a x stops)
        | inr goes_on ↦ rw (goes_on, none_made, given_up) (gave_up o.exchange f a x goes_on)
      ]

  pub loop-Story :
      (left n : ℕ) (last : Option Error) (c : Client) (slave : ℕ) (request : List ℕ)
      (fc quantity : ℕ) (w : World)
      → Story
          (suc left)
          n
          (execute_loop t (suc left) n last c slave request fc quantity w).exchanges
          (execute_loop t (suc left) n last c slave request fc quantity w).result
  unfolding execute_loop
  loop-Story zero n last c slave request fc quantity w =
      let (a, x) = attempt-Recorded c slave request fc quantity n w in
      conclude_last-Story n _ _ _ refl a x refl refl
  loop-Story (suc left) n last c slave request fc quantity w =
      let (a, x) = attempt-Recorded c slave request fc quantity n w in
      let o = attempt t c slave request fc quantity n w in
      conclude-Story left n o _ _ refl a x
        (loop-Story left (n + 1) (error_of o.result) o.client slave request fc quantity o.world)

  -- Every run of the client, on every transport, is one of these stories with `retries + 1` attempts
  -- allowed: an answer or an exception from the unit ends it at once, every other failure is tried
  -- again while an attempt is left, and the last failure is what the caller gets.
  pub execute_as-Story :
      (c : Client) (slave : ℕ) (request : List ℕ) (fc quantity : ℕ) (w : World)
      → Story
          (c.retries + 1)
          0
          (execute_as t c slave request fc quantity w).exchanges
          (execute_as t c slave request fc quantity w).result
  unfolding execute_as
  execute_as-Story c slave request fc quantity w =
      let e : c.retries + 1 ≡ suc c.retries = omega arith in
      rw e (loop-Story c.retries 0 none c slave request fc quantity w)

-- A run makes at least one attempt and at most as many as it may.
pub Story-length :
    {left n : ℕ} {exs : List Exchange} {r : Result Error (List ℕ)}
    → Story left n exs r
    → (1 ≤ length exs) × (length exs ≤ left)
Story-length (answered ex payload a x) = omega arith
Story-length (refused ex e a x y) = omega arith
Story-length (gave_up ex e a x y) = omega arith
Story-length (retried ex e a x y s) = omega (arith, Story-length s)
