-- ===== src/Bus/Window/Recent.antt =====
-- The ring of the last attempts holds what it is meant to.
use freeway_pi.Base.{
  ℕ, zero, suc, ◌+◌, ◌-◌, ◌%◌, ◌^◌, ◌≤◌, ◌<◌, min, ◌≡◌, refl, ap, ◌∙◌, inl, inr, Bool, true, false,
  List, [], ◌∷◌, arith, ltb, ◌==◌, if◌then◌else◌, ltb→lt, Bool-cases, length, get_or, set, take,
  length-replicate, length-set, get_or-set_self, get_or-set_ne,
}
use freeway_pi.Bus.Window.{window, Counts, new_counts, leaving, on_exchange, after_attempts}

abbrev pub one_if : Bool → ℕ
one_if b = if b then 1 else 0

-- How many of the attempts failed.
unfoldable pub bad : List Bool → ℕ
bad [] = 0
bad (failed ∷ rest) = one_if failed + bad rest

bad-take-suc :
    (m : ℕ) (xs : List Bool) → bad (take (suc m) xs) ≡ bad (take m xs) + one_if (get_or xs m false)
unfolding bad
bad-take-suc zero [] = omega arith
bad-take-suc zero (x ∷ xs) = omega arith
bad-take-suc (suc m) [] = omega arith
bad-take-suc (suc m) (x ∷ xs) = omega (arith, bad-take-suc m xs)

get_or-past : (xs : List Bool) (i : ℕ) → length xs ≤ i → get_or xs i false ≡ false
get_or-past [] i h = refl
get_or-past (x ∷ xs) zero h = absurd (omega arith)
get_or-past (x ∷ xs) (suc i) h = get_or-past xs i (omega arith)

-- The ring after the attempts `h`, the last one first.
record Ring (h : List Bool) (c : Counts) : Type 0 where
  slots : length c.recent ≡ window
  pos : c.recent_pos ≡ length h % window
  len : c.recent_len ≡ min window (length h)
  holds :
      (k : ℕ)
      → k < window
      → k < length h
      → get_or c.recent ((length h - 1 - k) % window) false ≡ get_or h k false
  count : c.recent_bad ≡ bad (take window h)

-- The slot that is written next holds the oldest attempt of a full ring.
oldest :
    (h : List Bool) (c : Counts)
    → Ring h c
    → window ≤ length h
    → get_or c.recent c.recent_pos false ≡ get_or h 255 false
oldest h c ring full =
    let e : c.recent_pos ≡ (length h - 1 - 255) % window = omega (arith, ring.pos) in
    ap (λ (i : ℕ). get_or c.recent i false) e ∙ ring.holds 255 (omega arith) (omega arith)

past_window : (h : List Bool) → ltb (length h) window ≡ false → window ≤ length h
past_window h e = ground arith

room_left : (l n : ℕ) → l ≡ min window n → ltb n window ≡ true → (l == window) ≡ false
room_left l n len h = ground arith

no_room : (l n : ℕ) → l ≡ min window n → ltb n window ≡ false → (l == window) ≡ true
no_room l n len h = ground arith

leaving-Ring : (h : List Bool) (c : Counts) → Ring h c → leaving c ≡ one_if (get_or h 255 false)
unfolding leaving
leaving-Ring h c ring = elim (Bool-cases (ltb (length h) window)) [
  | inl room ↦
      rw
        (
          room_left c.recent_len (length h) ring.len room,
          leaving,
          get_or-past h 255 (omega (arith, (ltb→lt _ _ room))),
        )
        refl
  | inr full ↦
      rw
        (
          no_room c.recent_len (length h) ring.len full,
          leaving,
          oldest h c ring (past_window h full),
        )
        refl
]

grown : (l n : ℕ) → l ≡ min window n → (if ltb l window then l + 1 else l) ≡ min window (suc n)
grown l n h = ground arith

written :
    (failed : Bool) (h : List Bool) (c : Counts) (k : ℕ)
    → Ring h c
    → k < window
    → k < suc (length h)
    → get_or (set c.recent c.recent_pos failed) ((length h - k) % window) false
      ≡ get_or (failed ∷ h) k false
written failed h c zero ring small old =
    let e : (length h - 0) % window ≡ c.recent_pos = omega (arith, ring.pos) in
    ap (λ (i : ℕ). get_or (set c.recent c.recent_pos failed) i false) e
    ∙ get_or-set_self c.recent c.recent_pos failed false (omega (arith, ring.pos, ring.slots))
written failed h c (suc k) ring small old =
    let e : (length h - suc k) % window ≡ (length h - 1 - k) % window = omega arith in
    ap (λ (i : ℕ). get_or (set c.recent c.recent_pos failed) i false) e
    ∙ get_or-set_ne c.recent c.recent_pos _ failed false (omega (arith, ring.pos))
    ∙ ring.holds k (omega arith) (omega arith)

counted :
    (failed : Bool) (h : List Bool) (c : Counts)
    → Ring h c
    → (if failed then c.recent_bad - leaving c + 1 else c.recent_bad - leaving c)
      ≡ bad (failed ∷ take 255 h)
unfolding bad
counted true h c ring = omega (arith, bad-take-suc 255 h, leaving-Ring h c ring, ring.count)
counted false h c ring = omega (arith, bad-take-suc 255 h, leaving-Ring h c ring, ring.count)

Ring-on_exchange :
    (failed : Bool) (h : List Bool) (c : Counts)
    → Ring h c
    → Ring (failed ∷ h) (on_exchange failed c)
unfolding on_exchange
Ring-on_exchange failed h c ring = record {
  slots = length-set c.recent c.recent_pos failed ∙ ring.slots;
  pos = omega (arith, ring.pos);
  len = grown c.recent_len (length h) ring.len;
  holds = λ k small old.
      let e : suc (length h) - 1 - k ≡ length h - k = omega arith in
      ap (λ (i : ℕ). get_or (set c.recent c.recent_pos failed) (i % window) false) e
      ∙ written failed h c k ring small old;
  count = counted failed h c ring;
}

new_counts-Ring : Ring [] new_counts
unfolding new_counts bad
new_counts-Ring = record {
  slots = length-replicate window false;
  pos = refl;
  len = refl;
  holds = λ k small old. absurd (omega arith);
  count = refl;
}

after_attempts-Ring : (h : List Bool) → Ring h (after_attempts h)
unfolding after_attempts
after_attempts-Ring [] = new_counts-Ring
after_attempts-Ring (failed ∷ h) = Ring-on_exchange failed h _ (after_attempts-Ring h)

totals :
    (h : List Bool)
    → ((after_attempts h).exchanges ≡ length h % 2 ^ 64)
      × ((after_attempts h).exchange_errors ≡ bad h % 2 ^ 64)
unfolding after_attempts on_exchange new_counts bad
totals [] = (refl, refl)
totals (true ∷ h) = (omega (arith, (totals h).0), omega (arith, (totals h).1))
totals (false ∷ h) = (omega (arith, (totals h).0), omega (arith, (totals h).1))

-- After any run of attempts: the samples are the attempts, but at most 256, the bad ones are the
-- failures among exactly those last attempts, and the lifetime counters are the numbers of all
-- attempts and of all failures, modulo 2^64.
pub after_attempts_counts :
    (h : List Bool)
    → ((after_attempts h).recent_len ≡ min window (length h))
      × ((after_attempts h).recent_bad ≡ bad (take window h))
      × ((after_attempts h).exchanges ≡ length h % 2 ^ 64)
      × ((after_attempts h).exchange_errors ≡ bad h % 2 ^ 64)
after_attempts_counts h =
    let ring = after_attempts-Ring h in (ring.len, ring.count, (totals h).0, (totals h).1)
