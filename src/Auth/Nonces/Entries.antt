-- ===== src/Auth/Nonces/Entries.antt =====
-- The challenges as entries of a map: removing, ageing, and making room.
use freeway_pi.Base.{
  ℕ, zero, suc, ◌+◌, ◌≤◌, ◌<◌, ◌≡◌, refl, ◌⊎◌, inl, inr, Bool, true, false, ◌||◌, none, List, [],
  ◌∷◌, arith, ltb, leb, ◌==◌, Bool-cases, length,
}
use freeway_pi.Base.Texts.{Text, same_text, same_text_refl}
use freeway_pi.Auth.{find, remove, expire_nonces, oldest, evict}

pub length-remove : (n : Text) (m : List (Text × ℕ)) → length (remove n m) ≤ length m
unfolding remove
length-remove n [] = omega arith
length-remove n ((k, e) ∷ m) = ground (arith, length-remove n m)

-- Whether a challenge is outstanding.
unfoldable pub has : Text → List (Text × ℕ) → Bool
has n [] = false
has n ((k, e) ∷ m) = same_text k n || has n m

pub length-remove_found :
    (n : Text) (m : List (Text × ℕ)) → has n m ≡ true → length (remove n m) < length m
unfolding has remove
length-remove_found n [] h = absurd cc
length-remove_found n ((k, x) ∷ m) h = elim (Bool-cases (same_text k n)) [
  | inl same ↦ rw (same) (omega (arith, length-remove n m))
  | inr other ↦ rw (other) (omega (arith, length-remove_found n m (rw other at h)))
]

pub has-remove : (n : Text) (m : List (Text × ℕ)) → has n (remove n m) ≡ false
unfolding has remove
has-remove n [] = refl
has-remove n ((k, x) ∷ m) = elim (Bool-cases (same_text k n)) [
  | inl same ↦ rw (same) (has-remove n m)
  | inr other ↦ rw (other) (rw (other) (has-remove n m))
]

pub has-remove_other :
    (n k : Text) (m : List (Text × ℕ)) → has n m ≡ false → has n (remove k m) ≡ false
unfolding has remove
has-remove_other n k [] h = refl
has-remove_other n k ((j, x) ∷ m) h = ground (arith, has-remove_other n k m)

pub has-expire_nonces :
    (n : Text) (now : ℕ) (m : List (Text × ℕ))
    → has n m ≡ false
    → has n (expire_nonces now m) ≡ false
unfolding has expire_nonces
has-expire_nonces n now [] h = refl
has-expire_nonces n now ((j, x) ∷ m) h = ground (arith, has-expire_nonces n now m)

length-expire_nonces : (now : ℕ) (m : List (Text × ℕ)) → length (expire_nonces now m) ≤ length m
unfolding expire_nonces
length-expire_nonces now [] = omega arith
length-expire_nonces now ((k, e) ∷ m) = ground (arith, length-expire_nonces now m)

or_right : (a b : Bool) → b ≡ true → (a || b) ≡ true
or_right true b h = refl
or_right false b h = h

oldest-better :
    (best : Text × ℕ) (k : Text) (x : ℕ) (m : List (Text × ℕ))
    → (best.1 == 0 || ltb x best.1) ≡ true
    → oldest best ((k, x) ∷ m) ≡ oldest (k, x) m
unfolding oldest
oldest-better best k x m h = rw (h) refl

oldest-worse :
    (best : Text × ℕ) (k : Text) (x : ℕ) (m : List (Text × ℕ))
    → (best.1 == 0 || ltb x best.1) ≡ false
    → oldest best ((k, x) ∷ m) ≡ oldest best m
unfolding oldest
oldest-worse best k x m h = rw (h) refl

oldest-nil : (best : Text × ℕ) → oldest best [] ≡ best
unfolding oldest
oldest-nil best = refl

has-first : (k : Text) (x : ℕ) (m : List (Text × ℕ)) → has k ((k, x) ∷ m) ≡ true
unfolding has
has-first k x m = rw (same_text_refl k) refl

has-later : (n k : Text) (x : ℕ) (m : List (Text × ℕ)) → has n m ≡ true → has n ((k, x) ∷ m) ≡ true
unfolding has
has-later n k x m h = or_right (same_text k n) _ h

-- The oldest entry is the best so far or one of those to come.
has-oldest :
    (best : Text × ℕ) (m : List (Text × ℕ))
    → (oldest best m ≡ best) ⊎ (has (oldest best m).0 m ≡ true)
has-oldest best [] = inl (oldest-nil best)
has-oldest best ((j, y) ∷ m) = elim (Bool-cases (best.1 == 0 || ltb y best.1)) [
  | inl better ↦ rw (oldest-better best j y m better) (elim (has-oldest (j, y) m) [
    | inl first ↦ inr (rw (first) (has-first j y m))
    | inr later ↦ inr (has-later _ j y m later)
  ])
  | inr worse ↦ rw (oldest-worse best j y m worse) (elim (has-oldest best m) [
    | inl first ↦ inl first
    | inr later ↦ inr (has-later _ j y m later)
  ])
]

pub has-oldest_first : (m : List (Text × ℕ)) → 0 < length m → has (oldest ([], 0) m).0 m ≡ true
unfolding has oldest
has-oldest_first [] h = absurd (omega arith)
has-oldest_first ((k, x) ∷ m) h = elim (has-oldest (k, x) m) [
  | inl first ↦ rw (first, same_text_refl k) refl
  | inr later ↦ ground arith
]

-- The loop ends with room for one more.
pub length-evict :
    (fuel : ℕ) (m : List (Text × ℕ)) → length m ≤ fuel + 255 → length (evict fuel m) < 256
unfolding evict
length-evict zero m h = omega arith
length-evict (suc fuel) m h = elim (Bool-cases (leb 256 (length m))) [
  | inl full ↦ rw (full) (
      let less = length-remove_found _ m (has-oldest_first m (ground arith)) in
      length-evict fuel _ (omega arith))
  | inr room ↦ rw (room) (ground arith)
]

pub has-evict :
    (n : Text) (fuel : ℕ) (m : List (Text × ℕ)) → has n m ≡ false → has n (evict fuel m) ≡ false
unfolding evict
has-evict n zero m h = h
has-evict n (suc fuel) m h = elim (Bool-cases (leb 256 (length m))) [
  | inl full ↦ rw (full) (has-evict n fuel _ (has-remove_other n _ m h))
  | inr room ↦ rw (room) h
]

pub find-has : (n : Text) (m : List (Text × ℕ)) → has n m ≡ false → find n m ≡ none
unfolding has find
find-has n [] h = refl
find-has n ((k, x) ∷ m) h = ground (arith, find-has n m)
