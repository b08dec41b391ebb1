-- ===== src/Bus/Poller/Copy.antt =====
-- Go's `copy` into a part of a slice.
use freeway_pi.Base.{
  ℕ, zero, suc, ◌+◌, ◌≤◌, ◌<◌, ◌≡◌, refl, ap, ◌∙◌, ◌⊎◌, inl, inr, List, [], ◌∷◌, arith, length,
  get_or,
}
use freeway_pi.Bus.Poller.{overlay, copy_at}

module _ {A : Type 0} where
  pub length-overlay : (dst src : List A) → length (overlay dst src) ≡ length dst
  unfolding overlay
  length-overlay [] src = refl
  length-overlay (d ∷ dst) [] = refl
  length-overlay (d ∷ dst) (s ∷ src) = ap suc (length-overlay dst src)

  pub get_or-overlay_in :
      (dst src : List A) (i : ℕ) (z : A)
      → i < length src
      → i < length dst
      → get_or (overlay dst src) i z ≡ get_or src i z
  unfolding overlay
  get_or-overlay_in [] src i z h g = absurd (omega arith)
  get_or-overlay_in (d ∷ dst) [] i z h g = absurd (omega arith)
  get_or-overlay_in (d ∷ dst) (s ∷ src) zero z h g = refl
  get_or-overlay_in (d ∷ dst) (s ∷ src) (suc i) z h g =
      get_or-overlay_in dst src i z (omega arith) (omega arith)

  pub get_or-overlay_past :
      (dst src : List A) (i : ℕ) (z : A)
      → length src ≤ i
      → get_or (overlay dst src) i z ≡ get_or dst i z
  unfolding overlay
  get_or-overlay_past [] src i z h = refl
  get_or-overlay_past (d ∷ dst) [] i z h = refl
  get_or-overlay_past (d ∷ dst) (s ∷ src) zero z h = absurd (omega arith)
  get_or-overlay_past (d ∷ dst) (s ∷ src) (suc i) z h =
      get_or-overlay_past dst src i z (omega arith)

  pub length-copy_at :
      (dst : List A) (from : ℕ) (src : List A) → length (copy_at dst from src) ≡ length dst
  unfolding copy_at overlay
  length-copy_at dst zero src = length-overlay dst src
  length-copy_at [] (suc from) src = refl
  length-copy_at (d ∷ dst) (suc from) src = ap suc (length-copy_at dst from src)

  pub get_or-copy_at_in :
      (dst : List A) (from : ℕ) (src : List A) (i : ℕ) (z : A)
      → i < length src
      → from + i < length dst
      → get_or (copy_at dst from src) (from + i) z ≡ get_or src i z
  unfolding copy_at
  get_or-copy_at_in dst zero src i z h g =
      let e : 0 + i ≡ i = omega arith in
      ap (λ (k : ℕ). get_or (overlay dst src) k z) e ∙ get_or-overlay_in dst src i z h (omega arith)
  get_or-copy_at_in [] (suc from) src i z h g = absurd (omega arith)
  get_or-copy_at_in (d ∷ dst) (suc from) src i z h g =
      let e : suc from + i ≡ suc (from + i) = omega arith in
      ap (λ (k : ℕ). get_or (copy_at (d ∷ dst) (suc from) src) k z) e
      ∙ get_or-copy_at_in dst from src i z h (omega arith)

  pub get_or-copy_at_out :
      (dst : List A) (from : ℕ) (src : List A) (i : ℕ) (z : A)
      → (i < from) ⊎ (from + length src ≤ i)
      → get_or (copy_at dst from src) i z ≡ get_or dst i z
  unfolding copy_at overlay
  get_or-copy_at_out dst zero src i z (inl h) = absurd (omega arith)
  get_or-copy_at_out dst zero src i z (inr h) = get_or-overlay_past dst src i z (omega arith)
  get_or-copy_at_out [] (suc from) src i z h = refl
  get_or-copy_at_out (d ∷ dst) (suc from) src zero z h = refl
  get_or-copy_at_out (d ∷ dst) (suc from) src (suc i) z (inl h) =
      get_or-copy_at_out dst from src i z (inl (omega arith))
  get_or-copy_at_out (d ∷ dst) (suc from) src (suc i) z (inr h) =
      get_or-copy_at_out dst from src i z (inr (omega arith))
