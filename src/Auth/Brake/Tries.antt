-- ===== src/Auth/Brake/Tries.antt =====
-- What a whole try does to the brake, by what it answers.
use freeway_pi.Base.{
  ℕ, suc, ◌≤◌, ◌≡◌, refl, ap, ◌∙◌, ◌⊎◌, inl, inr, Bool, true, false, not, Option, none, some, arith,
  ltb, Bool-cases, Result, ok, err,
}
use freeway_pi.Base.Texts.{Text, is_empty}
use freeway_pi.Auth.{
  first_pin, first_pin_for, set_pin, keep, find, proves, Crypto, AuthError, bad_proof, save_failed,
  Config, Authenticator, is_live, consume_nonce, keep, note_attempt, wrong_proof, with_key,
  with_nonce, with_proof, sign_in, has_key_size, replace_pin,
}
use freeway_pi.Auth.Brake.Attempts.{SameBrake}

-- The PIN was proved: the answer is a session, or the failure to store a new PIN.
unfoldable pub is_through {ℓ} : {A : Type ℓ} → Result AuthError A → Bool
is_through (ok x) = true
is_through (err save_failed) = true
is_through (err _) = false

unfoldable pub is_wrong {ℓ} : {A : Type ℓ} → Result AuthError A → Bool
is_wrong (err bad_proof) = true
is_wrong _ = false

-- A call that is let through only with a proof, and otherwise leaves the brake alone.
abbrev Meek {ℓ} : {A : Type ℓ} → (Authenticator → Result AuthError A × Authenticator) → Type 0
Meek proved =
    (b : Authenticator)
    → (is_through (proved b).0 ≡ true)
      ⊎ ((is_wrong (proved b).0 ≡ false) × SameBrake b (proved b).1)

-- What a try does to the brake.
abbrev pub Tried {ℓ} :
    {A : Type ℓ} → ℕ → Authenticator → Result AuthError A × Authenticator → Type 0
Tried now a r =
    (is_through r.0 ≡ true)
    ⊎ ((is_wrong r.0 ≡ false) × SameBrake a r.1)
    ⊎ ((is_wrong r.0 ≡ false) × (a.lock_until ≤ now) × SameBrake (note_attempt now a) r.1)
    ⊎ ((is_wrong r.0 ≡ true)
        × (a.lock_until ≤ now)
        × SameBrake (wrong_proof now (note_attempt now a)) r.1)

keep-is_through {ℓ} :
    {A : Type ℓ} (save : Config → Bool) (x : A) (a : Authenticator)
    → is_through (keep save x a).0 ≡ true
unfolding keep is_through
keep-is_through save x a = elim (Bool-cases (save a.config)) [
  | inl works ↦ rw (works) refl
  | inr fails ↦ rw (fails) refl
]

pub sign_in-Meek : (c : Crypto) (now : ℕ) → Meek (sign_in c now)
unfolding sign_in is_through
sign_in-Meek c now b = inl refl

pub replace_pin-Meek :
    (c : Crypto) (save : Config → Bool) (now : ℕ) (salt fresh : Text) (key : Option Text)
    → Meek (replace_pin c save now salt fresh key)
unfolding replace_pin is_wrong
replace_pin-Meek c save now salt fresh none b = inr (refl, (refl, refl, refl))
replace_pin-Meek c save now salt fresh (some key) b = elim (Bool-cases (not (has_key_size key))) [
  | inl short ↦ rw (short) (inr (refl, (refl, refl, refl)))
  | inr sized ↦ elim (Bool-cases (is_empty salt)) [
    | inl unsalted ↦ rw (sized, unsalted) (inr (refl, (refl, refl, refl)))
    | inr salted ↦ rw (sized, salted) (inl (keep-is_through save _ _))
  ]
]

with_key-Tried {ℓ} :
    {A : Type ℓ} (c : Crypto) (now : ℕ) (nonce proof : Text)
    (proved : Authenticator → Result AuthError A × Authenticator)
    → Meek proved
    → (key : Option Text) → (a b : Authenticator) → a.lock_until ≤ now
    → SameBrake (note_attempt now a) b
    → Tried now a (with_key c now nonce proof proved key b)
unfolding with_key is_wrong wrong_proof
with_key-Tried c now nonce proof proved meek none a b free same = inr (inr (inl (refl, free, same)))
with_key-Tried c now nonce proof proved meek (some key) a b free (count, lock, last) =
    elim (Bool-cases (proves c key nonce (c.decode proof))) [
      | inl right ↦ rw (right) (elim (meek b) [
        | inl through ↦ inl through
        | inr (quiet, (x, y, z)) ↦ inr (inr (inl (quiet, free, (count ∙ x, lock ∙ y, last ∙ z))))
      ])
      | inr wrong ↦
          rw (wrong) (inr (inr (inr (refl, free, (ap suc count, rw (count, lock) refl, last)))))
    ]

pub with_proof-Tried {ℓ} :
    {A : Type ℓ} (c : Crypto) (now : ℕ) (nonce proof : Text)
    (proved : Authenticator → Result AuthError A × Authenticator)
    → Meek proved
    → (a : Authenticator) → Tried now a (with_proof c now nonce proof proved a)
unfolding with_proof with_nonce consume_nonce is_wrong
with_proof-Tried c now nonce proof proved meek a = elim (Bool-cases (is_empty a.config.verifier)) [
  | inl unset ↦ rw (unset) (inr (inl (refl, (refl, refl, refl))))
  | inr known ↦ elim (Bool-cases (ltb now a.lock_until)) [
    | inl locked ↦ rw (known, locked) (inr (inl (refl, (refl, refl, refl))))
    | inr open_now ↦ elim (Bool-cases (is_live now (find nonce (note_attempt now a).nonces))) [
      | inl live ↦
          rw (known, open_now, live)
            (with_key-Tried c now nonce proof proved meek _ a _ (ground arith) (refl, refl, refl))
      | inr dead ↦
          rw (known, open_now, dead) (inr (inr (inl (refl, ground arith, (refl, refl, refl)))))
    ]
  ]
]

first_pin-SameBrake :
    (c : Crypto) (save : Config → Bool) (fresh : Text) (key : Option Text) (b : Authenticator)
    → SameBrake b (first_pin c save fresh key b).1
unfolding first_pin keep
first_pin-SameBrake c save fresh none b = (refl, refl, refl)
first_pin-SameBrake c save fresh (some key) b = elim (Bool-cases (has_key_size key)) [
  | inl sized ↦ rw (sized) (refl, refl, refl)
  | inr short ↦ rw (short) (refl, refl, refl)
]

first_pin_for-SameBrake :
    (c : Crypto) (save : Config → Bool) (fresh proof : Text) (p : Bool × Authenticator)
    → SameBrake p.1 (first_pin_for c save fresh proof p).1
unfolding first_pin_for
first_pin_for-SameBrake c save fresh proof (false, b) = (refl, refl, refl)
first_pin_for-SameBrake c save fresh proof (true, b) =
    first_pin-SameBrake c save fresh (c.decode proof) b

pub set_pin-SameBrake :
    (c : Crypto) (save : Config → Bool) (now : ℕ) (nonce proof fresh : Text) (a : Authenticator)
    → SameBrake a (set_pin c save now nonce proof fresh a).1
unfolding set_pin consume_nonce
set_pin-SameBrake c save now nonce proof fresh a =
    elim (Bool-cases (not (is_empty a.config.verifier))) [
      | inl known ↦ rw (known) (refl, refl, refl)
      | inr unset ↦
          rw (unset) (first_pin_for-SameBrake c save fresh proof (consume_nonce now nonce a))
    ]
