-- ===== src/Auth/Nonces/Tries.antt =====
-- What a whole try does to the challenges.
use freeway_pi.Base.{
  ℕ, ◌≡◌, refl, ◌⊎◌, inl, inr, Bool, true, false, not, Option, none, some, arith, ltb, Bool-cases,
  set, Result, err,
}
use freeway_pi.Base.Texts.{Text, is_empty}
use freeway_pi.Auth.{
  not_configured, rate_limited, not_configured, rate_limited, Crypto, AuthError, Config,
  Authenticator, remove, consume_nonce, keep, first_pin, first_pin_for, set_pin, note_attempt,
  wrong_proof, with_key, with_nonce, with_proof, sign_in, verify, replace_pin, change_pin,
}
use freeway_pi.Auth.Nonces.Entries.{has}

abbrev Has : Text → Authenticator → Type 0
Has n a = has n a.nonces ≡ true

-- What proving the PIN is good for leaves the challenges alone.
sign_in-nonces : (c : Crypto) (now : ℕ) (a : Authenticator) → (sign_in c now a).1.nonces ≡ a.nonces
unfolding sign_in
sign_in-nonces c now a = refl

replace_pin-nonces :
    (c : Crypto) (save : Config → Bool) (now : ℕ) (salt fresh : Text) (key : Option Text)
    (a : Authenticator)
    → (replace_pin c save now salt fresh key a).1.nonces ≡ a.nonces
unfolding replace_pin keep
replace_pin-nonces c save now salt fresh none a = refl
replace_pin-nonces c save now salt fresh (some key) a = ground arith

with_key-nonces {ℓ} :
    {A : Type ℓ} (c : Crypto) (now : ℕ) (nonce proof : Text)
    (proved : Authenticator → Result AuthError A × Authenticator)
    → ((b : Authenticator) → (proved b).1.nonces ≡ b.nonces)
    → (key : Option Text) → (a : Authenticator)
    → (with_key c now nonce proof proved key a).1.nonces ≡ a.nonces
unfolding with_key wrong_proof
with_key-nonces c now nonce proof proved keeps none a = refl
with_key-nonces c now nonce proof proved keeps (some key) a = ground (arith, keeps a)

with_nonce-nonces {ℓ} :
    {A : Type ℓ} (c : Crypto) (now : ℕ) (nonce proof : Text)
    (proved : Authenticator → Result AuthError A × Authenticator)
    → ((b : Authenticator) → (proved b).1.nonces ≡ b.nonces)
    → (p : Bool × Authenticator) → (with_nonce c now nonce proof proved p).1.nonces ≡ p.1.nonces
unfolding with_nonce
with_nonce-nonces c now nonce proof proved keeps (false, a) = refl
with_nonce-nonces c now nonce proof proved keeps (true, a) =
    with_key-nonces c now nonce proof proved keeps (c.decode a.config.verifier) a

unfoldable pub is_tried {ℓ} : {A : Type ℓ} → Result AuthError A → Bool
is_tried (err not_configured) = false
is_tried (err rate_limited) = false
is_tried _ = true

-- A try that is put off leaves the challenges alone, and another takes its challenge away.
with_proof-nonces {ℓ} :
    {A : Type ℓ} (c : Crypto) (now : ℕ) (nonce proof : Text)
    (proved : Authenticator → Result AuthError A × Authenticator)
    → ((b : Authenticator) → (proved b).1.nonces ≡ b.nonces)
    → (a : Authenticator)
    → ((is_tried (with_proof c now nonce proof proved a).0 ≡ false)
        × ((with_proof c now nonce proof proved a).1 ≡ a))
      ⊎ ((with_proof c now nonce proof proved a).1.nonces ≡ remove nonce a.nonces)
unfolding with_proof consume_nonce note_attempt is_tried
with_proof-nonces c now nonce proof proved keeps a =
    elim (Bool-cases (is_empty a.config.verifier)) [
      | inl unset ↦ rw (unset) (inl (refl, refl))
      | inr set ↦ elim (Bool-cases (ltb now a.lock_until)) [
        | inl locked ↦ rw (set, locked) (inl (refl, refl))
        | inr free ↦ rw (set, free) (inr (with_nonce-nonces c now nonce proof proved keeps _))
      ]
    ]

pub verify-nonces :
    (c : Crypto) (now : ℕ) (nonce proof : Text) (a : Authenticator)
    → ((is_tried (verify c now nonce proof a).0 ≡ false) × ((verify c now nonce proof a).1 ≡ a))
      ⊎ ((verify c now nonce proof a).1.nonces ≡ remove nonce a.nonces)
unfolding verify
verify-nonces c now nonce proof a =
    with_proof-nonces c now nonce proof (sign_in c now) (sign_in-nonces c now) a

pub change_pin-nonces :
    (c : Crypto) (save : Config → Bool) (now : ℕ) (nonce proof salt key fresh : Text)
    (a : Authenticator)
    → ((is_tried (change_pin c save now nonce proof salt key fresh a).0 ≡ false)
        × ((change_pin c save now nonce proof salt key fresh a).1 ≡ a))
      ⊎ ((change_pin c save now nonce proof salt key fresh a).1.nonces ≡ remove nonce a.nonces)
unfolding change_pin
change_pin-nonces c save now nonce proof salt key fresh a =
    with_proof-nonces c now nonce proof (replace_pin c save now salt fresh (c.decode key))
      (replace_pin-nonces c save now salt fresh (c.decode key)) a

first_pin-nonces :
    (c : Crypto) (save : Config → Bool) (fresh : Text) (key : Option Text) (b : Authenticator)
    → (first_pin c save fresh key b).1.nonces ≡ b.nonces
unfolding first_pin keep
first_pin-nonces c save fresh none b = refl
first_pin-nonces c save fresh (some key) b = ground arith

first_pin_for-nonces :
    (c : Crypto) (save : Config → Bool) (fresh proof : Text) (p : Bool × Authenticator)
    → (first_pin_for c save fresh proof p).1.nonces ≡ p.1.nonces
unfolding first_pin_for
first_pin_for-nonces c save fresh proof (false, b) = refl
first_pin_for-nonces c save fresh proof (true, b) = first_pin-nonces c save fresh (c.decode proof) b

pub set_pin-nonces :
    (c : Crypto) (save : Config → Bool) (now : ℕ) (nonce proof fresh : Text) (a : Authenticator)
    → ((set_pin c save now nonce proof fresh a).1.nonces ≡ a.nonces)
      ⊎ ((set_pin c save now nonce proof fresh a).1.nonces ≡ remove nonce a.nonces)
unfolding set_pin consume_nonce
set_pin-nonces c save now nonce proof fresh a =
    elim (Bool-cases (not (is_empty a.config.verifier))) [
      | inl set ↦ rw (set) (inl refl)
      | inr unset ↦ rw (unset) (inr (first_pin_for-nonces c save fresh proof _))
    ]
