-- ===== src/Auth/Examples.antt =====
-- The theorems on signing in at concrete inputs.
use freeway_pi.Base.{
  ℕ, ◌+◌, ◌*◌, ◌≤◌, ◌<◌, ◌≡◌, refl, ◌≢◌, ◌⊎◌, Bool, true, false, some, List, [], ◌∷◌, ◌++◌, arith,
  length, replicate, ok,
}
use freeway_pi.Base.Texts.{Text, is_empty, same_text, format_int, digits}
use freeway_pi.Auth.{
  second, day, valid, Crypto, Config, Authenticator, new, find, remove, challenge, expire_nonces,
  evict, is_live, consume_nonce, keep, note_attempt, wrong_proof, with_key, with_nonce, with_proof,
  verify, has_key_size, replace_pin, change_pin, sign, issue, derive_key, proves, Call, challenging,
  verifying, changing, run, step, answer,
}
use freeway_pi.Base.Ints.{pos, negsuc}
use freeway_pi.Auth.{session_end, earlier_by}
use freeway_pi.Auth.Brake.{Withstood, wrong_answers, elapsed, run-wrong_answers}
use freeway_pi.Auth.Brake.Tries.{is_through}
use freeway_pi.Auth.Nonces.{run_bounded, verify_once, Spares}
use freeway_pi.Auth.Nonces.Tries.{is_tried}
use freeway_pi.Auth.Evicting.{evict_ends}
use freeway_pi.Auth.Sessions.{Holds, Opens, login_works, reply_to}
use freeway_pi.Auth.Changes.{step-verifier, Proves, change_pin-ends_sessions}

-- Functions in the place of the library's: the base64 of a text is the text.
abbrev plain : Crypto
plain = record {
  hmac = λ k m. k ++ m;
  encode = λ t. t;
  decode = λ t. some t;
  raw_url = λ t. t;
  pbkdf2 = λ pin salt n. pin ++ salt;
}

abbrev always : Config → Bool
always _ = true

abbrev pin : Text
pin = 49 ∷ 50 ∷ 51 ∷ 52 ∷ []

abbrev salted : Config
salted = record {
  salt = 1 ∷ [];
  verifier = 49 ∷ 50 ∷ 51 ∷ 52 ∷ 1 ∷ [];
  iterations = 10;
  session_secret = 7 ∷ [];
  session_days = 1;
}

abbrev box : Authenticator
box = new salted

-- A challenge, and two wrong answers to it, ten seconds apart.
abbrev guesses : List (ℕ × Call)
guesses =
    (1, challenging (5 ∷ []) [])
    ∷ (10 * second, verifying (5 ∷ []) (9 ∷ []))
    ∷ (1, challenging (6 ∷ []) [])
    ∷ (10 * second, verifying (6 ∷ []) (9 ∷ []))
    ∷ []

run_bounded_example : length (run plain always 1000 guesses box).1.nonces ≤ 256
unfolding new
run_bounded_example = run_bounded plain always 1000 guesses box (omega arith)

run-wrong_answers_example :
    wrong_answers (run plain always 1000 guesses box).0 * (60 * second)
    ≤ 630 * second + elapsed guesses
unfolding new run step answer challenge verify with_proof with_nonce with_key consume_nonce
    note_attempt is_live find remove expire_nonces evict proves wrong_proof Withstood is_through
    is_empty same_text
run-wrong_answers_example =
    run-wrong_answers plain always 1000 guesses box
      (record { past = omega arith; short = omega arith }) (tt, (refl, (tt, (refl, tt))))

verify_once_example :
    let b = (run plain always 1000 guesses (verify plain 1000 (8 ∷ []) [] box).1).1 in
    ((verify plain 3000 (8 ∷ []) (4 ∷ []) b).0 ≢ ok [])
    × ((change_pin plain always 3000 (8 ∷ []) (4 ∷ []) [] [] [] b).0 ≢ ok [])
unfolding new verify with_proof with_nonce consume_nonce note_attempt is_live find is_tried is_empty
    Spares same_text
verify_once_example =
    verify_once plain always 1000 3000 (8 ∷ []) [] (4 ∷ []) [] [] [] guesses box [] refl
      (refl, (tt, (refl, (tt, tt))))

after_guess-Holds : Holds plain pin (record box { last_attempt = 2 * second })
unfolding new derive_key is_empty
after_guess-Holds = record {
  verifier = refl;
  kept = refl;
  salted = refl;
  iterated = refl;
  secret = refl;
}

-- A guess that was put in a minute before the owner, who takes half a minute to answer.
abbrev one_guess : List (ℕ × Call)
one_guess = (1 * second, verifying (5 ∷ []) (9 ∷ [])) ∷ []

abbrev after_guess : Authenticator
after_guess = record box { last_attempt = 2 * second }

login_works_example :
    let p = challenge (1 * second + elapsed one_guess) (5 ∷ []) [] after_guess in
    let now = 1 * second + elapsed one_guess + 90 * second in
    Opens plain
      (40 * second)
      (now + after_guess.config.session_days * day)
      (verify plain now (5 ∷ []) (reply_to plain pin p.0) p.1)
unfolding new elapsed run step answer verify with_proof with_nonce consume_nonce note_attempt
    is_live find remove is_empty
login_works_example =
    login_works plain always pin (5 ∷ []) [] (1 * second) (90 * second) (40 * second) one_guess box
      after_guess (λ t. refl) (record { past = omega arith; short = omega arith }) refl
      after_guess-Holds (omega arith) (omega arith) (omega arith) (omega arith)

abbrev asked : Authenticator
asked = (challenge 1000 (5 ∷ []) [] box).1

-- Thirty-two bytes.
abbrev new_key : Text
new_key = replicate 32 3

abbrev new_secret : Text
new_secret = 8 ∷ []

-- The right answer to the challenge 5: the stored key and the challenge.
abbrev right_proof : Text
right_proof = 49 ∷ 50 ∷ 51 ∷ 52 ∷ 1 ∷ 5 ∷ []

step-verifier_example :
    ((step plain always 1001
        (changing (5 ∷ []) right_proof (2 ∷ []) new_key new_secret)
        asked).1.config.verifier
      ≡ asked.config.verifier)
    ⊎ (is_empty asked.config.verifier ≡ true)
    ⊎ Proves plain 1001 asked (changing (5 ∷ []) right_proof (2 ∷ []) new_key new_secret)
step-verifier_example =
    step-verifier plain always 1001 (changing (5 ∷ []) right_proof (2 ∷ []) new_key new_secret)
      asked

change_pin-ends_sessions_example :
    valid plain 1002
      (issue plain asked.config.session_secret (pos (5 * second)))
      (change_pin plain always 1001 (5 ∷ []) right_proof (2 ∷ []) new_key new_secret asked).1
    ≡ false
unfolding new challenge change_pin with_proof with_nonce with_key consume_nonce note_attempt is_live
    find remove expire_nonces evict proves replace_pin keep has_key_size is_empty same_text sign
    format_int digits
change_pin-ends_sessions_example =
    change_pin-ends_sessions plain always 1001 1002 (5 * second) (5 ∷ []) right_proof (2 ∷ [])
      new_key new_secret _ asked refl (omega arith) (λ e. absurd cc)

-- A loop with more challenges than there is room for.
abbrev crowd : List (Text × ℕ)
crowd = replicate 300 ([], 5)

evict_ends_example :
    (evict (length crowd + 7) crowd ≡ evict (length crowd) crowd)
    × (length (evict (length crowd) crowd) < 256)
evict_ends_example = evict_ends 7 crowd

-- A session of 106752 days ends before it begins.
ends_before : session_end 1784000000000000000 106752 ≡ negsuc 7439371273709551615
unfolding session_end earlier_by
ends_before = refl
