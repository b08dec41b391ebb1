-- ===== src/Modbus/Rtu/Registers.antt =====
-- The register payload, written and read back.
use freeway_pi.Base.{
  ℕ, ◌+◌, ◌*◌, ◌/◌, ◌%◌, ◌≡◌, refl, sym, ap, ap₂, ◌∙◌, List, [], ◌∷◌, ◌++◌, arith, length, get_or,
  drop, length-append, All, get_or-drop, drop-drop, ok,
}
use freeway_pi.Modbus.Crc.{IsWord}
use freeway_pi.Modbus.Rtu.{word_at, words_bytes, decode_words, decode_registers}

pub length-words_bytes : (vs : List ℕ) → length (words_bytes vs) ≡ 2 * length vs
unfolding words_bytes
length-words_bytes [] = omega arith
length-words_bytes (v ∷ vs) = omega (arith, length-words_bytes vs)

-- The loop reads the words that stand behind the bytes that it has passed.
decode_words_lem :
    (payload : List ℕ) (i : ℕ) (vs extra : List ℕ)
    → All IsWord vs
    → drop (1 + 2 * i) payload ≡ words_bytes vs ++ extra
    → decode_words payload i (length vs) ≡ vs
unfolding decode_words words_bytes
decode_words_lem payload i [] extra h e = refl
decode_words_lem payload i (v ∷ vs) extra h e =
    ap₂ ◌∷◌ word (decode_words_lem payload (i + 1) vs extra h.1 further)
  where
    high : get_or payload (1 + 2 * i + 0) 0 ≡ v / 256 % 256
    high = sym (get_or-drop (1 + 2 * i) payload 0 0) ∙ ap (λ (bs : List ℕ). get_or bs 0 0) e

    low : get_or payload (1 + 2 * i + 1) 0 ≡ v % 256
    low = sym (get_or-drop (1 + 2 * i) payload 1 0) ∙ ap (λ (bs : List ℕ). get_or bs 1 0) e

    at : get_or payload (1 + 2 * i) 0 ≡ get_or payload (1 + 2 * i + 0) 0
    at = ap (λ (t : ℕ). get_or payload t 0) (omega arith)

    word : word_at payload (1 + 2 * i) ≡ v
    word = omega (arith, at, high, low, h.0)

    further : drop (1 + 2 * (i + 1)) payload ≡ words_bytes vs ++ extra
    further =
        ap (λ (t : ℕ). drop t payload) (omega arith)
        ∙ sym (drop-drop 2 (1 + 2 * i) payload)
        ∙ ap (drop 2) e

-- A payload of a byte count and the big-endian words decodes to the words, whatever follows them,
-- as long as the count fits its byte.
decode_registers-words_bytes :
    (vs extra : List ℕ)
    → All IsWord vs
    → decode_registers (2 * length vs ∷ (words_bytes vs ++ extra)) (length vs) ≡ ok vs
unfolding decode_registers
decode_registers-words_bytes vs extra h = ground (
  arith,
  length-append (words_bytes vs) extra,
  length-words_bytes vs,
  decode_words_lem (2 * length vs ∷ (words_bytes vs ++ extra)) 0 vs extra h refl,
)
