-- ===== src/Modbus/Tcp/RoundTrip.antt =====
-- Frames written and read back, and what a reader accepts.
use freeway_pi.Base.{
  ℕ, zero, suc, ◌+◌, ◌-◌, ◌*◌, ◌≤◌, ◌≡◌, refl, ap, List, [], ◌∷◌, ◌++◌, arith, length, take, drop,
  length-append, length-take, take-append, drop-append, All, ok,
}
use freeway_pi.Modbus.Crc.{IsByte, IsWord}
use freeway_pi.Modbus.Tcp.{TcpFrame, read_tcp_frame, encode}

-- A frame that the protocol allows: a PDU of 1 to 253 bytes, and fields of their widths.
pub record IsValid (f : TcpFrame) : Type 0 where
  pub transaction_word : IsWord f.transaction
  pub pdu_some : 1 ≤ length f.pdu
  pub pdu_fits : length f.pdu ≤ 253

-- Reading what was written gives the frame back, and leaves whatever follows it on the stream.
pub read_tcp_frame-encode :
    (f : TcpFrame) (rest : List ℕ) → IsValid f → read_tcp_frame (encode f ++ rest) ≡ ok (f, rest)
unfolding read_tcp_frame encode
read_tcp_frame-encode f rest v = ground (
  arith,
  length-append f.pdu rest,
  take-append (length f.pdu) f.pdu rest refl,
  drop-append (length f.pdu) f.pdu rest refl,
)

take-append-drop : (n : ℕ) (xs : List ℕ) → take n xs ++ drop n xs ≡ xs
take-append-drop zero xs = refl
take-append-drop (suc n) [] = refl
take-append-drop (suc n) (x ∷ xs) = ap (◌∷◌ x) (take-append-drop n xs)

-- What a read accepts is a valid frame as `Encode` writes it, followed by what the read leaves.
read_tcp_frame_sound :
    (r : List ℕ) (f : TcpFrame) (rest : List ℕ)
    → All IsByte r
    → read_tcp_frame r ≡ ok (f, rest)
    → IsValid f × (r ≡ encode f ++ rest)
unfolding read_tcp_frame encode
read_tcp_frame_sound [] f rest h e = cc
read_tcp_frame_sound (a ∷ []) f rest h e = cc
read_tcp_frame_sound (a ∷ b ∷ []) f rest h e = cc
read_tcp_frame_sound (a ∷ b ∷ c ∷ []) f rest h e = cc
read_tcp_frame_sound (a ∷ b ∷ c ∷ d ∷ []) f rest h e = cc
read_tcp_frame_sound (a ∷ b ∷ c ∷ d ∷ x ∷ []) f rest h e = cc
read_tcp_frame_sound (a ∷ b ∷ c ∷ d ∷ x ∷ y ∷ []) f rest h e = cc
read_tcp_frame_sound (a ∷ b ∷ c ∷ d ∷ x ∷ y ∷ u ∷ body) f rest h e =
    ground (arith, length-take (x * 256 + y - 1) body, take-append-drop (x * 256 + y - 1) body)
