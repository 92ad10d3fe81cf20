-- ===== src/Codec/RoundTrip.antt =====
-- Frames, encoded and decoded (bridge/src/frame_codec.cpp).
use bot_cock_pit.Prelude.{
  ℕ, suc, ◌+◌, ◌-◌, ◌/◌, ◌%◌, ◌^◌, ◌≤◌, ◌<◌, ◌≡◌, ap, ◌∙◌, List, ◌∷◌, ◌++◌, some, arith, length,
  take, drop, take-append, drop-append, length-append,
}
use bot_cock_pit.Codec.{
  Frame, max_frame_length, encode_frame, le16, le32, frame_length, next, next_of,
}

-- The fields fit their types, and the payload the largest length field.
pub record IsValid (f : Frame) : Type 0 where
  pub type_byte : f.type < 2 ^ 8
  pub flags_byte : f.flags < 2 ^ 8
  pub seq_word : f.seq < 2 ^ 16
  pub fits : length f.payload + 4 ≤ max_frame_length

unfoldable pub encode : Frame → List ℕ
encode f = encode_frame f.type f.flags f.seq f.payload

le32-bytes :
    (n : ℕ)
    → n < 2 ^ 32
    → le32 (n % 256) (n / 2 ^ 8 % 256) (n / 2 ^ 16 % 256) (n / 2 ^ 24 % 256) ≡ n
le32-bytes n h = omega arith

le16-bytes : (n : ℕ) → n < 2 ^ 16 → le16 (n % 256) (n / 2 ^ 8 % 256) ≡ n
le16-bytes n h = omega arith

frame_length_lem :
    (payload : List ℕ)
    → length payload + 4 ≤ max_frame_length
    → frame_length payload ≡ length payload + 4
frame_length_lem payload h = omega arith

pub length-encode : (f : Frame) → length (encode f) ≡ length f.payload + 8
unfolding encode encode_frame
length-encode f = omega arith

next_of-whole :
    (a b c d t g x y n : ℕ) (p rest : List ℕ)
    → n ≡ length p + 4
    → n ≤ max_frame_length
    → next_of (a ∷ b ∷ c ∷ d ∷ t ∷ g ∷ x ∷ y ∷ (p ++ rest)) n
      ≡ (some (record { type = t; flags = g; seq = le16 x y; payload = p }), rest)
next_of-whole a b c d t g x y n p rest e h =
    let buf = a ∷ b ∷ c ∷ d ∷ t ∷ g ∷ x ∷ y ∷ (p ++ rest) in
    let kept : take (n - 4) (p ++ rest) ≡ p =
      let m : n - 4 ≡ length p = omega arith in rw m (take-append p rest) in
    let left : drop (4 + n) buf ≡ rest =
      let m : 4 + n ≡ suc (suc (suc (suc (suc (suc (suc (suc (length p)))))))) = omega arith in
      rw m (drop-append p rest) in
    ground (arith, kept, left, length-append p rest)

-- A valid frame at the front of the buffer is extracted whole, and exactly its bytes are taken.
pub next-encode : (f : Frame) (rest : List ℕ) → IsValid f → next (encode f ++ rest) ≡ (some f, rest)
unfolding next encode encode_frame
next-encode f rest v =
    let n = frame_length f.payload in
    let e = frame_length_lem f.payload v.fits in
    rw (le32-bytes n (omega (arith, e))) (
      next_of-whole (n % 256) (n / 2 ^ 8 % 256) (n / 2 ^ 16 % 256) (n / 2 ^ 24 % 256) f.type f.flags
        (f.seq % 256) (f.seq / 2 ^ 8 % 256) n f.payload rest e (omega (arith, v.fits, e))
      ∙ ap (λ (s : ℕ). (some (record f { seq = s }), rest)) (le16-bytes f.seq v.seq_word))
