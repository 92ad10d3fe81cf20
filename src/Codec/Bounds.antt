-- ===== src/Codec/Bounds.antt =====
-- What `next` does to the buffer on every input, hostile ones too
-- (bridge/src/frame_codec.cpp, FrameDecoder::next).
use bot_cock_pit.Prelude.{
  ℕ, ◌+◌, ◌-◌, ◌≤◌, ◌<◌, ◌≡◌, sym, ap, ◌∙◌, Option, take, get_or-append_lt, length-take_le, ◌++◌,
  [], ◌∷◌, ◌⊎◌, inl, none, some, arith, length, length-drop, length-append, drop-append_le,
  take-append_le, drop,
}
use bot_cock_pit.Codec.{Frame, Buffer, max_frame_length, next, next_of, le32, front_frame}

-- The conditions under which a frame with the length field `n` is extracted.
record IsWhole (buf : Buffer) (n : ℕ) : Type 0 where
  low : 4 ≤ n
  high : n ≤ max_frame_length
  there : 4 + n ≤ length buf

next_of-IsWhole :
    (buf rest : Buffer) (n : ℕ) (f : Frame) → next_of buf n ≡ (some f, rest) → IsWhole buf n
next_of-IsWhole buf rest n f e = ground arith

next_of_whole :
    (buf : Buffer) (n : ℕ)
    → IsWhole buf n
    → next_of buf n ≡ (some (front_frame buf n), drop (4 + n) buf)
next_of_whole buf n w = ground arith

front_frame-append :
    (buf more : Buffer) (n : ℕ) → IsWhole buf n → front_frame (buf ++ more) n ≡ front_frame buf n
front_frame-append buf more n w =
    let payload : take (n - 4) (drop 8 (buf ++ more)) ≡ take (n - 4) (drop 8 buf) =
      rw (drop-append_le 8 buf more (omega arith))
        (take-append_le (n - 4) (drop 8 buf) more (omega (arith, length-drop 8 buf))) in
    rw (
      payload,
      get_or-append_lt buf more 4 0 (omega arith),
      get_or-append_lt buf more 5 0 (omega arith),
      get_or-append_lt buf more 6 0 (omega arith),
      get_or-append_lt buf more 7 0 (omega arith),
    )

next_of-append :
    (buf rest more : Buffer) (n : ℕ) (f : Frame)
    → next_of buf n ≡ (some f, rest)
    → next_of (buf ++ more) n ≡ (some f, rest ++ more)
next_of-append buf rest more n f e =
    let w = next_of-IsWhole buf rest n f e in
    let w' : IsWhole (buf ++ more) n = record {
      low = w.low;
      high = w.high;
      there = omega (arith, w, length-append buf more);
    } in
    let old = next_of_whole buf n w in
    next_of_whole (buf ++ more) n w'
    ∙ rw (front_frame-append buf more n w, drop-append_le (4 + n) buf more w.there)
        (ap (λ (r : Option Frame × Buffer). (r.0, r.1 ++ more)) (sym old ∙ e))

abbrev payload_length : Option Frame → ℕ
payload_length none = 0
payload_length (some f) = length f.payload

next_of-length :
    (buf rest : Buffer) (n : ℕ) (f : Frame)
    → next_of buf n ≡ (some f, rest)
    → length rest + 8 + length f.payload ≡ length buf
next_of-length buf rest n f e =
    let w = next_of-IsWhole buf rest n f e in
    let same = sym (next_of_whole buf n w) ∙ e in
    let size : length rest ≡ length buf - (4 + n) =
      sym (ap (λ (r : Option Frame × Buffer). length r.1) same) ∙ length-drop (4 + n) buf in
    let body : length f.payload ≡ n - 4 =
      sym (ap (λ (r : Option Frame × Buffer). payload_length r.0) same)
      ∙ length-take_le (n - 4) (drop 8 buf) (omega (arith, w, length-drop 8 buf)) in
    omega (arith, w, size, body)

-- An extracted frame takes eight bytes and those of its payload from the buffer.
pub next-length :
    (buf rest : Buffer) (f : Frame)
    → next buf ≡ (some f, rest)
    → length rest + 8 + length f.payload ≡ length buf
unfolding next
next-length (a ∷ b ∷ c ∷ d ∷ buf) rest f e =
    next_of-length (a ∷ b ∷ c ∷ d ∷ buf) rest (le32 a b c d) f e
next-length buf rest f e = ground arith

-- When no frame is extracted, fewer bytes are left in the buffer than one frame of the largest
-- size has.
pub next-bounded :
    (buf rest : Buffer) → next buf ≡ (none, rest) → length rest < max_frame_length + 4
unfolding next
next-bounded (a ∷ b ∷ c ∷ d ∷ buf) rest e = ground arith
next-bounded buf rest e = ground arith

-- A frame that is extracted from a buffer is extracted, too, when more bytes stand behind it,
-- and these are kept.
pub next-append :
    (buf rest more : Buffer) (f : Frame)
    → next buf ≡ (some f, rest)
    → next (buf ++ more) ≡ (some f, rest ++ more)
unfolding next
next-append (a ∷ b ∷ c ∷ d ∷ buf) rest more f e =
    next_of-append (a ∷ b ∷ c ∷ d ∷ buf) rest more (le32 a b c d) f e
next-append buf rest more f e = ground arith

-- A buffer without a whole frame is kept, or its length field is out of range whatever follows.
pub next-none :
    (buf rest more : Buffer)
    → next buf ≡ (none, rest)
    → (rest ≡ buf) ⊎ (next (buf ++ more) ≡ (none, []))
unfolding next
next-none (a ∷ b ∷ c ∷ d ∷ buf) rest more e = ground arith
next-none buf rest more e = inl (ground arith)
