-- ===== src/Codec.antt =====
-- The frame codec (bridge/src/frame_codec.cpp, bridge/include/botcockpit_bridge/frame_codec.hpp).
-- A byte is a number below 256; a payload and the decoder's buffer are lists of bytes.
pub mod RoundTrip
pub mod Bounds
pub mod Stream
mod Tests
use bot_cock_pit.Prelude.{
  ℕ, ◌+◌, ◌-◌, ◌*◌, ◌/◌, ◌%◌, ◌^◌, zero, suc, ◌||◌, List, [], ◌∷◌, ◌++◌, Option, none, some, ltb,
  if◌then◌else◌, length, get_or, take, drop,
}

pub record Frame : Type 0 where
  pub type : ℕ  -- uint8_t
  pub flags : ℕ  -- uint8_t
  pub seq : ℕ  -- uint16_t
  pub payload : List ℕ

abbrev pub min_frame_length : ℕ
min_frame_length = 4

abbrev pub max_frame_length : ℕ
max_frame_length = 64 * 1024

-- `4u + static_cast<uint32_t>(payload.size())`, in 32 bits.
abbrev pub frame_length : List ℕ → ℕ
frame_length payload = (4 + length payload % 2 ^ 32) % 2 ^ 32

unfoldable pub encode_frame : ℕ → ℕ → ℕ → List ℕ → List ℕ
encode_frame type flags seq payload =
    let n = frame_length payload in
    n % 256
    ∷ n / 2 ^ 8 % 256
    ∷ n / 2 ^ 16 % 256
    ∷ n / 2 ^ 24 % 256
    ∷ type
    ∷ flags
    ∷ seq % 256
    ∷ seq / 2 ^ 8 % 256
    ∷ payload

-- The decoder's `buf_`.
abbrev pub Buffer : Type 0
Buffer = List ℕ

unfoldable pub append : Buffer → List ℕ → Buffer
append buf bytes = buf ++ bytes

-- Shifted bytes do not overlap, so `|` adds them.
abbrev pub le32 : ℕ → ℕ → ℕ → ℕ → ℕ
le32 a b c d = a + b * 2 ^ 8 + c * 2 ^ 16 + d * 2 ^ 24

abbrev pub le16 : ℕ → ℕ → ℕ
le16 a b = a + b * 2 ^ 8

-- The frame that stands at the front of a buffer that holds it whole; `n` is its length field.
abbrev pub front_frame : Buffer → ℕ → Frame
front_frame buf n = record {
  type = get_or buf 4 0;
  flags = get_or buf 5 0;
  seq = le16 (get_or buf 6 0) (get_or buf 7 0);
  payload = take (n - 4) (drop 8 buf);
}

-- `next` with the length field read: the frame, if one was extracted, and the buffer left.
abbrev pub next_of : Buffer → ℕ → Option Frame × Buffer
next_of buf n =
    if ltb n min_frame_length || ltb max_frame_length n
    then (none, [])
    else if ltb (length buf) (4 + n)
    then (none, buf)
    else (some (front_frame buf n), drop (4 + n) buf)

unfoldable pub next : Buffer → Option Frame × Buffer
next (a ∷ b ∷ c ∷ d ∷ rest) = next_of (a ∷ b ∷ c ∷ d ∷ rest) (le32 a b c d)
next buf = (none, buf)

unfoldable pub clear : Buffer → Buffer
clear buf = []

unfoldable pub buffered : Buffer → ℕ
buffered buf = length buf

-- `while (decoder.next(frame)) batch.push_back(frame)`, on fuel: the frames, and the buffer left.
unfoldable pub drain : ℕ → Buffer → List Frame × Buffer
drain zero buf = ([], buf)
drain (suc fuel) buf =
    let (found, rest) = next buf in
    elim found [ none ↦ ([], rest) | some f ↦ let (fs, left) = drain fuel rest in (f ∷ fs, left) ]

-- One `recv`: the bytes are appended and the whole frames taken out. Each frame takes eight bytes
-- or more, so the buffer's length is fuel enough.
unfoldable pub receive : Buffer → List ℕ → List Frame × Buffer
receive buf bytes = let b = append buf bytes in drain (suc (length b)) b

-- The chunks of a connection, in the order in which `recv` returns them.
unfoldable pub receive_all : Buffer → List (List ℕ) → List Frame × Buffer
unfolding receive
receive_all buf [] = ([], buf)
receive_all buf (c ∷ cs) =
    let (fs, left) = receive buf c in let (gs, last) = receive_all left cs in (fs ++ gs, last)
