-- ===== src/Ui/Frames.antt =====
-- The console's copy of the frame codec (ui/botcockpit/src/frame_codec.cpp and protocol.hpp). Its
-- struct Frame has the bridge's fields.
pub mod Agree
mod Tests
use bot_cock_pit.Prelude.{
  ℕ, ◌+◌, ◌*◌, ◌/◌, ◌%◌, ◌^◌, zero, suc, ◌||◌, ◌-◌, List, [], ◌∷◌, ◌++◌, Option, none, some, ltb,
  if◌then◌else◌, length, get_or, take, drop,
}
use bot_cock_pit.Codec.{Frame}

abbrev pub length_of : List ℕ → ℕ
length_of payload = (4 + length payload % 2 ^ 32) % 2 ^ 32

-- The bytes from the lowest on.
unfoldable pub encode_frame : ℕ → ℕ → ℕ → List ℕ → List ℕ
encode_frame type flags seq payload =
    let n = length_of payload in
    (n % 256 ∷ n / 2 ^ 8 % 256 ∷ n / 2 ^ 16 % 256 ∷ n / 2 ^ 24 % 256 ∷ [])
    ++ (type ∷ flags ∷ [])
    ++ (seq % 256 ∷ seq / 2 ^ 8 % 256 ∷ [])
    ++ payload

abbrev pub length_field : List ℕ → ℕ
length_field buf =
    get_or buf 0 0 + get_or buf 1 0 * 2 ^ 8 + get_or buf 2 0 * 2 ^ 16 + get_or buf 3 0 * 2 ^ 24

abbrev pub first_frame : List ℕ → Frame
first_frame buf = record {
  type = get_or buf 4 0;
  flags = get_or buf 5 0;
  seq = get_or buf 6 0 + get_or buf 7 0 * 2 ^ 8;
  payload = take (length_field buf - 4) (drop 8 buf);
}

unfoldable pub next : List ℕ → Option Frame × List ℕ
next buf =
    let n = length_field buf in
    if ltb (length buf) 4
    then (none, buf)
    else if ltb n 4 || ltb (64 * 1024) n
    then (none, [])
    else if ltb (length buf) (4 + n)
    then (none, buf)
    else (some (first_frame buf), drop (4 + n) buf)

-- The loop of `onReadyRead`, on fuel; the buffer's length is enough, as in the bridge.
unfoldable pub drain : ℕ → List ℕ → List Frame × List ℕ
drain zero buf = ([], buf)
drain (suc fuel) buf =
    let (found, rest) = next buf in
    elim found [ none ↦ ([], rest) | some f ↦ let (fs, left) = drain fuel rest in (f ∷ fs, left) ]
