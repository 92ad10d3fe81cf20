-- ===== src/Codec/Tests.antt =====
-- The codec at a heartbeat and a stop, sent as two frames.
use bot_cock_pit.Prelude.{ℕ, ◌≡◌, refl, ◌+◌, ◌<◌, List, [], ◌∷◌, ◌++◌, none, some, arith, length}
use bot_cock_pit.Text.{codes}
use bot_cock_pit.Codec.{Frame, encode_frame, next, receive_all, max_frame_length}
use bot_cock_pit.Codec.RoundTrip.{IsValid, encode, next-encode}
use bot_cock_pit.Codec.Bounds.{next-bounded}
use bot_cock_pit.Codec.Stream.{concat, receive_all-encode}

abbrev stop : Frame
stop = record { type = 0x22; flags = 3; seq = 258; payload = codes "{}" }

abbrev stop_bytes : List ℕ
stop_bytes = 6 ∷ 0 ∷ 0 ∷ 0 ∷ 34 ∷ 3 ∷ 2 ∷ 1 ∷ 123 ∷ 125 ∷ []

stop-IsValid : IsValid stop
stop-IsValid = record {
  type_byte = omega arith;
  flags_byte = omega arith;
  seq_word = omega arith;
  fits = omega arith;
}

next-encode_example : next (encode stop ++ 9 ∷ []) ≡ (some stop, 9 ∷ [])
next-encode_example = next-encode stop (9 ∷ []) stop-IsValid

next-stop : next (stop_bytes ++ 9 ∷ []) ≡ (some stop, 9 ∷ [])
unfolding next
next-stop = refl

next_short : next (6 ∷ 0 ∷ 0 ∷ 0 ∷ 34 ∷ []) ≡ (none, 6 ∷ 0 ∷ 0 ∷ 0 ∷ 34 ∷ [])
unfolding next
next_short = refl

next-bounded_example : length {A = ℕ} (6 ∷ 0 ∷ 0 ∷ 0 ∷ 34 ∷ []) < max_frame_length + 4
next-bounded_example = next-bounded (6 ∷ 0 ∷ 0 ∷ 0 ∷ 34 ∷ []) (6 ∷ 0 ∷ 0 ∷ 0 ∷ 34 ∷ []) next_short

-- A stop in two chunks, the first of which ends within its length field.
abbrev chunks : List (List ℕ)
chunks = (6 ∷ 0 ∷ []) ∷ (0 ∷ 0 ∷ 34 ∷ 3 ∷ 2 ∷ 1 ∷ 123 ∷ 125 ∷ []) ∷ []

chunks_encoded : concat chunks ≡ encode stop ++ []
unfolding encode encode_frame
chunks_encoded = refl

receive_all-encode_example : receive_all [] chunks ≡ (stop ∷ [], [])
receive_all-encode_example = receive_all-encode (stop ∷ []) chunks (stop-IsValid, tt) chunks_encoded
