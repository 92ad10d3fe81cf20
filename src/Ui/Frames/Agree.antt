-- ===== src/Ui/Frames/Agree.antt =====
-- The console's codec and the bridge's (ui/botcockpit/src/frame_codec.cpp and
-- bridge/src/frame_codec.cpp).
use bot_cock_pit.Prelude.{ℕ, ◌≡◌, refl, arith, List, [], ◌∷◌, ltb, false, length}
use bot_cock_pit.Codec
use bot_cock_pit.Codec.{Frame}
use bot_cock_pit.Ui.Frames.{encode_frame, next}

-- Both write the same bytes.
pub encode_frame-agrees :
    (type flags seq : ℕ) (payload : List ℕ)
    → encode_frame type flags seq payload ≡ Codec.encode_frame type flags seq payload
unfolding encode_frame Codec.encode_frame
encode_frame-agrees type flags seq payload = refl

-- On every buffer the console's decoder extracts the same frame as the bridge's, and keeps the
-- same bytes.
pub next-agrees : (buf : List ℕ) → next buf ≡ Codec.next buf
unfolding next Codec.next
next-agrees [] = refl
next-agrees (a ∷ []) = refl
next-agrees (a ∷ b ∷ []) = refl
next-agrees (a ∷ b ∷ c ∷ []) = refl
next-agrees (a ∷ b ∷ c ∷ d ∷ rest) =
    let whole : ltb (length (a ∷ b ∷ c ∷ d ∷ rest)) 4 ≡ false = ground arith in rw whole refl
