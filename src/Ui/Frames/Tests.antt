-- ===== src/Ui/Frames/Tests.antt =====
-- The console's codec at a frame and at a length field that no frame has.
use bot_cock_pit.Prelude.{◌≡◌, refl, [], ◌∷◌, none}
use bot_cock_pit.Codec
use bot_cock_pit.Ui.Frames.{next}
use bot_cock_pit.Ui.Frames.Agree.{next-agrees}

next_bad : next (1 ∷ 0 ∷ 0 ∷ 0 ∷ []) ≡ (none, [])
unfolding next
next_bad = refl

next-agrees_example :
    next (6 ∷ 0 ∷ 0 ∷ 0 ∷ 34 ∷ 3 ∷ 2 ∷ 1 ∷ 123 ∷ 125 ∷ 9 ∷ [])
    ≡ Codec.next (6 ∷ 0 ∷ 0 ∷ 0 ∷ 34 ∷ 3 ∷ 2 ∷ 1 ∷ 123 ∷ 125 ∷ 9 ∷ [])
next-agrees_example = next-agrees (6 ∷ 0 ∷ 0 ∷ 0 ∷ 34 ∷ 3 ∷ 2 ∷ 1 ∷ 123 ∷ 125 ∷ 9 ∷ [])
