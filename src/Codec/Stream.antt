-- ===== src/Codec/Stream.antt =====
-- The decoder over a whole connection, in the chunks that `recv` returns
-- (bridge/src/tcp_server.cpp, client_loop).
use bot_cock_pit.Prelude.{
  ℕ, zero, suc, ◌<◌, ◌≡◌, refl, sym, ap, subst, ◌∙◌, inl, inr, List, [], ◌∷◌, ◌++◌, Option, none,
  some, arith, length, append-nil, append_assoc, All, Option-cases,
}
use bot_cock_pit.Codec.{Frame, Buffer, next, drain, receive, receive_all, append}
use bot_cock_pit.Codec.RoundTrip.{IsValid, encode, next-encode}
use bot_cock_pit.Codec.Bounds.{next-length, next-append, next-none}

-- The bytes that a peer writes for a list of frames.
abbrev pub encode_all : List Frame → List ℕ
encode_all [] = []
encode_all (f ∷ fs) = encode f ++ encode_all fs

abbrev pub concat : List (List ℕ) → List ℕ
concat [] = []
concat (c ∷ cs) = c ++ concat cs

-- `buf` is what is left of a stream of the frames `fs` when the bytes `later` are still to come.
abbrev Pending : Buffer → List ℕ → List Frame → Type 0
Pending buf later fs = buf ++ later ≡ encode_all fs

next-nil : next [] ≡ (none, [])
unfolding next
next-nil = refl

next-pending :
    (buf later : Buffer) (g : Frame) (gs : List Frame)
    → All IsValid (g ∷ gs)
    → Pending buf later (g ∷ gs)
    → next (buf ++ later) ≡ (some g, encode_all gs)
next-pending buf later g gs v p = ap next p ∙ next-encode g (encode_all gs) v.0

-- If nothing can be extracted, the buffer stays as it is, while valid frames are pending.
partial-kept :
    (buf rest later : Buffer) (fs : List Frame)
    → All IsValid fs
    → Pending buf later fs
    → next buf ≡ (none, rest)
    → rest ≡ buf
partial-kept [] rest later [] v p e = cc next-nil
partial-kept (b ∷ buf) rest later [] v p e = cc
partial-kept buf rest later (g ∷ gs) v p e = elim (next-none buf rest later e) [
  | inl kept ↦ kept
  | inr reset ↦ cc (sym reset ∙ next-pending buf later g gs v p)
]

-- A frame that is extracted is the first one that is pending.
found-first :
    (buf rest later : Buffer) (f : Frame) (fs : List Frame)
    → All IsValid fs
    → Pending buf later fs
    → next buf ≡ (some f, rest)
    → (gs : List Frame) × (fs ≡ f ∷ gs) × Pending rest later gs
found-first [] rest later f [] v p e = cc next-nil
found-first (b ∷ buf) rest later f [] v p e = cc
found-first buf rest later f (g ∷ gs) v p e =
    let same = sym (next-append buf rest later f e) ∙ next-pending buf later g gs v p in
    (gs, cc same, cc same)

-- What a run of the loop over `next` does: it takes the frames `gs` off the front of the pending
-- ones, keeps the rest pending, and leaves a buffer from which nothing can be extracted.
record Drained (later : Buffer) (fs : List Frame) (r : List Frame × Buffer) : Type 0 where
  left : List Frame
  valid : All IsValid left
  split : fs ≡ r.0 ++ left
  pending : Pending r.1 later left
  stuck : next r.1 ≡ (none, r.1)

drain-Drained :
    (fuel : ℕ) (buf later : Buffer) (fs : List Frame)
    → length buf < fuel
    → All IsValid fs
    → Pending buf later fs
    → Drained later fs (drain fuel buf)
unfolding drain
drain-Drained zero buf later fs h v p = absurd (omega arith)
drain-Drained (suc fuel) buf later fs h v p = elim (Option-cases (next buf).0) [
  | inl e ↦
      let n : next buf ≡ (none, (next buf).1) = ap (λ (o : Option Frame). (o, (next buf).1)) e in
      let kept = partial-kept buf (next buf).1 later fs v p n in
      rw (e, drain)
        (record {
          left = fs;
          valid = v;
          split = refl;
          pending = rw kept p;
          stuck =
              subst (λ (b : Buffer). next b ≡ (none, b)) (sym kept)
                (subst (λ (b : Buffer). next buf ≡ (none, b)) kept n);
        })
  | inr (f, e) ↦
      let n : next buf ≡ (some f, (next buf).1) = ap (λ (o : Option Frame). (o, (next buf).1)) e in
      let (gs, first, p') = found-first buf (next buf).1 later f fs v p n in
      let shorter : length (next buf).1 < fuel = omega (arith, next-length buf (next buf).1 f n) in
      let v' : All IsValid (f ∷ gs) = subst (All IsValid) first v in
      let d = drain-Drained fuel (next buf).1 later gs shorter v'.1 p' in
      rw (e, drain)
        (record {
          left = d.left;
          valid = d.valid;
          split = first ∙ ap (◌∷◌ f) d.split;
          pending = d.pending;
          stuck = d.stuck;
        })
]

-- Nothing is lost, and nothing is left over, when all bytes of the stream have come.
receive_all-Pending :
    (cs : List (List ℕ)) (buf : Buffer) (fs : List Frame)
    → next buf ≡ (none, buf)
    → All IsValid fs
    → Pending buf (concat cs) fs
    → receive_all buf cs ≡ (fs, [])
unfolding receive_all receive append
receive_all-Pending [] buf [] stuck v p = cc (append-nil buf)
receive_all-Pending [] buf (g ∷ gs) stuck v p =
    cc (append-nil buf, next-encode g (encode_all gs) v.0, ap next p)
receive_all-Pending (c ∷ cs) buf fs stuck v p =
    let b = buf ++ c in
    let d =
      drain-Drained (suc (length b)) b (concat cs) fs (omega arith) v
        (append_assoc buf c (concat cs) ∙ p) in
    let rest =
      receive_all-Pending cs (drain (suc (length b)) b).1 d.left d.stuck d.valid d.pending in
    rw rest (ap (λ (gs : List Frame). (gs, [])) (sym d.split))

-- A stream of valid frames, cut into chunks at any places, comes out of the decoder as just
-- these frames, in order, and leaves its buffer empty.
pub receive_all-encode :
    (fs : List Frame) (cs : List (List ℕ))
    → All IsValid fs
    → concat cs ≡ encode_all fs
    → receive_all [] cs ≡ (fs, [])
receive_all-encode fs cs v e = receive_all-Pending cs [] fs next-nil v e

-- A valid frame that comes whole is taken out whole.
pub receive-encode : (f : Frame) → IsValid f → (receive [] (encode f)).0 ≡ f ∷ []
unfolding receive_all
receive-encode f v =
    sym (append-nil _)
    ∙ ap (λ (r : List Frame × Buffer). r.0)
        (receive_all-encode (f ∷ []) (encode f ∷ []) (v, tt) refl)
