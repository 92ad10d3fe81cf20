-- ===== src/Ui/Remote/Kept.antt =====
-- What always holds of the console's robot state (ui/botcockpit/src/robotstate.cpp).
use bot_cock_pit.Prelude.{
  ◌≡◌, refl, sym, ap, inl, inr, subst, ◌∙◌, Bool, true, false, List, [], ◌∷◌, ◌++◌, All,
  if◌then◌else◌, if-both, Bool-cases, length, ltb,
}
use bot_cock_pit.Text.{Text, is_empty}
use bot_cock_pit.Ui.Remote.{Variants, Remote}
use bot_cock_pit.Ui.Remote.Nav.{
  Points, add_point, parse_flat, parse_nested, parse_xy, pair_of, status_or_idle, has_nav,
  nav_status_in, path_in, trail_in, new_trail,
}
use bot_cock_pit.Ui.Remote.Apply.{apply_state}
use bot_cock_pit.Ui.Remote.Quiet.{Lasting, lasting, call-lasting}
use bot_cock_pit.Ui.Remote.Slots.{Call, log, state, reset, call, run}

All-append {ℓ κ} :
    {A : Type ℓ} (P : A → Type κ) (xs ys : List A) → All P xs → All P ys → All P (xs ++ ys)
All-append P [] ys h k = k
All-append P (x ∷ xs) ys h k = (h.0, All-append P xs ys h.1 k)

-- The numbers of the points, one after the other.
unfoldable pub flatten : {A : Type 0} → List (A × A) → List A
flatten [] = []
flatten ((x, y) ∷ ps) = x ∷ y ∷ flatten ps

flatten-append : {A : Type 0} (ps qs : List (A × A)) → flatten (ps ++ qs) ≡ flatten ps ++ flatten qs
unfolding flatten
flatten-append [] qs = refl
flatten-append ((x, y) ∷ ps) qs = ap (λ r. x ∷ y ∷ r) (flatten-append ps qs)

-- The flat list has the numbers of the points, and all of them are finite.
pub record IsFlat (V : Variants) (points : List (V.Double × V.Double)) (flat : List V.Double)
    : Type 0 where
  pub same : flat ≡ flatten points
  pub finite : All (λ x. V.is_finite x ≡ true) flat

pub record IsKept (V : Variants) (t : Lasting V) : Type 0 where
  pub named : is_empty t.1 ≡ false
  pub path : IsFlat V t.2 t.3
  pub trail : IsFlat V t.4 t.5

status_or_idle-named : (st : Text) → is_empty (status_or_idle st) ≡ false
unfolding status_or_idle
status_or_idle-named [] = refl
status_or_idle-named (c ∷ st) = refl

module _ {V : Variants} where
  none-IsFlat : IsFlat V [] []
  unfolding flatten
  none-IsFlat = record { same = refl; finite = tt }

  add_point-IsFlat :
      (x y : V.Double) (ps : Points V)
      → IsFlat V ps.0 ps.1
      → IsFlat V (add_point V x y ps).0 (add_point V x y ps).1
  unfolding add_point flatten
  add_point-IsFlat x y ps v = elim (Bool-cases (V.is_finite x)) [
    | inr e ↦ rw e v
    | inl e ↦ elim (Bool-cases (V.is_finite y)) [
      | inr k ↦ rw (e, k) v
      | inl k ↦
          rw (e, k)
            (record {
              same = ap (λ xs. xs ++ x ∷ y ∷ []) v.same ∙ sym (flatten-append ps.0 ((x, y) ∷ []));
              finite =
                  All-append (λ x. V.is_finite x ≡ true) ps.1 (x ∷ y ∷ []) v.finite (e, (k, tt));
            })
    ]
  ]

  parse_flat-IsFlat :
      (xs : List V.Value) (ps : Points V)
      → IsFlat V ps.0 ps.1
      → IsFlat V (parse_flat V xs ps).0 (parse_flat V xs ps).1
  unfolding parse_flat
  parse_flat-IsFlat [] ps v = v
  parse_flat-IsFlat (x ∷ []) ps v = v
  parse_flat-IsFlat (x ∷ y ∷ rest) ps v =
      parse_flat-IsFlat rest (add_point V (V.to_double x) (V.to_double y) ps)
        (add_point-IsFlat (V.to_double x) (V.to_double y) ps v)

  parse_nested-IsFlat :
      (xs : List V.Value) (ps : Points V)
      → IsFlat V ps.0 ps.1
      → IsFlat V (parse_nested V xs ps).0 (parse_nested V xs ps).1
  unfolding parse_nested
  parse_nested-IsFlat [] ps v = v
  parse_nested-IsFlat (item ∷ rest) ps v =
      let xy = pair_of V item (V.to_list item) in
      parse_nested-IsFlat rest (add_point V xy.0 xy.1 ps) (add_point-IsFlat xy.0 xy.1 ps v)

  parse_xy-IsFlat :
      (flat_seq nested_seq : V.Value)
      → IsFlat V (parse_xy V flat_seq nested_seq).0 (parse_xy V flat_seq nested_seq).1
  unfolding parse_xy
  parse_xy-IsFlat flat_seq nested_seq =
      let P = λ (ps : Points V). IsFlat V ps.0 ps.1 in
      let xs = V.to_list flat_seq in
      let ps = if ltb 1 (length xs) then parse_flat V xs ([], []) else ([], []) in
      let v : IsFlat V ps.0 ps.1 =
        if-both P (ltb 1 (length xs)) (parse_flat-IsFlat xs ([], []) none-IsFlat) none-IsFlat in
      if-both P (ltb 0 (length ps.0)) v (parse_nested-IsFlat (V.to_list nested_seq) ps v)

  if-IsFlat :
      (b : Bool) (ps : Points V) (points : List (V.Double × V.Double)) (flat : List V.Double)
      → IsFlat V ps.0 ps.1
      → IsFlat V points flat
      → IsFlat V (if b then ps.0 else points) (if b then ps.1 else flat)
  if-IsFlat true ps points flat v w = v
  if-IsFlat false ps points flat v w = w

  apply_state-IsKept :
      (m : V.Map) (r : Remote V) → IsKept V (lasting r) → IsKept V (lasting (apply_state V m r))
  unfolding apply_state
  apply_state-IsKept m r k = record {
    named =
        if-both (λ st. is_empty st ≡ false) (has_nav V m) (status_or_idle-named (nav_status_in V m))
          k.named;
    path = if-IsFlat (has_nav V m) (path_in V m) _ _ (parse_xy-IsFlat _ _) k.path;
    trail = if-IsFlat (new_trail V m r) (trail_in V m) _ _ (parse_xy-IsFlat _ _) k.trail;
  }

  call-IsKept : (c : Call V) (r : Remote V) → IsKept V (lasting r) → IsKept V (lasting (call c r))
  call-IsKept (state m) r k = unfold call in apply_state-IsKept m r k
  call-IsKept reset r k =
      unfold call in record { named = k.named; path = none-IsFlat; trail = none-IsFlat }
  call-IsKept (log time line) r k =
      unfold call in record { named = k.named; path = k.path; trail = k.trail }
  call-IsKept c r k = subst (IsKept V) (sym (call-lasting c r refl)) k

  -- If the nav status is not empty, and the flat path and the flat trail have just the numbers
  -- of their points, all finite, then this holds after every list of calls.
  pub run-IsKept :
      (cs : List (Call V)) (r : Remote V) → IsKept V (lasting r) → IsKept V (lasting (run cs r))
  unfolding run
  run-IsKept [] r k = k
  run-IsKept (c ∷ cs) r k = run-IsKept cs (call c r) (call-IsKept c r k)
