-- ===== src/Ui/Remote/Log.antt =====
-- The log of the console (ui/botcockpit/src/robotstate.cpp, appendLog).
use bot_cock_pit.Prelude.{
  ℕ, zero, suc, ◌+◌, ◌-◌, ◌≤◌, ◌≡◌, refl, sym, ap, ◌∙◌, inl, inr, true, List, [], ◌∷◌, ◌++◌, arith,
  length, take, Bool-cases, ltb,
}
use bot_cock_pit.Text.{Text, codes}
use bot_cock_pit.Ui.Remote.{Variants, Remote}
use bot_cock_pit.Ui.Remote.Quiet.{is_quiet, call-lasting}
use bot_cock_pit.Ui.Remote.Slots.{
  remove_last, trim, append_log, Call, auto_reconnect, connecting, connected, attempts, rtt, log,
  hello_info, ack, state, failure, endpoint, reset, call, run,
}

length-remove_last {ℓ} : {A : Type ℓ} (xs : List A) → length (remove_last xs) ≡ length xs - 1
unfolding remove_last
length-remove_last [] = omega arith
length-remove_last (x ∷ []) = omega arith
length-remove_last (x ∷ y ∷ xs) = omega (arith, length-remove_last (y ∷ xs))

take-remove_last {ℓ} :
    {A : Type ℓ} (n : ℕ) (xs : List A) → suc n ≤ length xs → take n (remove_last xs) ≡ take n xs
unfolding remove_last
take-remove_last zero xs h = refl
take-remove_last (suc n) [] h = refl
take-remove_last (suc n) (x ∷ []) h = absurd (omega arith)
take-remove_last (suc n) (x ∷ y ∷ xs) h = ap (◌∷◌ x) (take-remove_last n (y ∷ xs) (omega arith))

take_all {ℓ} : {A : Type ℓ} (n : ℕ) (xs : List A) → length xs ≤ n → take n xs ≡ xs
take_all zero [] h = refl
take_all zero (x ∷ xs) h = absurd (omega arith)
take_all (suc n) [] h = refl
take_all (suc n) (x ∷ xs) h = ap (◌∷◌ x) (take_all n xs (omega arith))

take-take {ℓ} : {A : Type ℓ} (n : ℕ) (xs : List A) → take n (take (suc n) xs) ≡ take n xs
take-take zero xs = refl
take-take (suc n) [] = refl
take-take (suc n) (x ∷ xs) = ap (◌∷◌ x) (take-take n xs)

-- With enough rounds the loop leaves the first 80 lines.
pub trim-take :
    (rounds : ℕ) (lines : List Text)
    → length lines ≤ rounds + 80
    → trim rounds lines ≡ take 80 lines
unfolding trim
trim-take zero lines h = sym (take_all 80 lines (omega arith))
trim-take (suc rounds) lines h = elim (Bool-cases (ltb 80 (length lines))) [
  | inl more ↦ rw more (
      trim-take rounds (remove_last lines) (omega (arith, length-remove_last lines))
      ∙ take-remove_last 80 lines (ground arith))
  | inr done ↦ rw done (sym (take_all 80 lines (ground arith)))
]

-- What a call writes to the log.
unfoldable pub entry : {V : Variants} → Call V → List Text
entry (log time line) = (time ++ (codes "  " ++ line)) ∷ []
entry _ = []

-- A log that keeps every line, the newest first.
unfoldable pub logged : {V : Variants} → List (Call V) → List Text → List Text
unfolding entry
logged [] lines = lines
logged (c ∷ cs) lines = logged cs (entry c ++ lines)

append_log-take :
    {V : Variants} (time line : Text) (r : Remote V)
    → (append_log time line r).log_lines ≡ take 80 ((time ++ (codes "  " ++ line)) ∷ r.log_lines)
unfolding append_log
append_log-take time line r =
    let lines = (time ++ (codes "  " ++ line)) ∷ r.log_lines in
    trim-take (length lines) lines (omega arith)

call-log :
    {V : Variants} (c : Call V) (r : Remote V) {lines : List Text}
    → is_quiet c ≡ true
    → r.log_lines ≡ lines
    → (call c r).log_lines ≡ lines
call-log c r q h = ap (λ t. t.0) (call-lasting c r q) ∙ h

call-entry :
    {V : Variants} (c : Call V) (r : Remote V) (lines : List Text)
    → r.log_lines ≡ take 80 lines
    → (call c r).log_lines ≡ take 80 (entry c ++ lines)
unfolding call entry
call-entry (log time line) r lines h =
    let stamped = time ++ (codes "  " ++ line) in
    append_log-take time line r
    ∙ ap (λ ls. stamped ∷ take 79 ls) h
    ∙ ap (◌∷◌ stamped) (take-take 79 lines)
call-entry (state m) r lines h = h
call-entry reset r lines h = h
call-entry (auto_reconnect v) r lines h = call-log (auto_reconnect v) r refl h
call-entry (connecting v) r lines h = call-log (connecting v) r refl h
call-entry (connected v) r lines h = call-log (connected v) r refl h
call-entry (attempts n) r lines h = call-log (attempts n) r refl h
call-entry (rtt ms) r lines h = call-log (rtt ms) r refl h
call-entry (hello_info p s) r lines h = call-log (hello_info p s) r refl h
call-entry (ack m) r lines h = h
call-entry (failure e) r lines h = call-log (failure e) r refl h
call-entry (endpoint a p) r lines h = call-log (endpoint a p) r refl h

-- If the log shows the newest 80 lines of some list, then after every list of calls it shows the
-- newest 80 of that list with the lines that the calls have added in front.
pub run-logged :
    {V : Variants} (cs : List (Call V)) (r : Remote V) (lines : List Text)
    → r.log_lines ≡ take 80 lines
    → (run cs r).log_lines ≡ take 80 (logged cs lines)
unfolding run logged
run-logged [] r lines h = h
run-logged (c ∷ cs) r lines h = run-logged cs (call c r) (entry c ++ lines) (call-entry c r lines h)
