-- ===== src/Bridge/Node/Pending.antt =====
-- The commands that wait for a result (bridge/src/bridge_node.cpp, wait_cmd_result, on_cmd_result
-- and urgent_estop).
use bot_cock_pit.Prelude.{
  ℕ, zero, suc, ◌≡◌, refl, ap, subst, ◌∙◌, true, ◌&&◌, ◌==◌, if-intro, ◌≢◌, false, List, [], ◌∷◌,
  ◌++◌, arith, if-both, some, none, Option-cases, inl, inr, ==-refl, ◌%◌, ◌^◌,
}
use bot_cock_pit.Text.{Text, codes}
use bot_cock_pit.Json.{get_int}
use bot_cock_pit.Bridge.Node.{
  PendingCmd, Pending, Bridge, find, erase, assign, wait_cmd_result, urgent_estop, on_cmd_result,
  publish_cmd_envelope,
}

find-erase : (seq : ℕ) (ps : Pending) → find seq (erase seq ps) ≡ none
unfolding find erase
find-erase seq [] = refl
find-erase seq ((k, p) ∷ ps) = ground (arith, find-erase seq ps)

find-erase_other :
    (seq other : ℕ) (ps : Pending) → seq ≢ other → find other (erase seq ps) ≡ find other ps
unfolding find erase
find-erase_other seq other [] h = refl
find-erase_other seq other ((k, p) ∷ ps) h = ground (arith, find-erase_other seq other ps)

-- Whatever the other threads do meanwhile, and whichever way the wait for a result ends, the
-- command is not among the pending ones afterwards.
pub wait_cmd_result-find :
    (rounds : List (Bridge → Bridge)) (seq : ℕ) (cmd_name : Text) (b : Bridge)
    → find seq (wait_cmd_result rounds seq cmd_name b).1.pending ≡ none
unfolding wait_cmd_result
wait_cmd_result-find [] seq cmd_name b = find-erase seq b.pending
wait_cmd_result-find (others ∷ rounds) seq cmd_name b =
    let c = others b in
    let rest = wait_cmd_result-find rounds seq cmd_name c in
    let gone = find-erase seq c.pending in
    let IsDone = λ (r : Text × Bridge). find seq r.1.pending ≡ none in
    if-both IsDone c.estop_raised gone (elim (Option-cases (find seq c.pending)) [
      | inl e ↦ rw (e, wait_cmd_result) rest
      | inr (p, e) ↦ rw (e, wait_cmd_result) (if-both IsDone p.done gone rest)
    ])

pub find-assign : (seq : ℕ) (p : PendingCmd) (ps : Pending) → find seq (assign seq p ps) ≡ some p
unfolding find assign
find-assign seq p ps = rw (==-refl seq) refl

-- When the result with an emergency stop's number comes next, it is passed to the clients once
-- and the stop no longer holds up other commands, but the entry that the stop made among the
-- pending ones stays, not done.
pub urgent_estop-on_cmd_result :
    (cmd_name msg payload : Text) (seq n : ℕ) (b : Bridge)
    → get_int msg (codes "seq") ≡ some n
    → n % 2 ^ 16 ≡ seq
    → let c = on_cmd_result msg (urgent_estop cmd_name seq payload b) in
      (c.acks ≡ b.acks ++ (seq, msg) ∷ [])
      × (c.estop_raised ≡ false)
      × (find seq c.pending ≡ some (record { done = false; ack_json = [] }))
unfolding on_cmd_result urgent_estop publish_cmd_envelope find assign
urgent_estop-on_cmd_result cmd_name msg payload seq n b e k =
    rw (e, k, on_cmd_result) (rw (==-refl seq) (refl, refl, find-assign seq _ b.pending))

-- The node while it waits for the command `seq`, with no emergency stop on its way.
pub record IsWaiting (seq : ℕ) (b : Bridge) : Type 0 where
  pub calm : b.estop_raised ≡ false
  pub no_stop : b.async_estop_seq_valid ≡ false
  pub entry : find seq b.pending ≡ some (record { done = false; ack_json = [] })

-- Rounds in which nothing happens.
abbrev pub idle_rounds : ℕ → List (Bridge → Bridge) → List (Bridge → Bridge)
idle_rounds zero rounds = rounds
idle_rounds (suc k) rounds = (λ b. b) ∷ idle_rounds k rounds

pub record IsAnswered (seq : ℕ) (msg : Text) (b : Bridge) : Type 0 where
  pub calm : b.estop_raised ≡ false
  pub entry : find seq b.pending ≡ some (record { done = true; ack_json = msg })

on_cmd_result_own :
    (n : ℕ) (msg : Text) (b : Bridge)
    → get_int msg (codes "seq") ≡ some n
    → IsWaiting (n % 2 ^ 16) b
    → IsAnswered (n % 2 ^ 16) msg (on_cmd_result msg b)
unfolding on_cmd_result
on_cmd_result_own n msg b e w =
    let seq = n % 2 ^ 16 in
    rw (e, on_cmd_result)
      (if-intro (λ (c : Bridge). IsAnswered seq msg c)
        (b.async_estop_seq_valid && b.async_estop_seq == seq)
        (λ on. let off = w.no_stop in absurd (ground (arith, on, off)))
        (λ _.
          rw (w.entry, on_cmd_result)
            (record { calm = w.calm; entry = find-assign seq _ b.pending })))

pub on_cmd_result-IsAnswered :
    (seq n : ℕ) (msg : Text) (b : Bridge)
    → IsWaiting seq b
    → get_int msg (codes "seq") ≡ some n
    → n % 2 ^ 16 ≡ seq
    → IsAnswered seq msg (on_cmd_result msg b)
on_cmd_result-IsAnswered seq n msg b w e k =
    subst (λ (s : ℕ). IsWaiting s b → IsAnswered s msg (on_cmd_result msg b)) k
      (on_cmd_result_own n msg b e) w

wait_cmd_result_answered :
    (rounds : List (Bridge → Bridge)) (others : Bridge → Bridge) (seq : ℕ) (cmd_name msg : Text)
    (b : Bridge)
    → IsAnswered seq msg (others b)
    → (wait_cmd_result (others ∷ rounds) seq cmd_name b).0 ≡ msg
unfolding wait_cmd_result
wait_cmd_result_answered rounds others seq cmd_name msg b a =
    if-intro (λ (r : Text × Bridge). r.0 ≡ msg) (others b).estop_raised (λ on. cc (on, a.calm))
      (λ _. rw (a.entry, wait_cmd_result) refl)

wait_cmd_result_idle :
    (rounds : List (Bridge → Bridge)) (seq : ℕ) (cmd_name : Text) (b : Bridge)
    → IsWaiting seq b
    → wait_cmd_result ((λ c. c) ∷ rounds) seq cmd_name b ≡ wait_cmd_result rounds seq cmd_name b
unfolding wait_cmd_result
wait_cmd_result_idle rounds seq cmd_name b w =
    if-intro (λ (r : Text × Bridge). r ≡ wait_cmd_result rounds seq cmd_name b) b.estop_raised
      (λ on. cc (on, w.calm)) (λ _. rw (w.entry, wait_cmd_result) refl)

-- A result that comes after idle rounds is what the wait returns.
pub wait_cmd_result_delayed :
    (k : ℕ) (rounds : List (Bridge → Bridge)) (others : Bridge → Bridge) (seq : ℕ)
    (cmd_name msg : Text) (b : Bridge)
    → IsWaiting seq b
    → IsAnswered seq msg (others b)
    → (wait_cmd_result (idle_rounds k (others ∷ rounds)) seq cmd_name b).0 ≡ msg
wait_cmd_result_delayed zero rounds others seq cmd_name msg b w a =
    wait_cmd_result_answered rounds others seq cmd_name msg b a
wait_cmd_result_delayed (suc k) rounds others seq cmd_name msg b w a =
    ap (λ (r : Text × Bridge). r.0)
      (wait_cmd_result_idle (idle_rounds k (others ∷ rounds)) seq cmd_name b w)
    ∙ wait_cmd_result_delayed k rounds others seq cmd_name msg b w a

-- While a command waits and no emergency stop is on its way, a result with its number that comes
-- after any number of rounds in which nothing happens is what the wait returns.
pub wait_cmd_result_replied :
    (k : ℕ) (rounds : List (Bridge → Bridge)) (seq n : ℕ) (cmd_name msg : Text) (b : Bridge)
    → IsWaiting seq b
    → get_int msg (codes "seq") ≡ some n
    → n % 2 ^ 16 ≡ seq
    → (wait_cmd_result (idle_rounds k (on_cmd_result msg ∷ rounds)) seq cmd_name b).0 ≡ msg
wait_cmd_result_replied k rounds seq n cmd_name msg b w e m =
    wait_cmd_result_delayed k rounds (on_cmd_result msg) seq cmd_name msg b w
      (on_cmd_result-IsAnswered seq n msg b w e m)
