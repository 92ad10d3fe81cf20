-- ===== src/Ui/Worker/Sends.antt =====
-- What the worker sends, and how it takes the acknowledgement (ui/botcockpit/src/socketworker.cpp).
use bot_cock_pit.Prelude.{
  ℕ, ◌≡◌, refl, ◌∙◌, Bool, true, false, not, ◌||◌, if◌then◌else◌, if-both, if-intro, List, [], ◌∷◌,
  ◌++◌, none, some, arith, ◌==◌, ==-refl, Bool-cases, inl, inr,
}
use bot_cock_pit.Text.{Text, codes, text_eq}
use bot_cock_pit.Ui.Frames.{encode_frame}
use bot_cock_pit.Ui.Worker.{
  Qt, Worker, cmd_ack, is_connected, insert, remove, lookup, write, send_frame, note_command,
  send_cmd_mode, send_cmd_task, send_cmd_estop, send_cmd_reset,
}
use bot_cock_pit.Ui.Worker.Receive.{on_cmd_ack, fill_ack}
use bot_cock_pit.Ui.Worker.Sound.{IsNumbered}

lookup-remove {ℓ} : {A : Type ℓ} (k : ℕ) (xs : List (ℕ × A)) → lookup k (remove k xs) ≡ none
unfolding lookup remove
lookup-remove k [] = refl
lookup-remove k ((i, a) ∷ xs) = elim (Bool-cases (i == k)) [
  | inl e ↦ rw e (lookup-remove k xs)
  | inr e ↦ rw (e, e) (lookup-remove k xs)
]

lookup-insert {ℓ} :
    {A : Type ℓ} (k : ℕ) (a : A) (xs : List (ℕ × A)) → lookup k (insert k a xs) ≡ some a
unfolding lookup insert
lookup-insert k a xs = rw (==-refl k) refl

module _ {Q : Qt} where
  -- What a command with its frame leaves in a connected worker.
  pub record IsSending (name : Text) (type flags : ℕ) (payload : List ℕ) (w t : Worker Q)
      : Type 0 where
    pub wire : t.wire ≡ w.wire ++ encode_frame type flags w.next_seq payload
    pub noted : lookup w.next_seq t.pending_cmd_name ≡ some name
    pub signals : t.signals ≡ w.signals

  sends :
      (name : Text) (type flags : ℕ) (payload : List ℕ) (w : Worker Q)
      → IsNumbered w
      → is_connected w.socket ≡ true
      → IsSending name type flags payload w (note_command name (send_frame type flags payload w))
  unfolding note_command send_frame write
  sends name type flags payload w v h =
      let P = λ (t : Worker Q). IsSending name type flags payload w t in
      rw h (
        if-intro P (w.next_seq == 0) (λ e. absurd (ground (arith, e, v.seq_low)))
          (λ _. record { wire = refl; noted = lookup-insert w.next_seq name _; signals = refl }))

-- What `QJsonObject::insert` promises of the key and of the others.
pub record IsObject (Q : Qt) : Type 0 where
  pub value_same : (o : Q.Object) (k : Text) (v : Q.Value) → Q.value (Q.insert o k v) k ≡ v
  pub value_other :
      (o : Q.Object) (k j : Text) (v : Q.Value)
      → text_eq k j ≡ false
      → Q.value (Q.insert o k v) j ≡ Q.value o j
  pub contains_other :
      (o : Q.Object) (k j : Text) (v : Q.Value)
      → text_eq k j ≡ false
      → Q.contains (Q.insert o k v) j ≡ Q.contains o j

-- An acknowledgement comes without its number.
abbrev pub lacks_seq : (Q : Qt) → Q.Object → Bool
lacks_seq Q ack = not (Q.contains ack (codes "seq")) || Q.is_null (Q.value ack (codes "seq"))

module _ {Q : Qt} (laws : IsObject Q) (seq : ℕ) (name : Text) (ack : Q.Object) where
  name_in : (o : Q.Object) → Q.Object
  name_in o = if Q.contains o (codes "cmd") then o else Q.insert o (codes "cmd") (Q.of_text name)

  name_in-cmd :
      (o : Q.Object)
      → Q.value (name_in o) (codes "cmd")
        ≡ (if Q.contains o (codes "cmd") then Q.value o (codes "cmd") else Q.of_text name)
  unfolding name_in
  name_in-cmd o = elim (Bool-cases (Q.contains o (codes "cmd"))) [
    | inl e ↦ rw e refl
    | inr e ↦ rw e (laws.value_same o (codes "cmd") (Q.of_text name))
  ]

  name_in-seq : (o : Q.Object) → Q.value (name_in o) (codes "seq") ≡ Q.value o (codes "seq")
  unfolding name_in text_eq
  name_in-seq o =
      if-both (λ (p : Q.Object). Q.value p (codes "seq") ≡ Q.value o (codes "seq"))
        (Q.contains o (codes "cmd")) refl (laws.value_other o (codes "cmd") (codes "seq") _ refl)

  fill_ack-cmd :
      Q.value (fill_ack Q seq name ack) (codes "cmd")
      ≡ (if Q.contains ack (codes "cmd") then Q.value ack (codes "cmd") else Q.of_text name)
  unfolding fill_ack name_in text_eq
  fill_ack-cmd = elim (Bool-cases (lacks_seq Q ack)) [
    | inl e ↦ rw e (
        name_in-cmd (Q.insert ack (codes "seq") (Q.of_int seq))
        ∙ rw
            (
              laws.contains_other ack (codes "seq") (codes "cmd") (Q.of_int seq) refl,
              laws.value_other ack (codes "seq") (codes "cmd") (Q.of_int seq) refl,
            )
            refl)
    | inr e ↦ rw e (name_in-cmd ack)
  ]

  fill_ack-seq :
      Q.value (fill_ack Q seq name ack) (codes "seq")
      ≡ (if lacks_seq Q ack then Q.of_int seq else Q.value ack (codes "seq"))
  unfolding fill_ack name_in text_eq
  fill_ack-seq = elim (Bool-cases (lacks_seq Q ack)) [
    | inl e ↦ rw e (
        name_in-seq (Q.insert ack (codes "seq") (Q.of_int seq))
        ∙ laws.value_same ack (codes "seq") (Q.of_int seq))
    | inr e ↦ rw e (name_in-seq ack)
  ]

-- What the worker passes on of an acknowledgement.
pub record IsPassedOn {Q : Qt} (seq : ℕ) (name : Text) (ack : Q.Object) (w t : Worker Q)
    : Type 0 where
  pub passed : Q.Object
  pub signals : t.signals ≡ w.signals ++ cmd_ack passed ∷ []
  pub named :
      Q.value passed (codes "cmd")
      ≡ (if Q.contains ack (codes "cmd") then Q.value ack (codes "cmd") else Q.of_text name)
  pub numbered :
      Q.value passed (codes "seq")
      ≡ (if lacks_seq Q ack then Q.of_int seq else Q.value ack (codes "seq"))
  pub settled : lookup seq t.pending_cmd_name ≡ none

-- The commands that the worker can be asked to send.
pub data Command (Q : Qt) : Type 0 where
  mode : Text → Command Q
  task : Text → Text → Q.Number → Q.Number → Q.Number → Command Q
  estop : Text → Command Q
  reset : Command Q

abbrev pub name_of : {Q : Qt} → Command Q → Text
name_of (mode m) = codes "CMD_MODE"
name_of (task i t x y s) = codes "CMD_TASK"
name_of (estop reason) = codes "CMD_ESTOP"
name_of reset = codes "CMD_RESET"

module _ {Q : Qt} where
  abbrev pub send : Command Q → Worker Q → Worker Q
  send (mode m) w = send_cmd_mode m w
  send (task task_id type x y timeout_s) w = send_cmd_task task_id type x y timeout_s w
  send (estop reason) w = send_cmd_estop reason w
  send reset w = send_cmd_reset w

  -- What a command leaves, whatever its frame is.
  record IsNoted (name : Text) (w t : Worker Q) : Type 0 where
    noted : lookup w.next_seq t.pending_cmd_name ≡ some name
    signals : t.signals ≡ w.signals

  noted :
      (name : Text) (type flags : ℕ) (payload : List ℕ) (w : Worker Q)
      → IsNumbered w
      → is_connected w.socket ≡ true
      → IsNoted name w (note_command name (send_frame type flags payload w))
  noted name type flags payload w v h =
      let s = sends name type flags payload w v h in record { noted = s.noted; signals = s.signals }

  send-IsNoted :
      (c : Command Q) (w : Worker Q)
      → IsNumbered w
      → is_connected w.socket ≡ true
      → IsNoted (name_of c) w (send c w)
  unfolding send_cmd_mode send_cmd_task send_cmd_estop send_cmd_reset
  send-IsNoted (mode m) w v h = noted _ _ _ _ w v h
  send-IsNoted (task i t x y s) w v h = noted _ _ _ _ w v h
  send-IsNoted (estop reason) w v h = noted _ _ _ _ w v h
  send-IsNoted reset w v h = noted _ _ _ _ w v h

  -- When a connected worker has sent a command, the acknowledgement of its number is passed on,
  -- once; it has the command's name if it came without a cmd, its own cmd if not, the number if
  -- it came with no seq or a null one, and its own seq if not. The number is not pending
  -- afterwards. Inserting into an object sets its key and leaves the other keys alone.
  pub on_cmd_ack-send :
      (c : Command Q) (ack : Q.Object) (w : Worker Q)
      → IsNumbered w
      → is_connected w.socket ≡ true
      → IsObject Q
      → IsPassedOn w.next_seq (name_of c) ack w (on_cmd_ack w.next_seq ack (send c w))
  unfolding on_cmd_ack
  on_cmd_ack-send c ack w v h laws =
      let s = send-IsNoted c w v h in
      record {
        passed = fill_ack Q w.next_seq (name_of c) ack;
        signals = rw (s.noted, s.signals) refl;
        named = fill_ack-cmd laws w.next_seq (name_of c) ack;
        numbered = fill_ack-seq laws w.next_seq (name_of c) ack;
        settled = lookup-remove w.next_seq (send c w).pending_cmd_name;
      }

  -- The bytes of an emergency stop.
  pub send_cmd_estop-wire :
      (reason : Text) (w : Worker Q)
      → IsNumbered w
      → is_connected w.socket ≡ true
      → (send_cmd_estop reason w).wire
        ≡ w.wire
          ++ encode_frame 0x22 3 w.next_seq (Q.compact ((codes "reason", Q.of_text reason) ∷ []))
  unfolding send_cmd_estop
  send_cmd_estop-wire reason w v h = (sends _ _ _ _ w v h).wire
