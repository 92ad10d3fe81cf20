-- ===== src/Bridge/Server/Watchdog.antt =====
-- When the watchdog shuts a client down (bridge/src/tcp_server.cpp, heartbeat_watchdog).
use bot_cock_pit.Prelude.{
  ℕ, ◌≡◌, ◌+◌, ◌-◌, ◌≤◌, ◌<◌, ◌^◌, refl, sym, ap, ◌∙◌, Bool, true, false, ◌&&◌, ◌||◌, List, [], ◌∷◌,
  ◌↔◌, arith, if◌then◌else◌, if-both, Bool-cases, inl, inr, ◌==◌, ==_iff, leb,
}
use bot_cock_pit.Text.{Text}
use bot_cock_pit.Bridge.{hb_interval_ms, msg_heartbeat}
use bot_cock_pit.Bridge.Server.{is_expired, since, expired, heartbeat_watchdog, beat}
use bot_cock_pit.Bridge.Server.Threads.{is_member}
use bot_cock_pit.Bridge.Clients.{Client, Server, is_open, send_frame, send_to_all}

-- The last sign of life that counts, and the silence that is allowed.
abbrev pub reference : Client → ℕ
reference c = if c.hello_ok then c.last_hb_rx_ms else c.last_rx_ms

abbrev pub allowance : Client → ℕ
allowance c = if c.hello_ok then 3000 else 6000

since_≤ : (now ref : ℕ) → ref ≤ now → now < 2 ^ 64 → since now ref ≡ now - ref
since_≤ now ref h k = omega arith

since_> : (now ref : ℕ) → now < ref → ref < now + 2 ^ 63 → ref < 2 ^ 64 → 2 ^ 63 ≤ since now ref
since_> now ref h k l = omega arith

is_expired_lem :
    (now : ℕ) (c : Client)
    → is_open c.fd ≡ true
    → 0 < reference c
    → reference c ≤ now
    → now < 2 ^ 64
    → (is_expired now c ≡ true) ↔ (allowance c < now - reference c)
unfolding is_expired
is_expired_lem now c joined r h k = rw (since_≤ now (reference c) h k) (ground (arith, joined, r))

-- What the watchdog looks at is the same, and so are the members.
record IsUnsent (s t : Server) : Type 0 where
  members : t.members ≡ s.members
  expiry : (now i : ℕ) → is_expired now (t.store i) ≡ is_expired now (s.store i)

send_frame-IsUnsent :
    (i type flags seq : ℕ) (payload : Text) (s : Server)
    → IsUnsent s (send_frame i type flags seq payload s)
unfolding send_frame is_expired
send_frame-IsUnsent i type flags seq payload s =
    if-both (IsUnsent s) (is_open (s.store i).fd)
      (record {
        members = refl;
        expiry = λ now j. elim (Bool-cases (i == j)) [
          | inl e ↦ rw e (ap (λ k. is_expired now (s.store k)) ((==_iff i j).0 e))
          | inr e ↦ rw e refl
        ];
      })
      (record { members = refl; expiry = λ now j. refl })

send_to_all-IsUnsent :
    (type seq : ℕ) (body : Text) (is : List ℕ) (s : Server)
    → IsUnsent s (send_to_all type seq body is s)
unfolding send_to_all
send_to_all-IsUnsent type seq body [] s = record { members = refl; expiry = λ now j. refl }
send_to_all-IsUnsent type seq body (i ∷ is) s =
    let c = s.store i in
    let t = if c.hello_ok && is_open c.fd then send_frame i type 0 seq body s else s in
    let one =
      if-both (IsUnsent s) (c.hello_ok && is_open c.fd) (send_frame-IsUnsent i type 0 seq body s)
        (record { members = refl; expiry = λ now j. refl }) in
    let rest = send_to_all-IsUnsent type seq body is t in
    record {
      members = rest.members ∙ one.members;
      expiry = λ now j. rest.expiry now j ∙ one.expiry now j;
    }

is_member-if :
    (i j : ℕ) (b : Bool) (js : List ℕ)
    → is_member i (if b then j ∷ js else js) ≡ (b && i == j || is_member i js)
is_member-if i j true js = refl
is_member-if i j false js = refl

shift :
    (same x y m r : Bool)
    → (same ≡ true → x ≡ y)
    → r ≡ (m && y)
    → (x && same || r) ≡ ((same || m) && y)
shift true x y m r h e = let k = h refl in ground (arith, k, e)
shift false x y m r h e = ground (arith, e)

expired-is_member :
    (now i : ℕ) (s : Server) (is : List ℕ)
    → is_member i (expired now s is) ≡ (is_member i is && is_expired now (s.store i))
unfolding expired
expired-is_member now i s [] = refl
expired-is_member now i s (j ∷ js) =
    let more = expired-is_member now i s js in
    is_member-if i j (is_expired now (s.store j)) (expired now s js)
    ∙ shift (i == j) _ _ (is_member i js) _
        (λ e. ap (λ k. is_expired now (s.store k)) (sym ((==_iff i j).0 e))) more

-- A round of the watchdog shuts a connected member down exactly when its last sign of life is
-- more than 3000 ms old after the handshake, 6000 ms before it; the sign is not later than the
-- watchdog's reading of the clock, the times have 64 bits, and that of the sign is not 0.
pub heartbeat_watchdog-expires :
    (now last_tx i : ℕ) (s : Server)
    → is_member i s.members ≡ true
    → is_open (s.store i).fd ≡ true
    → 0 < reference (s.store i)
    → reference (s.store i) ≤ now
    → now < 2 ^ 64
    → (is_member i (heartbeat_watchdog now last_tx s).2 ≡ true)
      ↔ (allowance (s.store i) < now - reference (s.store i))
unfolding heartbeat_watchdog
heartbeat_watchdog-expires now last_tx i s m joined r h k =
    let due = leb hb_interval_ms (since now last_tx) in
    let t = if due then send_to_all msg_heartbeat 0 (beat now) s.members s else s in
    let kept : IsUnsent s t =
      if-both (IsUnsent s) due (send_to_all-IsUnsent msg_heartbeat 0 (beat now) s.members s)
        (record { members = refl; expiry = λ now j. refl }) in
    let shut : is_member i (expired now t t.members) ≡ is_expired now (s.store i) =
      expired-is_member now i t t.members
      ∙ ground (arith, ap (is_member i) kept.members, kept.expiry now i, m) in
    rw shut (is_expired_lem now (s.store i) joined r h k)

-- A connected client whose last sign of life came after the watchdog had read the clock is shut
-- down, if it came less than 2^63 milliseconds after and its time has 64 bits.
pub is_expired-later :
    (now : ℕ) (c : Client)
    → is_open c.fd ≡ true
    → now < reference c
    → reference c < now + 2 ^ 63
    → reference c < 2 ^ 64
    → is_expired now c ≡ true
unfolding is_expired
is_expired-later now c joined h k l =
    let big = since_> now (reference c) h k l in ground (arith, joined, big)
