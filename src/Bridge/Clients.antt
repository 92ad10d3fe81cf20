-- ===== src/Bridge/Clients.antt =====
-- The TCP server's state, its clients and what is sent to them (bridge/src/tcp_server.cpp). The
-- client objects stand in a store under the numbers that stand for their pointers; `members` is
-- `clients_`. A closed descriptor is `none`, and a send writes all its bytes, since no caller reads
-- its result.
use bot_cock_pit.Prelude.{
  ℕ, ◌+◌, Bool, true, false, ◌&&◌, List, [], ◌∷◌, ◌++◌, Option, none, some, ◌==◌, if◌then◌else◌,
}
use bot_cock_pit.Text.{Text}
use bot_cock_pit.Codec.{Buffer, encode_frame}

pub record Client : Type 0 where
  pub fd : Option ℕ
  pub decoder : Buffer
  pub last_rx_ms : ℕ
  pub last_hb_rx_ms : ℕ
  pub hello_ok : Bool
  pub wire : List ℕ  -- what was sent on the socket

pub record CmdJob : Type 0 where
  pub client : ℕ
  pub seq : ℕ
  pub cmd_name : Text
  pub payload : Text
  pub urgent : Bool

abbrev pub Handler : Type 0
Handler = Text → ℕ → Text → Text

pub record Server : Type 0 where
  pub running : Bool
  pub store : ℕ → Client
  pub members : List ℕ
  pub cmd_queue : List CmdJob
  pub cmd_handler : Option Handler
  pub has_urgent_handler : Bool
  pub urgent_calls : List (Text × ℕ × Text)  -- the calls of `urgent_handler_`, in order

abbrev pub put : ℕ → Client → Server → Server
put i c s = record s { store = λ j. if i == j then c else s.store j }

abbrev pub is_open : Option ℕ → Bool
is_open none = false
is_open (some fd) = true

unfoldable pub send_frame : ℕ → ℕ → ℕ → ℕ → Text → Server → Server
send_frame i type flags seq payload s =
    let c = s.store i in
    if is_open c.fd
    then put i (record c { wire = c.wire ++ encode_frame type flags seq payload }) s
    else s

-- To every client of the list that has shaken hands and is still connected.
unfoldable pub send_to_all : ℕ → ℕ → Text → List ℕ → Server → Server
send_to_all type seq body [] s = s
send_to_all type seq body (i ∷ is) s =
    let c = s.store i in
    let t = if c.hello_ok && is_open c.fd then send_frame i type 0 seq body s else s in
    send_to_all type seq body is t

-- The client that `accept_loop` adds.
unfoldable pub on_accept : ℕ → ℕ → ℕ → Server → Server
on_accept now fd i s =
    let c : Client = record {
      fd = some fd;
      decoder = [];
      last_rx_ms = now;
      last_hb_rx_ms = now;
      hello_ok = false;
      wire = [];
    } in
    put i c (record s { members = s.members ++ i ∷ [] })

-- `remove_client(-1, client)`: the first entry that is the client.
unfoldable pub remove_client : ℕ → List ℕ → List ℕ
remove_client i [] = []
remove_client i (j ∷ js) = let rest = remove_client i js in if i == j then js else j ∷ rest

-- The end of `client_loop`.
unfoldable pub disconnect : ℕ → Server → Server
disconnect i s =
    put i (record (s.store i) { fd = none }) (record s { members = remove_client i s.members })

abbrev pub count_ready : Server → List ℕ → ℕ
count_ready s [] = 0
count_ready s (i ∷ is) =
    let n = count_ready s is in if is_open (s.store i).fd && (s.store i).hello_ok then n + 1 else n

unfoldable pub client_count : Server → ℕ
client_count s = count_ready s s.members
