-- ===== src/System/Work.antt =====
-- A command that waits in the server's queue: bridge/src/tcp_server.cpp (cmd_worker_loop) with the
-- handler of bridge/src/bridge_node.cpp (start_tcp), and the robot that answers meanwhile.
use bot_cock_pit.Prelude.{ℕ, ◌&&◌, List, [], ◌∷◌, some, if◌then◌else◌}
use bot_cock_pit.Text.{Text}
use bot_cock_pit.Floats.{Floats}
use bot_cock_pit.Robot.{Robot, Output, state_json, cmd_result}
use bot_cock_pit.Robot.Message.{cmd_result_json}
use bot_cock_pit.Robot.Command.Task.{Planner}
use bot_cock_pit.Bridge.Server.{work}
use bot_cock_pit.Bridge.Clients.{CmdJob, Server, is_open}
use bot_cock_pit.Bridge.Node.{Bridge, on_robot_state, on_cmd_result, handle_command}
use bot_cock_pit.Bridge.Node.Pending.{idle_rounds}
use bot_cock_pit.System.{System, hear}

-- The node's subscriptions to what the robot published, whose newest output comes first.
unfoldable pub deliver : ℕ → List Output → Bridge → Bridge
deliver now [] b = b
deliver now (state_json t ∷ os) b = on_robot_state now t (deliver now os b)
deliver now (cmd_result c ∷ os) b = on_cmd_result (cmd_result_json c) (deliver now os b)

module _ {F : Floats} (plan : Planner F) (now k : ℕ) where
  -- The robot hears what the node has published, and the node hears the robot's answer.
  abbrev pub answer_round : Robot F → Bridge → Bridge
  answer_round r b = deliver now (hear plan b.published r).outbox b

  -- The handler that `start_tcp` gives the server. The robot answers after `k` idle rounds.
  abbrev pub handled : System F → Text → ℕ → Text → Text × Bridge
  handled sys name seq payload =
      handle_command now (idle_rounds k (answer_round sys.robot ∷ [])) name seq payload sys.node

  -- What the job at the head of the queue does besides changing the server, whose new state is
  -- `s`: the handler is called only for a client that is connected and has shaken hands.
  unfoldable pub pass_job : List CmdJob → Server → System F → System F
  unfolding hear deliver
  pass_job [] s sys = sys
  pass_job (job ∷ jobs) s sys =
      let c = sys.server.store job.client in
      let b = (handled sys job.cmd_name job.seq job.payload).1 in
      if is_open c.fd && c.hello_ok
      then record {
        server = s;
        node = record b { published = [] };
        robot = record (hear plan b.published sys.robot) { outbox = [] };
      }
      else record sys { server = s }

  -- One job of the worker, through the node to the robot and back.
  unfoldable pub work_through : System F → System F
  unfolding pass_job
  work_through sys =
      let s = work (record sys.server {
        cmd_handler = some (λ name seq payload. (handled sys name seq payload).0);
      }) in
      pass_job sys.server.cmd_queue s sys
