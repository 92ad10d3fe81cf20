-- ===== src/System.antt =====
-- The bridge and the robot together: bridge/src/bridge_node.cpp (start_tcp) and
-- sim/src/fake_robot.cpp (on_configure), where each is told what the other sends.
pub mod Stop
pub mod Console
pub mod Work
pub mod Answers
pub mod Acked
pub mod Link
mod Tests
use mathlib.Core.List.{foldl}
use bot_cock_pit.Prelude.{ℕ, List, [], Bool, if◌then◌else◌}
use bot_cock_pit.Text.{Text}
use bot_cock_pit.Floats.{Floats}
use bot_cock_pit.Robot.{Robot}
use bot_cock_pit.Robot.Command.{on_cmd}
use bot_cock_pit.Robot.Command.Task.{Planner}
use bot_cock_pit.Bridge.Server.{on_recv}
use bot_cock_pit.Bridge.Clients.{Server}
use bot_cock_pit.Bridge.Node.{Bridge, urgent_estop, state_for_tcp}

pub record System (F : Floats) : Type 0 where
  pub server : Server
  pub node : Bridge
  pub robot : Robot F

-- The urgent handler that `start_tcp` gives the server, called for each stop.
unfoldable pub pass_calls : List (Text × ℕ × Text) → Bridge → Bridge
pass_calls calls b = foldl (λ b c. urgent_estop c.0 c.1 c.2 b) b calls

-- The robot's subscription to `botcockpit/cmd`, which it has while it has its topics.
unfoldable pub hear : {F : Floats} → Planner F → List Text → Robot F → Robot F
hear plan msgs r = foldl (λ r msg. if r.topics then on_cmd plan msg r else r) r msgs

-- Bytes from a client, through the server and the node to the robot, with nothing lost on the way.
unfoldable pub recv_through : {F : Floats} → Planner F → ℕ → ℕ → List ℕ → System F → System F
unfolding pass_calls hear
recv_through plan now i bytes sys =
    let s = on_recv now (state_for_tcp now sys.node) i bytes sys.server in
    let b = pass_calls s.urgent_calls sys.node in
    record {
      server = record s { urgent_calls = [] };
      node = record b { published = [] };
      robot = hear plan b.published sys.robot;
    }
