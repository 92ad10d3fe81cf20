-- ===== src/Lib.antt =====
-- BotCockPit: a console, a bridge and a simulated robot.
--
-- The console (ui/botcockpit/src) talks to the bridge (bridge/src) over TCP in frames of a length,
-- a type, flags, a number and a JSON payload. The bridge answers heartbeats and handshakes itself,
-- passes commands on to the robot (sim/src) over the topic botcockpit/cmd, and returns the answers
-- that the robot publishes on botcockpit/cmd_result. The robot publishes its state on
-- botcockpit/state, which the bridge sends to every console, and hears on botcockpit/console
-- whether a console is there.
--
-- The parts and their files:
-- - Codec: bridge/src/frame_codec.cpp. encode_frame, append, next, clear and buffered are the
--   functions of that name; drain and receive are the loop of client_loop in
--   bridge/src/tcp_server.cpp. Each frame takes at least eight bytes, so the buffer's length is
--   fuel enough for drain.
-- - Text and Json: std::string, and bridge/src/json_util.cpp. A position in a text is the text
--   from there on. search_key has the text's length as fuel, since each round passes over a
--   needle.
-- - Floats: what the robot uses of double and of the C library's functions on it, a parameter of
--   all that computes with them. Nothing is assumed of it.
-- - Nav.Grid and Nav.Map: GridMap of sim/include/botcockpit_sim/nav.hpp. Nav.Plan is astar, with
--   the operations of float as a parameter: rounds is the fuel of its loop and of its walk back,
--   none stands for too few, and the theorems show that there is a number that is enough. IsRanked
--   and IsTopped are what they use of float. Nav.Track is segment_free to pure_pursuit. The
--   planner is a parameter of the robot, which Nav.Plan.Path.planner can fill.
-- - Robot: sim/src/fake_robot.cpp. Robot.Extract are its field extractors, Robot.Message its texts
--   and Robot.Words the literals in them, Robot.Control the phase and the control, Robot.Lifecycle
--   the lifecycle callbacks and on_console, Robot.Command on_cmd with Robot.Command.Task for
--   CMD_TASK, Robot.Drive and Robot.Tick the timer tick, and Robot.Step the order in which the
--   callbacks run, one at a time under the robot's lock. Robot.Invariant is what holds between two
--   of them; Robot.Held and Robot.Standstill are about a stopped robot, Robot.Reset about a reset,
--   and Robot.Startup about the way from the configuration to control. A time of the steady clock
--   is a number of milliseconds, which never goes back. The loops that bring an angle between -pi
--   and pi have their number of rounds as fuel; no theorem depends on the angle.
-- - Bridge: bridge/include/botcockpit_bridge/protocol.hpp. Bridge.Server is
--   bridge/src/tcp_server.cpp, on the client objects of Bridge.Clients, which stand in a store,
--   with inject_runtime_fields in Bridge.Runtime, and Bridge.Node is bridge/src/bridge_node.cpp. A
--   function stands for what one thread does between two waits; in wait_cmd_result the other
--   threads are functions on the node that come between the rounds, one for each round that the
--   deadline allows. Bridge.Server.Threads is any sequence of the passages of the server's
--   threads, with the start and the stop of the server.
-- - System: the console, the bridge and the robot together, on the way of an emergency stop, and
--   in System.Work on the way of a queued command and its answer, which are delivered without
--   loss. System.Link is the timer by which the robot hears of the console.
-- - Ui.Frames and Ui.Worker: ui/botcockpit/src/frame_codec.cpp and socketworker.cpp. Each slot of
--   the worker is a function, and what the socket does comes as an event. Qt's JSON is a
--   parameter.
-- - Ui.Faults: ui/botcockpit/src/faulttablemodel.cpp. std::sort is a parameter, and IsSort is what
--   it promises.
-- - Ui.Remote: ui/botcockpit/src/robotstate.cpp: Apply and Nav are applyState, Slots the other
--   methods. Qt's variants and the time of day are parameters. A value is written only where the
--   code finds a change, with its signal. The log's loop has the number of lines as fuel.
-- - Ui.Console: ui/botcockpit/src/connectioncontroller.cpp with all that it logs and shows, and
--   Ui.Console.Events any sequence of its slots. Ui.Connection has only its decisions about
--   connecting, which Ui.Console refines. QString::arg and QString::trimmed are parameters.
-- - Ui.Nodes, Ui.Faults.Cells and Ui.Table: ui/botcockpit/src/nodetablemodel.cpp, and the cells of
--   faulttablemodel.cpp.
-- - Prelude and Int: helpers, and integers over the native numbers.
--
-- Numbers of the program are natural numbers. Where the code computes in 16, 32 or 64 bits and may
-- wrap around, the remainder is written out: the frame's length, the numbers of commands, and the
-- differences of times in robot_state_fresh, in the robot's tick and in the watchdog.
--
-- Not modelled: what the socket calls do, whose results are part of the events; failed sends,
-- whose result no caller reads; the log lines of the bridge and the robot; the console's pages;
-- the entry points, the tools and the tests.
pub mod Prelude
pub mod Int
pub mod Codec
pub mod Text
pub mod Json
pub mod Floats
pub mod Nav
pub mod Robot
pub mod Bridge
pub mod System
pub mod Ui
