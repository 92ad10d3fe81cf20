-- ===== src/Ui.antt =====
-- The console (ui/botcockpit/src).
pub mod Frames
pub mod Worker
pub mod Faults
pub mod Remote
pub mod Connection
pub mod Table
pub mod Nodes
pub mod Console
