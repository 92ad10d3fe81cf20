-- ===== src/Nav.antt =====
-- The navigation library (sim/include/botcockpit_sim/nav.hpp).
pub mod Grid
pub mod Map
pub mod Track
pub mod Plan
