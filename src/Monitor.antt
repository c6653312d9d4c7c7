-- ===== src/Monitor.antt =====
-- The monitor (monitor/): the position in the build that its entries name.
pub mod Context
