-- ===== src/Registry.antt =====
-- The registry of modules (registry/): the runners.
pub mod Runners
