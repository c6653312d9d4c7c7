-- ===== src/Sandbox.antt =====
-- The sandbox (sandbox/): the capabilities, the life and the command line of an isolated run.
pub mod Caps
pub mod Life
pub mod Command
