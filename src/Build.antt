-- ===== src/Build.antt =====
-- The build (build/): running the stages of the planned pipelines over the store, and what is made of
-- the results.
pub mod Action
pub mod Pipeline
pub mod All
pub mod Output
pub mod Export
pub mod Managers
pub mod Stage
