-- ===== src/Tests.antt =====
-- Runs of the model on small inputs, and the theorems at concrete data.
pub mod Toy
pub mod Maps
pub mod Stores
pub mod Services
pub mod Manifests
pub mod Depsolve
pub mod Builds
pub mod Calls
pub mod Sandboxes
pub mod Managers
pub mod Descriptions
