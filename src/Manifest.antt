-- ===== src/Manifest.antt =====
-- The package manifest.
pub mod OrderedMap
pub mod Model
pub mod Ident
pub mod Depsolve
pub mod Parse
pub mod Describe
pub mod Checkpoint
