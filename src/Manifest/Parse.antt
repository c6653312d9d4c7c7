-- ===== src/Manifest/Parse.antt =====
-- manifest/parse.go: from the decoded JSON to the manifest. A `range` over a Go map goes through the
-- entries in the order in which the model lists them. `sourceRefs` is collected and passed on by the
-- source, and never read, so the model leaves it out.
pub mod Defs
pub mod Devices
pub mod Loaders
pub mod Runners
pub mod Top
