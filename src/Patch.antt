-- ===== src/Patch.antt =====
-- PatchServer, which gives the nodes the files of a release, and the download on a node.
pub mod Cache
pub mod Download
mod Tests
