-- ===== src/Skill.antt =====
-- internal/skillmanager: the tree of a skill as its manifest describes it (manifest.go, validate.go).
pub mod Paths
pub mod Entries
pub mod Links
pub mod Tree
pub mod Resolution
pub mod Resolved
pub mod Placed
pub mod Order
pub mod Index
pub mod Accepted
pub mod Examples
