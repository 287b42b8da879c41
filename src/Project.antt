-- ===== src/Project.antt =====
-- qy/project: the selection of the versions of a project's dependencies.
pub mod Version
pub mod Resolve
pub mod Requirements
pub mod Closed
pub mod Ends
