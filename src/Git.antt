-- ===== src/Git.antt =====
-- git/: a content repository on a Git repository.
pub mod Exec
pub mod Object
pub mod Repository
pub mod Read
pub mod History
pub mod Plan
pub mod Apply
pub mod Tree
pub mod Write
pub mod Live
