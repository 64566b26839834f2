-- ===== src/Core.antt =====
-- core/: the domain model and what it validates.
pub mod Errors
pub mod Program
pub mod RelPath
pub mod ContentPath
pub mod AssetKey
pub mod Collection
pub mod Digest
pub mod Asset
pub mod Change
pub mod Value
pub mod FrontMatter
pub mod Content
pub mod Clone
