-- ===== src/Localfs.antt =====
-- localfs/: an asset store on a directory.
pub mod Key
pub mod MediaType
pub mod Errors
pub mod Root
pub mod Store
pub mod Open
pub mod Disk
