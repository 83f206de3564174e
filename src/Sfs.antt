-- ===== src/Sfs.antt =====
-- The simple file system of PA3/a2/fs.c over the block device.
pub mod Layout
pub mod State
pub mod Freemap
pub mod Directory
pub mod Format
pub mod File
pub mod Cursor
pub mod Table
pub mod Content
pub mod Reading
mod Tests
