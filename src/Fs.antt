-- ===== src/Fs.antt =====
-- kernel/fs.c, with the disk layout of kernel/fs.h.
pub mod Bitmap
pub mod Bytes
pub mod Inode
pub mod Content
pub mod Directory
pub mod Create
pub mod Path
pub mod Itable
pub mod Tests
