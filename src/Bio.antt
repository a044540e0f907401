-- ===== src/Bio.antt =====
-- kernel/bio.c, with the buffer of kernel/buf.h: the cache of disk blocks.
-- The list from `bcache.head.next` round to `bcache.head.prev` is a list of buffers, most recently
-- released first; a buffer keeps its index in `bcache.buf`. `bcache.lock` is held over each change of
-- the list or of a count, so that is one step; `lm_P` on the buffer may then put the task to sleep.
pub mod Defs
pub mod Unique
pub mod Counts
pub mod Contents
mod Tests
