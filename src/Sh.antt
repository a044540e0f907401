-- ===== src/Sh.antt =====
-- The parser of user/sh.c. A pointer into the command line is the list of the bytes from it to `es`;
-- the byte at `es` is 0, so an empty list is the end. A word is the text from `q` to `eq`, which
-- `nulterminate` cuts out of the line.
pub mod Result
pub mod Lexer
pub mod Parser
pub mod Syntax
mod Tests
