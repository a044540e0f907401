-- ===== src/Console.antt =====
-- kernel/console.c: the line discipline between the UART interrupt and `read` on the console.
-- `cons.lock` is held over each function, so a call is one step of the state. A call that sleeps
-- hands its local variables back, and is resumed with them on the state found after the wakeup.
mod Defs
pub mod Window
pub mod Line
pub mod Valid
mod Accept
pub mod Refine
pub mod Read
mod Tests
unfoldable pub use Defs.*
