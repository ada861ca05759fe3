-- ===== src/Client.antt =====
-- The client library, rpmem.c and rpmem.h: `State` is its structs, `Events` the thread that waits for
-- completions, `Connect` the thread that waits for events of the connection, `Session` the opening
-- and closing of a file, and `Api` the functions that a program calls on an open file.
mod State
mod Events
mod Api
mod Connect
mod Session
pub mod Waiting
pub mod Draining
pub mod Posting
pub mod Committing
pub mod Waits
pub mod Memory
pub mod Mapping
pub mod Unmapping
pub mod Connecting
pub mod Closing
pub mod Opening
pub mod OpenFile
pub mod Connected
pub mod Opened
pub mod OpenResult
pub mod Files
pub mod CloseResult
pub mod Sequence
pub mod Stages
pub mod Samples
pub mod OpenSamples
mod Tests
mod OpenTests
mod QueueTests
unfoldable pub use State.*
unfoldable pub use Events.*
unfoldable pub use Connect.*
unfoldable pub use Session.*
unfoldable pub use Api.*
