-- ===== src/Server.antt =====
-- The server, rpmem_server.c: `State` is its structs, `Handlers` the five request handlers, `Events`
-- the dispatch of completions, `Connect` the making of a connection, `Start` the start of the
-- server with the thread that waits for connection requests, and `Args` its arguments.
mod State
mod Handlers
mod Events
mod Connect
pub mod Start
pub mod Args
pub mod Starting
pub mod Pool
pub mod Stays
pub mod Keeps
pub mod EventsStay
pub mod EventsKeep
pub mod Accounts
pub mod Leases
pub mod Fleet
pub mod Absent
pub mod Single
pub mod Since
pub mod Threads
pub mod Remapping
pub mod Stages
pub mod Credits
pub mod Wire
pub mod Serve
pub mod Ready
pub mod Requests
pub mod Mapping
pub mod MapFailure
pub mod Settling
pub mod ConnInit
pub mod Accept
pub mod Samples
mod Tests
mod AcceptTests
mod FleetTests
mod ThreadsTests
mod ArgsTests
pub mod Polling
pub mod Unmapping
pub mod MapUnmap
unfoldable pub use State.*
unfoldable pub use Handlers.*
unfoldable pub use Events.*
unfoldable pub use Connect.*
