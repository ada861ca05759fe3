-- ===== src/Machine.antt =====
-- What the program and the world do to one another. The verbs library, the connection manager, the
-- threads and the kernel are not part of the repository: a call of them is an entry of a record of
-- calls, and what it answers is a parameter, `Os`, which sees all earlier calls. Files that print
-- are silent here: `printf` and `perror` change nothing that is modelled.
mod Calls
mod Monad
mod Rules
mod Settling
mod Objects
pub use Calls.*
pub use Monad.*
pub use Rules.*
pub use Settling.*
pub use Objects.*
