-- ===== src/Store/Keys/Kinds.antt =====
-- Keys of different kinds differ: their prefixes part at some letter.
mod Signatures
mod Processes
mod Identifiers
mod SignedQueue
mod PendingQueue
mod Accounts
pub use Signatures.*
pub use Processes.*
pub use Identifiers.*
pub use SignedQueue.*
pub use PendingQueue.*
pub use Accounts.*
