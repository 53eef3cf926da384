-- ===== src/Encoding.antt =====
-- mvm/encoding/event.go and mvm/encoding/operation.go: the messages between the group and the
-- virtual machines, and the operations that a memo carries.
pub mod Common
mod Messages
mod Operations
pub mod Fields
pub mod RoundTrip
pub mod Bounds
unfoldable pub use Common.*
unfoldable pub use Messages.*
unfoldable pub use Operations.*
