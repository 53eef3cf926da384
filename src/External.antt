-- ===== src/External.antt =====
-- What the program takes from packages that are not in the repository, as records of operations and
-- documented laws. Every definition that uses one takes it as an instance argument.
mod Amounts
mod Packets
mod Databases
mod Jsons
mod Networks
mod Chains
mod Contracts
mod EosPackets
unfoldable pub use Amounts.*
unfoldable pub use Packets.*
unfoldable pub use Databases.*
unfoldable pub use Jsons.*
unfoldable pub use Networks.*
unfoldable pub use Chains.*
unfoldable pub use Contracts.*
unfoldable pub use EosPackets.*
