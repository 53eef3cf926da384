-- ===== src/Machine.antt =====
-- mvm/machine: the machine that runs the processes of a group. `Types` has what its store keeps,
-- `State` the machine and its engines; the other children have the operations of one file each.
pub mod Types
pub mod State
pub mod Metadata
pub mod Deposits
pub mod Registry
pub mod Signer
pub mod Messages
pub mod Withdrawals
