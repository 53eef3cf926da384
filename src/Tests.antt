-- ===== src/Tests.antt =====
-- Concrete values for what the development takes from outside the repository, test data, and the
-- theorems at concrete inputs.
mod Disk
mod Rows
mod Names
mod TokenRuns
mod MtgRuns
mod ProxyRuns
mod EosRuns
mod EosStoreRuns
mod Packed
mod Toy
mod Services
mod Groups
mod EncodingRuns
mod AccountRuns
mod EventRuns
mod MachineRuns
mod SignatureRuns
mod WithdrawalRuns
mod QuorumRuns
mod RegistryRuns
