-- ===== src/Quorum.antt =====
-- mvm/quorum: the engine of the Quorum chain. `Store` has its queues of events, `Chain` the engine,
-- which implements the interface of mvm/machine.
pub mod Store
pub mod Chain
