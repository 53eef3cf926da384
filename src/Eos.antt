-- ===== src/Eos.antt =====
-- mvm/eos: the engine of the EOS chain. Its store, its structs and their packing.
pub mod Store
pub mod Structs
