-- ===== src/Store.antt =====
-- mvm/store: the machine's state on a Badger database. `Keys` has the key of each record, `Txn` the
-- transactions; the other children have the operations of one file each.
pub mod Keys
pub mod Txn
pub mod Accounts
pub mod Processes
pub mod Events
pub mod Metadata
