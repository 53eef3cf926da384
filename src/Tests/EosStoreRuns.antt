-- ===== src/Tests/EosStoreRuns.antt =====
-- The theorem on mvm/eos/store.go at a database in memory, and what a list of events finds there.
use trusted_group.Base.{◌≡◌, refl, Bytes, [], ◌∷◌, arith, beq, uint64_bytes, text, if◌then◌else◌}
use trusted_group.Base.{ok}
use trusted_group.Eos.Store.{
  store_read_contract_logs_offset, store_write_contract_logs_offset, store_read_tx_request_nonce,
  store_list_contract_events, store_write_contract_event, eos_event_key,
}
use trusted_group.Eos.Store.Offsets.{store_write_contract_logs_offset_lem}
use trusted_group.Quorum.Store.{before, seek}
use trusted_group.Tests.Disk.{memory, blank, Disk}
use trusted_group.Tests.Groups.{deposit}
use trusted_group.Tests.QuorumRuns.{memory-NoFaults}
use trusted_group.Tests.Toy.{amounts, event_json}

store_write_contract_logs_offset_example :
    (d' : Disk) × (store_write_contract_logs_offset blank (text "mtg.xin") 7 ≡ ok d')
    × ((other : Bytes)
        → store_read_contract_logs_offset d' other ≡ (
            if beq (text "mtg.xin") other
            then ok 7
            else store_read_contract_logs_offset blank other))
    × (store_read_tx_request_nonce d' ≡ store_read_tx_request_nonce blank)
store_write_contract_logs_offset_example =
    store_write_contract_logs_offset_lem blank (text "mtg.xin") 7 memory-NoFaults (omega arith)

abbrev queued : Disk
queued = memory.set blank (eos_event_key (text "mtg.xin") 0) (event_json.marshal deposit)

queued_run : store_write_contract_event blank (text "mtg.xin") deposit ≡ ok queued
unfolding store_write_contract_event
queued_run = refl

-- The queue of a contract has the events of every contract whose name continues its name.
foreign_list : store_list_contract_events queued (text "mtg") 0 100 ≡ ok (deposit ∷ [])
unfolding store_list_contract_events eos_event_key uint64_bytes beq seek before
foreign_list = refl
