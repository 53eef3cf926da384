-- ===== src/Tests/QuorumRuns.antt =====
-- The theorem on mvm/quorum/store.go at a database in memory.
use trusted_group.Base.{◌≡◌, refl, [], ◌∷◌, arith, beq, uint64_bytes, text, some}
use trusted_group.Base.{ok}
use trusted_group.External.{Holds}
use trusted_group.Quorum.Store.{before, seek, contract_event_key, list_contract_events}
use trusted_group.Quorum.Store.{write_group_events, group_event_key}
use trusted_group.Quorum.Store.Resending.{write_group_events_again}
use trusted_group.Store.Txn.{NoFaults}
use trusted_group.Quorum.Store.Delivery.{list_contract_events_complete}
use trusted_group.Tests.Disk.{memory, blank, Disk}
use trusted_group.Tests.Groups.{deposit}
use trusted_group.Tests.Toy.{amounts, event_json}

abbrev queue : Disk
queue = memory.set blank (contract_event_key (text "0x12") 0) (event_json.marshal deposit)

queue_stored :
    memory.get queue (contract_event_key (text "0x12") 0) ≡ some (event_json.marshal deposit)
unfolding contract_event_key uint64_bytes beq
queue_stored = refl

queue_list : list_contract_events queue (text "0x12") 0 100 ≡ ok (deposit ∷ [])
unfolding list_contract_events contract_event_key uint64_bytes beq seek before
queue_list = refl

list_contract_events_complete_example : Holds deposit (deposit ∷ [])
list_contract_events_complete_example =
    list_contract_events_complete queue (text "0x12") 0 100 0 deposit (deposit ∷ []) queue_stored
      (omega arith) (omega arith) queue_list (omega arith)

pub memory-NoFaults : NoFaults
memory-NoFaults = record { reads = λ d k. refl; writes = λ d k. refl; commits = λ d. refl }

abbrev sent : Disk
sent = memory.set blank (group_event_key (text "0x12") 0) (event_json.marshal deposit)

sent_run : write_group_events blank (text "0x12") (deposit ∷ []) ≡ ok sent
unfolding write_group_events
sent_run = refl

write_group_events_again_example : write_group_events sent (text "0x12") (deposit ∷ []) ≡ ok sent
write_group_events_again_example =
    write_group_events_again blank sent (text "0x12") (deposit ∷ []) memory-NoFaults sent_run
