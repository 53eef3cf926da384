-- ===== src/Tests/EventRuns.antt =====
-- The theorems on mvm/store/event.go at a database in memory.
use trusted_group.Base.{
  ℕ, ◌≡◌, ◌≢◌, refl, Bytes, true, false, List, [], ◌∷◌, none, some, arith, beq, uint64_bytes,
  uint64_value, if◌then◌else◌,
}
use trusted_group.Base.{ok}
use trusted_group.Encoding.{Event}
use trusted_group.Machine.Types.{Process}
use trusted_group.Store.Keys.{
  process_key, pending_event_identifier_key, pending_event_timed_key, pending_event_signatures_key,
  signed_event_timed_key,
}
use trusted_group.Store.Txn.{NoFaults}
use trusted_group.Store.Events.{
  read_group_event_signatures, write_pending_group_event_signatures,
  write_signed_group_event_and_expire_pending, write_pending_group_event_and_nonce,
  check_pending_group_event_identifier, check_full_signature,
}
use trusted_group.Store.Events.Effects.{signed_in, after_signed, after_nonce, advanced, process_in}
use trusted_group.Store.Events.Once.{queued_once}
use trusted_group.Store.Events.Finality.{signed_is_final}
use trusted_group.Store.Events.Steps.{StoreStep, StoreRun}
use trusted_group.Store.Events.Lifecycle.{read-write_partials, write_signed_lem, write_pending_lem}
use trusted_group.Tests.Disk.{memory, blank, Disk}
use trusted_group.Tests.Toy.{
  amounts, event_json, process_json, snapshot_json, asset_json, token_json, zeros,
}

abbrev id_of : ℕ → Bytes
id_of n = n ∷ zeros 35

memory-NoFaults : NoFaults
memory-NoFaults = record { reads = λ d k. refl; writes = λ d k. refl; commits = λ d. refl }

abbrev partials : List Bytes
partials = zeros 66 ∷ (1 ∷ zeros 65) ∷ []

abbrev unsigned_event : Event
unsigned_event = record {
  process = id_of 1;
  asset = id_of 2;
  members = id_of 3 ∷ [];
  threshold = 1;
  amount = 5;
  extra = [];
  timestamp = 1_600_000_000;
  nonce = 0;
  signature = [];
}

abbrev signed_event : Event
signed_event = record unsigned_event { signature = zeros 64 }

abbrev person : Process
person = record {
  identifier = id_of 1;
  platform = [];
  address = [];
  credit = 0;
  nonce = 0;
  asset = false;
}

abbrev peopled : Disk
peopled = memory.set blank (process_key (id_of 1)) (process_json.marshal person)

read-write_partials_example :
    (d' : Disk) × (write_pending_group_event_signatures blank (id_of 1) 0 partials ≡ ok d')
    × (read_group_event_signatures d' (id_of 1) 0 ≡ ok (partials, false))
read-write_partials_example =
    read-write_partials blank (id_of 1) 0 partials memory-NoFaults (refl, (refl, tt)) refl

write_signed_lem_example :
    (d' : Disk) × (write_signed_group_event_and_expire_pending blank signed_event ≡ ok d')
    × (read_group_event_signatures d' (id_of 1) 0 ≡ ok (zeros 64 ∷ [], true))
    × (memory.get d' (pending_event_timed_key signed_event) ≡ none)
    × (memory.get d' (signed_event_timed_key (id_of 1) 0) ≡ some (event_json.marshal signed_event))
write_signed_lem_example = write_signed_lem blank signed_event memory-NoFaults refl refl

peopled_process : process_in peopled (id_of 1) ≡ some person
unfolding process_key beq
peopled_process = refl

peopled_fresh : memory.get peopled (pending_event_identifier_key (id_of 9)) ≡ none
unfolding process_key pending_event_identifier_key beq
peopled_fresh = refl

write_pending_lem_example :
    (d' : Disk) × (write_pending_group_event_and_nonce peopled unsigned_event (id_of 9) ≡ ok d')
    × (check_pending_group_event_identifier d' (id_of 9) ≡ ok true)
    × (process_in d' (id_of 1) ≡ some (advanced person))
    × (memory.get d' (pending_event_timed_key unsigned_event) ≡ (
        if signed_in peopled (id_of 1) 0
        then memory.get peopled (pending_event_timed_key unsigned_event)
        else some (event_json.marshal unsigned_event)))
write_pending_lem_example =
    write_pending_lem peopled unsigned_event (id_of 9) person memory-NoFaults (λ e. omega arith)
      (omega arith) peopled_fresh peopled_process refl refl

-- An output that is queued.
abbrev queued : Disk
queued =
    memory.set (after_nonce peopled unsigned_event (id_of 9) person)
      (pending_event_timed_key unsigned_event) (event_json.marshal unsigned_event)

queued_run : write_pending_group_event_and_nonce peopled unsigned_event (id_of 9) ≡ ok queued
unfolding write_pending_group_event_and_nonce pending_event_identifier_key pending_event_timed_key
    process_key pending_event_signatures_key beq uint64_bytes uint64_value
queued_run = refl

-- It comes again, after its event was signed.
abbrev signed_later : Disk
signed_later = after_signed queued signed_event

signed_later_run : StoreRun queued signed_later
unfolding write_signed_group_event_and_expire_pending pending_event_identifier_key
    pending_event_timed_key process_key pending_event_signatures_key signed_event_timed_key
    check_full_signature beq uint64_bytes
signed_later_run = StoreRun.next StoreRun.here (StoreStep.sign signed_event refl)

queued_once_example :
    write_pending_group_event_and_nonce signed_later unsigned_event (id_of 9) ≢ ok signed_later
queued_once_example =
    queued_once peopled queued signed_later signed_later unsigned_event unsigned_event (id_of 9)
      (omega arith) queued_run signed_later_run

abbrev signed_disk : Disk
signed_disk = after_signed blank signed_event

signed_disk_signatures :
    read_group_event_signatures signed_disk (id_of 1) 0 ≡ ok (zeros 64 ∷ [], true)
unfolding read_group_event_signatures pending_event_signatures_key signed_event_timed_key beq
    uint64_bytes
signed_disk_signatures = refl

-- Partial signatures that come late.
late_partials : StoreRun signed_disk signed_disk
unfolding write_pending_group_event_signatures pending_event_signatures_key signed_event_timed_key
    beq uint64_bytes
late_partials = StoreRun.next StoreRun.here (StoreStep.add_partials (id_of 1) 0 partials refl)

signed_is_final_example :
    read_group_event_signatures signed_disk (id_of 1) 0 ≡ ok (zeros 64 ∷ [], true)
signed_is_final_example =
    signed_is_final signed_disk signed_disk (id_of 1) 0 (zeros 64) signed_disk_signatures
      late_partials refl
