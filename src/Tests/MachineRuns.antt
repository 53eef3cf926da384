-- ===== src/Tests/MachineRuns.antt =====
-- The theorems on mvm/machine at a small group.
use trusted_group.Base.{
  insert, Outcome, true, ok, uint64_bytes, uint64_value, ◌≡◌, refl, [], ◌∷◌, arith, beq, beq→eq,
  lookup, Bool-cases, inl, inr, subst,
}
use trusted_group.Machine.Deposits.Nonces.{IsConsistent, Backed, write_group_event-IsConsistent}
use trusted_group.External.{CollectibleOutput}
use trusted_group.Machine.State.{Machine}
use trusted_group.Machine.Types.{build_account_snapshot}
use trusted_group.Machine.Deposits.{write_group_event, write_nfo_group_event, queue_event}
use trusted_group.Machine.Deposits.Cases.{snapshot_of}
use trusted_group.Store.Accounts.Book.{after_snapshot}
use trusted_group.Machine.Deposits.Collectibles.{write_nfo_group_event-IsConsistent}
use trusted_group.Store.Accounts.{write_account_snapshot}
use trusted_group.Machine.Deposits.Redelivery.{
  SameButMetadata, write_group_event-known, queue_event_resumes,
}
use trusted_group.Store.Keys.{
  process_key, pending_event_identifier_key, pending_event_timed_key, account_snapshot_key,
  account_balance_key, snapshot_prefix, pending_event_signatures_key,
}
use trusted_group.Store.Txn.{NoFaults}
use trusted_group.Store.Events.{
  check_pending_group_event_identifier, write_pending_group_event_and_nonce,
}
use trusted_group.Tests.Disk.{memory, Disk}
use trusted_group.Tests.Services.{services, counter}
use trusted_group.Tests.Groups.{deposit, id_of, person, group, payment, paid_group, paid_group_run}
use trusted_group.Tests.Toy.{
  amounts, packets, event_json, process_json, snapshot_json, asset_json, token_json,
}

person_backed : Backed group.store (id_of 1) person
unfolding process_key beq
person_backed = record {
  named = refl;
  stored = person;
  found = refl;
  stored_name = refl;
  same_nonce = refl;
}

group-IsConsistent : IsConsistent group
unfolding lookup
group-IsConsistent = record {
  backed = λ pid p h. elim (Bool-cases (beq (id_of 1) pid)) [
    | inl same ↦
        subst (λ x. Backed group.store x p) (beq→eq (id_of 1) pid same)
          (subst (Backed group.store (id_of 1)) (let e : person ≡ p = ground arith in e)
            person_backed)
    | inr differ ↦ absurd (let e : ⊥ = ground arith in e)
  ];
}

write_group_event-IsConsistent_example : IsConsistent paid_group
write_group_event-IsConsistent_example =
    write_group_event-IsConsistent group paid_group (id_of 1) payment [] group-IsConsistent
      paid_group_run

memory-NoFaults : NoFaults
memory-NoFaults = record { reads = λ d k. refl; writes = λ d k. refl; commits = λ d. refl }

payment_known : check_pending_group_event_identifier paid_group.store (id_of 9) ≡ ok true
unfolding check_pending_group_event_identifier process_key pending_event_identifier_key
    pending_event_timed_key account_snapshot_key account_balance_key snapshot_prefix beq
    uint64_bytes uint64_value
payment_known = refl

-- The payment is handed over again.
payment_again : write_group_event paid_group (id_of 1) payment [] ≡ ok paid_group
unfolding write_group_event lookup check_pending_group_event_identifier process_key
    pending_event_identifier_key pending_event_timed_key account_snapshot_key account_balance_key
    snapshot_prefix beq uint64_bytes uint64_value
payment_again = refl

write_group_event-known_example :
    (paid_group.processes ≡ paid_group.processes)
    × SameButMetadata (id_of 2) paid_group.store paid_group.store
write_group_event-known_example =
    write_group_event-known paid_group paid_group (id_of 1) payment [] memory-NoFaults payment_known
      payment_again

-- A collectible token for the process.
abbrev token : CollectibleOutput
token = record {
  senders = id_of 7 ∷ [];
  senders_threshold = 1;
  token_id = id_of 6;
  amount = 100_000_000;
  output_id = id_of 9;
  memo = [];
  created_at = 1_600_000_000;
}

abbrev machine_from : Outcome Machine → Machine
machine_from (ok m) = m
machine_from _ = group

abbrev token_group : Machine
token_group = machine_from (
    unfold write_nfo_group_event lookup insert beq uint64_bytes uint64_value build_account_snapshot
      write_account_snapshot write_pending_group_event_and_nonce
      check_pending_group_event_identifier process_key pending_event_identifier_key
      pending_event_timed_key pending_event_signatures_key account_snapshot_key account_balance_key
      snapshot_prefix in
    write_nfo_group_event group (id_of 1) token [])

token_run : write_nfo_group_event group (id_of 1) token [] ≡ ok token_group
unfolding write_nfo_group_event lookup insert beq uint64_bytes uint64_value build_account_snapshot
    write_account_snapshot write_pending_group_event_and_nonce check_pending_group_event_identifier
    process_key pending_event_identifier_key pending_event_timed_key pending_event_signatures_key
    account_snapshot_key account_balance_key snapshot_prefix
token_run = refl

write_nfo_group_event-IsConsistent_example : IsConsistent token_group
write_nfo_group_event-IsConsistent_example =
    write_nfo_group_event-IsConsistent group token_group (id_of 1) token [] group-IsConsistent
      token_run

-- The store of a machine that stopped between the two writes of a deposit.
abbrev interrupted : Disk
interrupted = after_snapshot group.store (snapshot_of person deposit true)

interrupted_run :
    write_account_snapshot group.store (snapshot_of person deposit true) ≡ ok interrupted
unfolding write_account_snapshot process_key account_balance_key account_snapshot_key
    snapshot_prefix beq uint64_bytes
interrupted_run = refl

deposit_snapshot : build_account_snapshot person deposit true ≡ ok (snapshot_of person deposit true)
unfolding build_account_snapshot beq
deposit_snapshot = refl

queue_event_resumes_example :
    queue_event group interrupted (id_of 1) person deposit (id_of 9)
    ≡ queue_event group group.store (id_of 1) person deposit (id_of 9)
queue_event_resumes_example =
    queue_event_resumes group group.store interrupted (id_of 1) person deposit (id_of 9)
      (snapshot_of person deposit true) memory-NoFaults deposit_snapshot interrupted_run
