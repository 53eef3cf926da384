-- ===== src/Tests/SignatureRuns.antt =====
-- The theorems on mvm/machine/signer.go at a small group.
use trusted_group.Base.{
  ℕ, ◌≡◌, refl, Bytes, [], ◌++◌, none, some, arith, beq, uint64_bytes, sym, ◌∙◌, lookup, insert,
  Table, hex16,
}
use trusted_group.Base.{Outcome, ok}
use trusted_group.Encoding.{
  Event, encode_event, decode_event, write_uuid, write_bytes, put_int, read_uuid, write_members,
  read_members,
}
use trusted_group.Machine.State.{Machine}
use trusted_group.Machine.Signer.{
  Times, sign_round, append_pending_group_event_signature, event_id, is_recent, queue_message,
  sign_event,
}
use trusted_group.Machine.Signer.Authentic.{IsAuthentic}
use trusted_group.Machine.Signer.Rounds.{sign_round-IsAuthentic}
use trusted_group.Machine.Messages.{receive_message}
use trusted_group.Machine.Messages.Authentic.{receive_message-IsAuthentic}
use trusted_group.Store.Keys.{
  pending_event_signatures_key, pending_event_timed_key, signed_event_timed_key,
}
use trusted_group.Store.Events.{
  list_pending_group_events, read_group_event_signatures, write_pending_group_event_signatures,
  write_signed_group_event_and_expire_pending,
}
use trusted_group.Tests.Disk.{memory, blank}
use trusted_group.Tests.Services.{services, counter}
use trusted_group.Tests.Groups.{id_of, group, deposit}
use trusted_group.Tests.Toy.{
  amounts, packets, event_json, process_json, snapshot_json, asset_json, token_json, zeros,
}

abbrev times : Times
times = record { tested = 10; noted = 11; stamped = 12 }

abbrev Signing : Type 0
Signing = Machine × Table ℕ

abbrev signing_from : Outcome Signing → Signing
signing_from (ok r) = r
signing_from _ = (group, [])

abbrev bytes_from : Outcome Bytes → Bytes
bytes_from (ok b) = b
bytes_from _ = []

-- The group when only the deposit is in its store.
abbrev pending_group : Machine
pending_group = record group {
  store = memory.set blank (pending_event_timed_key deposit) (event_json.marshal deposit);
}

unsigned :
    (pid : Bytes) (n : ℕ)
    → memory.get pending_group.store (pending_event_signatures_key pid n) ≡ none
unfolding pending_event_timed_key pending_event_signatures_key beq
unsigned pid n = refl

pending_group-IsAuthentic : IsAuthentic pending_group.store
pending_group-IsAuthentic = record {
  vouched = λ pid n sig h full.
      absurd (let e : none ≡ some sig = sym (unsigned pid n) ∙ h in ground arith);
}

abbrev signing : Signing
signing = signing_from (
    unfold sign_round list_pending_group_events pending_event_signatures_key pending_event_timed_key
      event_id hex16 is_recent lookup insert encode_event queue_message
      append_pending_group_event_signature read_group_event_signatures beq uint64_bytes sign_event
      write_uuid write_bytes put_int write_members write_pending_group_event_signatures in
    sign_round pending_group [] times)

signing_run : sign_round pending_group [] times ≡ ok (signing.0, signing.1)
unfolding sign_round list_pending_group_events pending_event_signatures_key pending_event_timed_key
    event_id hex16 is_recent lookup insert encode_event queue_message
    append_pending_group_event_signature read_group_event_signatures beq uint64_bytes sign_event
    write_uuid write_bytes put_int write_members write_pending_group_event_signatures
signing_run = refl

sign_round-IsAuthentic_example : IsAuthentic (signing.0).store
sign_round-IsAuthentic_example =
    sign_round-IsAuthentic pending_group signing.0 [] signing.1 times pending_group-IsAuthentic
      signing_run

-- A peer sends the full signature of the event.
abbrev signed_event : Event
signed_event = record deposit { signature = zeros 64 }

abbrev message : Bytes
message =
    bytes_from (
      unfold encode_event write_uuid write_bytes put_int write_members in encode_event signed_event)
    ++ zeros 8

abbrev signed_group : Signing
signed_group = signing_from (
    unfold receive_message decode_event encode_event lookup beq read_group_event_signatures
      pending_event_signatures_key pending_event_timed_key signed_event_timed_key uint64_bytes
      write_signed_group_event_and_expire_pending write_uuid write_bytes put_int write_members
      read_uuid read_members in
    receive_message pending_group [] times (id_of 3) message)

signed_group_run :
    receive_message pending_group [] times (id_of 3) message ≡ ok (signed_group.0, signed_group.1)
unfolding receive_message decode_event encode_event lookup beq read_group_event_signatures
    pending_event_signatures_key pending_event_timed_key signed_event_timed_key uint64_bytes
    write_signed_group_event_and_expire_pending write_uuid write_bytes put_int write_members
    read_uuid read_members
signed_group_run = refl

receive_message-IsAuthentic_example : IsAuthentic (signed_group.0).store
receive_message-IsAuthentic_example =
    receive_message-IsAuthentic pending_group signed_group.0 [] signed_group.1 times (id_of 3)
      message pending_group-IsAuthentic signed_group_run
