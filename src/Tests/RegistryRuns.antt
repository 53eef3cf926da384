-- ===== src/Tests/RegistryRuns.antt =====
-- The theorems on requests and memos at a small group.
use trusted_group.Base.{
  ℕ, ◌≡◌, refl, Bytes, Bool, true, false, [], ◌∷◌, arith, beq, lookup, insert, text, contains,
  encode_base64, All, ltb, ◌&&◌, ◌==◌, if◌then◌else◌, ◌<◌,
}
use trusted_group.Base.{Outcome, ok}
use trusted_group.External.{Output}
use trusted_group.Encoding.{
  Operation, encode_operation, purpose_group_event, purpose_add_process, write_uuid, write_bytes,
  put_int,
}
use trusted_group.Encoding.RoundTrip.{IsEncodableOperation}
use trusted_group.Machine.State.{Machine}
use trusted_group.Machine.Deposits.{write_group_event}
use trusted_group.Machine.Registry.{
  add_process, is_taken, output_grouper, process_output, machine_of,
}
use trusted_group.Machine.Registry.Admission.{Decided, add_process-Decided}
use trusted_group.Machine.Registry.Memos.{process_output-memo}
use trusted_group.Store.Keys.{process_key}
use trusted_group.Store.Processes.{write_process}
use trusted_group.Tests.Disk.{memory}
use trusted_group.Tests.Services.{services, counter}
use trusted_group.Tests.Groups.{id_of, group, payment}
use trusted_group.Tests.Toy.{
  amounts, packets, event_json, process_json, snapshot_json, asset_json, token_json,
}

abbrev fee : Output
fee = record {
  sender = id_of 4;
  asset_id = id_of 5;
  amount = 2;
  utxo_id = id_of 8;
  memo = [];
  created_at = 1_600_000_000;
}

abbrev request_from : Outcome (Bool × Machine) → Bool × Machine
request_from (ok r) = r
request_from _ = (false, group)

abbrev request : Bool × Machine
request = request_from (
    unfold add_process is_taken lookup insert beq contains write_process process_key in
    add_process group (id_of 4) (text "quorum") (text "0x34") fee (text "META"))

request_run :
    add_process group (id_of 4) (text "quorum") (text "0x34") fee (text "META") ≡ ok request
unfolding add_process is_taken lookup insert beq contains write_process process_key
request_run = refl

add_process-Decided_example :
    Decided group request (id_of 4) (text "quorum") (text "0x34") fee (text "META")
add_process-Decided_example =
    add_process-Decided group (id_of 4) (text "quorum") (text "0x34") fee (text "META") request
      request_run

abbrev send : Operation
send = record {
  purpose = purpose_group_event;
  process = id_of 1;
  platform = [];
  address = [];
  extra = text "hello";
}

send-IsEncodableOperation : IsEncodableOperation send
send-IsEncodableOperation = record {
  purpose_fits = refl;
  process = (1, refl);
  platform_size = omega arith;
  address_size = omega arith;
  extra_size = omega arith;
}

abbrev bytes_from : Outcome Bytes → Bytes
bytes_from (ok b) = b
bytes_from _ = []

-- A test of the size of bytes.
abbrev are_small : Bytes → Bool
are_small [] = true
are_small (b ∷ bs) = ltb b 256 && are_small bs

small : (b : Bytes) → are_small b ≡ true → All (λ (x : ℕ). x < 256) b
small [] h = tt
small (b ∷ bs) h = (ground arith, small bs (ground arith))

abbrev packed : Bytes
packed =
    bytes_from (unfold encode_operation write_uuid write_bytes put_int in encode_operation send)

packed_run : encode_operation send ≡ ok packed
unfolding encode_operation write_uuid write_bytes put_int
packed_run = refl

packed_small : All (λ (x : ℕ). x < 256) packed
unfolding encode_operation write_uuid write_bytes put_int
packed_small = small packed refl

abbrev message : Output
message = record payment { memo = encode_base64 packed }

process_output-memo_example :
    (output_grouper message ≡ ok (id_of 1))
    × (process_output group message ≡ (
        if purpose_group_event == purpose_add_process
        then machine_of (add_process group (id_of 1) [] [] message (text "hello"))
        else if purpose_group_event == purpose_group_event
        then write_group_event group (id_of 1) message (text "hello")
        else ok group))
process_output-memo_example =
    process_output-memo group message send packed send-IsEncodableOperation packed_run packed_small
      refl
