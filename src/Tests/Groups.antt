-- ===== src/Tests/Groups.antt =====
-- A small group with one process, before and after a payment to the process.
use trusted_group.Base.{
  ℕ, ◌≡◌, refl, Bytes, true, false, ok, [], ◌∷◌, beq, uint64_bytes, uint64_value, lookup, insert,
  text,
}
use trusted_group.External.{Output}
use trusted_group.Encoding.{Event}
use trusted_group.Machine.Types.{Process, build_account_snapshot}
use trusted_group.Machine.State.{Machine}
use trusted_group.Machine.Deposits.{write_group_event}
use trusted_group.Store.Keys.{
  process_key, pending_event_identifier_key, pending_event_timed_key, pending_event_signatures_key,
  account_snapshot_key, account_balance_key, snapshot_prefix,
}
use trusted_group.Store.Accounts.{write_account_snapshot}
use trusted_group.Store.Events.{
  check_pending_group_event_identifier, write_pending_group_event_and_nonce,
}
use trusted_group.Machine.Deposits.Cases.{snapshot_of}
use trusted_group.Store.Accounts.Book.{after_snapshot}
use trusted_group.Store.Events.Effects.{after_nonce, advanced}
use trusted_group.Tests.Disk.{memory, blank}
use trusted_group.Tests.Services.{services, counter}
use trusted_group.Tests.Toy.{
  amounts, packets, event_json, process_json, snapshot_json, asset_json, token_json, zeros,
}

abbrev pub id_of : ℕ → Bytes
id_of n = n ∷ zeros 35

abbrev pub person : Process
person = record {
  identifier = id_of 1;
  platform = text "quorum";
  address = text "0x12";
  credit = 100;
  nonce = 0;
  asset = false;
}

abbrev pub group : Machine
group = record {
  store = memory.set blank (process_key (id_of 1)) (process_json.marshal person);
  fee_asset_id = id_of 5;
  fee_amount = 1;
  engines = (text "quorum", 0) ∷ [];
  processes = (id_of 1, person) ∷ [];
  spawned = id_of 1 ∷ [];
  outbox = [];
  broadcasts = [];
  transactions = [];
}

abbrev pub payment : Output
payment = record {
  sender = id_of 7;
  asset_id = id_of 2;
  amount = 5;
  utxo_id = id_of 9;
  memo = [];
  created_at = 1_600_000_000;
}

-- The event that the payment becomes.
abbrev pub deposit : Event
deposit = record {
  process = id_of 1;
  asset = id_of 2;
  members = id_of 7 ∷ [];
  threshold = 1;
  amount = 5;
  extra = [];
  timestamp = 1_600_000_000;
  nonce = 0;
  signature = [];
}

abbrev pub paid_group : Machine
paid_group = record group {
  store =
      memory.set
        (after_nonce (after_snapshot group.store (snapshot_of person deposit true)) deposit
          (id_of 9) person)
        (pending_event_timed_key deposit) (event_json.marshal deposit);
  processes = (id_of 1, advanced person) ∷ [];
}

pub paid_group_run : write_group_event group (id_of 1) payment [] ≡ ok paid_group
unfolding write_group_event lookup insert beq uint64_bytes uint64_value build_account_snapshot
    write_account_snapshot write_pending_group_event_and_nonce check_pending_group_event_identifier
    process_key pending_event_identifier_key pending_event_timed_key pending_event_signatures_key
    account_snapshot_key account_balance_key snapshot_prefix
paid_group_run = refl
