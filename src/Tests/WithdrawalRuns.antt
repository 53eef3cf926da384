-- ===== src/Tests/WithdrawalRuns.antt =====
-- The theorems on mvm/machine/process.go at a small group that was paid.
use trusted_group.Base.{◌≡◌, refl, true, false, List, [], ◌∷◌, arith, beq, uint64_bytes}
use trusted_group.Base.{Outcome, ok}
use trusted_group.Encoding.{Event}
use trusted_group.Machine.Types.{AccountSnapshot, build_account_snapshot}
use trusted_group.Machine.Deposits.Cases.{snapshot_of}
use trusted_group.Machine.Metadata.{check_asset_or_collectible, fetch_asset_meta, encode_asset_meta}
use trusted_group.Machine.Withdrawals.{
  Received, receive_events, receive_event, build_group_transaction, was_processed,
}
use trusted_group.Machine.Withdrawals.Rounds.{Account, receive_events-Account}
use trusted_group.Store.Keys.{
  process_key, account_snapshot_key, account_balance_key, snapshot_prefix, engine_offset_key,
  asset_meta_key, collectible_or_asset_key,
}
use trusted_group.Store.Accounts.{write_account_snapshot, check_account_snapshot}
use trusted_group.Store.Accounts.Book.{Book, post, Shows, IsMovement, after_snapshot, posted_in}
use trusted_group.Store.Accounts.Refinement.{Shows-write_account_snapshot}
use trusted_group.Store.Metadata.{
  read_asset, write_asset, read_asset_or_collectible, write_asset_or_collectible,
}
use trusted_group.Store.Processes.{write_engine_group_events_offset}
use trusted_group.Tests.Disk.{memory, Disk}
use trusted_group.Tests.Services.{services, counter}
use trusted_group.Tests.Groups.{person, group, deposit}
use trusted_group.Tests.Toy.{
  amounts, packets, event_json, process_json, snapshot_json, asset_json, token_json,
}

abbrev empty_book : Book
empty_book = record { posted = λ p n c. false; balance = λ p q. 0 }

abbrev movement : AccountSnapshot
movement = snapshot_of person deposit true

abbrev funded : Disk
funded = after_snapshot group.store movement

abbrev funded_book : Book
funded_book = post empty_book movement

group-Shows : Shows group.store empty_book
unfolding process_key account_balance_key snapshot_prefix beq
group-Shows = record {
  balances = λ p q h. refl;
  movements = λ p n c h k. elim c as (λ c. posted_in group.store p n c ≡ false) [
    | true ↦ refl
    | false ↦ refl
  ];
}

movement-IsMovement : IsMovement movement
movement-IsMovement = record {
  process_length = refl;
  nonce_range = omega arith;
  positive = omega arith;
}

funded_run : write_account_snapshot group.store movement ≡ ok funded
unfolding write_account_snapshot process_key account_balance_key account_snapshot_key
    snapshot_prefix beq uint64_bytes
funded_run = refl

funded-Shows : Shows funded funded_book
funded-Shows =
    Shows-write_account_snapshot group.store funded empty_book movement movement-IsMovement
      group-Shows funded_run

abbrev funded_group : Received
funded_group = record { machine = record group { store = funded }; processed = [] }

abbrev withdrawal : Event
withdrawal = record deposit { amount = 3 }

-- The withdrawal comes twice.
abbrev withdrawals : List Event
withdrawals = withdrawal ∷ withdrawal ∷ []

abbrev received_from : Outcome Received → Received
received_from (ok r) = r
received_from _ = funded_group

abbrev settled : Received
settled = received_from (
    unfold receive_events receive_event write_account_snapshot check_account_snapshot process_key
      account_balance_key account_snapshot_key snapshot_prefix beq uint64_bytes
      build_account_snapshot build_group_transaction was_processed check_asset_or_collectible
      engine_offset_key asset_meta_key collectible_or_asset_key read_asset_or_collectible
      write_asset_or_collectible write_engine_group_events_offset fetch_asset_meta read_asset
      write_asset encode_asset_meta in
    receive_events funded_group person withdrawals)

settled_run : receive_events funded_group person withdrawals ≡ ok settled
unfolding receive_events receive_event write_account_snapshot check_account_snapshot process_key
    account_balance_key account_snapshot_key snapshot_prefix beq uint64_bytes build_account_snapshot
    build_group_transaction was_processed check_asset_or_collectible engine_offset_key
    asset_meta_key collectible_or_asset_key read_asset_or_collectible write_asset_or_collectible
    write_engine_group_events_offset fetch_asset_meta read_asset write_asset encode_asset_meta
settled_run = refl

receive_events-Account_example : Account funded_book person withdrawals funded_group settled
receive_events-Account_example =
    receive_events-Account funded_book person withdrawals funded_group settled refl
      (omega arith, (omega arith, tt)) funded-Shows settled_run
