-- ===== src/Store/Keys.antt =====
-- The keys of mvm/store: a prefix for each kind of record, then what names the record.
pub mod Injective
pub mod Kinds
use trusted_group.Base.{ℕ, Bytes, Bool, true, false, ◌++◌, text, uint64_bytes}
use trusted_group.External.{Integers}
use trusted_group.Encoding.{Event}
use trusted_group.Machine.Types.{AccountSnapshot}

abbrev pub prefix_account_snapshot_inc : Bytes
prefix_account_snapshot_inc = text "MVM:ACCOUNT:SNAPSHOT:INC:"

abbrev pub prefix_account_snapshot_dec : Bytes
prefix_account_snapshot_dec = text "MVM:ACCOUNT:SNAPSHOT:DEC:"

abbrev pub prefix_account_balance : Bytes
prefix_account_balance = text "MVM:ACCOUNT:BALANCE:"

abbrev pub prefix_pending_event_queue : Bytes
prefix_pending_event_queue = text "MVM:EVENT:PENDING:QUEUE:"

abbrev pub prefix_pending_event_signatures : Bytes
prefix_pending_event_signatures = text "MVM:EVENT:PENDING:SIGNATURES:"

abbrev pub prefix_pending_event_identifier : Bytes
prefix_pending_event_identifier = text "MVM:EVENT:PENDING:IDENTIFIER:"

abbrev pub prefix_signed_event_queue : Bytes
prefix_signed_event_queue = text "MVM:EVENT:SIGNED:QUEUE:"

abbrev pub prefix_process_payload : Bytes
prefix_process_payload = text "MVM:PROCESS:PAYLOAD:"

abbrev pub prefix_engine_group_events_offset : Bytes
prefix_engine_group_events_offset = text "MVM:ENGINE:GROUP:EVENTS:OFFSET:"

abbrev pub prefix_asset_meta : Bytes
prefix_asset_meta = text "MVM:ASSET:META:"

abbrev pub prefix_collectible_token_meta : Bytes
prefix_collectible_token_meta = text "MVM:COLLECTIBLE:TOKEN:META:"

abbrev pub prefix_collectible_or_asset : Bytes
prefix_collectible_or_asset = text "MVM:OR:COLLECTIBLE:ASSET:"

unfoldable pub snapshot_prefix : Bool → Bytes
snapshot_prefix true = prefix_account_snapshot_inc
snapshot_prefix false = prefix_account_snapshot_dec

unfoldable pub account_balance_key : Bytes → Bytes → Bytes
account_balance_key pid asset = prefix_account_balance ++ (pid ++ asset)

unfoldable pub pending_event_signatures_key : Bytes → ℕ → Bytes
pending_event_signatures_key pid nonce =
    prefix_pending_event_signatures ++ (pid ++ uint64_bytes nonce)

unfoldable pub signed_event_timed_key : Bytes → ℕ → Bytes
signed_event_timed_key pid nonce = prefix_signed_event_queue ++ (pid ++ uint64_bytes nonce)

unfoldable pub pending_event_identifier_key : Bytes → Bytes
pending_event_identifier_key id = prefix_pending_event_identifier ++ id

unfoldable pub process_key : Bytes → Bytes
process_key pid = prefix_process_payload ++ pid

unfoldable pub engine_offset_key : Bytes → Bytes
engine_offset_key pid = prefix_engine_group_events_offset ++ pid

unfoldable pub asset_meta_key : Bytes → Bytes
asset_meta_key id = prefix_asset_meta ++ id

unfoldable pub collectible_token_meta_key : Bytes → Bytes
collectible_token_meta_key id = prefix_collectible_token_meta ++ id

unfoldable pub collectible_or_asset_key : Bytes → Bytes
collectible_or_asset_key id = prefix_collectible_or_asset ++ id

module _ ⦃ints : Integers⦄ where
  unfoldable pub account_snapshot_key : AccountSnapshot → Bytes
  unfolding snapshot_prefix
  account_snapshot_key as' = snapshot_prefix as'.credit ++ (as'.process ++ uint64_bytes as'.nonce)

  unfoldable pub pending_event_timed_key : Event → Bytes
  pending_event_timed_key e =
      prefix_pending_event_queue
      ++ (uint64_bytes e.timestamp ++ (e.process ++ uint64_bytes e.nonce))
