-- ===== src/Eos/Store.antt =====
-- mvm/eos/store.go: the store of the engine, with the helpers of mvm/quorum/store.go where the two
-- files have the same code.
pub mod Offsets
use trusted_group.Base.{
  ℕ, Bytes, length, drop, List, [], ◌∷◌, ◌++◌, Option, none, some, text, uint64_bytes, Outcome, ok,
  panic, ◌>>=◌, must,
}
use trusted_group.External.{Integers, Database, Json}
use trusted_group.Encoding.{Event}
use trusted_group.Store.Txn.{read, write, update}
use trusted_group.Quorum.Store.{
  seek, seek_back, notifier_of, logs_offset_of, nonce_of, insert_event, collect_queue,
}

abbrev pub prefix_eos_contract_notifier : Bytes
prefix_eos_contract_notifier = text "EOS:CONTRACT:NOTIFIER:"

abbrev pub prefix_eos_contract_log_offset : Bytes
prefix_eos_contract_log_offset = text "EOS:CONTRACT:LOG:OFFSET:"

abbrev pub prefix_eos_contract_event_queue : Bytes
prefix_eos_contract_event_queue = text "EOS:CONTRACT:EVENT:QUEUE:"

abbrev pub prefix_eos_group_event_queue : Bytes
prefix_eos_group_event_queue = text "EOS:GROUP:EVENT:QUEUE:"

abbrev pub prefix_tx_request_nonce : Bytes
prefix_tx_request_nonce = text "EOS:TXREQUEST:OFFSET:"

unfoldable pub eos_event_key : Bytes → ℕ → Bytes
eos_event_key address nonce = (prefix_eos_contract_event_queue ++ address) ++ uint64_bytes nonce

unfoldable pub eos_group_event_key : Bytes → ℕ → Bytes
eos_group_event_key address nonce = (prefix_eos_group_event_queue ++ address) ++ uint64_bytes nonce

module _ ⦃database : Database⦄ where
  open database use {Db, scan}

  unfoldable pub unless_notified : Db → Bytes → Bytes → Option Bytes → Outcome Db
  unfolding write
  unless_notified d address notifier (some old) = panic
  unless_notified d address notifier none =
      write d (prefix_eos_contract_notifier ++ address) notifier

  unfoldable pub store_write_contract_notifier : Db → Bytes → Bytes → Outcome Db
  unfolding unless_notified read update
  store_write_contract_notifier d address notifier = update d (do
    found ← read d (prefix_eos_contract_notifier ++ address)
    unless_notified d address notifier found)

  unfoldable pub store_read_contract_notifier : Db → Bytes → Outcome Bytes
  unfolding read
  store_read_contract_notifier d address = do
    found ← must (read d (prefix_eos_contract_notifier ++ address))
    ok (notifier_of found)

  unfoldable pub without_prefix : List (Bytes × Bytes) → List Bytes
  without_prefix [] = []
  without_prefix ((k, v) ∷ rest) =
      drop (length prefix_eos_contract_notifier) k ∷ without_prefix rest

  unfoldable pub store_list_contract_addresses : Db → List Bytes
  unfolding without_prefix
  store_list_contract_addresses d = without_prefix (scan d prefix_eos_contract_notifier)

  unfoldable pub store_read_contract_logs_offset : Db → Bytes → Outcome ℕ
  unfolding read
  store_read_contract_logs_offset d address = do
    found ← must (read d (prefix_eos_contract_log_offset ++ address))
    logs_offset_of found

  unfoldable pub store_write_contract_logs_offset : Db → Bytes → ℕ → Outcome Db
  unfolding write update
  store_write_contract_logs_offset d address offset =
      update d (write d (prefix_eos_contract_log_offset ++ address) (uint64_bytes offset))

  unfoldable pub store_read_tx_request_nonce : Db → Outcome ℕ
  unfolding read
  store_read_tx_request_nonce d = do
    found ← must (read d prefix_tx_request_nonce)
    logs_offset_of found

  unfoldable pub store_write_tx_request_nonce : Db → ℕ → Outcome Db
  unfolding write update
  store_write_tx_request_nonce d offset =
      update d (write d prefix_tx_request_nonce (uint64_bytes offset))

module _ ⦃ints : Integers⦄ ⦃database : Database⦄ ⦃event_json : Json Event⦄ where
  open database use {Db, scan}

  unfoldable pub store_read_last_contract_event_nonce : Db → Bytes → Outcome ℕ
  unfolding seek_back nonce_of
  store_read_last_contract_event_nonce d address =
      let prefix = prefix_eos_contract_event_queue ++ address in
      nonce_of d
        (seek_back (prefix ++ (255 ∷ 255 ∷ 255 ∷ 255 ∷ 255 ∷ 255 ∷ 255 ∷ 255 ∷ [])) (scan d prefix))

  unfoldable pub store_write_contract_event : Db → Bytes → Event → Outcome Db
  unfolding insert_event read update
  store_write_contract_event d address e = update d (do
    found ← read d (eos_event_key address e.nonce)
    insert_event d (eos_event_key address e.nonce) e found)

  unfoldable pub store_list_contract_events : Db → Bytes → ℕ → ℕ → Outcome (List Event)
  unfolding collect_queue seek
  store_list_contract_events d address offset limit =
      collect_queue d limit 0
        (seek (eos_event_key address offset) (scan d (prefix_eos_contract_event_queue ++ address)))

  unfoldable pub write_each_event : Db → Bytes → List Event → Outcome Db
  unfolding read insert_event
  write_each_event d address [] = ok d
  write_each_event d address (e ∷ es) = do
    found ← read d (eos_group_event_key address e.nonce)
    d ← insert_event d (eos_group_event_key address e.nonce) e found
    write_each_event d address es

  unfoldable pub store_write_group_events : Db → Bytes → List Event → Outcome Db
  unfolding write_each_event update
  store_write_group_events d address es = update d (write_each_event d address es)

  unfoldable pub store_list_group_events : Db → Bytes → ℕ → ℕ → Outcome (List Event)
  unfolding collect_queue seek
  store_list_group_events d address offset limit =
      collect_queue d limit 0 (
        seek (eos_group_event_key address offset)
          (scan d (prefix_eos_group_event_queue ++ address)))
