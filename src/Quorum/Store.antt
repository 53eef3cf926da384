-- ===== src/Quorum/Store.antt =====
-- mvm/quorum/store.go
pub mod Delivery
pub mod Resending
use trusted_group.Base.{
  ℕ, ◌+◌, Bytes, Bool, true, false, ltb, leb, ◌==◌, ◌||◌, ◌&&◌, length, drop, List, [], ◌∷◌, ◌++◌,
  Option, none, some, text, uint64_bytes, uint64_value, if◌then◌else◌,
}
use trusted_group.Base.{Outcome, ok, panic, ◌>>=◌, ◌>>◌, must}
use trusted_group.External.{Integers, Database, Json}
use trusted_group.Encoding.{Event}
use trusted_group.Store.Txn.{read, write, update, parse_json}

abbrev pub prefix_quorum_contract_notifier : Bytes
prefix_quorum_contract_notifier = text "QUORUM:CONTRACT:NOTIFIER:"

abbrev pub prefix_quorum_contract_log_offset : Bytes
prefix_quorum_contract_log_offset = text "QUORUM:CONTRACT:LOG:OFFSET:ALL"

abbrev pub prefix_quorum_contract_event_queue : Bytes
prefix_quorum_contract_event_queue = text "QUORUM:CONTRACT:EVENT:QUEUE:"

abbrev pub prefix_quorum_group_event_queue : Bytes
prefix_quorum_group_event_queue = text "QUORUM:GROUP:EVENT:QUEUE:"

unfoldable pub contract_event_key : Bytes → ℕ → Bytes
contract_event_key address nonce =
    (prefix_quorum_contract_event_queue ++ address) ++ uint64_bytes nonce

unfoldable pub group_event_key : Bytes → ℕ → Bytes
group_event_key address nonce = (prefix_quorum_group_event_queue ++ address) ++ uint64_bytes nonce

-- The order of keys in the database.
unfoldable pub before : Bytes → Bytes → Bool
before [] [] = false
before [] (b ∷ bs) = true
before (a ∷ as') [] = false
before (a ∷ as') (b ∷ bs) = ltb a b || ((a == b) && before as' bs)

-- `it.Seek(key)`: what an iterator still runs through.
unfoldable pub seek : Bytes → List (Bytes × Bytes) → List (Bytes × Bytes)
seek k [] = []
seek k ((j, v) ∷ rest) = let later = seek k rest in if before j k then later else (j, v) ∷ rest

-- `it.Seek(key)` and `it.Item()` of an iterator that runs backwards.
unfoldable pub seek_back : Bytes → List (Bytes × Bytes) → Option (Bytes × Bytes)
seek_back k [] = none
seek_back k ((j, v) ∷ rest) =
    let later = seek_back k rest in
    if before k j then none else elim later [ none ↦ some (j, v) | some x ↦ some x ]

module _ ⦃database : Database⦄ where
  open database use {Db, scan}

  insert_notifier : Db → Bytes → Bytes → Option Bytes → Outcome Db
  unfolding write
  insert_notifier d address notifier (some old) = panic
  insert_notifier d address notifier none =
      write d (prefix_quorum_contract_notifier ++ address) notifier

  unfoldable pub write_contract_notifier : Db → Bytes → Bytes → Outcome Db
  unfolding insert_notifier read update
  write_contract_notifier d address notifier = update d (do
    found ← read d (prefix_quorum_contract_notifier ++ address)
    insert_notifier d address notifier found)

  abbrev pub notifier_of : Option Bytes → Bytes
  notifier_of none = []
  notifier_of (some val) = val

  unfoldable pub read_contract_notifier : Db → Bytes → Outcome Bytes
  unfolding read
  read_contract_notifier d address = do
    found ← must (read d (prefix_quorum_contract_notifier ++ address))
    ok (notifier_of found)

  addresses_of : List (Bytes × Bytes) → List Bytes
  addresses_of [] = []
  addresses_of ((k, v) ∷ rest) = drop (length prefix_quorum_contract_notifier) k ∷ addresses_of rest

  unfoldable pub list_contract_addresses : Db → List Bytes
  unfolding addresses_of
  list_contract_addresses d = addresses_of (scan d prefix_quorum_contract_notifier)

  abbrev pub logs_offset_of : Option Bytes → Outcome ℕ
  logs_offset_of none = ok 0
  logs_offset_of (some val) = uint64_value val

  unfoldable pub read_contract_logs_offset : Db → Outcome ℕ
  unfolding read
  read_contract_logs_offset d = do
    found ← must (read d prefix_quorum_contract_log_offset)
    logs_offset_of found

  unfoldable pub write_contract_logs_offset : Db → ℕ → Outcome Db
  unfolding write update
  write_contract_logs_offset d offset =
      update d (write d prefix_quorum_contract_log_offset (uint64_bytes offset))

module _ ⦃ints : Integers⦄ ⦃database : Database⦄ ⦃event_json : Json Event⦄ where
  open database use {Db, scan}
  open event_json use {marshal}

  event_in : Bytes → Outcome Event
  unfolding parse_json
  event_in v = must (parse_json v)

  unfoldable pub nonce_of : Db → Option (Bytes × Bytes) → Outcome ℕ
  unfolding event_in
  nonce_of d none = ok 0
  nonce_of d (some (k, v)) = do found ← must (read d k); e ← event_in v; ok (e.nonce)

  unfoldable pub read_last_contract_event_nonce : Db → Bytes → Outcome ℕ
  unfolding seek_back nonce_of
  read_last_contract_event_nonce d address =
      let prefix = prefix_quorum_contract_event_queue ++ address in
      nonce_of d
        (seek_back (prefix ++ (255 ∷ 255 ∷ 255 ∷ 255 ∷ 255 ∷ 255 ∷ 255 ∷ 255 ∷ [])) (scan d prefix))

  -- An event that is there is not written again.
  unfoldable pub insert_event : Db → Bytes → Event → Option Bytes → Outcome Db
  unfolding write
  insert_event d key e (some old) = ok d
  insert_event d key e none = write d key (marshal e)

  unfoldable pub write_contract_event : Db → Bytes → Event → Outcome Db
  unfolding insert_event read update
  write_contract_event d address e = update d (do
    found ← read d (contract_event_key address e.nonce)
    insert_event d (contract_event_key address e.nonce) e found)

  -- The loop of the two lists: `taken` events so far, and the test against the limit after each.
  unfoldable pub collect_queue : Db → ℕ → ℕ → List (Bytes × Bytes) → Outcome (List Event)
  unfolding read event_in
  collect_queue d limit taken [] = ok []
  collect_queue d limit taken ((k, v) ∷ rest) = do
    found ← read d k
    e ← event_in v
    let more = collect_queue d limit (taken + 1) rest
    es ← if leb limit (taken + 1) then ok [] else more
    ok (e ∷ es)

  unfoldable pub list_contract_events : Db → Bytes → ℕ → ℕ → Outcome (List Event)
  unfolding collect_queue seek
  list_contract_events d address offset limit = collect_queue d limit 0 (
      seek (contract_event_key address offset)
        (scan d (prefix_quorum_contract_event_queue ++ address)))

  insert_group_events : Db → Bytes → List Event → Outcome Db
  unfolding read insert_event
  insert_group_events d address [] = ok d
  insert_group_events d address (e ∷ es) = do
    found ← read d (group_event_key address e.nonce)
    d ← insert_event d (group_event_key address e.nonce) e found
    insert_group_events d address es

  unfoldable pub write_group_events : Db → Bytes → List Event → Outcome Db
  unfolding insert_group_events update
  write_group_events d address es = update d (insert_group_events d address es)

  unfoldable pub list_group_events : Db → Bytes → ℕ → ℕ → Outcome (List Event)
  unfolding collect_queue seek
  list_group_events d address offset limit =
      collect_queue d limit 0 (
        seek (group_event_key address offset) (scan d (prefix_quorum_group_event_queue ++ address)))
