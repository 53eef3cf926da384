-- ===== src/Store/Events.antt =====
-- mvm/store/event.go
pub mod Effects
pub mod Steps
pub mod Frames
pub mod Once
pub mod Finality
pub mod Lifecycle
use trusted_group.Base.{
  ℕ, zero, suc, ◌+◌, ◌/◌, ◌%◌, ◌^◌, Bytes, Outcome, ok, panic, ◌>>=◌, ◌>>◌, panic_if, Option, none,
  some, Bool, true, false, not, ltb, ◌==◌, beq, List, [], ◌∷◌, ◌++◌, length, take, drop,
  uint64_bytes, uint64_value, Ordering, if◌then◌else◌,
}
use trusted_group.External.{Integers, Database, Json}
use trusted_group.Encoding.{Event}
use trusted_group.Machine.Types.{Process}
use trusted_group.Store.Keys.{
  pending_event_identifier_key, pending_event_timed_key, pending_event_signatures_key,
  signed_event_timed_key, prefix_pending_event_queue, prefix_signed_event_queue,
}
use trusted_group.Store.Txn.{read, write, remove, update, parse_json}
use trusted_group.Store.Accounts.{minus}
use trusted_group.Store.Processes.{read_process, write_process_txn}

unfoldable pub check_full_signature : Bytes → Bool
check_full_signature val = length val == 64

-- `sigs[i] = val[i*66 : (i+1)*66]` for the `n` signatures of the value.
unfoldable pub split_signatures : ℕ → Bytes → List Bytes
split_signatures zero val = []
split_signatures (suc n) val = take 66 val ∷ split_signatures n (drop 66 val)

-- `for _, p := range partials { … val = append(val, p...) }`
unfoldable pub join_signatures : List Bytes → Outcome Bytes
join_signatures [] = ok []
join_signatures (p ∷ ps) = do
  panic_if (not (length p == 66))
  rest ← join_signatures ps
  ok (p ++ rest)

module _ ⦃database : Database⦄ where
  open database use {Db}

  abbrev stamp_of : Option Bytes → Outcome ℕ
  stamp_of none = ok 0
  stamp_of (some b) = uint64_value b

  unfoldable pub read_pending_group_event_identifier : Db → Bytes → Outcome ℕ
  unfolding read
  read_pending_group_event_identifier d id = do
    found ← read d (pending_event_identifier_key id)
    stamp_of found

  unfoldable pub write_pending_group_event_identifier : Db → Bytes → ℕ → Outcome Db
  unfolding write
  write_pending_group_event_identifier d id ts =
      write d (pending_event_identifier_key id) (uint64_bytes ts)

  unfoldable pub check_pending_group_event_identifier : Db → Bytes → Outcome Bool
  unfolding read_pending_group_event_identifier
  check_pending_group_event_identifier d id = do
    ts ← read_pending_group_event_identifier d id
    ok (ltb 0 ts)

  abbrev is_full : Option Bytes → Bool
  is_full none = false
  is_full (some val) = check_full_signature val

  unfoldable pub check_signed_event : Db → Bytes → ℕ → Outcome Bool
  unfolding read check_full_signature
  check_signed_event d pid nonce = do
    found ← read d (pending_event_signatures_key pid nonce)
    ok (is_full found)

  abbrev signatures_of : Option Bytes → List Bytes × Bool
  signatures_of none = ([], false)
  signatures_of (some val) =
      if length val == 64 then (val ∷ [], true) else (split_signatures (length val / 66) val, false)

  unfoldable pub read_group_event_signatures : Db → Bytes → ℕ → Outcome (List Bytes × Bool)
  unfolding read split_signatures
  read_group_event_signatures d pid nonce = do
    found ← read d (pending_event_signatures_key pid nonce)
    ok (signatures_of found)

  unless_signed : Bool → Db → Outcome Db → Outcome Db
  unless_signed true d result = ok d
  unless_signed false d result = result

  unfoldable pub write_pending_group_event_signatures : Db → Bytes → ℕ → List Bytes → Outcome Db
  unfolding check_signed_event join_signatures unless_signed write update
  write_pending_group_event_signatures d pid nonce partials = update d (do
    full ← check_signed_event d pid nonce
    unless_signed full d
        (do val ← join_signatures partials; write d (pending_event_signatures_key pid nonce) val))

module _ ⦃ints : Integers⦄ ⦃database : Database⦄ ⦃event_json : Json Event⦄ where
  open database use {Db, scan}
  open event_json use {marshal}

  -- The loop of `ListPendingGroupEvents` and `ListSignedGroupEvents`: `taken` events so far, and the
  -- test against the limit after each.
  collect_events : Db → ℕ → ℕ → List (Bytes × Bytes) → Outcome (List Event)
  unfolding read parse_json
  collect_events d limit taken [] = ok []
  collect_events d limit taken ((k, v) ∷ rest) = do
    found ← read d k
    evt ← parse_json v
    let more = collect_events d limit (taken + 1) rest
    evts ← if taken + 1 == limit then ok [] else more
    ok (evt ∷ evts)

  unfoldable pub list_pending_group_events : Db → ℕ → Outcome (List Event)
  unfolding collect_events
  list_pending_group_events d limit = collect_events d limit 0 (scan d prefix_pending_event_queue)

  unfoldable pub list_signed_group_events : Db → Bytes → ℕ → Outcome (List Event)
  unfolding collect_events
  list_signed_group_events d pid limit =
      collect_events d limit 0 (scan d (prefix_signed_event_queue ++ pid))

  unfoldable pub write_signed_group_event_and_expire_pending : Db → Event → Outcome Db
  unfolding check_full_signature check_signed_event unless_signed write remove update
  write_signed_group_event_and_expire_pending d e = update d (do
    panic_if (not (check_full_signature e.signature))
    full ← check_signed_event d e.process e.nonce
    unless_signed full d (do
      d ← remove d (pending_event_timed_key e)
      d ← write d (pending_event_signatures_key e.process e.nonce) e.signature
      write d (signed_event_timed_key e.process e.nonce) (marshal e)))

module _ ⦃ints : Integers⦄ ⦃database : Database⦄ ⦃event_json : Json Event⦄
    ⦃process_json : Json Process⦄ where
  open ints use {Integer, sign}
  open database use {Db}
  open event_json use {marshal}

  -- `proc.Nonce` of a process that is `nil` panics.
  advance_nonce : Db → ℕ → Option Process → Outcome Db
  unfolding write_process_txn
  advance_nonce d nonce none = panic
  advance_nonce d nonce (some proc) = do
    panic_if (not (proc.nonce == nonce))
    write_process_txn d (record proc { nonce = (proc.nonce + 1) % 2 ^ 64 })

  -- The function that `WritePendingGroupEventAndNonce` hands to `Update`.
  add_pending : Db → Event → Bytes → Outcome Db
  unfolding read_pending_group_event_identifier write_pending_group_event_identifier read_process
      advance_nonce check_signed_event unless_signed write
  add_pending d e id = do
    panic_if (e.timestamp == 0)
    ts ← read_pending_group_event_identifier d id
    panic_if (ltb 0 ts)
    d ← write_pending_group_event_identifier d id e.timestamp
    proc ← read_process d e.process
    d ← advance_nonce d e.nonce proc
    full ← check_signed_event d e.process e.nonce
    unless_signed full d (write d (pending_event_timed_key e) (marshal e))

  unfoldable pub write_pending_group_event_and_nonce : Db → Event → Bytes → Outcome Db
  unfolding add_pending update
  write_pending_group_event_and_nonce d e id = update d (add_pending d e id)

  -- `for _, evt := range events { … txn.Delete(key) }`
  expire_signed : Db → Bytes → List Event → Outcome Db
  unfolding remove
  expire_signed d pid [] = ok d
  expire_signed d pid (e ∷ es) = do
    panic_if (not (beq e.process pid))
    d ← remove d (signed_event_timed_key e.process e.nonce)
    expire_signed d pid es

  pay_cost : Db → Integer → Option Process → Outcome Db
  unfolding minus write_process_txn
  pay_cost d cost none = panic
  pay_cost d cost (some p) = do
    credit ← minus p.credit cost
    write_process_txn d (record p { credit = credit })

  charge_cost : Ordering → Db → Bytes → Integer → Outcome Db
  unfolding read_process pay_cost
  charge_cost Ordering.eq d pid cost = ok d
  charge_cost _ d pid cost = do p ← read_process d pid; pay_cost d cost p

  -- The function that `ExpireGroupEventsWithCost` hands to `Update`.
  expire_and_charge : Db → Bytes → List Event → Integer → Outcome Db
  unfolding expire_signed charge_cost
  expire_and_charge d pid es cost = do
    d ← expire_signed d pid es
    charge_cost (sign cost) d pid cost

  unfoldable pub expire_group_events_with_cost : Db → List Event → Integer → Outcome Db
  unfolding expire_and_charge update
  expire_group_events_with_cost d [] cost = ok d
  expire_group_events_with_cost d (e ∷ es) cost =
      update d (expire_and_charge d e.process (e ∷ es) cost)
