-- ===== src/Machine/Withdrawals.antt =====
-- Withdrawals: `loopSendEvents`, `loopReceiveEvents` and `buildGroupTransaction` of
-- mvm/machine/process.go.
pub mod Payments
pub mod Rounds
use trusted_group.Base.{
  ℕ, Bytes, Bool, true, false, not, ◌||◌, ◌==◌, ltb, beq, length, List, [], ◌∷◌, ◌++◌, none, some,
  if◌then◌else◌, lookup, insert, Ordering, text, decimal, encode_base64,
}
use trusted_group.Base.{Outcome, ok, err, panic, ◌>>=◌, ◌>>◌, panic_if, must, unless_fault}
use trusted_group.External.{Integers, Wire, Database, Json, Network}
use trusted_group.Encoding.{Event}
use trusted_group.Machine.Types.{
  Process, AccountSnapshot, Asset, CollectibleToken, build_account_snapshot,
}
use trusted_group.Machine.State.{Engine, Machine, Transaction}
use trusted_group.Machine.Metadata.{
  asset_category, collectible_category, check_asset_or_collectible,
}
use trusted_group.Store.Accounts.{is_lt, minus, check_account_snapshot, write_account_snapshot}
use trusted_group.Store.Processes.{
  read_engine_group_events_offset, write_engine_group_events_offset,
}
use trusted_group.Store.Events.{list_signed_group_events, expire_group_events_with_cost}

abbrev pub process_credit_multiplier : ℕ
process_credit_multiplier = 10

abbrev pub is_gt : Ordering → Bool
is_gt Ordering.gt = true
is_gt _ = false

module _ ⦃ints : Integers⦄ ⦃wire : Wire⦄ ⦃database : Database⦄ ⦃network : Network⦄ ⦃engine : Engine⦄
    ⦃event_json : Json Event⦄ ⦃process_json : Json Process⦄ ⦃snapshot_json : Json AccountSnapshot⦄
    ⦃asset_json : Json Asset⦄ ⦃token_json : Json CollectibleToken⦄ where
  open ints use {Integer, cmp, sign, mul, to_string}
  open network use {genesis_id, unique_conversation_id, transaction_fault}
  open engine use {State, estimate_cost, ensure_send_group_events, receive_group_events}

  -- `engine := m.engines[p.Platform]`: a call on an engine that is `nil` panics.
  engine_of : Machine → Process → Outcome State
  engine_of m p = elim (lookup p.platform m.engines) [ none ↦ panic | some e ↦ ok e ]

  -- `if cost.Sign() > 0 { p.Credit = p.Credit.Sub(cost) }`
  charge : Ordering → Process → Integer → Outcome Process
  charge Ordering.gt p cost = do credit ← minus p.credit cost; ok (record p { credit = credit })
  charge _ p cost = ok p

  send_some : Machine → Bytes → Process → List Event → Outcome Machine
  unfolding engine_of charge
  send_some m pid p [] = ok m
  send_some m pid p (e ∷ es) = do
    st ← engine_of m p
    cost ← must (estimate_cost st (e ∷ es))
    if is_lt (cmp p.credit (mul cost process_credit_multiplier)) then ok m else do
      st ← must (ensure_send_group_events st p.address (e ∷ es))
      d ← must (expire_group_events_with_cost m.store (e ∷ es) cost)
      p ← charge (sign cost) p cost
      ok (record m {
        store = d;
        engines = insert p.platform st m.engines;
        processes = insert pid p m.processes;
      })

  -- One round of `loopSendEvents`.
  unfoldable pub send_round : Machine → Bytes → Process → Outcome Machine
  unfolding send_some
  send_round m pid p = do
    events ← must (list_signed_group_events m.store p.identifier 100)
    send_some m pid p events

  -- `if len(evt.Extra) > 96 { … evt.Extra = nil }`
  abbrev short_extra : Bytes → Bytes
  short_extra extra = if ltb 96 (length extra) then [] else extra

  abbrev transaction_for : Process → Event → Bytes → Transaction
  transaction_for p e category = record {
    category = category;
    asset = e.asset;
    receivers = e.members;
    threshold = e.threshold;
    amount = to_string e.amount;
    memo = encode_base64 (short_extra e.extra);
    trace_id =
        unique_conversation_id genesis_id (p.identifier ++ (text ":EVENT#" ++ decimal e.nonce));
  }

  unfoldable pub build_group_transaction : Process → Event → Bytes → Outcome Transaction
  build_group_transaction p e category = do
    panic_if (not (beq p.identifier e.process))
    panic_if (not (beq category asset_category || beq category collectible_category))
    let t = transaction_for p e category
    unless_fault (transaction_fault t.trace_id) t

  -- What the loop over the received events does next.
  pub data Flow : Type 0 where
    go_on stop : Flow

  pub record Received : Type 0 where
    pub machine : Machine
    pub processed : List ℕ

  unfoldable pub was_processed : List ℕ → ℕ → Bool
  was_processed [] n = false
  was_processed (k ∷ ks) n = k == n || was_processed ks n

  -- `continue` where the group does not build the transaction.
  finish_transaction : Received → Bytes → ℕ → Outcome Transaction → Outcome (Received × Flow)
  finish_transaction r pid nonce (err e) = ok (r, go_on)
  finish_transaction r pid nonce panic = panic
  finish_transaction r pid nonce (ok t) = do
    d ← must (write_engine_group_events_offset r.machine.store pid nonce)
    ok (
      record r {
        machine = record r.machine { store = d; transactions = t ∷ r.machine.transactions };
      },
      go_on,
    )

  pay_event : Received → Process → Event → AccountSnapshot → Outcome (Received × Flow)
  unfolding build_group_transaction finish_transaction
  pay_event r p e as' = do
    d ← must (write_account_snapshot r.machine.store as')
    (cat, d) ← must (check_asset_or_collectible d e.asset)
    finish_transaction
        (record { machine = record r.machine { store = d }; processed = e.nonce ∷ r.processed })
        p.identifier e.nonce (build_group_transaction p e cat)

  unfoldable pub receive_event : Received → Process → Event → Outcome (Received × Flow)
  unfolding pay_event was_processed
  receive_event r p e =
      if not (beq e.process p.identifier)
      then ok (r, go_on)
      else if was_processed r.processed e.nonce
      then ok (r, go_on)
      else if not (is_gt (sign e.amount))
      then ok (r, go_on)
      else do
        as' ← build_account_snapshot p e false
        enough ← must (check_account_snapshot r.machine.store as')
        if enough then pay_event r p e as' else ok (r, stop)

  unfoldable pub receive_events : Received → Process → List Event → Outcome Received
  receive_events r p [] = ok r
  receive_events r p (e ∷ es) = do
    (r, flow) ← receive_event r p e
    let rest = receive_events r p es
    elim flow [ go_on ↦ rest | stop ↦ ok r ]

  receive_from : Received → Process → Outcome (List Event) → Outcome Received
  unfolding receive_events
  receive_from r p (err e) = ok r
  receive_from r p panic = panic
  receive_from r p (ok es) = receive_events r p es

  -- One round of `loopReceiveEvents`.
  unfoldable pub receive_round : Received → Process → Outcome Received
  unfolding engine_of receive_from
  receive_round r p = do
    offset ← must (read_engine_group_events_offset r.machine.store p.identifier)
    st ← engine_of r.machine p
    receive_from r p (receive_group_events st p.address offset 100)
