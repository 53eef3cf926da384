-- ===== src/Quorum/Chain.antt =====
-- mvm/quorum/engine.go: the engine as the machine sees it, and a round of the loop that reads the
-- logs of the chain.
use trusted_group.Base.{ℕ, ◌+◌, ◌%◌, ◌^◌, Bytes, Bool, true, ltb, beq, List, [], ◌∷◌, if◌then◌else◌}
use trusted_group.Base.{Outcome, ok, err, panic, ◌>>=◌, must, not}
use trusted_group.External.{Integers, Wire, Database, Json, Chain}
use trusted_group.Encoding.{Event, decode_event}
use trusted_group.Machine.State.{Engine}
use trusted_group.Quorum.Store.{
  read_contract_notifier, write_contract_notifier, write_contract_event, list_contract_events,
  write_group_events, read_contract_logs_offset, write_contract_logs_offset,
}

module _ ⦃ints : Integers⦄ ⦃wire : Wire⦄ ⦃database : Database⦄ ⦃event_json : Json Event⦄
    ⦃chain : Chain⦄ where
  open ints use {zero_integer}
  open database use {Db}
  open chain use {notifier_key, public_address, get_address_nonce, get_logs, get_block_height}

  -- `Engine` of the package: its database and its key.
  pub record QuorumEngine : Type 0 where
    pub db : Db
    pub key : Bytes

  with_notifier : QuorumEngine → Bytes → Bytes → Bytes → Outcome QuorumEngine
  with_notifier e address notifier old =
      if beq old notifier
      then ok e
      else if not (beq old [])
      then panic
      else (do d ← write_contract_notifier e.db address notifier; ok (record e { db = d }))

  unfoldable pub setup_notifier : QuorumEngine → Bytes → Outcome QuorumEngine
  unfolding with_notifier
  setup_notifier e address = do
    notifier ← must (notifier_key e.key address)
    nonce ← must (get_address_nonce (public_address notifier))
    old ← read_contract_notifier e.db address
    with_notifier e address notifier old

  -- The five calls of the machine's interface.
  abbrev pub quorum_engine : Engine
  quorum_engine = record {
    State = QuorumEngine;
    verify_address = λ e address extra. chain.verify_address address;
    setup_notifier = setup_notifier;
    estimate_cost = λ e es. ok zero_integer;
    ensure_send_group_events =
        λ e address es. (do d ← write_group_events e.db address es; ok (record e { db = d }));
    receive_group_events = λ e address offset limit. list_contract_events e.db address offset limit;
  }

  -- A log that is no event is skipped.
  write_log : Db → Bytes → Outcome Event → Outcome Db
  write_log d address (ok evt) = must (write_contract_event d address evt)
  write_log d address (err x) = ok d
  write_log d address panic = panic

  write_logs : Db → List (Bytes × Bytes) → Outcome Db
  unfolding write_log
  write_logs d [] = ok d
  write_logs d ((address, bytes) ∷ rest) = do
    d ← write_log d address (decode_event bytes)
    write_logs d rest

  abbrev is_behind : Outcome ℕ → ℕ → Bool
  is_behind (ok height) offset = ltb height ((offset + 10) % 2 ^ 64)
  is_behind _ offset = true

  after_logs : Db → ℕ → Outcome (List (Bytes × Bytes)) → Outcome Db
  unfolding write_logs
  after_logs d offset (err x) = ok d
  after_logs d offset panic = panic
  after_logs d offset (ok logs) = do
    d ← write_logs d logs
    if is_behind get_block_height offset
        then ok d
        else must (write_contract_logs_offset d ((offset + 10) % 2 ^ 64))

  -- One round of `loopGetLogs`.
  unfoldable pub get_logs_round : Db → ℕ → Outcome Db
  unfolding after_logs
  get_logs_round d base = do
    stored ← read_contract_logs_offset d
    let offset = if ltb stored base then base else stored
    after_logs d offset (get_logs offset ((offset + 10) % 2 ^ 64))
