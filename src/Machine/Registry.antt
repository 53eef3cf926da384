-- ===== src/Machine/Registry.antt =====
-- `AddEngine`, `AddProcess` and the start of `Loop` of mvm/machine/machine.go, `Spawn` of
-- mvm/machine/process.go, and the dispatch of outputs in mvm/machine/receiver.go.
pub mod Memos
pub mod Admission
use trusted_group.Base.{
  Bytes, Bool, true, false, not, ◌||◌, ◌==◌, beq, text, contains, List, [], ◌∷◌, Option, none, some,
  if◌then◌else◌, lookup, insert, Table, decode_base64,
}
use trusted_group.Base.{Outcome, ok, err, panic, ◌>>=◌, must}
use trusted_group.External.{Integers, Wire, Database, Json, Network, Output, CollectibleOutput}
use trusted_group.Encoding.{
  Event, Operation, decode_operation, purpose_group_event, purpose_add_process,
}
use trusted_group.Machine.Types.{Process, AccountSnapshot, Asset, CollectibleToken}
use trusted_group.Machine.State.{Engine, Machine}
use trusted_group.Machine.Deposits.{write_group_event, write_nfo_group_event}
use trusted_group.Store.Accounts.{is_lt}
use trusted_group.Store.Processes.{write_process, list_processes}

abbrev pub process_platform_quorum : Bytes
process_platform_quorum = text "quorum"

module _ ⦃ints : Integers⦄ ⦃wire : Wire⦄ ⦃database : Database⦄ ⦃network : Network⦄ ⦃engine : Engine⦄
    ⦃event_json : Json Event⦄ ⦃process_json : Json Process⦄ ⦃snapshot_json : Json AccountSnapshot⦄
    ⦃asset_json : Json Asset⦄ ⦃token_json : Json CollectibleToken⦄ where
  open ints use {zero_integer}
  open network use {decimal_cmp}
  open engine use {State, verify_address, setup_notifier}

  unfoldable pub add_engine : Machine → Bytes → State → Machine
  add_engine m platform e =
      if beq platform process_platform_quorum
      then record m { engines = insert platform e m.engines }
      else m

  -- `m.processes[p.Identifier] = p; m.Spawn(ctx, p)`
  unfoldable pub spawn_process : Machine → Process → Machine
  spawn_process m p = record m {
    processes = insert p.identifier p m.processes;
    spawned = p.identifier ∷ m.spawned;
  }

  spawn_all : Machine → List Process → Machine
  unfolding spawn_process
  spawn_all m [] = m
  spawn_all m (p ∷ ps) = spawn_all (spawn_process m p) ps

  -- The part of `Loop` before its loops.
  unfoldable pub start : Machine → Outcome Machine
  unfolding spawn_all
  start m = do ps ← must (list_processes m.store); ok (spawn_all m ps)

  -- `for _, old := range m.processes { … return false }`
  unfoldable pub is_taken : Table Process → Bytes → Bytes → Bool
  is_taken [] sender address = false
  is_taken ((pid, old) ∷ rest) sender address =
      beq old.identifier sender || (beq old.address address || is_taken rest sender address)

  -- `err != nil` of a call of the engine: the process is not added.
  unless_failed :
      {A : Type 0} → Machine → Outcome A → (A → Outcome (Bool × Machine)) → Outcome (Bool × Machine)
  unless_failed m (ok a) f = f a
  unless_failed m (err e) f = ok (false, m)
  unless_failed m panic f = panic

  abbrev pub new_process : Bytes → Bytes → Output → Bytes → Process
  new_process platform address out extra = record {
    identifier = out.sender;
    platform = platform;
    address = address;
    credit = zero_integer;
    nonce = 0;
    asset = contains extra (text "META");
  }

  add_with_engine :
      Machine → Bytes → Bytes → Output → Bytes → Option State → Outcome (Bool × Machine)
  unfolding unless_failed is_taken spawn_process
  add_with_engine m platform address out extra none = ok (false, m)
  add_with_engine m platform address out extra (some e) =
      if is_taken m.processes out.sender address
      then ok (false, m)
      else unless_failed m (verify_address e address extra) (λ _.
        unless_failed m (setup_notifier e address) (λ e'. do
          let proc = new_process platform address out extra
          d ← must (write_process m.store proc)
          let m' = record m { store = d; engines = insert platform e' m.engines }
          ok (true, spawn_process m' proc)))

  unfoldable pub add_process :
      Machine → Bytes → Bytes → Bytes → Output → Bytes → Outcome (Bool × Machine)
  unfolding add_with_engine
  add_process m pid platform address out extra =
      if not (beq pid out.sender)
      then ok (false, m)
      else if not (beq out.asset_id m.fee_asset_id)
      then ok (false, m)
      else if is_lt (decimal_cmp out.amount m.fee_amount)
      then ok (false, m)
      else add_with_engine m platform address out extra (lookup platform m.engines)

  unfoldable pub parse_operation : Bytes → Outcome Operation
  parse_operation memo = do b ← decode_base64 memo; decode_operation b

  unfoldable pub output_grouper : Output → Outcome Bytes
  output_grouper out = elim (parse_operation out.memo) [
    | ok op ↦ ok op.process
    | err e ↦ ok []
    | panic ↦ panic
  ]

  abbrev pub machine_of : Outcome (Bool × Machine) → Outcome Machine
  machine_of result = do (added, m) ← result; ok m

  dispatch : Machine → Output → Outcome Operation → Outcome Machine
  dispatch m out (err e) = ok m
  dispatch m out panic = panic
  dispatch m out (ok op) =
      if op.purpose == purpose_add_process
      then machine_of (add_process m op.process op.platform op.address out op.extra)
      else if op.purpose == purpose_group_event
      then write_group_event m op.process out op.extra
      else ok m

  unfoldable pub process_output : Machine → Output → Outcome Machine
  unfolding dispatch
  process_output m out = dispatch m out (parse_operation out.memo)

  -- The outputs that are skipped because of a defect of an SDK.
  abbrev pub invalid_collectible_outputs : List Bytes
  invalid_collectible_outputs =
      text "271d7ef5-6bf3-3b96-9c0c-701f7a989435"
      ∷ text "8f96c027-fbf0-39dc-99b7-6ba6cdf9c66c"
      ∷ text "5bb0997f-669a-3e65-8c2f-5cc15de4c9ca"
      ∷ text "175620b8-f4b8-3e66-84bb-669c62d5140d"
      ∷ []

  is_listed : Bytes → List Bytes → Bool
  is_listed id [] = false
  is_listed id (x ∷ xs) = beq x id || is_listed id xs

  dispatch_token : Machine → CollectibleOutput → Outcome Operation → Outcome Machine
  dispatch_token m out (err e) = ok m
  dispatch_token m out panic = panic
  dispatch_token m out (ok op) =
      if op.purpose == purpose_group_event
      then write_nfo_group_event m op.process out op.extra
      else ok m

  unfoldable pub process_collectible_output : Machine → CollectibleOutput → Outcome Machine
  unfolding is_listed dispatch_token
  process_collectible_output m out =
      if is_listed out.output_id invalid_collectible_outputs
      then ok m
      else dispatch_token m out (parse_operation out.memo)
