-- ===== src/Machine/State.antt =====
-- mvm/machine/machine.go and mvm/machine/interface.go: the state of the machine and what it asks of
-- an engine.
use trusted_group.Base.{ℕ, Bytes, List, Outcome, Table}
use trusted_group.External.{Integers, Database, Network}
use trusted_group.Encoding.{Event}
use trusted_group.Machine.Types.{Process}

-- `Engine` of mvm/machine/interface.go. A call that changes the engine returns its new state.
module _ ⦃ints : Integers⦄ where
  open ints use {Integer}

  pub record Engine : Type 1 where
    pub State : Type 0
    pub verify_address : State → Bytes → Bytes → Outcome (Unit {0})
    pub setup_notifier : State → Bytes → Outcome State
    pub estimate_cost : State → List Event → Outcome Integer
    pub ensure_send_group_events : State → Bytes → List Event → Outcome State
    pub receive_group_events : State → Bytes → ℕ → ℕ → Outcome (List Event)

-- A transaction that the machine had the group build.
pub record Transaction : Type 0 where
  pub category : Bytes
  pub asset : Bytes
  pub receivers : List Bytes
  pub threshold : ℕ
  pub amount : Bytes
  pub memo : Bytes
  pub trace_id : Bytes

module _ ⦃ints : Integers⦄ ⦃database : Database⦄ ⦃network : Network⦄ ⦃engine : Engine⦄ where
  open database use {Db}
  open network use {Decimal}
  open engine use {State}

  -- The contents of the warning about an invalid signature.
  pub record Warning : Type 0 where
    pub peer : Bytes
    pub event : Event
    pub message : Bytes
    pub signature : Bytes

  -- `Machine`, with what it sent: the messages to the members of the group, the plain broadcasts,
  -- the transactions, and the processes whose loops were started by `Spawn`.
  pub record Machine : Type 0 where
    pub store : Db
    pub fee_asset_id : Bytes
    pub fee_amount : Decimal
    pub engines : Table State
    pub processes : Table Process
    pub spawned : List Bytes
    pub outbox : List (Bytes × Bytes)
    pub broadcasts : List Warning
    pub transactions : List Transaction
