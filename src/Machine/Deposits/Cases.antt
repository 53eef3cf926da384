-- ===== src/Machine/Deposits/Cases.antt =====
-- What a successful `WriteGroupEvent` did: nothing, a refresh of the asset's metadata, or an event.
use trusted_group.Base.{
  ◌+◌, ◌%◌, ◌^◌, ◌≤◌, ◌≡◌, refl, subst, Bytes, Bool, true, false, ltb, length, Option, none, some,
  if◌then◌else◌, lookup, insert, inl, inr, ◌⊎◌, beq→eq, arith,
}
use trusted_group.Base.{Outcome, ok, err, panic, ◌>>=◌, must, >>=-eq-ok, must-eq-ok}
use trusted_group.External.{Integers, Wire, Database, Json, Network, Output}
use trusted_group.Encoding.{Event, event_extra_max_size}
use trusted_group.Machine.Types.{
  Process, AccountSnapshot, Asset, CollectibleToken, build_account_snapshot,
}
use trusted_group.Machine.State.{Engine, Machine}
use trusted_group.Machine.Deposits.{
  with_asset_meta, deposit_event, queue_output, queue_event, write_for, write_group_event,
}
use trusted_group.Store.Accounts.{write_account_snapshot}
use trusted_group.Store.Events.{
  check_pending_group_event_identifier, write_pending_group_event_and_nonce,
}

module _ ⦃ints : Integers⦄ ⦃wire : Wire⦄ ⦃database : Database⦄ ⦃network : Network⦄ ⦃engine : Engine⦄
    ⦃event_json : Json Event⦄ ⦃process_json : Json Process⦄ ⦃snapshot_json : Json AccountSnapshot⦄
    ⦃asset_json : Json Asset⦄ ⦃token_json : Json CollectibleToken⦄ where
  open database use {Db}

  -- The snapshot of a deposit or a withdrawal.
  abbrev pub snapshot_of : Process → Event → Bool → AccountSnapshot
  snapshot_of p e credit = record {
    process = p.identifier;
    nonce = e.nonce;
    asset = e.asset;
    amount = e.amount;
    credit = credit;
  }

  pub build_account_snapshot-ok :
      (p : Process) (e : Event) (credit : Bool) (a : AccountSnapshot)
      → build_account_snapshot p e credit ≡ ok a
      → (p.identifier ≡ e.process) × (a ≡ snapshot_of p e credit)
  unfolding build_account_snapshot
  build_account_snapshot-ok p e credit a h =
      (ground (arith, beq→eq p.identifier e.process), ground arith)

  abbrev pub with_next_nonce : Machine → Db → Bytes → Process → Machine
  with_next_nonce m d pid proc = record m {
    store = d;
    processes = insert pid (record proc { nonce = (proc.nonce + 1) % 2 ^ 64 }) m.processes;
  }

  -- An event was queued for the process `proc`, from a store `d` that has the metadata.
  pub record Queued (m m' : Machine) (pid : Bytes) (out : Output) (extra : Bytes) : Type 0 where
    pub proc : Process
    pub payload : Bytes
    pub d : Db
    pub snapshot_db : Db
    pub event_db : Db
    pub known : lookup pid m.processes ≡ some proc
    pub prepared : with_asset_meta m.store proc.asset out.asset_id extra ≡ ok (payload, d)
    pub fits : length payload ≤ 256
    pub new : check_pending_group_event_identifier d out.utxo_id ≡ ok false
    pub moved :
        write_account_snapshot d (snapshot_of proc (deposit_event proc out payload) true)
        ≡ ok snapshot_db
    pub queued :
        write_pending_group_event_and_nonce snapshot_db (deposit_event proc out payload) out.utxo_id
        ≡ ok event_db
    pub result : m' ≡ with_next_nonce m event_db pid proc

  -- Nothing but metadata was written for a process: the payload is too long, or the output known.
  pub record Skipped (m m' : Machine) (pid : Bytes) (out : Output) (extra : Bytes) : Type 0 where
    pub proc : Process
    pub payload : Bytes
    pub d : Db
    pub known : lookup pid m.processes ≡ some proc
    pub prepared : with_asset_meta m.store proc.asset out.asset_id extra ≡ ok (payload, d)
    pub reason :
        (256 + 1 ≤ length payload) ⊎ (check_pending_group_event_identifier d out.utxo_id ≡ ok true)
    pub result : m' ≡ record m { store = d }

  -- The three writes of `queue_event`.
  pub queue_event-ok :
      (m m' : Machine) (d : Db) (pid : Bytes) (proc : Process) (e : Event) (id : Bytes)
      → queue_event m d pid proc e id ≡ ok m'
      → (d₁ : Db) × (d₂ : Db) × (write_account_snapshot d (snapshot_of proc e true) ≡ ok d₁)
        × (write_pending_group_event_and_nonce d₁ e id ≡ ok d₂)
        × (m' ≡ with_next_nonce m d₂ pid proc)
  unfolding queue_event
  queue_event-ok m m' d pid proc e id h =
      let (a, built, h₁) = >>=-eq-ok (build_account_snapshot proc e true) _ h in
      let (d₁, moved, h₂) = >>=-eq-ok (must (write_account_snapshot d a)) _ h₁ in
      let (d₂, queued, h₃) = >>=-eq-ok (must (write_pending_group_event_and_nonce d₁ e id)) _ h₂ in
      let (same, shape) = build_account_snapshot-ok proc e true a built in
      (
        d₁,
        d₂,
        subst (λ x. write_account_snapshot d x ≡ ok d₁) shape (must-eq-ok _ moved),
        must-eq-ok _ queued,
        ground arith,
      )

  module _ (m m' : Machine) (d : Db) (pid : Bytes) (proc : Process) (out : Output)
      (extra payload : Bytes) (known : lookup pid m.processes ≡ some proc)
      (prepared : with_asset_meta m.store proc.asset out.asset_id extra ≡ ok (payload, d)) where
    abbrev checked : Outcome Bool → Outcome Machine
    checked c = do
      done ← must c
      if done
          then ok (record m { store = d })
          else queue_event m d pid proc (deposit_event proc out payload) out.utxo_id

    checked-cases :
        (c : Outcome Bool)
        → check_pending_group_event_identifier d out.utxo_id ≡ c
        → length payload ≤ 256
        → checked c ≡ ok m'
        → Skipped m m' pid out extra ⊎ Queued m m' pid out extra
    checked-cases (ok true) e fits h = inl (record {
      proc = proc;
      payload = payload;
      d = d;
      known = known;
      prepared = prepared;
      reason = inr e;
      result = ground arith;
    })
    checked-cases (ok false) e fits h =
        let (d₁, d₂, moved, queued, result) =
          queue_event-ok m m' d pid proc (deposit_event proc out payload) out.utxo_id h in
        inr (record {
          proc = proc;
          payload = payload;
          d = d;
          snapshot_db = d₁;
          event_db = d₂;
          known = known;
          prepared = prepared;
          fits = fits;
          new = e;
          moved = moved;
          queued = queued;
          result = result;
        })
    checked-cases (err x) e fits h = cc
    checked-cases panic e fits h = cc

    sized-cases :
        (long : Bool)
        → ltb event_extra_max_size (length payload) ≡ long
        → (if long
            then ok (record m { store = d })
            else checked (check_pending_group_event_identifier d out.utxo_id))
          ≡ ok m'
        → Skipped m m' pid out extra ⊎ Queued m m' pid out extra
    sized-cases true e h = inl (record {
      proc = proc;
      payload = payload;
      d = d;
      known = known;
      prepared = prepared;
      reason = inl (ground arith);
      result = ground arith;
    })
    sized-cases false e h = checked-cases _ refl (ground arith) h

    queue_output-cases :
        queue_output m d pid proc out payload ≡ ok m'
        → Skipped m m' pid out extra ⊎ Queued m m' pid out extra
    unfolding queue_output
    queue_output-cases h = sized-cases _ refl h

  write_for-cases :
      (m m' : Machine) (pid : Bytes) (out : Output) (extra : Bytes) (found : Option Process)
      → lookup pid m.processes ≡ found
      → write_for m pid found out extra ≡ ok m'
      → (m' ≡ m) ⊎ (Skipped m m' pid out extra ⊎ Queued m m' pid out extra)
  unfolding write_for
  write_for-cases m m' pid out extra none k h = inl (ground arith)
  write_for-cases m m' pid out extra (some proc) k h =
      let ((payload, d), prepared, h₁) =
        >>=-eq-ok (with_asset_meta m.store proc.asset out.asset_id extra) _ h in
      inr (queue_output-cases m m' d pid proc out extra payload k prepared h₁)

  pub write_group_event-cases :
      (m m' : Machine) (pid : Bytes) (out : Output) (extra : Bytes)
      → write_group_event m pid out extra ≡ ok m'
      → (m' ≡ m) ⊎ (Skipped m m' pid out extra ⊎ Queued m m' pid out extra)
  unfolding write_group_event
  write_group_event-cases m m' pid out extra h =
      write_for-cases m m' pid out extra (lookup pid m.processes) refl h
