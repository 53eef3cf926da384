-- ===== src/Machine/Deposits/Redelivery.antt =====
-- An output that the group hands over again is not queued again.
use trusted_group.Base.{
  beq_refl, refl, if◌then◌else◌, ◌≡◌, subst, ◌∙◌, Bytes, Bool, true, false, beq, inl, inr, arith,
}
use trusted_group.Base.{ok, must, >>=-eq-ok, must-eq-ok}
use trusted_group.External.{Integers, Wire, Database, Json, Network, Output}
use trusted_group.Encoding.{Event}
use trusted_group.Machine.Types.{
  Process, AccountSnapshot, Asset, CollectibleToken, build_account_snapshot,
}
use trusted_group.Machine.State.{Engine, Machine}
use trusted_group.Machine.Metadata.{fetch_asset_meta}
use trusted_group.Machine.Metadata.Effects.{Refreshed, fetch_asset_meta-ok}
use trusted_group.Machine.Deposits.{with_asset_meta, write_group_event, queue_event}
use trusted_group.Machine.Deposits.Cases.{write_group_event-cases}
use trusted_group.Store.Keys.{account_snapshot_key, asset_meta_key, pending_event_identifier_key}
use trusted_group.Store.Keys.Kinds.{pending_event_identifier_apart}
use trusted_group.Store.Accounts.{write_account_snapshot}
use trusted_group.Store.Accounts.Book.{is_some, after_snapshot, write_account_snapshot-ok}
use trusted_group.Store.Txn.{NoFaults}
use trusted_group.Store.Events.{check_pending_group_event_identifier}

module _ ⦃ints : Integers⦄ ⦃wire : Wire⦄ ⦃database : Database⦄ ⦃network : Network⦄ ⦃engine : Engine⦄
    ⦃event_json : Json Event⦄ ⦃process_json : Json Process⦄ ⦃snapshot_json : Json AccountSnapshot⦄
    ⦃asset_json : Json Asset⦄ ⦃token_json : Json CollectibleToken⦄ where
  open database use {Db, get, get-set}

  -- The databases differ in the metadata of one asset at most.
  abbrev pub SameButMetadata : Bytes → Db → Db → Type 0
  SameButMetadata id d d' = (k : Bytes) → beq (asset_meta_key id) k ≡ false → get d' k ≡ get d k

  SameButMetadata-Refreshed : (d d' : Db) (id : Bytes) → Refreshed id d d' → SameButMetadata id d d'
  SameButMetadata-Refreshed d d' id (inl e) k apart = rw e
  SameButMetadata-Refreshed d d' id (inr (v, e)) k apart = rw e (simp (get-set, apart))

  SameButMetadata-prepared :
      (d d' : Db) (asset : Bool) (id extra payload : Bytes)
      → with_asset_meta d asset id extra ≡ ok (payload, d')
      → SameButMetadata id d d'
  unfolding with_asset_meta
  SameButMetadata-prepared d d' false id extra payload h k apart =
      let e : d ≡ d' = ground arith in rw e
  SameButMetadata-prepared d d' true id extra payload h k apart =
      let ((meta, d₁), fetched, h₁) = >>=-eq-ok (must (fetch_asset_meta d id)) _ h in
      let e : d₁ ≡ d' = ground arith in
      subst (λ x. get x k ≡ get d k) e
        (SameButMetadata-Refreshed d d₁ id (fetch_asset_meta-ok d d₁ id meta (must-eq-ok _ fetched))
          k apart)

  -- Metadata has no part in whether an output is known.
  still_known :
      (d d' : Db) (id asset : Bytes)
      → NoFaults
      → SameButMetadata asset d d'
      → check_pending_group_event_identifier d id ≡ ok true
      → check_pending_group_event_identifier d' id ≡ ok true
  unfolding check_pending_group_event_identifier
  still_known d d' id asset nf same h =
      let key = pending_event_identifier_key id in
      let apart : beq (asset_meta_key asset) key ≡ false = simp pending_event_identifier_apart in
      ground (arith, nf.reads d key, nf.reads d' key, same key apart)

  -- On a disk without faults, if the store knows an output already, then a successful
  -- `WriteGroupEvent` for it leaves the processes with their nonces as they are, and every record of
  -- the store but the metadata of the output's asset.
  pub write_group_event-known :
      (m m' : Machine) (pid : Bytes) (out : Output) (extra : Bytes)
      → NoFaults
      → check_pending_group_event_identifier m.store out.utxo_id ≡ ok true
      → write_group_event m pid out extra ≡ ok m'
      → (m'.processes ≡ m.processes) × SameButMetadata out.asset_id m.store m'.store
  write_group_event-known m m' pid out extra nf known h =
      elim (write_group_event-cases m m' pid out extra h) [
        | inl same ↦ (λ i. (same i).processes, λ k apart i. get (same i).store k)
        | inr (inl s) ↦ (
          λ i. (s.result i).processes,
          λ k apart.
              (λ i. get (s.result i).store k)
              ∙ SameButMetadata-prepared m.store s.d s.proc.asset out.asset_id extra s.payload
                  s.prepared k apart,
        )
        | inr (inr q) ↦
            let there =
              still_known m.store q.d out.utxo_id out.asset_id nf
                (SameButMetadata-prepared m.store q.d q.proc.asset out.asset_id extra q.payload
                  q.prepared)
                known in
            let fresh = q.new in absurd (let c : ⊥ = ground arith in c)
      ]

  rewritten_snapshot :
      (d d' : Db) (a : AccountSnapshot)
      → NoFaults
      → write_account_snapshot d a ≡ ok d'
      → write_account_snapshot d' a ≡ ok d'
  rewritten_snapshot d d' a nf h =
      let key = account_snapshot_key a in
      let result = write_account_snapshot-ok d d' a h in
      let there : is_some (get d' key) ≡ true = go (is_some (get d key)) refl result in
      unfold write_account_snapshot in ground (arith, nf.reads d' key, nf.commits d')
    where
      go :
          (b : Bool)
          → is_some (get d (account_snapshot_key a)) ≡ b
          → d' ≡ (if b then d else after_snapshot d a)
          → is_some (get d' (account_snapshot_key a)) ≡ true
      go true old e = rw e old
      go false new e = rw e (rw (get-set, beq_refl (account_snapshot_key a)) refl)

  -- On a disk without faults, a machine that stopped after the account snapshot of a deposit was
  -- written, and before its event was, comes to the same end from there as if it had not stopped.
  pub queue_event_resumes :
      (m : Machine) (d d₁ : Db) (pid : Bytes) (proc : Process) (e : Event) (id : Bytes)
      (a : AccountSnapshot)
      → NoFaults
      → build_account_snapshot proc e true ≡ ok a
      → write_account_snapshot d a ≡ ok d₁
      → queue_event m d₁ pid proc e id ≡ queue_event m d pid proc e id
  unfolding queue_event
  queue_event_resumes m d d₁ pid proc e id a nf built moved =
      rw (built, moved, rewritten_snapshot d d₁ a nf moved) refl
