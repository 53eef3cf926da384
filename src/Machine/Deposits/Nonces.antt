-- ===== src/Machine/Deposits/Nonces.antt =====
-- The nonce of a process in memory is the one that the store has.
use trusted_group.Base.{
  ◌+◌, ◌%◌, ◌^◌, ◌≡◌, refl, sym, subst, ap, ◌∙◌, Bytes, Bool, true, false, some, if◌then◌else◌,
  lookup, insert, lookup-insert, Bool-cases, inl, inr, beq, beq→eq, beq_refl, arith,
}
use trusted_group.Base.{ok, must, >>=-eq-ok, must-eq-ok}
use trusted_group.External.{Integers, Wire, Database, Json, Network, Output}
use trusted_group.Encoding.{Event}
use trusted_group.Machine.Types.{Process, AccountSnapshot, Asset, CollectibleToken}
use trusted_group.Machine.State.{Engine, Machine}
use trusted_group.Machine.Metadata.{fetch_asset_meta}
use trusted_group.Machine.Metadata.Effects.{Refreshed, fetch_asset_meta-ok}
use trusted_group.Machine.Deposits.{with_asset_meta, deposit_event, queue_event, write_group_event}
use trusted_group.Machine.Deposits.Cases.{
  snapshot_of, with_next_nonce, queue_event-ok, write_group_event-cases,
}
use trusted_group.Store.Keys.{process_key, pending_event_timed_key, prefix_process_payload}
use trusted_group.Store.Keys.Injective.{beq-prefix}
use trusted_group.Store.Keys.Kinds.{process_apart}
use trusted_group.Store.Accounts.{write_account_snapshot}
use trusted_group.Store.Accounts.Book.{after_snapshot, write_account_snapshot-ok}
use trusted_group.Store.Events.{write_pending_group_event_and_nonce}
use trusted_group.Store.Events.Effects.{
  advanced, after_nonce, process_in, signed_in, write_pending-ok,
}

module _ ⦃ints : Integers⦄ ⦃wire : Wire⦄ ⦃database : Database⦄ ⦃network : Network⦄ ⦃engine : Engine⦄
    ⦃event_json : Json Event⦄ ⦃process_json : Json Process⦄ ⦃snapshot_json : Json AccountSnapshot⦄
    ⦃asset_json : Json Asset⦄ ⦃token_json : Json CollectibleToken⦄ where
  open database use {Db, get, set, get-set}
  open process_json use {unmarshal-marshal}

  -- A process of the machine, and the record of it in the store.
  pub record Backed (d : Db) (pid : Bytes) (p : Process) : Type 0 where
    pub named : p.identifier ≡ pid
    pub stored : Process
    pub found : process_in d pid ≡ some stored
    pub stored_name : stored.identifier ≡ pid
    pub same_nonce : stored.nonce ≡ p.nonce

  pub record IsConsistent (m : Machine) : Type 0 where
    pub backed :
        (pid : Bytes) (p : Process) → lookup pid m.processes ≡ some p → Backed m.store pid p

  -- The database has the same processes.
  abbrev pub SameProcesses : Db → Db → Type 0
  SameProcesses d d' = (pid : Bytes) → get d' (process_key pid) ≡ get d (process_key pid)

  Backed-same :
      (d d' : Db) (pid : Bytes) (p : Process)
      → SameProcesses d d'
      → Backed d pid p
      → Backed d' pid p
  Backed-same d d' pid p same b = record {
    named = b.named;
    stored = b.stored;
    found = ground (arith, same pid, b.found);
    stored_name = b.stored_name;
    same_nonce = b.same_nonce;
  }

  Refreshed-processes : (d d' : Db) (id : Bytes) → Refreshed id d d' → SameProcesses d d'
  Refreshed-processes d d' id (inl e) pid = rw e
  Refreshed-processes d d' id (inr (v, e)) pid = rw e (simp (get-set, process_apart))

  pub prepared_processes :
      (d d' : Db) (asset : Bool) (id extra payload : Bytes)
      → with_asset_meta d asset id extra ≡ ok (payload, d')
      → SameProcesses d d'
  unfolding with_asset_meta
  prepared_processes d d' false id extra payload h pid = let e : d ≡ d' = ground arith in rw e
  prepared_processes d d' true id extra payload h pid =
      let ((meta, d₁), fetched, h₁) = >>=-eq-ok (must (fetch_asset_meta d id)) _ h in
      let e : d₁ ≡ d' = ground arith in
      subst (SameProcesses d) e
        (Refreshed-processes d d₁ id (fetch_asset_meta-ok d d₁ id meta (must-eq-ok _ fetched))) pid

  moved_processes :
      (d d' : Db) (a : AccountSnapshot) → write_account_snapshot d a ≡ ok d' → SameProcesses d d'
  moved_processes d d' a h pid = go _ (write_account_snapshot-ok d d' a h)
    where
      go :
          (b : Bool)
          → d' ≡ (if b then d else after_snapshot d a)
          → get d' (process_key pid) ≡ get d (process_key pid)
      go true e = rw e
      go false e = rw e (simp (get-set, process_apart))

  beq-process_key : (p q : Bytes) → beq (process_key p) (process_key q) ≡ beq p q
  unfolding process_key
  beq-process_key p q = beq-prefix prefix_process_payload p q

  -- After an event was queued only its process changed, and has the next nonce.
  queued_process :
      (d d' : Db) (e : Event) (id pid : Bytes) (p : Process)
      → process_in d e.process ≡ some p
      → p.identifier ≡ e.process
      → write_pending_group_event_and_nonce d e id ≡ ok d'
      → get d' (process_key pid) ≡ (
          if beq e.process pid
          then some (process_json.marshal (advanced p))
          else get d (process_key pid))
  queued_process d d' e id pid p found named h =
      let (q, found', turn, stamped, result) = write_pending-ok d d' e id h in
      let same : q ≡ p = ground (arith, found, found') in
      go p named _ (
        subst
          (λ x. d' ≡ (
            if signed_in (after_nonce d e id x) e.process e.nonce
            then after_nonce d e id x
            else set (after_nonce d e id x) (pending_event_timed_key e) (event_json.marshal e)))
          same result)
    where
      go :
          (q : Process)
          → q.identifier ≡ e.process
          → (b : Bool)
          → d' ≡ (
              if b
              then after_nonce d e id q
              else set (after_nonce d e id q) (pending_event_timed_key e) (event_json.marshal e))
          → get d' (process_key pid) ≡ (
              if beq e.process pid
              then some (process_json.marshal (advanced q))
              else get d (process_key pid))
      go q n true r = rw r (simp (get-set, process_apart, beq-process_key, n))
      go q n false r = rw r (simp (get-set, process_apart, beq-process_key, n))

  -- An event of `proc` was queued, from a store `d` with the processes of the machine's.
  module _ (m : Machine) (pid : Bytes) (proc : Process) (e : Event) (id : Bytes) (d d₁ d₂ : Db)
      (c : IsConsistent m) (same : SameProcesses m.store d)
      (known : lookup pid m.processes ≡ some proc) (mine : e.process ≡ proc.identifier)
      (moved : write_account_snapshot d (snapshot_of proc e true) ≡ ok d₁)
      (queued : write_pending_group_event_and_nonce d₁ e id ≡ ok d₂) where
    old : Backed m.store pid proc
    old = c.backed pid proc known

    here : e.process ≡ pid
    here = mine ∙ old.named

    before : SameProcesses m.store d₁
    before k = moved_processes d d₁ _ moved k ∙ same k

    found_before : process_in d₁ e.process ≡ some old.stored
    found_before = rw here (ground (arith, before pid, old.found))

    after_queue :
        (k : Bytes)
        → get d₂ (process_key k) ≡ (
            if beq pid k
            then some (process_json.marshal (advanced old.stored))
            else get m.store (process_key k))
    after_queue k = rw (← before k) (
        rw here at
          (queued_process d₁ d₂ e id k old.stored found_before (old.stored_name ∙ sym here) queued))

    abbrev next : Process
    next = record proc { nonce = (proc.nonce + 1) % 2 ^ 64 }

    next_backed : Backed d₂ pid next
    next_backed = record {
      named = old.named;
      stored = advanced old.stored;
      found =
          ground (arith, after_queue pid, beq_refl pid, unmarshal-marshal (advanced old.stored));
      stored_name = old.stored_name;
      same_nonce = ap (λ n. (n + 1) % 2 ^ 64) old.same_nonce;
    }

    other_backed :
        (k : Bytes) (p : Process) → beq pid k ≡ false → Backed m.store k p → Backed d₂ k p
    other_backed k p differ b = record {
      named = b.named;
      stored = b.stored;
      found = ground (arith, after_queue k, b.found);
      stored_name = b.stored_name;
      same_nonce = b.same_nonce;
    }

    queued_backed :
        (k : Bytes) (p : Process) → lookup k (insert pid next m.processes) ≡ some p → Backed d₂ k p
    queued_backed k p h = elim (Bool-cases (beq pid k)) [
      | inl same ↦
          let is_next : next ≡ p = ground (arith, lookup-insert pid next m.processes k) in
          subst (λ x. Backed d₂ x p) (beq→eq pid k same) (subst (Backed d₂ pid) is_next next_backed)
      | inr differ ↦
          other_backed k p differ
            (c.backed k p (ground (arith, lookup-insert pid next m.processes k)))
    ]

    IsConsistent-queued : IsConsistent (with_next_nonce m d₂ pid proc)
    IsConsistent-queued = record { backed = queued_backed }

  pub IsConsistent-queue_event :
      (m m' : Machine) (d : Db) (pid : Bytes) (proc : Process) (e : Event) (id : Bytes)
      → IsConsistent m
      → SameProcesses m.store d
      → lookup pid m.processes ≡ some proc
      → e.process ≡ proc.identifier
      → queue_event m d pid proc e id ≡ ok m'
      → IsConsistent m'
  IsConsistent-queue_event m m' d pid proc e id c same known mine h =
      let (d₁, d₂, moved, queued, result) = queue_event-ok m m' d pid proc e id h in
      subst IsConsistent (sym result)
        (IsConsistent-queued m pid proc e id d d₁ d₂ c same known mine moved queued)

  -- Only the store changed, and its processes did not.
  pub IsConsistent-same :
      (m : Machine) (d : Db)
      → IsConsistent m
      → SameProcesses m.store d
      → IsConsistent (record m { store = d })
  IsConsistent-same m d c same = record {
    backed = λ k p e. Backed-same m.store d k p same (c.backed k p e);
  }

  -- Every successful `WriteGroupEvent` keeps the machine's processes and the store's in step: each
  -- process of the machine stands in the store under its name, with the same nonce.
  pub write_group_event-IsConsistent :
      (m m' : Machine) (pid : Bytes) (out : Output) (extra : Bytes)
      → IsConsistent m
      → write_group_event m pid out extra ≡ ok m'
      → IsConsistent m'
  write_group_event-IsConsistent m m' pid out extra c h =
      elim (write_group_event-cases m m' pid out extra h) [
        | inl same ↦ subst IsConsistent (sym same) c
        | inr (inl s) ↦ subst IsConsistent (sym s.result) (
            IsConsistent-same m s.d c (λ k.
              prepared_processes m.store s.d s.proc.asset out.asset_id extra s.payload s.prepared
                k))
        | inr (inr q) ↦ subst IsConsistent (sym q.result) (
            IsConsistent-queued m pid q.proc (deposit_event q.proc out q.payload) out.utxo_id q.d
              q.snapshot_db q.event_db c
              (λ k.
                prepared_processes m.store q.d q.proc.asset out.asset_id extra q.payload q.prepared
                  k)
              q.known refl q.moved q.queued)
      ]
