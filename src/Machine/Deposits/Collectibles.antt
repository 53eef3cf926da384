-- ===== src/Machine/Deposits/Collectibles.antt =====
-- `WriteNFOGroupEvent` of mvm/machine/collectible.go keeps the machine and its store in step.
use trusted_group.Base.{
  ◌≡◌, refl, subst, Bytes, Bool, true, false, not, ltb, length, Option, none, some, lookup, inl,
  inr, arith, if◌then◌else◌,
}
use trusted_group.Base.{ok, ◌>>=◌, ◌>>◌, must, >>=-eq-ok, must-eq-ok, panic_if}
use trusted_group.External.{Integers, Wire, Database, Json, Network, CollectibleOutput}
use trusted_group.Encoding.{Event, event_extra_max_size}
use trusted_group.Machine.Types.{Process, AccountSnapshot, Asset, CollectibleToken}
use trusted_group.Machine.State.{Engine, Machine}
use trusted_group.Machine.Metadata.{fetch_collectible_token}
use trusted_group.Machine.Metadata.Effects.{TokenRefreshed, fetch_collectible_token-ok}
use trusted_group.Machine.Deposits.{
  with_token_meta, token_event, queue_event, queue_token, write_token_for, write_nfo_group_event,
  is_eq,
}
use trusted_group.Machine.Deposits.Nonces.{
  SameProcesses, IsConsistent, IsConsistent-queue_event, IsConsistent-same,
}
use trusted_group.Store.Keys.Kinds.{process_apart}
use trusted_group.Store.Events.{check_pending_group_event_identifier}

module _ ⦃ints : Integers⦄ ⦃wire : Wire⦄ ⦃database : Database⦄ ⦃network : Network⦄ ⦃engine : Engine⦄
    ⦃event_json : Json Event⦄ ⦃process_json : Json Process⦄ ⦃snapshot_json : Json AccountSnapshot⦄
    ⦃asset_json : Json Asset⦄ ⦃token_json : Json CollectibleToken⦄ where
  open ints use {of_string, new_integer, cmp}
  open database use {Db, get-set}
  open network use {decimal_string}

  SameProcesses-TokenRefreshed :
      (d d' : Db) (id : Bytes) → TokenRefreshed id d d' → SameProcesses d d'
  SameProcesses-TokenRefreshed d d' id (inl e) pid = rw e
  SameProcesses-TokenRefreshed d d' id (inr (v, e)) pid = rw e (simp (get-set, process_apart))

  SameProcesses-prepared :
      (d d' : Db) (asset : Bool) (id extra payload : Bytes)
      → with_token_meta d asset id extra ≡ ok (payload, d')
      → SameProcesses d d'
  unfolding with_token_meta
  SameProcesses-prepared d d' false id extra payload h pid = let e : d ≡ d' = ground arith in rw e
  SameProcesses-prepared d d' true id extra payload h pid =
      let ((meta, d₁), fetched, h₁) = >>=-eq-ok (must (fetch_collectible_token d id)) _ h in
      let e : d₁ ≡ d' = ground arith in
      subst (SameProcesses d) e
        (SameProcesses-TokenRefreshed d d₁ id
          (fetch_collectible_token-ok d d₁ id meta (must-eq-ok _ fetched)))
        pid

  module _ (m m' : Machine) (pid : Bytes) (proc : Process) (out : CollectibleOutput)
      (payload : Bytes) (d : Db) (c : IsConsistent m) (same : SameProcesses m.store d)
      (known : lookup pid m.processes ≡ some proc) where
    unchanged : ok (record m { store = d }) ≡ ok m' → IsConsistent m'
    unchanged h =
        let e : record m { store = d } ≡ m' = ground arith in
        subst IsConsistent e (IsConsistent-same m d c same)

    IsConsistent-new :
        (done : Bool)
        → (if done then ok (record m { store = d }) else (do
          panic_if (not (is_eq (cmp (of_string (decimal_string out.amount)) (new_integer 1))))
          queue_event m d pid proc (token_event proc out payload) out.output_id))
          ≡ ok m'
        → IsConsistent m'
    IsConsistent-new true h = unchanged h
    IsConsistent-new false h =
        let (u, one, h₁) =
          >>=-eq-ok
            (panic_if (not (is_eq (cmp (of_string (decimal_string out.amount)) (new_integer 1))))) _
            h in
        IsConsistent-queue_event m m' d pid proc (token_event proc out payload) out.output_id c same
          known refl h₁

    IsConsistent-queue_token : queue_token m d pid proc out payload ≡ ok m' → IsConsistent m'
    unfolding queue_token
    IsConsistent-queue_token h = go (ltb event_extra_max_size (length payload)) h
      where
        go :
            (long : Bool)
            → (if long then ok (record m { store = d }) else (do
              done ← must (check_pending_group_event_identifier d out.output_id)
              if done then ok (record m { store = d }) else do
                panic_if (not (is_eq (cmp (of_string (decimal_string out.amount)) (new_integer 1))))
                queue_event m d pid proc (token_event proc out payload) out.output_id))
              ≡ ok m'
            → IsConsistent m'
        go true h = unchanged h
        go false h =
            let (done, checked, h₁) =
              >>=-eq-ok (must (check_pending_group_event_identifier d out.output_id)) _ h in
            IsConsistent-new done h₁

  -- Every successful `WriteNFOGroupEvent` keeps the machine's processes and the store's in step: each
  -- process of the machine stands in the store under its name, with the same nonce.
  pub write_nfo_group_event-IsConsistent :
      (m m' : Machine) (pid : Bytes) (out : CollectibleOutput) (extra : Bytes)
      → IsConsistent m
      → write_nfo_group_event m pid out extra ≡ ok m'
      → IsConsistent m'
  unfolding write_nfo_group_event write_token_for
  write_nfo_group_event-IsConsistent m m' pid out extra c h = go (lookup pid m.processes) refl h
    where
      go :
          (found : Option Process)
          → lookup pid m.processes ≡ found
          → write_token_for m pid found out extra ≡ ok m'
          → IsConsistent m'
      go none known h = let e : m ≡ m' = ground arith in subst IsConsistent e c
      go (some proc) known h =
          let ((payload, d), prepared, h₁) =
            >>=-eq-ok (with_token_meta m.store proc.asset out.token_id extra) _ h in
          IsConsistent-queue_token m m' pid proc out payload d c
            (SameProcesses-prepared m.store d proc.asset out.token_id extra payload prepared) known
            h₁
