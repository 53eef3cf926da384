-- ===== src/Store/Events/Steps.antt =====
-- Runs of the store: any sequence of successful calls of its writing operations.
use trusted_group.Base.{ℕ, ◌≡◌, Bytes, List}
use trusted_group.Base.{ok}
use trusted_group.External.{Integers, Database, Json}
use trusted_group.Encoding.{Event}
use trusted_group.Machine.Types.{Process, AccountSnapshot, Asset, CollectibleToken}
use trusted_group.Store.Accounts.{write_account_snapshot}
use trusted_group.Store.Processes.{write_process, write_engine_group_events_offset}
use trusted_group.Store.Metadata.{write_asset, write_collectible_token, write_asset_or_collectible}
use trusted_group.Store.Events.{
  expire_group_events_with_cost, write_pending_group_event_signatures,
  write_signed_group_event_and_expire_pending, write_pending_group_event_and_nonce,
}

module _ ⦃ints : Integers⦄ ⦃database : Database⦄ ⦃event_json : Json Event⦄
    ⦃process_json : Json Process⦄ ⦃snapshot_json : Json AccountSnapshot⦄ ⦃asset_json : Json Asset⦄
    ⦃token_json : Json CollectibleToken⦄ where
  open ints use {Integer}
  open database use {Db}

  -- A successful call of one of the store's writing operations.
  pub data StoreStep (d d' : Db) : Type 0 where
    add_pending :
        (e : Event) (id : Bytes)
        → write_pending_group_event_and_nonce d e id ≡ ok d'
        → StoreStep d d'
    add_partials :
        (pid : Bytes) (n : ℕ) (partials : List Bytes)
        → write_pending_group_event_signatures d pid n partials ≡ ok d'
        → StoreStep d d'
    sign : (e : Event) → write_signed_group_event_and_expire_pending d e ≡ ok d' → StoreStep d d'
    expire :
        (es : List Event) (cost : Integer)
        → expire_group_events_with_cost d es cost ≡ ok d'
        → StoreStep d d'
    move : (a : AccountSnapshot) → write_account_snapshot d a ≡ ok d' → StoreStep d d'
    add_process : (p : Process) → write_process d p ≡ ok d' → StoreStep d d'
    set_offset :
        (pid : Bytes) (n : ℕ) → write_engine_group_events_offset d pid n ≡ ok d' → StoreStep d d'
    add_asset : (a : Asset) → write_asset d a ≡ ok d' → StoreStep d d'
    add_token : (t : CollectibleToken) → write_collectible_token d t ≡ ok d' → StoreStep d d'
    set_category : (id cat : Bytes) → write_asset_or_collectible d id cat ≡ ok d' → StoreStep d d'

  pub data StoreRun (d : Db) : Db → Type 0 where
    here : StoreRun d d
    next : {d₁ d₂ : Db} → StoreRun d d₁ → StoreStep d₁ d₂ → StoreRun d d₂
