-- ===== src/Machine/Deposits.antt =====
-- Deposits become pending events: `WriteGroupEvent` of mvm/machine/machine.go and
-- `WriteNFOGroupEvent` of mvm/machine/collectible.go.
pub mod Cases
pub mod Nonces
pub mod Redelivery
pub mod Collectibles
use trusted_group.Base.{
  ◌+◌, ◌%◌, ◌^◌, Bytes, Bool, true, false, not, ltb, length, [], ◌∷◌, ◌++◌, Option, none, some,
  if◌then◌else◌, lookup, insert, Ordering,
}
use trusted_group.Base.{Outcome, ok, ◌>>=◌, ◌>>◌, panic_if, must}
use trusted_group.External.{Integers, Wire, Database, Json, Network, Output, CollectibleOutput}
use trusted_group.Encoding.{Event, event_extra_max_size}
use trusted_group.Machine.Types.{
  Process, AccountSnapshot, Asset, CollectibleToken, build_account_snapshot,
}
use trusted_group.Machine.State.{Engine, Machine}
use trusted_group.Machine.Metadata.{fetch_asset_meta, fetch_collectible_token}
use trusted_group.Store.Accounts.{write_account_snapshot}
use trusted_group.Store.Events.{
  check_pending_group_event_identifier, write_pending_group_event_and_nonce,
}

module _ ⦃ints : Integers⦄ ⦃wire : Wire⦄ ⦃database : Database⦄ ⦃network : Network⦄ ⦃engine : Engine⦄
    ⦃event_json : Json Event⦄ ⦃process_json : Json Process⦄ ⦃snapshot_json : Json AccountSnapshot⦄
    ⦃asset_json : Json Asset⦄ ⦃token_json : Json CollectibleToken⦄ where
  open ints use {of_string, new_integer, cmp}
  open database use {Db}
  open network use {decimal_string}

  abbrev bytes_of : Option Bytes → Bytes
  bytes_of none = []
  bytes_of (some b) = b

  -- `if proc.Asset { meta, err := m.fetchAssetMeta(…); …; extra = append(meta, extra...) }`
  pub with_asset_meta : Db → Bool → Bytes → Bytes → Outcome (Bytes × Db)
  with_asset_meta d false id extra = ok (extra, d)
  with_asset_meta d true id extra = do
    (meta, d) ← must (fetch_asset_meta d id)
    ok (bytes_of meta ++ extra, d)

  with_token_meta : Db → Bool → Bytes → Bytes → Outcome (Bytes × Db)
  with_token_meta d false id extra = ok (extra, d)
  with_token_meta d true id extra = do
    (meta, d) ← must (fetch_collectible_token d id)
    ok (meta ++ extra, d)

  -- The common end of both operations: the account snapshot, the pending event, the next nonce.
  pub queue_event : Machine → Db → Bytes → Process → Event → Bytes → Outcome Machine
  queue_event m d pid proc evt id = do
    as' ← build_account_snapshot proc evt true
    d ← must (write_account_snapshot d as')
    d ← must (write_pending_group_event_and_nonce d evt id)
    ok (record m {
      store = d;
      processes = insert pid (record proc { nonce = (proc.nonce + 1) % 2 ^ 64 }) m.processes;
    })

  abbrev deposit_event : Process → Output → Bytes → Event
  deposit_event proc out extra = record {
    process = proc.identifier;
    asset = out.asset_id;
    members = out.sender ∷ [];
    threshold = 1;
    amount = of_string (decimal_string out.amount);
    extra = extra;
    timestamp = out.created_at;
    nonce = proc.nonce;
    signature = [];
  }

  queue_output : Machine → Db → Bytes → Process → Output → Bytes → Outcome Machine
  unfolding queue_event
  queue_output m d pid proc out extra =
      if ltb event_extra_max_size (length extra) then ok (record m { store = d }) else do
        done ← must (check_pending_group_event_identifier d out.utxo_id)
        if done
            then ok (record m { store = d })
            else queue_event m d pid proc (deposit_event proc out extra) out.utxo_id

  write_for : Machine → Bytes → Option Process → Output → Bytes → Outcome Machine
  unfolding queue_output with_asset_meta
  write_for m pid none out extra = ok m
  write_for m pid (some proc) out extra = do
    (extra, d) ← with_asset_meta m.store proc.asset out.asset_id extra
    queue_output m d pid proc out extra

  unfoldable pub write_group_event : Machine → Bytes → Output → Bytes → Outcome Machine
  unfolding write_for
  write_group_event m pid out extra = write_for m pid (lookup pid m.processes) out extra

  abbrev is_eq : Ordering → Bool
  is_eq Ordering.eq = true
  is_eq _ = false

  abbrev token_event : Process → CollectibleOutput → Bytes → Event
  token_event proc out extra = record {
    process = proc.identifier;
    asset = out.token_id;
    members = out.senders;
    threshold = out.senders_threshold;
    amount = of_string (decimal_string out.amount);
    extra = extra;
    timestamp = out.created_at;
    nonce = proc.nonce;
    signature = [];
  }

  queue_token : Machine → Db → Bytes → Process → CollectibleOutput → Bytes → Outcome Machine
  unfolding queue_event
  queue_token m d pid proc out extra =
      if ltb event_extra_max_size (length extra) then ok (record m { store = d }) else do
        done ← must (check_pending_group_event_identifier d out.output_id)
        if done then ok (record m { store = d }) else do
          panic_if (not (is_eq (cmp (of_string (decimal_string out.amount)) (new_integer 1))))
          queue_event m d pid proc (token_event proc out extra) out.output_id

  write_token_for : Machine → Bytes → Option Process → CollectibleOutput → Bytes → Outcome Machine
  unfolding queue_token with_token_meta
  write_token_for m pid none out extra = ok m
  write_token_for m pid (some proc) out extra = do
    (extra, d) ← with_token_meta m.store proc.asset out.token_id extra
    queue_token m d pid proc out extra

  unfoldable pub write_nfo_group_event :
      Machine → Bytes → CollectibleOutput → Bytes → Outcome Machine
  unfolding write_token_for
  write_nfo_group_event m pid out extra = write_token_for m pid (lookup pid m.processes) out extra
