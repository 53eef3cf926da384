-- ===== src/Machine/Metadata.antt =====
-- The metadata of assets and collectibles: `fetchAssetMeta`, `encodeAssetMeta` and
-- `checkAssetOrCollectible` of mvm/machine/receiver.go, `fetchCollectibleToken` and
-- `encodeCollectibleMeta` of mvm/machine/collectible.go.
pub mod Effects
pub mod Accounts
use trusted_group.Base.{Bytes, not, beq, text, length, [], ◌++◌, Option, none, some, if◌then◌else◌}
use trusted_group.Base.{Outcome, ok, err, panic, ◌>>=◌, ◌>>◌, panic_if}
use trusted_group.External.{Integers, Wire, Database, Json, Network}
use trusted_group.Encoding.Common.{put_int}
use trusted_group.Machine.Types.{Asset, CollectibleToken}
use trusted_group.Store.Metadata.{
  read_asset, write_asset, read_collectible_token, write_collectible_token,
  read_asset_or_collectible, write_asset_or_collectible,
}

module _ ⦃ints : Integers⦄ ⦃wire : Wire⦄ where
  unfoldable pub encode_asset_meta : Bytes → Bytes → Outcome Bytes
  unfolding put_int
  encode_asset_meta symbol name = do
    enc ← put_int [] (length symbol)
    enc ← put_int (enc ++ symbol) (length name)
    ok (enc ++ name)

  unfoldable pub encode_collectible_meta : Bytes → Bytes → Outcome Bytes
  unfolding encode_asset_meta
  encode_collectible_meta symbol name =
      encode_asset_meta (text "NFT#" ++ symbol) (text "Collectible " ++ name)

module _ ⦃ints : Integers⦄ ⦃wire : Wire⦄ ⦃database : Database⦄ ⦃network : Network⦄
    ⦃asset_json : Json Asset⦄ ⦃token_json : Json CollectibleToken⦄ where
  open database use {Db}
  open network use {api_read_asset, api_read_collectibles_token, is_error_codes}

  asset_from_api : Db → Bytes → Option (Bytes × Bytes) → Outcome (Option Bytes × Db)
  asset_from_api d id none = ok (none, d)
  asset_from_api d id (some (symbol, name)) = do
    d ← write_asset d (record { id = id; symbol = symbol; name = name })
    meta ← encode_asset_meta symbol name
    ok (some meta, d)

  asset_from_store : Db → Bytes → Option Asset → Outcome (Option Bytes × Db)
  unfolding asset_from_api
  asset_from_store d id (some old) = do
    meta ← encode_asset_meta old.symbol old.name
    ok (some meta, d)
  asset_from_store d id none = do asset ← api_read_asset id; asset_from_api d id asset

  -- The metadata, `none` for the `nil` of an asset that the API does not know, and the store.
  unfoldable pub fetch_asset_meta : Db → Bytes → Outcome (Option Bytes × Db)
  unfolding asset_from_store
  fetch_asset_meta d id = do old ← read_asset d id; asset_from_store d id old

  token_from_store : Db → Bytes → Option CollectibleToken → Outcome (Bytes × Db)
  token_from_store d id (some old) = do
    meta ← encode_collectible_meta old.symbol old.name
    ok (meta, d)
  token_from_store d id none = do
    token ← api_read_collectibles_token id
    panic_if (not (beq token.token_id id))
    d ← write_collectible_token d (record { id = id; symbol = token.token; name = token.group })
    meta ← encode_collectible_meta token.token token.group
    ok (meta, d)

  unfoldable pub fetch_collectible_token : Db → Bytes → Outcome (Bytes × Db)
  unfolding token_from_store
  fetch_collectible_token d id = do old ← read_collectible_token d id; token_from_store d id old

  abbrev pub asset_category : Bytes
  asset_category = text "ASSET"

  abbrev pub collectible_category : Bytes
  collectible_category = text "COLLECTIBLE"

  -- `if mixin.IsErrorCodes(err, 404, 10002) { err = nil }`: the asset is then `nil`.
  forgive : Db → Outcome (Option Bytes × Db) → Outcome (Option Bytes × Db)
  forgive d (ok found) = ok found
  forgive d (err e) = if is_error_codes e then ok (none, d) else err e
  forgive d panic = panic

  categorize : Bytes → Option Bytes × Db → Outcome (Bytes × Db)
  categorize id (some meta, d) = do
    d ← write_asset_or_collectible d id asset_category
    ok (asset_category, d)
  categorize id (none, d) = do
    (meta, d) ← fetch_collectible_token d id
    d ← write_asset_or_collectible d id collectible_category
    ok (collectible_category, d)

  unfoldable pub check_asset_or_collectible : Db → Bytes → Outcome (Bytes × Db)
  unfolding forgive categorize
  check_asset_or_collectible d id = do
    cat ← read_asset_or_collectible d id
    if not (beq cat [])
        then ok (cat, d)
        else do found ← forgive d (fetch_asset_meta d id); categorize id found
