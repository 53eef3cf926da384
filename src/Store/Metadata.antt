-- ===== src/Store/Metadata.antt =====
-- mvm/store/asset.go and mvm/store/collectible.go
use trusted_group.Base.{Bytes, Outcome, ok, ◌>>=◌, Option, none, some, []}
use trusted_group.External.{Database, Json}
use trusted_group.Machine.Types.{Asset, CollectibleToken}
use trusted_group.Store.Keys.{asset_meta_key, collectible_token_meta_key, collectible_or_asset_key}
use trusted_group.Store.Txn.{read, write, update, read_json}

module _ ⦃database : Database⦄ where
  open database use {Db}

  abbrev category_of : Option Bytes → Bytes
  category_of none = []
  category_of (some val) = val

  unfoldable pub read_asset_or_collectible : Db → Bytes → Outcome Bytes
  unfolding read
  read_asset_or_collectible d id = do
    found ← read d (collectible_or_asset_key id)
    ok (category_of found)

  unfoldable pub write_asset_or_collectible : Db → Bytes → Bytes → Outcome Db
  unfolding write update
  write_asset_or_collectible d id cat = update d (write d (collectible_or_asset_key id) cat)

  unless_known : {A : Type 0} → Db → Option A → Outcome Db → Outcome Db
  unless_known d (some _) result = ok d
  unless_known d none result = result

  module _ ⦃json : Json Asset⦄ where
    open json use {marshal}

    unfoldable pub read_asset : Db → Bytes → Outcome (Option Asset)
    unfolding read_json
    read_asset d id = read_json d (asset_meta_key id)

    unfoldable pub write_asset : Db → Asset → Outcome Db
    unfolding read_asset unless_known write update
    write_asset d a =
        update d (do
          old ← read_asset d a.id
          unless_known d old (write d (asset_meta_key a.id) (marshal a)))

  module _ ⦃json : Json CollectibleToken⦄ where
    open json use {marshal}

    unfoldable pub read_collectible_token : Db → Bytes → Outcome (Option CollectibleToken)
    unfolding read_json
    read_collectible_token d id = read_json d (collectible_token_meta_key id)

    unfoldable pub write_collectible_token : Db → CollectibleToken → Outcome Db
    unfolding read_collectible_token unless_known write update
    write_collectible_token d a = update d (do
      old ← read_collectible_token d a.id
      unless_known d old (write d (collectible_token_meta_key a.id) (marshal a)))
