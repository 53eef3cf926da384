-- ===== src/Machine/Metadata/Effects.antt =====
-- A fetch of an asset's metadata writes its record at most.
use trusted_group.Base.{◌≡◌, subst, Bytes, Option, none, some, inl, inr, ◌⊎◌, arith}
use trusted_group.Base.{ok, >>=-eq-ok, panic_if, not, beq}
use trusted_group.External.{Integers, Wire, Database, Json, Network}
use trusted_group.Machine.Types.{Asset, CollectibleToken}
use trusted_group.Machine.Metadata.{
  asset_from_api, asset_from_store, fetch_asset_meta, encode_asset_meta, encode_collectible_meta,
  token_from_store, fetch_collectible_token,
}
use trusted_group.Store.Keys.{asset_meta_key, collectible_token_meta_key}
use trusted_group.Store.Metadata.{
  read_asset, write_asset, read_collectible_token, write_collectible_token,
}

module _ ⦃ints : Integers⦄ ⦃wire : Wire⦄ ⦃database : Database⦄ ⦃network : Network⦄
    ⦃asset_json : Json Asset⦄ ⦃token_json : Json CollectibleToken⦄ where
  open database use {Db, set}
  open network use {api_read_asset, api_read_collectibles_token}

  -- The store is as it was, or has one more record of the asset.
  abbrev pub Refreshed : Bytes → Db → Db → Type 0
  Refreshed id d d' = (d' ≡ d) ⊎ ((v : Bytes) × (d' ≡ set d (asset_meta_key id) v))

  write_asset-ok : (d d' : Db) (a : Asset) → write_asset d a ≡ ok d' → Refreshed a.id d d'
  unfolding write_asset
  write_asset-ok d d' a h = elim written [ inl e ↦ inl e | inr e ↦ inr (asset_json.marshal a, e) ]
    where
      written : (d' ≡ d) ⊎ (d' ≡ set d (asset_meta_key a.id) (asset_json.marshal a))
      written = ground arith

  asset_from_api-ok :
      (d d' : Db) (id : Bytes) (found : Option (Bytes × Bytes)) (meta : Option Bytes)
      → asset_from_api d id found ≡ ok (meta, d')
      → Refreshed id d d'
  unfolding asset_from_api
  asset_from_api-ok d d' id none meta h = inl (ground arith)
  asset_from_api-ok d d' id (some (symbol, name)) meta h =
      let a : Asset = record { id = id; symbol = symbol; name = name } in
      let (d₁, wrote, h₁) = >>=-eq-ok (write_asset d a) _ h in
      let (b, encoded, h₂) = >>=-eq-ok (encode_asset_meta symbol name) _ h₁ in
      let same : d₁ ≡ d' = ground arith in subst (Refreshed id d) same (write_asset-ok d d₁ a wrote)

  asset_from_store-ok :
      (d d' : Db) (id : Bytes) (old : Option Asset) (meta : Option Bytes)
      → asset_from_store d id old ≡ ok (meta, d')
      → Refreshed id d d'
  unfolding asset_from_store
  asset_from_store-ok d d' id (some old) meta h =
      let (b, encoded, h₁) = >>=-eq-ok (encode_asset_meta old.symbol old.name) _ h in
      inl (ground arith)
  asset_from_store-ok d d' id none meta h =
      let (found, asked, h₁) = >>=-eq-ok (api_read_asset id) _ h in
      asset_from_api-ok d d' id found meta h₁

  pub fetch_asset_meta-ok :
      (d d' : Db) (id : Bytes) (meta : Option Bytes)
      → fetch_asset_meta d id ≡ ok (meta, d')
      → Refreshed id d d'
  unfolding fetch_asset_meta
  fetch_asset_meta-ok d d' id meta h =
      let (old, read, h₁) = >>=-eq-ok (read_asset d id) _ h in
      asset_from_store-ok d d' id old meta h₁

  -- The same for a collectible token.
  abbrev pub TokenRefreshed : Bytes → Db → Db → Type 0
  TokenRefreshed id d d' = (d' ≡ d) ⊎ ((v : Bytes) × (d' ≡ set d (collectible_token_meta_key id) v))

  write_collectible_token-ok :
      (d d' : Db) (t : CollectibleToken)
      → write_collectible_token d t ≡ ok d'
      → TokenRefreshed t.id d d'
  unfolding write_collectible_token
  write_collectible_token-ok d d' t h = elim written [
    | inl e ↦ inl e
    | inr e ↦ inr (token_json.marshal t, e)
  ]
    where
      written : (d' ≡ d) ⊎ (d' ≡ set d (collectible_token_meta_key t.id) (token_json.marshal t))
      written = ground arith

  token_from_store-ok :
      (d d' : Db) (id meta : Bytes) (old : Option CollectibleToken)
      → token_from_store d id old ≡ ok (meta, d')
      → TokenRefreshed id d d'
  unfolding token_from_store
  token_from_store-ok d d' id meta (some old) h =
      let (b, encoded, h₁) = >>=-eq-ok (encode_collectible_meta old.symbol old.name) _ h in
      inl (ground arith)
  token_from_store-ok d d' id meta none h =
      let (token, asked, h₁) = >>=-eq-ok (api_read_collectibles_token id) _ h in
      let (u, mine, h₂) = >>=-eq-ok (panic_if (not (beq token.token_id id))) _ h₁ in
      let (d₁, wrote, h₃) = >>=-eq-ok (write_collectible_token d _) _ h₂ in
      let (b, encoded, h₄) = >>=-eq-ok (encode_collectible_meta token.token token.group) _ h₃ in
      let same : d₁ ≡ d' = ground arith in
      subst (TokenRefreshed id d) same (write_collectible_token-ok d d₁ _ wrote)

  pub fetch_collectible_token-ok :
      (d d' : Db) (id meta : Bytes)
      → fetch_collectible_token d id ≡ ok (meta, d')
      → TokenRefreshed id d d'
  unfolding fetch_collectible_token
  fetch_collectible_token-ok d d' id meta h =
      let (old, read, h₁) = >>=-eq-ok (read_collectible_token d id) _ h in
      token_from_store-ok d d' id meta old h₁
