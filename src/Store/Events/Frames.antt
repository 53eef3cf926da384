-- ===== src/Store/Events/Frames.antt =====
-- What the writes of the machine's store leave alone: a key that is of none of their kinds.
use trusted_group.Base.{
  ℕ, ◌≡◌, refl, subst, ◌∙◌, Bytes, Bool, true, false, not, beq, List, [], ◌∷◌, Option, none, some,
  uint64_bytes, arith, if◌then◌else◌, Ordering,
}
use trusted_group.Base.{ok, panic_if, >>=-eq-ok}
use trusted_group.External.{Integers, Database, Json}
use trusted_group.Encoding.{Event}
use trusted_group.Machine.Types.{Process, AccountSnapshot, Asset, CollectibleToken}
use trusted_group.Store.Keys.{
  signed_event_timed_key, process_key, engine_offset_key, asset_meta_key,
  collectible_token_meta_key, collectible_or_asset_key, account_balance_key, account_snapshot_key,
}
use trusted_group.Store.Txn.{remove}
use trusted_group.Store.Accounts.{write_account_snapshot}
use trusted_group.Store.Accounts.Book.{after_snapshot, write_account_snapshot-ok}
use trusted_group.Store.Processes.{write_process, read_process, write_engine_group_events_offset}
use trusted_group.Store.Metadata.{write_asset, write_collectible_token, write_asset_or_collectible}
use trusted_group.Store.Events.{
  expire_signed, expire_and_charge, charge_cost, pay_cost, expire_group_events_with_cost,
}

module _ ⦃ints : Integers⦄ where
  -- A key that is none of those that the other files of the store write, nor one of a signed event.
  pub record Apart (key : Bytes) : Type 0 where
    pub process : (q : Bytes) → beq (process_key q) key ≡ false
    pub offset : (q : Bytes) → beq (engine_offset_key q) key ≡ false
    pub asset : (id : Bytes) → beq (asset_meta_key id) key ≡ false
    pub token : (id : Bytes) → beq (collectible_token_meta_key id) key ≡ false
    pub category : (id : Bytes) → beq (collectible_or_asset_key id) key ≡ false
    pub signed : (q : Bytes) (m : ℕ) → beq (signed_event_timed_key q m) key ≡ false
    pub balance : (q a : Bytes) → beq (account_balance_key q a) key ≡ false
    pub snapshot : (a : AccountSnapshot) → beq (account_snapshot_key a) key ≡ false

module _ ⦃ints : Integers⦄ ⦃database : Database⦄ ⦃event_json : Json Event⦄
    ⦃process_json : Json Process⦄ ⦃snapshot_json : Json AccountSnapshot⦄ ⦃asset_json : Json Asset⦄
    ⦃token_json : Json CollectibleToken⦄ where
  open ints use {Integer}
  open database use {Db, get, get-set, get-delete}

  module _ (key : Bytes) (apart : Apart key) where
    -- What a key holds after a write that may have been skipped.
    pub get-if :
        (d d' : Db) (b : Bool) (x y : Db)
        → d' ≡ (if b then x else y)
        → (b ≡ true → get x key ≡ get d key)
        → (b ≡ false → get y key ≡ get d key)
        → get d' key ≡ get d key
    get-if d d' true x y e hx hy = rw e (hx refl)
    get-if d d' false x y e hx hy = rw e (hy refl)

    expire_signed_frame :
        (d d' : Db) (q : Bytes) (es : List Event)
        → expire_signed d q es ≡ ok d'
        → get d' key ≡ get d key
    unfolding expire_signed
    expire_signed_frame d d' q [] h = let same : d ≡ d' = cc in rw same
    expire_signed_frame d d' q (e ∷ es) h =
        let (u, mine, h₁) = >>=-eq-ok (panic_if (not (beq e.process q))) _ h in
        let (d₁, removed, h₂) =
          >>=-eq-ok (remove d (signed_event_timed_key e.process e.nonce)) _ h₁ in
        expire_signed_frame d₁ d' q es h₂ ∙ removed_frame d₁ removed
      where
        removed_frame :
            (d₁ : Db)
            → remove d (signed_event_timed_key e.process e.nonce) ≡ ok d₁
            → get d₁ key ≡ get d key
        removed_frame d₁ r =
            let kept = get-delete d (signed_event_timed_key e.process e.nonce) key in
            let differ = apart.signed e.process e.nonce in unfold remove in ground arith

    pay_frame :
        (d d' : Db) (cost : Integer) (found : Option Process)
        → pay_cost d cost found ≡ ok d'
        → get d' key ≡ get d key
    unfolding pay_cost
    pay_frame d d' cost none h = cc
    pay_frame d d' cost (some p) h =
        let paid = record p { credit = ints.sub p.credit cost } in
        let kept = get-set d (process_key p.identifier) (process_json.marshal paid) key in
        let differ = apart.process p.identifier in ground arith

    charge_frame :
        (o : Ordering) (d d' : Db) (q : Bytes) (cost : Integer)
        → charge_cost o d q cost ≡ ok d'
        → get d' key ≡ get d key
    unfolding charge_cost
    charge_frame Ordering.eq d d' q cost h = let same : d ≡ d' = cc in rw same
    charge_frame Ordering.lt d d' q cost h =
        let (p, found, paid) = >>=-eq-ok (read_process d q) _ h in pay_frame d d' cost p paid
    charge_frame Ordering.gt d d' q cost h =
        let (p, found, paid) = >>=-eq-ok (read_process d q) _ h in pay_frame d d' cost p paid

    pub expire_frame :
        (d d' : Db) (es : List Event) (cost : Integer)
        → expire_group_events_with_cost d es cost ≡ ok d'
        → get d' key ≡ get d key
    unfolding expire_group_events_with_cost
    expire_frame d d' [] cost h = let same : d ≡ d' = cc in rw same
    expire_frame d d' (e ∷ es) cost h =
        let (d₂, both, committed) = >>=-eq-ok (expire_and_charge d e.process (e ∷ es) cost) _ h in
        let (d₁, expired, charged) = >>=-eq-ok (expire_signed d e.process (e ∷ es)) _ both in
        let same : d₂ ≡ d' = ground arith in
        subst (λ x. get x key ≡ get d key) same
          (charge_frame _ d₁ d₂ e.process cost charged
            ∙ expire_signed_frame d d₁ e.process (e ∷ es) expired)

    pub move_frame :
        (d d' : Db) (a : AccountSnapshot)
        → write_account_snapshot d a ≡ ok d'
        → get d' key ≡ get d key
    move_frame d d' a h =
        get-if d d' _ d (after_snapshot d a) (write_account_snapshot-ok d d' a h) (λ _. refl)
          (λ _. simp (get-set, apart.balance, apart.snapshot))

    pub process_frame :
        (d d' : Db) (p : Process) → write_process d p ≡ ok d' → get d' key ≡ get d key
    unfolding write_process
    process_frame d d' p h =
        let kept = get-set d (process_key p.identifier) (process_json.marshal p) key in
        let differ = apart.process p.identifier in ground arith

    pub offset_frame :
        (d d' : Db) (q : Bytes) (m : ℕ)
        → write_engine_group_events_offset d q m ≡ ok d'
        → get d' key ≡ get d key
    unfolding write_engine_group_events_offset
    offset_frame d d' q m h =
        let kept = get-set d (engine_offset_key q) (uint64_bytes m) key in
        let differ = apart.offset q in ground arith

    pub asset_frame : (d d' : Db) (a : Asset) → write_asset d a ≡ ok d' → get d' key ≡ get d key
    unfolding write_asset
    asset_frame d d' a h =
        let kept = get-set d (asset_meta_key a.id) (asset_json.marshal a) key in
        let differ = apart.asset a.id in ground arith

    pub token_frame :
        (d d' : Db) (t : CollectibleToken)
        → write_collectible_token d t ≡ ok d'
        → get d' key ≡ get d key
    unfolding write_collectible_token
    token_frame d d' t h =
        let kept = get-set d (collectible_token_meta_key t.id) (token_json.marshal t) key in
        let differ = apart.token t.id in ground arith

    pub category_frame :
        (d d' : Db) (id cat : Bytes)
        → write_asset_or_collectible d id cat ≡ ok d'
        → get d' key ≡ get d key
    unfolding write_asset_or_collectible
    category_frame d d' id cat h =
        let kept = get-set d (collectible_or_asset_key id) cat key in
        let differ = apart.category id in ground arith
