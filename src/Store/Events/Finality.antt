-- ===== src/Store/Events/Finality.antt =====
-- A signed event stays signed, with the signature that it has, whatever the machine writes to its
-- store afterwards.
use trusted_group.Base.{
  ℕ, ◌≡◌, refl, ◌∙◌, ap, Bytes, true, false, beq, beq→eq, List, [], ◌∷◌, none, arith, Bool-cases,
  inl, inr,
}
use trusted_group.Base.{ok}
use trusted_group.External.{Integers, Database, Json}
use trusted_group.Encoding.{Event}
use trusted_group.Machine.Types.{Process, AccountSnapshot, Asset, CollectibleToken}
use trusted_group.Store.Keys.{pending_event_timed_key, pending_event_signatures_key}
use trusted_group.Store.Keys.Kinds.{
  pending_event_signatures_apart, process-ne-pending_event_signatures,
  engine_offset-ne-pending_event_signatures, asset_meta-ne-pending_event_signatures,
  collectible_token_meta-ne-pending_event_signatures,
  collectible_or_asset-ne-pending_event_signatures, signed_event_timed-ne-pending_event_signatures,
  account_balance-ne-pending_event_signatures, account_snapshot-ne-pending_event_signatures,
}
use trusted_group.Store.Events.{
  check_full_signature, is_full, read_group_event_signatures, write_pending_group_event_signatures,
  write_signed_group_event_and_expire_pending, write_pending_group_event_and_nonce,
}
use trusted_group.Store.Events.Steps.{
  StoreStep, StoreRun, add_pending, add_partials, sign, expire, move, add_process, set_offset,
  add_asset, add_token, set_category, here, next,
}
use trusted_group.Store.Events.Effects.{
  signed_in, write_partials-ok, write_signed-ok, after_nonce, write_pending-ok,
}
use trusted_group.Store.Events.Frames.{
  Apart, get-if, expire_frame, move_frame, process_frame, offset_frame, asset_frame, token_frame,
  category_frame,
}

module _ ⦃ints : Integers⦄ ⦃database : Database⦄ ⦃event_json : Json Event⦄
    ⦃process_json : Json Process⦄ ⦃snapshot_json : Json AccountSnapshot⦄ ⦃asset_json : Json Asset⦄
    ⦃token_json : Json CollectibleToken⦄ where
  open database use {Db, read_fault, get, set, get-set, get-delete}

  module _ (pid : Bytes) (n : ℕ) where
    abbrev key : Bytes
    key = pending_event_signatures_key pid n

    key-Apart : Apart key
    key-Apart = record {
      process = λ q. process-ne-pending_event_signatures q pid n;
      offset = λ q. engine_offset-ne-pending_event_signatures q pid n;
      asset = λ q. asset_meta-ne-pending_event_signatures q pid n;
      token = λ q. collectible_token_meta-ne-pending_event_signatures q pid n;
      category = λ q. collectible_or_asset-ne-pending_event_signatures q pid n;
      signed = λ q m. signed_event_timed-ne-pending_event_signatures q m pid n;
      balance = λ q a. account_balance-ne-pending_event_signatures q a pid n;
      snapshot = λ a. account_snapshot-ne-pending_event_signatures a pid n;
    }

    pending_frame :
        (d d' : Db) (e : Event) (id : Bytes)
        → write_pending_group_event_and_nonce d e id ≡ ok d'
        → get d' key ≡ get d key
    pending_frame d d' e id h =
        let (p, found, turn, stamped, result) = write_pending-ok d d' e id h in
        let d₁ = after_nonce d e id p in
        let d₂ = set d₁ (pending_event_timed_key e) (event_json.marshal e) in
        get-if key key-Apart d d' _ d₁ d₂ result
          (λ _. simp (get-set, pending_event_signatures_apart))
          (λ _. simp (get-set, pending_event_signatures_apart))

    -- An event that is not signed is another event.
    signed_differs :
        (d : Db) (q : Bytes) (m : ℕ)
        → signed_in d pid n ≡ true
        → signed_in d q m ≡ false
        → beq (pending_event_signatures_key q m) key ≡ false
    signed_differs d q m s h = elim (Bool-cases (beq (pending_event_signatures_key q m) key)) [
      | inl same ↦ ground (arith, beq→eq _ _ same)
      | inr differ ↦ differ
    ]

    partials_frame :
        (d d' : Db) (q : Bytes) (m : ℕ) (partials : List Bytes)
        → signed_in d pid n ≡ true
        → write_pending_group_event_signatures d q m partials ≡ ok d'
        → get d' key ≡ get d key
    partials_frame d d' q m partials s h =
        let (result, sizes) = write_partials-ok d d' q m partials h in
        get-if key key-Apart d d' _ _ _ result (λ _. refl)
          (λ fresh. simp (get-set, signed_differs d q m s fresh))

    signed_frame :
        (d d' : Db) (e : Event)
        → signed_in d pid n ≡ true
        → write_signed_group_event_and_expire_pending d e ≡ ok d'
        → get d' key ≡ get d key
    signed_frame d d' e s h =
        let (full, result) = write_signed-ok d d' e h in
        get-if key key-Apart d d' _ _ _ result (λ _. refl)
          (λ fresh. simp (
            get-set,
            get-delete,
            pending_event_signatures_apart,
            signed_differs d e.process e.nonce s fresh,
          ))

    step_frame : (d d' : Db) → signed_in d pid n ≡ true → StoreStep d d' → get d' key ≡ get d key
    step_frame d d' s (add_pending e id h) = pending_frame d d' e id h
    step_frame d d' s (add_partials q m partials h) = partials_frame d d' q m partials s h
    step_frame d d' s (sign e h) = signed_frame d d' e s h
    step_frame d d' s (expire es cost h) = expire_frame key key-Apart d d' es cost h
    step_frame d d' s (move a h) = move_frame key key-Apart d d' a h
    step_frame d d' s (add_process p h) = process_frame key key-Apart d d' p h
    step_frame d d' s (set_offset q m h) = offset_frame key key-Apart d d' q m h
    step_frame d d' s (add_asset a h) = asset_frame key key-Apart d d' a h
    step_frame d d' s (add_token t h) = token_frame key key-Apart d d' t h
    step_frame d d' s (set_category id cat h) = category_frame key key-Apart d d' id cat h

    run_frame :
        (d : Db) {d' : Db} → signed_in d pid n ≡ true → StoreRun d d' → get d' key ≡ get d key
    run_frame d s here = refl
    run_frame d s (next {d₁ = d₁} {d₂ = d₂} r step) =
        let before = run_frame d s r in step_frame d₁ d₂ (ap is_full before ∙ s) step ∙ before

  -- Once an event is signed, whatever calls of the store's writing operations succeed afterwards, a
  -- read of its signatures gives what it gave: one full signature, the same.
  pub signed_is_final :
      (d d' : Db) (pid : Bytes) (n : ℕ) (sig : Bytes)
      → read_group_event_signatures d pid n ≡ ok (sig ∷ [], true)
      → StoreRun d d'
      → read_fault d' (pending_event_signatures_key pid n) ≡ none
      → read_group_event_signatures d' pid n ≡ ok (sig ∷ [], true)
  unfolding read_group_event_signatures
  signed_is_final d d' pid n sig h r readable =
      let signed : signed_in d pid n ≡ true = unfold check_full_signature in ground arith in
      let kept = run_frame pid n d signed r in ground arith
