-- ===== src/Quorum/Store/Resending.antt =====
-- Events that are handed to the engine again change nothing: what `storeWriteGroupEvents` of
-- mvm/quorum/store.go promises to a machine that stopped before it noted that they were sent.
use trusted_group.Base.{
  ◌≡◌, refl, subst, Bytes, Bool, true, false, beq, beq_refl, List, [], ◌∷◌, Option, none, some,
  arith, All, if◌then◌else◌,
}
use trusted_group.Base.{ok, >>=-eq-ok}
use trusted_group.External.{Integers, Database, Json}
use trusted_group.Encoding.{Event}
use trusted_group.Store.Txn.{NoFaults, read, write, update}
use trusted_group.Store.Accounts.Book.{is_some}
use trusted_group.Quorum.Store.{
  group_event_key, insert_event, insert_group_events, write_group_events,
}

module _ ⦃ints : Integers⦄ ⦃database : Database⦄ ⦃event_json : Json Event⦄ where
  open database use {Db, get, set, get-set}
  open event_json use {marshal}

  -- The key holds a record.
  abbrev Present : Db → Bytes → Type 0
  Present d k = is_some (get d k) ≡ true

  Present-set : (d : Db) (j v k : Bytes) → Present d k → Present (set d j v) k
  Present-set d j v k h = rw get-set (go (beq j k))
    where
      go : (b : Bool) → is_some (if b then some v else get d k) ≡ true
      go true = refl
      go false = h

  insert_event-Present :
      (d d' : Db) (j : Bytes) (e : Event) (found : Option Bytes)
      → get d j ≡ found
      → insert_event d j e found ≡ ok d'
      → ((k : Bytes) → Present d k → Present d' k) × Present d' j
  unfolding insert_event
  insert_event-Present d d' j e (some old) there h =
      let same : d ≡ d' = ground arith in
      let here : Present d j = ground arith in
      (λ k p. subst (λ x. Present x k) same p, subst (λ x. Present x j) same here)
  insert_event-Present d d' j e none there h =
      let same : set d j (marshal e) ≡ d' = unfold write in ground arith in
      let here : Present (set d j (marshal e)) j = rw (get-set, beq_refl j) refl in
      (
        λ k p. subst (λ x. Present x k) same (Present-set d j (marshal e) k p),
        subst (λ x. Present x j) same here,
      )

  abbrev ArePresent : Db → Bytes → List Event → Type 0
  ArePresent d address es = All (λ (e : Event). Present d (group_event_key address e.nonce)) es

  read-get : (d : Db) (k : Bytes) (found : Option Bytes) → read d k ≡ ok found → get d k ≡ found
  unfolding read
  read-get d k found h = ground arith

  insert_group_events-Present :
      (d d' : Db) (address : Bytes) (es : List Event)
      → insert_group_events d address es ≡ ok d'
      → ((k : Bytes) → Present d k → Present d' k) × ArePresent d' address es
  unfolding insert_group_events
  insert_group_events-Present d d' address [] h =
      let same : d ≡ d' = cc in (λ k p. subst (λ x. Present x k) same p, tt)
  insert_group_events-Present d d' address (e ∷ es) h =
      let (found, readable, h₁) = >>=-eq-ok (read d (group_event_key address e.nonce)) _ h in
      let (d₁, inserted, h₂) =
        >>=-eq-ok (insert_event d (group_event_key address e.nonce) e found) _ h₁ in
      let (keeps, here) =
        insert_event-Present d d₁ (group_event_key address e.nonce) e found
          (read-get d (group_event_key address e.nonce) found readable) inserted in
      let (later, rest) = insert_group_events-Present d₁ d' address es h₂ in
      (λ k p. later k (keeps k p), (later (group_event_key address e.nonce) here, rest))

  insert_group_events-again :
      (d : Db) (address : Bytes) (es : List Event)
      → NoFaults
      → ArePresent d address es
      → insert_group_events d address es ≡ ok d
  unfolding insert_group_events insert_event
  insert_group_events-again d address [] nf h = refl
  insert_group_events-again d address (e ∷ es) nf (p, ps) =
      let rest = insert_group_events-again d address es nf ps in
      let key = group_event_key address e.nonce in unfold read in ground (arith, nf.reads d key)

  -- On a disk without faults, the events that were written to the queue of an address can be written
  -- again: the second write succeeds and leaves the store as it is.
  pub write_group_events_again :
      (d d' : Db) (address : Bytes) (es : List Event)
      → NoFaults
      → write_group_events d address es ≡ ok d'
      → write_group_events d' address es ≡ ok d'
  unfolding write_group_events update
  write_group_events_again d d' address es nf h =
      let (d₁, inserted, h₁) = >>=-eq-ok (insert_group_events d address es) _ h in
      let (keeps, all) = insert_group_events-Present d d₁ address es inserted in
      let same : d₁ ≡ d' = ground (arith, nf.commits d₁) in
      let again =
        insert_group_events-again d' address es nf
          (subst (λ x. ArePresent x address es) same all) in
      ground (arith, nf.commits d')
