-- ===== src/Machine/Messages/Authentic.antt =====
-- A message of a peer never brings a full signature into the store that does not verify.
use trusted_group.Base.{
  ℕ, ◌≡◌, refl, sym, subst, Bytes, Bool, true, false, length, List, [], Option, none, some,
  if◌then◌else◌, arith, Table, ltb, lookup, ◌==◌, take, ◌-◌, ◌++◌, uint64_bytes,
}
use trusted_group.Base.{Outcome, ok, err, panic, must, >>=-eq-ok, must-eq-ok}
use trusted_group.External.{Integers, Wire, Database, Json, Network}
use trusted_group.Encoding.{Event, encode_event, decode_event, event_extra_max_size}
use trusted_group.Machine.Types.{Process}
use trusted_group.Machine.State.{Engine, Machine}
use trusted_group.Machine.Signer.{Times, is_recent, event_id, append_pending_group_event_signature}
use trusted_group.Machine.Signer.Authentic.{
  IsAuthentic, IsAuthentic-write_signed, IsAuthentic-append,
}
use trusted_group.Machine.Messages.{
  accept_full, accept_partial, answer_full, receive_event, receive_known, receive_decoded,
  receive_message, send_quietly, first, with_sent,
}
use trusted_group.Store.Events.{
  read_group_event_signatures, write_signed_group_event_and_expire_pending,
}

module _ ⦃ints : Integers⦄ ⦃wire : Wire⦄ ⦃database : Database⦄ ⦃network : Network⦄ ⦃engine : Engine⦄
    ⦃event_json : Json Event⦄ where
  open network use {verify_partial, verify_full}

  IsAuthentic-same : (m m' : Machine) → m' ≡ m → IsAuthentic m.store → IsAuthentic m'.store
  IsAuthentic-same m m' same a = subst (λ (x : Machine). IsAuthentic x.store) (sym same) a

  -- An event of which the signature was taken off, and its encoding.
  module _ (m m' : Machine) (peer : Bytes) (e : Event) (msg sig : Bytes)
      (made : encode_event e ≡ ok msg) (a : IsAuthentic m.store) where
    IsAuthentic-accept_full : accept_full m e msg sig ≡ ok m' → IsAuthentic m'.store
    unfolding accept_full
    IsAuthentic-accept_full h = go (verify_full msg sig) refl
      where
        go : (b : Bool) → verify_full msg sig ≡ b → IsAuthentic m'.store
        go false v = IsAuthentic-same m m' (ground arith) a
        go true v =
            let (d, wrote, h₁) =
              >>=-eq-ok
                (must (
                  write_signed_group_event_and_expire_pending m.store
                    (record e { signature = sig })))
                _ (rw v at h) in
            let store : m'.store ≡ d = ground arith in
            subst IsAuthentic (sym store) (
              IsAuthentic-write_signed m.store d (record e { signature = sig }) a
                (record {
                  event = e;
                  message = msg;
                  same_process = refl;
                  same_nonce = refl;
                  encoded = made;
                  verified = v;
                })
                (must-eq-ok _ wrote))

    IsAuthentic-accept_partial : accept_partial m peer e msg sig ≡ ok m' → IsAuthentic m'.store
    unfolding accept_partial
    IsAuthentic-accept_partial h = go (verify_partial msg sig) refl
      where
        go : (b : Bool) → verify_partial msg sig ≡ b → IsAuthentic m'.store
        go true v =
            let (d, added, h₁) =
              >>=-eq-ok (must (append_pending_group_event_signature m.store e msg sig)) _
                (rw v at h) in
            let store : m'.store ≡ d = ground arith in
            subst IsAuthentic (sym store)
              (IsAuthentic-append e e msg refl refl made m.store d sig a (must-eq-ok _ added))
        go false v =
            let store : m'.store ≡ m.store = ground arith in subst IsAuthentic (sym store) a

  store_kept : (m m' : Machine) → m'.store ≡ m.store → IsAuthentic m.store → IsAuthentic m'.store
  store_kept m m' same a = subst IsAuthentic (sym same) a

  send_quietly-store : (m : Machine) (peer b : Bytes) → (send_quietly m peer b).store ≡ m.store
  unfolding send_quietly
  send_quietly-store m peer b = ground arith

  answer_full-store :
      (m m' : Machine) (sm sm' : Table ℕ) (times : Times) (peer : Bytes) (e : Event)
      (partials : List Bytes)
      → answer_full m sm times peer e partials ≡ ok (m', sm')
      → m'.store ≡ m.store
  unfolding answer_full
  answer_full-store m m' sm sm' times peer e partials h = go _ refl
    where
      go : (b : Bool) → is_recent sm (event_id e) times.tested ≡ b → m'.store ≡ m.store
      go true recent = let same : m ≡ m' = ground arith in λ i. (sym same i).store
      go false recent =
          let (sig, one, h₁) = >>=-eq-ok (first partials) _ (rw recent at h) in
          let (b, made, h₂) = >>=-eq-ok (encode_event (record e { signature = sig })) _ h₁ in
          let sent = b ++ uint64_bytes times.stamped in
          let same : send_quietly m peer sent ≡ m' = ground arith in
          subst (λ (x : Machine). x.store ≡ m.store) same (send_quietly-store m peer sent)

  with_sent-ok :
      (m' : Machine) (sm sm' : Table ℕ) (result : Outcome Machine)
      → with_sent sm result ≡ ok (m', sm')
      → result ≡ ok m'
  with_sent-ok m' sm sm' (ok m) h = ground arith
  with_sent-ok m' sm sm' (err e) h = cc
  with_sent-ok m' sm sm' panic h = cc

  module _ (m m' : Machine) (sm sm' : Table ℕ) (times : Times) (peer : Bytes)
      (a : IsAuthentic m.store) where
    IsAuthentic-receive_event :
        (e : Event) (msg sig : Bytes) (partials : List Bytes) (full : Bool)
        → encode_event e ≡ ok msg
        → receive_event m sm times peer e msg sig (partials, full) ≡ ok (m', sm')
        → IsAuthentic m'.store
    unfolding receive_event
    IsAuthentic-receive_event e msg sig partials full made h = go (length sig == 64) full h
      where
        go :
            (b full : Bool)
            → (if b
                then with_sent sm (accept_full m e msg sig)
                else if full
                then answer_full m sm times peer e partials
                else with_sent sm (accept_partial m peer e msg sig))
              ≡ ok (m', sm')
            → IsAuthentic m'.store
        go true _ h =
            IsAuthentic-accept_full m m' peer e msg sig made a (with_sent-ok m' sm sm' _ h)
        go false true h = store_kept m m' (answer_full-store m m' sm sm' times peer e partials h) a
        go false false h =
            IsAuthentic-accept_partial m m' peer e msg sig made a (with_sent-ok m' sm sm' _ h)

    IsAuthentic-receive_known :
        (e : Event) (found : Option Process)
        → receive_known m sm times peer e found ≡ ok (m', sm')
        → IsAuthentic m'.store
    unfolding receive_known
    IsAuthentic-receive_known e none h = IsAuthentic-same m m' (ground arith) a
    IsAuthentic-receive_known e (some p) h =
        let (msg, made, h₁) = >>=-eq-ok (encode_event (record e { signature = [] })) _ h in
        let ((partials, full), read, h₂) =
          >>=-eq-ok (must (read_group_event_signatures m.store e.process e.nonce)) _ h₁ in
        IsAuthentic-receive_event (record e { signature = [] }) msg e.signature partials full made
          h₂

    IsAuthentic-receive_decoded :
        (decoded : Outcome Event)
        → receive_decoded m sm times peer decoded ≡ ok (m', sm')
        → IsAuthentic m'.store
    unfolding receive_decoded
    IsAuthentic-receive_decoded (err x) h = IsAuthentic-same m m' (ground arith) a
    IsAuthentic-receive_decoded panic h = cc
    IsAuthentic-receive_decoded (ok e) h = go (ltb event_extra_max_size (length e.extra)) h
      where
        go :
            (b : Bool)
            → (if b
                then ok (m, sm)
                else receive_known m sm times peer e (lookup e.process m.processes))
              ≡ ok (m', sm')
            → IsAuthentic m'.store
        go true h = IsAuthentic-same m m' (ground arith) a
        go false h = IsAuthentic-receive_known e _ h

    sized :
        (b : Bytes) (short : Bool)
        → (if short
            then panic
            else receive_decoded m sm times peer (decode_event (take (length b - 8) b)))
          ≡ ok (m', sm')
        → IsAuthentic m'.store
    sized b true h = cc
    sized b false h = IsAuthentic-receive_decoded _ h

  -- If every full signature in the store was verified, with the key of the group, for the encoding of
  -- an event with its process and nonce, then so it is after any message of any peer that is handled
  -- without a panic.
  pub receive_message-IsAuthentic :
      (m m' : Machine) (sm sm' : Table ℕ) (times : Times) (peer b : Bytes)
      → IsAuthentic m.store
      → receive_message m sm times peer b ≡ ok (m', sm')
      → IsAuthentic m'.store
  unfolding receive_message
  receive_message-IsAuthentic m m' sm sm' times peer b a h =
      sized m m' sm sm' times peer a b (ltb (length b) 8) h
