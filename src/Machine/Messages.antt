-- ===== src/Machine/Messages.antt =====
-- `loopReceiveGroupMessages` of mvm/machine/signer.go: what one message of a peer does.
pub mod Authentic
use trusted_group.Base.{
  ℕ, ◌-◌, Bytes, Bool, ltb, ◌==◌, length, take, List, [], ◌∷◌, ◌++◌, Option, none, some,
  if◌then◌else◌, lookup, insert, Table, uint64_bytes,
}
use trusted_group.Base.{Outcome, ok, err, panic, ◌>>=◌, must, unless_fault}
use trusted_group.External.{Integers, Wire, Database, Json, Network}
use trusted_group.Encoding.{Event, encode_event, decode_event, event_extra_max_size}
use trusted_group.Machine.Types.{Process}
use trusted_group.Machine.State.{Engine, Machine}
use trusted_group.Machine.Signer.{Times, is_recent, event_id, append_pending_group_event_signature}
use trusted_group.Store.Events.{
  read_group_event_signatures, write_signed_group_event_and_expire_pending,
}

module _ ⦃ints : Integers⦄ ⦃wire : Wire⦄ ⦃database : Database⦄ ⦃network : Network⦄ ⦃engine : Engine⦄
    ⦃event_json : Json Event⦄ where
  open network use {verify_partial, verify_full, queue_fault, broadcast_fault}

  -- The error of `QueueMessage` is not looked at here.
  send_quietly : Machine → Bytes → Bytes → Machine
  send_quietly m peer b = elim (queue_fault peer b) [
    | none ↦ record m { outbox = (peer, b) ∷ m.outbox }
    | some e ↦ m
  ]

  first : List Bytes → Outcome Bytes
  first [] = panic
  first (p ∷ ps) = ok p

  -- A full signature from a peer.
  accept_full : Machine → Event → Bytes → Bytes → Outcome Machine
  accept_full m e msg sig =
      if verify_full msg sig
      then (do
        d ←
            must
              (write_signed_group_event_and_expire_pending m.store (record e { signature = sig }))
        ok (record m { store = d }))
      else ok m

  -- The event is signed here already: the peer is sent the full signature.
  answer_full : Machine → Table ℕ → Times → Bytes → Event → List Bytes → Outcome (Machine × Table ℕ)
  unfolding send_quietly first
  answer_full m sm times peer e partials =
      if is_recent sm (event_id e) times.tested then ok (m, sm) else do
        sig ← first partials
        b ← encode_event (record e { signature = sig })
        ok (
          send_quietly m peer (b ++ uint64_bytes times.stamped),
          insert (event_id e) times.noted sm,
        )

  -- A partial signature from a peer.
  accept_partial : Machine → Bytes → Event → Bytes → Bytes → Outcome Machine
  accept_partial m peer e msg sig =
      if verify_partial msg sig
      then (do
        d ← must (append_pending_group_event_signature m.store e msg sig)
        ok (record m { store = d }))
      else must (
          unless_fault (broadcast_fault peer) (record m {
            broadcasts =
                record { peer = peer; event = e; message = msg; signature = sig } ∷ m.broadcasts;
          }))

  abbrev with_sent : Table ℕ → Outcome Machine → Outcome (Machine × Table ℕ)
  with_sent sm result = do m ← result; ok (m, sm)

  -- An event of a known process, with its signature taken off. `found` is what the store has.
  receive_event :
      Machine
      → Table ℕ
      → Times
      → Bytes
      → Event
      → Bytes
      → Bytes
      → List Bytes × Bool
      → Outcome (Machine × Table ℕ)
  unfolding accept_full answer_full accept_partial
  receive_event m sm times peer e msg sig (partials, full) =
      if length sig == 64
      then with_sent sm (accept_full m e msg sig)
      else if full
      then answer_full m sm times peer e partials
      else with_sent sm (accept_partial m peer e msg sig)

  receive_known :
      Machine → Table ℕ → Times → Bytes → Event → Option Process → Outcome (Machine × Table ℕ)
  unfolding receive_event
  receive_known m sm times peer e none = ok (m, sm)
  receive_known m sm times peer e (some process) = do
    let bare = record e { signature = [] }
    msg ← encode_event bare
    found ← must (read_group_event_signatures m.store e.process e.nonce)
    receive_event m sm times peer bare msg e.signature found

  receive_decoded : Machine → Table ℕ → Times → Bytes → Outcome Event → Outcome (Machine × Table ℕ)
  unfolding receive_known
  receive_decoded m sm times peer (err e) = ok (m, sm)
  receive_decoded m sm times peer panic = panic
  receive_decoded m sm times peer (ok e) =
      if ltb event_extra_max_size (length e.extra)
      then ok (m, sm)
      else receive_known m sm times peer e (lookup e.process m.processes)

  -- The slice `b[:len(b)-8]` panics on a message of less than eight bytes.
  unfoldable pub receive_message :
      Machine → Table ℕ → Times → Bytes → Bytes → Outcome (Machine × Table ℕ)
  unfolding receive_decoded
  receive_message m sm times peer b =
      if ltb (length b) 8
      then panic
      else receive_decoded m sm times peer (decode_event (take (length b - 8) b))
