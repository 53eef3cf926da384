-- ===== src/Machine/Signer.antt =====
-- Signing in mvm/machine/signer.go: partial signatures are collected until the threshold, and then
-- combined; a round of `loopSignGroupEvents` for one pending event.
pub mod Authentic
pub mod Rounds
use trusted_group.Base.{
  ℕ, ◌+◌, Bytes, Bool, true, false, not, ◌||◌, ltb, beq, length, List, [], ◌∷◌, ◌++◌, none, some,
  if◌then◌else◌, lookup, insert, Table, text, hex16, uint64_bytes,
}
use trusted_group.Base.{Outcome, ok, ◌>>=◌, ◌>>◌, panic_if, must, unless_fault}
use trusted_group.External.{Integers, Wire, Database, Json, Network}
use trusted_group.Encoding.{Event, encode_event}
use trusted_group.Machine.State.{Engine, Machine}
use trusted_group.Store.Events.{
  read_group_event_signatures, write_pending_group_event_signatures,
  write_signed_group_event_and_expire_pending, list_pending_group_events,
}

-- `time.Hour`, in nanoseconds.
abbrev pub message_period : ℕ
message_period = 3_600_000_000_000

-- The readings of the clock in one round: at the test of the period, when the round is noted, and
-- for the end of the message.
pub record Times : Type 0 where
  pub tested : ℕ
  pub noted : ℕ
  pub stamped : ℕ

-- `sm[id].Add(messagePeriod).After(time.Now())`; a missing entry is the zero time.
unfoldable pub is_recent : Table ℕ → Bytes → ℕ → Bool
is_recent sm id now = elim (lookup id sm) [
  | none ↦ false
  | some last ↦ ltb now (last + message_period)
]

unfoldable pub check_signed_with : List Bytes → Bytes → Bool
check_signed_with [] s = false
check_signed_with (p ∷ ps) s = beq p s || check_signed_with ps s

module _ ⦃ints : Integers⦄ where
  -- `Event.ID`
  unfoldable pub event_id : Event → Bytes
  event_id e = e.process ++ (text ":" ++ hex16 e.nonce)

module _ ⦃ints : Integers⦄ ⦃wire : Wire⦄ ⦃database : Database⦄ ⦃network : Network⦄
    ⦃event_json : Json Event⦄ where
  open database use {Db}
  open network use {
    verify_partial, verify_full, recover, sign_partial, group_threshold, group_members, queue_fault,
  }

  unfoldable pub remove_invalid_partials : Bytes → List Bytes → List Bytes
  remove_invalid_partials msg [] = []
  remove_invalid_partials msg (p ∷ ps) =
      let rest = remove_invalid_partials msg ps in if verify_partial msg p then p ∷ rest else rest

  unfoldable pub recover_signature : Bytes → List Bytes → Outcome Bytes
  recover_signature msg partials = do
    sig ← must (recover msg partials group_threshold (length group_members))
    panic_if (not (verify_full msg sig))
    ok sig

  -- `partials` are the valid ones that the store has.
  add_partial : Db → Event → Bytes → List Bytes → Bytes → Outcome Db
  unfolding check_signed_with recover_signature
  add_partial d e msg partials partial =
      if check_signed_with partials partial
      then ok d
      else let all = partials ++ (partial ∷ []) in
        if ltb (length all) group_threshold
        then write_pending_group_event_signatures d e.process e.nonce all
        else do
          sig ← recover_signature msg all
          write_signed_group_event_and_expire_pending d (record e { signature = sig })

  append_to : Db → Event → Bytes → Bytes → List Bytes × Bool → Outcome Db
  unfolding add_partial remove_invalid_partials
  append_to d e msg partial (partials, true) = ok d
  append_to d e msg partial (partials, false) =
      add_partial d e msg (remove_invalid_partials msg partials) partial

  unfoldable pub append_pending_group_event_signature : Db → Event → Bytes → Bytes → Outcome Db
  unfolding append_to
  append_pending_group_event_signature d e msg partial = do
    found ← read_group_event_signatures d e.process e.nonce
    append_to d e msg partial found

module _ ⦃ints : Integers⦄ ⦃wire : Wire⦄ ⦃database : Database⦄ ⦃network : Network⦄ ⦃engine : Engine⦄
    ⦃event_json : Json Event⦄ where
  open network use {sign_partial, group_members, queue_fault}

  unfoldable pub send_message : Machine → Bytes → Bytes → Outcome Machine
  send_message m peer b =
      unless_fault (queue_fault peer b) (record m { outbox = (peer, b) ∷ m.outbox })

  queue_to : Machine → List Bytes → Bytes → Outcome Machine
  unfolding send_message
  queue_to m [] b = ok m
  queue_to m (p ∷ ps) b = do m ← send_message m p b; queue_to m ps b

  unfoldable pub queue_message : Machine → Bytes → Outcome Machine
  unfolding queue_to
  queue_message m b = queue_to m group_members b

  abbrev is_empty : Bytes → Bool
  is_empty [] = true
  is_empty (b ∷ bs) = false

  -- The body of the loop over the pending events, with the times at which events were sent.
  unfoldable pub sign_event : Machine → Table ℕ → Times → Event → Outcome (Machine × Table ℕ)
  unfolding is_recent event_id queue_message
  sign_event m sm times e = if is_recent sm (event_id e) times.tested then ok (m, sm) else do
    panic_if (not (is_empty e.signature))
    msg ← encode_event e
    partial ← must (sign_partial msg)
    let signed = record e { signature = partial }
    b ← encode_event signed
    m ← must (queue_message m (b ++ uint64_bytes times.stamped))
    d ← must (append_pending_group_event_signature m.store signed msg partial)
    ok (record m { store = d }, insert (event_id e) times.noted sm)

  sign_events : Machine → Table ℕ → Times → List Event → Outcome (Machine × Table ℕ)
  sign_events m sm times [] = ok (m, sm)
  sign_events m sm times (e ∷ es) = do (m, sm) ← sign_event m sm times e; sign_events m sm times es

  -- One round of `loopSignGroupEvents`.
  unfoldable pub sign_round : Machine → Table ℕ → Times → Outcome (Machine × Table ℕ)
  unfolding sign_events
  sign_round m sm times = do
    es ← must (list_pending_group_events m.store 100)
    sign_events m sm times es
