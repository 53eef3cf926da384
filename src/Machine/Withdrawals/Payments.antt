-- ===== src/Machine/Withdrawals/Payments.antt =====
-- What one received event does: nothing, or a debit of its amount, and the transaction that pays it.
use trusted_group.Base.{
  ℕ, ◌<◌, ◌^◌, ◌≡◌, refl, sym, subst, Bytes, Bool, true, false, not, beq, beq→eq, length, ◌∷◌, inl,
  inr, ◌⊎◌, arith, if◌then◌else◌,
}
use trusted_group.Base.{Outcome, ok, err, panic, ◌>>=◌, must, >>=-eq-ok, must-eq-ok}
use trusted_group.External.{Integers, Wire, Database, Json, Network}
use trusted_group.Encoding.{Event}
use trusted_group.Machine.Types.{
  Process, AccountSnapshot, Asset, CollectibleToken, build_account_snapshot,
}
use trusted_group.Machine.State.{Engine, Transaction}
use trusted_group.Machine.Deposits.Cases.{snapshot_of, build_account_snapshot-ok}
use trusted_group.Machine.Metadata.{check_asset_or_collectible}
use trusted_group.Machine.Metadata.Accounts.{
  SameAccounts, Shows-SameAccounts, SameAccounts-offset, SameAccounts-check_asset_or_collectible,
}
use trusted_group.Machine.Withdrawals.{
  Received, Flow, go_on, stop, receive_event, pay_event, finish_transaction,
  build_group_transaction, transaction_for, was_processed, is_gt,
}
use trusted_group.Store.Accounts.{write_account_snapshot, check_account_snapshot}
use trusted_group.Store.Accounts.Book.{Book, post, Shows, IsMovement}
use trusted_group.Store.Accounts.Refinement.{Shows-write_account_snapshot}
use trusted_group.Store.Processes.{write_engine_group_events_offset}

module _ ⦃ints : Integers⦄ ⦃wire : Wire⦄ ⦃database : Database⦄ ⦃network : Network⦄ ⦃engine : Engine⦄
    ⦃event_json : Json Event⦄ ⦃process_json : Json Process⦄ ⦃snapshot_json : Json AccountSnapshot⦄
    ⦃asset_json : Json Asset⦄ ⦃token_json : Json CollectibleToken⦄ where
  open ints use {sign, units, sign-units}
  open database use {Db}

  -- The event was new, and paid: its amount is posted as a debit, and the transaction built for it
  -- is the only one, unless the group did not build it.
  pub record Paid (b : Book) (p : Process) (e : Event) (r r' : Received) : Type 0 where
    pub mine : e.process ≡ p.identifier
    pub new : was_processed r.processed e.nonce ≡ false
    pub noted : r'.processed ≡ e.nonce ∷ r.processed
    pub shown : Shows r'.machine.store (post b (snapshot_of p e false))
    pub sent :
        (r'.machine.transactions ≡ r.machine.transactions)
        ⊎ ((cat : Bytes) × (r'.machine.transactions
              ≡ transaction_for p e cat ∷ r.machine.transactions))

  -- What `finish_transaction` leaves of the state that it is given.
  pub record Finished (p : Process) (e : Event) (r r' : Received) : Type 0 where
    pub kept : SameAccounts r.machine.store r'.machine.store
    pub noted : r'.processed ≡ r.processed
    pub sent :
        (r'.machine.transactions ≡ r.machine.transactions)
        ⊎ ((cat : Bytes) × (r'.machine.transactions
              ≡ transaction_for p e cat ∷ r.machine.transactions))

  finish_transaction-Finished :
      (r r' : Received) (p : Process) (e : Event) (cat pid : Bytes) (n : ℕ) (flow : Flow)
      → finish_transaction r pid n (build_group_transaction p e cat) ≡ ok (r', flow)
      → Finished p e r r' × (flow ≡ go_on)
  unfolding finish_transaction
  finish_transaction-Finished r r' p e cat pid n flow h = go _ refl h
    where
      go :
          (result : Outcome Transaction)
          → build_group_transaction p e cat ≡ result
          → finish_transaction r pid n result ≡ ok (r', flow)
          → Finished p e r r' × (flow ≡ go_on)
      go (ok t) e₁ h =
          let built : t ≡ transaction_for p e cat =
            unfold build_group_transaction in ground arith in
          let (d, wrote, h₁) =
            >>=-eq-ok (must (write_engine_group_events_offset r.machine.store pid n)) _ h in
          let store : r'.machine.store ≡ d = ground arith in
          (
            record {
              kept =
                  subst (SameAccounts r.machine.store) (sym store)
                    (SameAccounts-offset r.machine.store d pid n (must-eq-ok _ wrote));
              noted = ground arith;
              sent = inr (cat, ground arith);
            },
            ground arith,
          )
      go (err x) e₁ h =
          let same : r ≡ r' = ground arith in
          (
            subst (Finished p e r) same (record {
              kept = record { balances = λ p q. refl; movements = λ c k. refl };
              noted = refl;
              sent = inl refl;
            }),
            ground arith,
          )
      go panic e₁ h = cc

  pay_event-Finished :
      (r r' : Received) (p : Process) (e : Event) (a : AccountSnapshot) (flow : Flow)
      → pay_event r p e a ≡ ok (r', flow)
      → (d₁ : Db) × (d₂ : Db) × (write_account_snapshot r.machine.store a ≡ ok d₁)
        × SameAccounts d₁ d₂
        × Finished p e
            (record {
              machine = record r.machine { store = d₂ };
              processed = e.nonce ∷ r.processed;
            })
            r'
        × (flow ≡ go_on)
  unfolding pay_event
  pay_event-Finished r r' p e a flow h =
      let (d₁, moved, h₁) = >>=-eq-ok (must (write_account_snapshot r.machine.store a)) _ h in
      let ((cat, d₂), checked, h₂) =
        >>=-eq-ok (must (check_asset_or_collectible d₁ e.asset)) _ h₁ in
      let (finished, on) =
        finish_transaction-Finished
          (record { machine = record r.machine { store = d₂ }; processed = e.nonce ∷ r.processed })
          r' p e cat p.identifier e.nonce flow h₂ in
      (
        d₁,
        d₂,
        must-eq-ok _ moved,
        SameAccounts-check_asset_or_collectible d₁ d₂ e.asset cat (must-eq-ok _ checked),
        finished,
        on,
      )

  pay_event-Paid :
      (b : Book) (r r' : Received) (p : Process) (e : Event) (flow : Flow)
      → Shows r.machine.store b
      → IsMovement (snapshot_of p e false)
      → e.process ≡ p.identifier
      → was_processed r.processed e.nonce ≡ false
      → pay_event r p e (snapshot_of p e false) ≡ ok (r', flow)
      → Paid b p e r r' × (flow ≡ go_on)
  pay_event-Paid b r r' p e flow s m mine new h =
      let (d₁, d₂, moved, kept, finished, on) = pay_event-Finished r r' p e _ flow h in
      let posted =
        Shows-write_account_snapshot r.machine.store d₁ b (snapshot_of p e false) m s moved in
      (
        record {
          mine = mine;
          new = new;
          noted = finished.noted;
          shown =
              Shows-SameAccounts d₂ r'.machine.store _ finished.kept
                (Shows-SameAccounts d₁ d₂ _ kept posted);
          sent = finished.sent;
        },
        on,
      )

  module _ (b : Book) (r r' : Received) (p : Process) (e : Event) (flow : Flow)
      (s : Shows r.machine.store b) (named : length p.identifier ≡ 36)
      (range : e.nonce < 2 ^ 64) where
    abbrev Effect : Type 0
    Effect = (r' ≡ r) ⊎ (Paid b p e r r' × (flow ≡ go_on))

    checked-Effect :
        e.process ≡ p.identifier
        → was_processed r.processed e.nonce ≡ false
        → 0 < units e.amount
        → (do
          a ← build_account_snapshot p e false
          enough ← must (check_account_snapshot r.machine.store a)
          if enough then pay_event r p e a else ok (r, stop))
          ≡ ok (r', flow)
        → Effect
    checked-Effect mine new positive h =
        let (a, built, h₁) = >>=-eq-ok (build_account_snapshot p e false) _ h in
        let (same, shape) = build_account_snapshot-ok p e false a built in
        let (enough, checked, h₂) =
          >>=-eq-ok (must (check_account_snapshot r.machine.store a)) _ h₁ in
        go enough (
          subst (λ x. (if enough then pay_event r p e x else ok (r, stop)) ≡ ok (r', flow)) shape
            h₂)
      where
        go :
            (enough : Bool)
            → (if enough then pay_event r p e (snapshot_of p e false) else ok (r, stop))
              ≡ ok (r', flow)
            → Effect
        go true h = inr (
            pay_event-Paid b r r' p e flow s
              (record { process_length = named; nonce_range = range; positive = positive }) mine new
              h)
        go false h = inl (ground arith)

    -- The three guards in turn.
    guarded-Effect :
        (other known payable : Bool)
        → not (beq e.process p.identifier) ≡ other
        → was_processed r.processed e.nonce ≡ known
        → is_gt (sign e.amount) ≡ payable
        → (if other
            then ok (r, go_on)
            else if known
            then ok (r, go_on)
            else if not payable
            then ok (r, go_on)
            else (do
              a ← build_account_snapshot p e false
              enough ← must (check_account_snapshot r.machine.store a)
              if enough then pay_event r p e a else ok (r, stop)))
          ≡ ok (r', flow)
        → Effect
    guarded-Effect true known payable o k y h = inl (ground arith)
    guarded-Effect false true payable o k y h = inl (ground arith)
    guarded-Effect false false false o k y h = inl (ground arith)
    guarded-Effect false false true o k y h =
        checked-Effect (ground (arith, beq→eq e.process p.identifier)) k
          (ground (arith, sign-units e.amount)) h

    -- A received event that does not make the machine panic changes nothing, or is paid: it was new,
    -- belongs to the process, and has a positive amount, which is posted as a debit once.
    pub receive_event-Effect : receive_event r p e ≡ ok (r', flow) → Effect
    unfolding receive_event
    receive_event-Effect h = guarded-Effect _ _ _ refl refl refl h
