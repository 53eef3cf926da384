-- ===== src/Machine/Withdrawals/Rounds.antt =====
-- A round of withdrawals: each transaction stands for one debit, and no event is paid twice.
use trusted_group.Base.{
  ℕ, ◌<◌, ◌^◌, ◌≡◌, refl, sym, ap, ◌∙◌, subst, Bytes, false, length, List, [], ◌∷◌, ◌++◌, inl, inr,
  ◌⊎◌, All, ok, >>=-eq-ok,
}
use trusted_group.External.{Integers, Wire, Database, Json, Network, Holds}
use trusted_group.Encoding.{Event}
use trusted_group.Machine.Types.{Process, AccountSnapshot, Asset, CollectibleToken}
use trusted_group.Machine.State.{Engine, Transaction}
use trusted_group.Machine.Deposits.Cases.{snapshot_of}
use trusted_group.Machine.Withdrawals.{
  Received, Flow, go_on, stop, receive_event, receive_events, transaction_for, was_processed,
}
use trusted_group.Machine.Withdrawals.Payments.{Paid, receive_event-Effect}
use trusted_group.Store.Accounts.Book.{Book, post, Shows}

module _ ⦃ints : Integers⦄ ⦃wire : Wire⦄ ⦃database : Database⦄ ⦃network : Network⦄ ⦃engine : Engine⦄
    ⦃event_json : Json Event⦄ ⦃process_json : Json Process⦄ ⦃snapshot_json : Json AccountSnapshot⦄
    ⦃asset_json : Json Asset⦄ ⦃token_json : Json CollectibleToken⦄ where
  -- The events that were paid, the latest first: their debits, their nonces, and that each nonce was
  -- new when it was paid.
  unfoldable pub debited : Process → Book → List Event → Book
  debited p b [] = b
  debited p b (e ∷ es) = post (debited p b es) (snapshot_of p e false)

  unfoldable pub nonces : List Event → List ℕ → List ℕ
  nonces [] old = old
  nonces (e ∷ es) old = e.nonce ∷ nonces es old

  abbrev pub AreNew : List Event → List ℕ → Type 0
  AreNew [] old = Unit
  AreNew (e ∷ es) old = (was_processed (nonces es old) e.nonce ≡ false) × AreNew es old

  -- The transactions that were built for paid events, at most one for each.
  pub data Sent (p : Process) : List Event → List Transaction → Type 0 where
    none_sent : Sent p [] []
    sent :
        {es : List Event} {ts : List Transaction} (e : Event) (cat : Bytes)
        → Sent p es ts
        → Sent p (e ∷ es) (transaction_for p e cat ∷ ts)
    not_built :
        {es : List Event} {ts : List Transaction} (e : Event) → Sent p es ts → Sent p (e ∷ es) ts

  -- The account of a round: `offered` are the events that the engine gave.
  pub record Account (b : Book) (p : Process) (offered : List Event) (r r' : Received)
      : Type 0 where
    pub paid : List Event
    pub built : List Transaction
    pub offers : All (λ (e : Event). Holds e offered) paid
    pub news : AreNew paid r.processed
    pub noted : r'.processed ≡ nonces paid r.processed
    pub shown : Shows r'.machine.store (debited p b paid)
    pub matched : Sent p paid built
    pub transactions : r'.machine.transactions ≡ built ++ r.machine.transactions

  Account-start :
      (b : Book) (p : Process) (offered : List Event) (r : Received)
      → Shows r.machine.store b
      → Account b p offered r r
  unfolding debited nonces
  Account-start b p offered r s = record {
    paid = [];
    built = [];
    offers = tt;
    news = tt;
    noted = refl;
    shown = s;
    matched = none_sent;
    transactions = refl;
  }

  -- One more event was paid.
  Account-Paid :
      (b : Book) (p : Process) (offered : List Event) (r r₁ r₂ : Received) (e : Event)
      (a : Account b p offered r r₁)
      → Holds e offered
      → Paid (debited p b a.paid) p e r₁ r₂
      → Account b p offered r r₂
  unfolding debited nonces
  Account-Paid b p offered r r₁ r₂ e a offer paid = go paid.sent
    where
      go :
          (r₂.machine.transactions ≡ r₁.machine.transactions)
            ⊎ ((cat : Bytes) × (r₂.machine.transactions
                  ≡ transaction_for p e cat ∷ r₁.machine.transactions))
          → Account b p offered r r₂
      go (inl same) = record {
        paid = e ∷ a.paid;
        built = a.built;
        offers = (offer, a.offers);
        news = (subst (λ l. was_processed l e.nonce ≡ false) a.noted paid.new, a.news);
        noted = paid.noted ∙ ap (λ l. e.nonce ∷ l) a.noted;
        shown = paid.shown;
        matched = not_built e a.matched;
        transactions = same ∙ a.transactions;
      }
      go (inr (cat, more)) = record {
        paid = e ∷ a.paid;
        built = transaction_for p e cat ∷ a.built;
        offers = (offer, a.offers);
        news = (subst (λ l. was_processed l e.nonce ≡ false) a.noted paid.new, a.news);
        noted = paid.noted ∙ ap (λ l. e.nonce ∷ l) a.noted;
        shown = paid.shown;
        matched = sent e cat a.matched;
        transactions = more ∙ ap (λ l. transaction_for p e cat ∷ l) a.transactions;
      }

  module _ (b : Book) (p : Process) (offered : List Event) (r : Received)
      (named : length p.identifier ≡ 36) where
    Account-step :
        (r₁ r₂ : Received) (e : Event) (flow : Flow)
        → Holds e offered
        → e.nonce < 2 ^ 64
        → Account b p offered r r₁
        → receive_event r₁ p e ≡ ok (r₂, flow)
        → Account b p offered r r₂
    Account-step r₁ r₂ e flow offer range a h =
        elim (receive_event-Effect (debited p b a.paid) r₁ r₂ p e flow a.shown named range h) [
          | inl same ↦ subst (Account b p offered r) (sym same) a
          | inr (paid, on) ↦ Account-Paid b p offered r r₁ r₂ e a offer paid
        ]

    Account-steps :
        (es : List Event) (r₁ r' : Received)
        → All (λ (e : Event). Holds e offered × (e.nonce < 2 ^ 64)) es
        → Account b p offered r r₁
        → receive_events r₁ p es ≡ ok r'
        → Account b p offered r r'
    unfolding receive_events
    Account-steps [] r₁ r' hs a h = let same : r₁ ≡ r' = cc in subst (Account b p offered r) same a
    Account-steps (e ∷ es) r₁ r' ((offer, range), hs) a h =
        let ((r₂, flow), received, h₁) = >>=-eq-ok (receive_event r₁ p e) _ h in
        go r₂ flow (Account-step r₁ r₂ e flow offer range a received)
          (λ x k. Account-steps es r₂ r' hs x k) h₁
      where
        go :
            (r₂ : Received) (flow : Flow)
            → Account b p offered r r₂
            → (Account b p offered r r₂ → receive_events r₂ p es ≡ ok r' → Account b p offered r r')
            → (elim flow [ go_on ↦ receive_events r₂ p es | stop ↦ ok r₂ ]) ≡ ok r'
            → Account b p offered r r'
        go r₂ go_on a later h = later a h
        go r₂ stop a later h = let same : r₂ ≡ r' = cc in subst (Account b p offered r) same a

  All-Holds :
      (xs ys : List Event)
      → ((e : Event) → Holds e xs → Holds e ys)
      → All (λ (e : Event). e.nonce < 2 ^ 64) xs
      → All (λ (e : Event). Holds e ys × (e.nonce < 2 ^ 64)) xs
  All-Holds [] ys f h = tt
  All-Holds (x ∷ xs) ys f (h, hs) = ((f x (inl refl), h), All-Holds xs ys (λ e k. f e (inr k)) hs)

  -- When the machine has received events of an engine for a process, with an identifier of 36
  -- characters and nonces of 64 bits, then: each event that was paid is one of those received, and
  -- its nonce was not processed before, in this round or an earlier one; the store shows the book in
  -- which exactly the debits of the paid events are posted; and each new transaction was built for
  -- one paid event, at most one for each.
  pub receive_events-Account :
      (b : Book) (p : Process) (es : List Event) (r r' : Received)
      → length p.identifier ≡ 36
      → All (λ (e : Event). e.nonce < 2 ^ 64) es
      → Shows r.machine.store b
      → receive_events r p es ≡ ok r'
      → Account b p es r r'
  receive_events-Account b p es r r' named ranges s h =
      Account-steps b p es r named es r r' (All-Holds es es (λ e k. k) ranges)
        (Account-start b p es r s) h
