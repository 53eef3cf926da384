-- ===== src/Store/Accounts/Refinement.antt =====
-- The operations of mvm/store/account.go do on the database what the book says.
use trusted_group.Base.{
  ◌<◌, ◌≤◌, ◌≡◌, refl, true, false, ◌||◌, beq→eq, List, [], ◌∷◌, arith, if◌then◌else◌, All,
  Bool-cases, inl, inr, sym, ◌∙◌, ◌⊎◌, leb, subst,
}
use trusted_group.Base.{Outcome, ok, panic, ◌>>=◌, >>=-eq-ok}
use trusted_group.External.{Integers, Database, Json}
use trusted_group.Machine.Types.{AccountSnapshot}
use trusted_group.Store.Keys.{account_balance_key, account_snapshot_key}
use trusted_group.Store.Txn.{NoFaults}
use trusted_group.Store.Accounts.{balance_of, check_account_snapshot, write_account_snapshot}
use trusted_group.Store.Accounts.Book.{
  is_some, Book, post, post_all, IsMovement, Shows, balance_in, posted_in, after_snapshot,
  new_balance, write_account_snapshot-ok, write_account_snapshot-covered, balance-after_snapshot,
  posted-after_snapshot,
}

module _ ⦃ints : Integers⦄ ⦃database : Database⦄ ⦃json : Json AccountSnapshot⦄ where
  open ints use {units, to_string, cmp-units, add_works, sub_works}
  open database use {Db, get, set}

  snapshot_posted :
      (d : Db) (a : AccountSnapshot)
      → is_some (get d (account_snapshot_key a)) ≡ posted_in d a.process a.nonce a.credit
  unfolding account_snapshot_key
  snapshot_posted d a = refl

  Shows-after_snapshot :
      (d : Db) (b : Book) (a : AccountSnapshot)
      → IsMovement a
      → Shows d b
      → b.posted a.process a.nonce a.credit ≡ false
      → (a.credit ≡ false → units a.amount ≤ balance_in d a.process a.asset)
      → Shows (after_snapshot d a) (post b a)
  unfolding post
  Shows-after_snapshot d b a m s new covered = record {
    balances = λ p q hp. ground (
      arith,
      balance-after_snapshot d a p q m hp covered,
      beq→eq a.process p,
      beq→eq a.asset q,
      s.balances p q hp,
      s.balances a.process a.asset m.process_length,
    );
    movements = λ p n c hp hn.
        ground (arith, posted-after_snapshot d a p n c m hp hn, s.movements p n c hp hn);
  }

  -- A snapshot that was written has posted its movement in the book, once.
  pub Shows-write_account_snapshot :
      (d d' : Db) (b : Book) (a : AccountSnapshot)
      → IsMovement a
      → Shows d b
      → write_account_snapshot d a ≡ ok d'
      → Shows d' (post b a)
  Shows-write_account_snapshot d d' b a m s h =
      elim (Bool-cases (b.posted a.process a.nonce a.credit)) [
        | inl old ↦ subst (λ x. Shows x (post b a)) (sym (unchanged old)) (unfold post in rw old s)
        | inr new ↦
            subst (λ x. Shows x (post b a)) (sym (changed new))
              (Shows-after_snapshot d b a m s new
                (write_account_snapshot-covered d d' a h (fresh ∙ new)))
      ]
    where
      fresh : is_some (get d (account_snapshot_key a)) ≡ b.posted a.process a.nonce a.credit
      fresh =
          snapshot_posted d a
          ∙ s.movements a.process a.nonce a.credit m.process_length m.nonce_range

      unchanged : b.posted a.process a.nonce a.credit ≡ true → d' ≡ d
      unchanged old = ground (arith, write_account_snapshot-ok d d' a h, fresh)

      changed : b.posted a.process a.nonce a.credit ≡ false → d' ≡ after_snapshot d a
      changed new = ground (arith, write_account_snapshot-ok d d' a h, fresh)

  -- What the book allows: a movement that it has, a credit, or a debit that is covered.
  abbrev pub IsPostable : Book → AccountSnapshot → Type 0
  IsPostable b a =
      (b.posted a.process a.nonce a.credit ≡ true)
      ⊎ ((a.credit ≡ true) ⊎ (units a.amount ≤ b.balance a.process a.asset))

  write_account_snapshot_works :
      (d : Db) (a : AccountSnapshot)
      → NoFaults
      → 0 < units a.amount
      → (is_some (get d (account_snapshot_key a)) ≡ true)
        ⊎ ((a.credit ≡ true) ⊎ (units a.amount ≤ balance_in d a.process a.asset))
      → (d' : Db) × (write_account_snapshot d a ≡ ok d')
  unfolding write_account_snapshot
  write_account_snapshot_works d a nf pos h =
      let bk = account_balance_key a.process a.asset in
      let bal = balance_of (get d bk) in
      let d₁ = set d bk (to_string (new_balance a d)) in
      (
        if is_some (get d (account_snapshot_key a)) then d else after_snapshot d a,
        ground (
          arith,
          nf.reads d (account_snapshot_key a),
          nf.reads d bk,
          nf.writes d bk,
          nf.writes d₁ (account_snapshot_key a),
          nf.commits d,
          nf.commits (after_snapshot d a),
          cmp-units bal a.amount,
          add_works bal a.amount,
          sub_works bal a.amount,
        ),
      )

  -- On a disk without faults whose database shows a book, a movement that the book allows (of a
  -- process with an identifier of 36 characters, with a nonce of 64 bits and a positive amount) is
  -- written, and the database then shows the book with it posted.
  pub write_account_snapshot-posts :
      (d : Db) (b : Book) (a : AccountSnapshot)
      → NoFaults
      → IsMovement a
      → Shows d b
      → IsPostable b a
      → (d' : Db) × (write_account_snapshot d a ≡ ok d') × Shows d' (post b a)
  write_account_snapshot-posts d b a nf m s h =
      let (d', e) = write_account_snapshot_works d a nf m.positive allowed in
      (d', e, Shows-write_account_snapshot d d' b a m s e)
    where
      allowed :
          (is_some (get d (account_snapshot_key a)) ≡ true)
          ⊎ ((a.credit ≡ true) ⊎ (units a.amount ≤ balance_in d a.process a.asset))
      allowed = ground (
        arith,
        snapshot_posted d a,
        s.movements a.process a.nonce a.credit m.process_length m.nonce_range,
        s.balances a.process a.asset m.process_length,
      )

  -- On a disk without faults whose database shows a book, a debit (of a process with an identifier of
  -- 36 characters, with a nonce of 64 bits and a positive amount) that is new and not covered makes
  -- the store panic, and the check before it answers that it is not covered.
  pub overdraft_panics :
      (d : Db) (b : Book) (a : AccountSnapshot)
      → NoFaults
      → IsMovement a
      → Shows d b
      → b.posted a.process a.nonce a.credit ≡ false
      → a.credit ≡ false
      → b.balance a.process a.asset < units a.amount
      → (write_account_snapshot d a ≡ panic) × (check_account_snapshot d a ≡ ok false)
  unfolding write_account_snapshot check_account_snapshot
  overdraft_panics d b a nf m s new debit over =
      let bk = account_balance_key a.process a.asset in
      let fresh = snapshot_posted d a in
      let listed = s.movements a.process a.nonce a.credit m.process_length m.nonce_range in
      let shown = s.balances a.process a.asset m.process_length in
      let read_key = nf.reads d (account_snapshot_key a) in
      let read_balance = nf.reads d bk in
      let compared = cmp-units (balance_of (get d bk)) a.amount in (ground arith, ground arith)

  -- On a disk without faults whose database shows a book, the check of a debit (of a process with an
  -- identifier of 36 characters, with a nonce of 64 bits and a positive amount) answers whether the
  -- debit is in the book already or is covered by the balance.
  pub check_account_snapshot_lem :
      (d : Db) (b : Book) (a : AccountSnapshot)
      → NoFaults
      → IsMovement a
      → Shows d b
      → a.credit ≡ false
      → check_account_snapshot d a
        ≡ ok (
            b.posted a.process a.nonce a.credit
            || leb (units a.amount) (b.balance a.process a.asset))
  unfolding check_account_snapshot
  check_account_snapshot_lem d b a nf m s debit =
      let bk = account_balance_key a.process a.asset in
      ground (
        arith,
        snapshot_posted d a,
        s.movements a.process a.nonce a.credit m.process_length m.nonce_range,
        s.balances a.process a.asset m.process_length,
        nf.reads d (account_snapshot_key a),
        nf.reads d bk,
        cmp-units (balance_of (get d bk)) a.amount,
      )

  -- Snapshots written one after the other.
  unfoldable pub write_account_snapshots : Db → List AccountSnapshot → Outcome Db
  write_account_snapshots d [] = ok d
  write_account_snapshots d (a ∷ as') = do
    d' ← write_account_snapshot d a
    write_account_snapshots d' as'

  -- If the database shows a book, and the writes of a list of snapshots (of processes with identifiers
  -- of 36 characters, with nonces of 64 bits and positive amounts), repeated ones included, succeed
  -- one after the other, then it shows the book in which each distinct movement is posted once.
  pub Shows-write_account_snapshots :
      (as' : List AccountSnapshot) (d d' : Db) (b : Book)
      → All IsMovement as'
      → Shows d b
      → write_account_snapshots d as' ≡ ok d'
      → Shows d' (post_all b as')
  unfolding write_account_snapshots post_all
  Shows-write_account_snapshots [] d d' b m s h = let e : d ≡ d' = cc in subst (λ x. Shows x b) e s
  Shows-write_account_snapshots (a ∷ as') d d' b (m, ms) s h =
      let (d₁, e, rest) = >>=-eq-ok (write_account_snapshot d a) _ h in
      Shows-write_account_snapshots as' d₁ d' (post b a) ms
        (Shows-write_account_snapshot d d₁ b a m s e) rest
