-- ===== src/Store/Accounts/Book.antt =====
-- The accounts of mvm/store/account.go as a book: a balance for each process and asset, and the set
-- of the movements that were posted. The database shows a book, and each snapshot that is written
-- posts its movement once.
use trusted_group.Base.{
  ℕ, ◌+◌, ◌-◌, ◌<◌, ◌≤◌, ◌^◌, ◌≡◌, Bytes, Bool, true, false, ◌&&◌, ◌||◌, ◌==◌, beq, length, List,
  [], ◌∷◌, ◌++◌, Option, none, some, uint64_bytes, arith, if◌then◌else◌, sym, ◌∙◌,
}
use trusted_group.Base.{ok}
use trusted_group.External.{Integers, Database, Json}
use trusted_group.Machine.Types.{AccountSnapshot}
use trusted_group.Store.Keys.{snapshot_prefix, account_balance_key, account_snapshot_key}
use trusted_group.Store.Keys.Injective.{
  same_way, beq-snapshot_key, beq-account_balance_key, balance_key-ne-snapshot_key,
  snapshot_key-ne-balance_key,
}
use trusted_group.Store.Accounts.{balance_of, write_account_snapshot}

abbrev pub is_some {ℓ} : {A : Type ℓ} → Option A → Bool
is_some none = false
is_some (some a) = true

pub record Book : Type 0 where
  pub posted : Bytes → ℕ → Bool → Bool
  pub balance : Bytes → Bytes → ℕ

module _ ⦃ints : Integers⦄ where
  open ints use {units}

  abbrev pub moved : Bool → ℕ → ℕ → ℕ
  moved true balance amount = balance + amount
  moved false balance amount = balance - amount

  -- A movement is posted once: a second one of its process, nonce and direction changes nothing.
  unfoldable pub post : Book → AccountSnapshot → Book
  post b a = if b.posted a.process a.nonce a.credit then b else record {
    posted =
        λ p n c. (same_way a.credit c && (beq a.process p && (a.nonce == n))) || b.posted p n c;
    balance = λ p q.
        if beq a.process p && beq a.asset q
        then moved a.credit (b.balance p q) (units a.amount)
        else b.balance p q;
  }

  unfoldable pub post_all : Book → List AccountSnapshot → Book
  unfolding post
  post_all b [] = b
  post_all b (a ∷ as') = post_all (post b a) as'

  -- What the callers of the store guarantee of a snapshot.
  pub record IsMovement (a : AccountSnapshot) : Type 0 where
    pub process_length : length a.process ≡ 36
    pub nonce_range : a.nonce < 2 ^ 64
    pub positive : 0 < units a.amount

module _ ⦃ints : Integers⦄ ⦃database : Database⦄ where
  open ints use {units}
  open database use {Db, get}

  abbrev pub balance_in : Db → Bytes → Bytes → ℕ
  balance_in d p q = units (balance_of (get d (account_balance_key p q)))

  abbrev pub posted_in : Db → Bytes → ℕ → Bool → Bool
  posted_in d p n c = is_some (get d (snapshot_prefix c ++ (p ++ uint64_bytes n)))

  -- The database holds what the book says, at every identifier of 36 characters.
  pub record Shows (d : Db) (b : Book) : Type 0 where
    pub balances : (p q : Bytes) → length p ≡ 36 → balance_in d p q ≡ b.balance p q
    pub movements :
        (p : Bytes) (n : ℕ) (c : Bool)
        → length p ≡ 36
        → n < 2 ^ 64
        → posted_in d p n c ≡ b.posted p n c

  module _ ⦃json : Json AccountSnapshot⦄ where
    open ints use {to_string, add, sub, units-add, units-sub, cmp-units, of_string-to_string}
    open database use {set, get-set}
    open json use {marshal}

    abbrev pub new_balance : AccountSnapshot → Db → ints.Integer
    new_balance a d =
        let bal = balance_of (get d (account_balance_key a.process a.asset)) in
        if a.credit then add bal a.amount else sub bal a.amount

    -- The database after a snapshot that was not there before.
    abbrev pub after_snapshot : Db → AccountSnapshot → Db
    after_snapshot d a =
        set (set d (account_balance_key a.process a.asset) (to_string (new_balance a d)))
          (account_snapshot_key a) (marshal a)

    -- What a successful write did.
    pub write_account_snapshot-ok :
        (d d' : Db) (a : AccountSnapshot)
        → write_account_snapshot d a ≡ ok d'
        → d' ≡ (if is_some (get d (account_snapshot_key a)) then d else after_snapshot d a)
    unfolding write_account_snapshot
    write_account_snapshot-ok d d' a h = ground arith

    -- A debit that was written was covered.
    pub write_account_snapshot-covered :
        (d d' : Db) (a : AccountSnapshot)
        → write_account_snapshot d a ≡ ok d'
        → is_some (get d (account_snapshot_key a)) ≡ false
        → a.credit ≡ false
        → units a.amount ≤ balance_in d a.process a.asset
    unfolding write_account_snapshot
    write_account_snapshot-covered d d' a h new debit =
        ground
          (arith, cmp-units (balance_of (get d (account_balance_key a.process a.asset))) a.amount)

    pub get-after_snapshot :
        (d : Db) (a : AccountSnapshot) (k : Bytes)
        → get (after_snapshot d a) k ≡ (
            if beq (account_snapshot_key a) k
            then some (marshal a)
            else if beq (account_balance_key a.process a.asset) k
            then some (to_string (new_balance a d))
            else get d k)
    get-after_snapshot d a k = simp get-set

    pub balance-after_snapshot :
        (d : Db) (a : AccountSnapshot) (p q : Bytes)
        → IsMovement a
        → length p ≡ 36
        → (a.credit ≡ false → units a.amount ≤ balance_in d a.process a.asset)
        → balance_in (after_snapshot d a) p q ≡ (
            if beq a.process p && beq a.asset q
            then moved a.credit (balance_in d a.process a.asset) (units a.amount)
            else balance_in d p q)
    unfolding account_snapshot_key
    balance-after_snapshot d a p q m hp covered = ground (
      arith,
      there,
      of_string-to_string (new_balance a d),
      units-add (balance_of (get d (account_balance_key a.process a.asset))) a.amount m.positive,
      units-sub (balance_of (get d (account_balance_key a.process a.asset))) a.amount m.positive,
      covered,
    )
      where
        there : get (after_snapshot d a) (account_balance_key p q) ≡ (
            if beq a.process p && beq a.asset q
            then some (to_string (new_balance a d))
            else get d (account_balance_key p q))
        there = rw (
          get-after_snapshot d a (account_balance_key p q),
          snapshot_key-ne-balance_key a.credit p q _,
          beq-account_balance_key a.process p a.asset q (m.process_length ∙ sym hp),
        )

    pub posted-after_snapshot :
        (d : Db) (a : AccountSnapshot) (p : Bytes) (n : ℕ) (c : Bool)
        → IsMovement a
        → length p ≡ 36
        → n < 2 ^ 64
        → posted_in (after_snapshot d a) p n c
          ≡ ((same_way a.credit c && (beq a.process p && (a.nonce == n))) || posted_in d p n c)
    unfolding account_snapshot_key
    posted-after_snapshot d a p n c m hp hn =
        rw
          (
            get-after_snapshot d a (snapshot_prefix c ++ (p ++ uint64_bytes n)),
            beq-snapshot_key a.credit c a.process p a.nonce n (m.process_length ∙ sym hp)
                m.nonce_range hn,
            balance_key-ne-snapshot_key c a.process a.asset _,
          )
          (ground arith)
