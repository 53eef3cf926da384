-- ===== src/Store/Accounts.antt =====
-- mvm/store/account.go
pub mod Book
pub mod Refinement
use trusted_group.Base.{
  Bytes, Outcome, ok, panic, ◌>>=◌, ◌>>◌, panic_if, Option, none, some, Bool, true, false, not,
  ◌&&◌, Ordering, if◌then◌else◌,
}
use trusted_group.External.{Integers, Database, Json}
use trusted_group.Machine.Types.{AccountSnapshot}
use trusted_group.Store.Keys.{account_balance_key, account_snapshot_key}
use trusted_group.Store.Txn.{read, write, update}

-- `x.Cmp(y) < 0`, `x.Sign() < 0`.
abbrev pub is_lt : Ordering → Bool
is_lt Ordering.lt = true
is_lt _ = false

module _ ⦃ints : Integers⦄ where
  open ints use {Integer, add, sub, add_panics, sub_panics}

  -- `bal.Add(amount)` and `bal.Sub(amount)` of the library, with their panics.
  unfoldable pub plus : Integer → Integer → Outcome Integer
  plus a b = if add_panics a b then panic else ok (add a b)

  unfoldable pub minus : Integer → Integer → Outcome Integer
  minus a b = if sub_panics a b then panic else ok (sub a b)

module _ ⦃ints : Integers⦄ ⦃database : Database⦄ where
  open ints use {Integer, zero_integer, cmp, of_string, to_string}
  open database use {Db}

  abbrev balance_of : Option Bytes → Integer
  balance_of none = zero_integer
  balance_of (some b) = of_string b

  unfoldable pub read_account_balance : Db → Bytes → Bytes → Outcome Integer
  unfolding read
  read_account_balance d pid asset = do
    found ← read d (account_balance_key pid asset)
    ok (balance_of found)

  check_balance : Db → AccountSnapshot → Option Bytes → Outcome Bool
  unfolding read_account_balance
  check_balance d as' (some _) = ok true
  check_balance d as' none = do
    balance ← read_account_balance d as'.process as'.asset
    ok (not (is_lt (cmp balance as'.amount)))

  unfoldable pub check_account_snapshot : Db → AccountSnapshot → Outcome Bool
  unfolding check_balance read
  check_account_snapshot d as' = do
    panic_if as'.credit
    found ← read d (account_snapshot_key as')
    check_balance d as' found

  abbrev move_balance : Bool → Integer → Integer → Outcome Integer
  move_balance true bal amount = plus bal amount
  move_balance false bal amount = minus bal amount

  module _ ⦃json : Json AccountSnapshot⦄ where
    open json use {marshal}

    apply_snapshot : Db → AccountSnapshot → Option Bytes → Outcome Db
    unfolding read_account_balance plus minus write
    apply_snapshot d as' (some _) = ok d
    apply_snapshot d as' none = do
      bal ← read_account_balance d as'.process as'.asset
      panic_if (not as'.credit && is_lt (cmp bal as'.amount))
      bal ← move_balance as'.credit bal as'.amount
      d ← write d (account_balance_key as'.process as'.asset) (to_string bal)
      write d (account_snapshot_key as') (marshal as')

    unfoldable pub write_account_snapshot : Db → AccountSnapshot → Outcome Db
    unfolding apply_snapshot read update
    write_account_snapshot d as' =
        update d (do found ← read d (account_snapshot_key as'); apply_snapshot d as' found)
