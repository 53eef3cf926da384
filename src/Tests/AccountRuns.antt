-- ===== src/Tests/AccountRuns.antt =====
-- The theorems on mvm/store/account.go at a database in memory.
use trusted_group.Base.{
  ℕ, beq, uint64_bytes, ◌≡◌, refl, Bytes, true, false, List, [], ◌∷◌, arith, inl, inr, ◌||◌, leb,
}
use trusted_group.Base.{Outcome, ok, panic}
use trusted_group.Machine.Types.{AccountSnapshot}
use trusted_group.Store.Keys.{account_snapshot_key, account_balance_key}
use trusted_group.Store.Txn.{NoFaults}
use trusted_group.Store.Accounts.{write_account_snapshot, check_account_snapshot}
use trusted_group.Store.Accounts.Book.{Book, post, post_all, Shows, IsMovement}
use trusted_group.Store.Accounts.Refinement.{
  write_account_snapshots, write_account_snapshot-posts, overdraft_panics,
  check_account_snapshot_lem, Shows-write_account_snapshots,
}
use trusted_group.Tests.Disk.{memory, blank, Disk}
use trusted_group.Tests.Toy.{amounts, snapshot_json, zeros}

abbrev id_of : ℕ → Bytes
id_of n = n ∷ zeros 35

abbrev credit : AccountSnapshot
credit = record { process = id_of 1; nonce = 0; asset = id_of 2; amount = 5; credit = true }

abbrev debit : AccountSnapshot
debit = record { process = id_of 1; nonce = 0; asset = id_of 2; amount = 3; credit = false }

credit-IsMovement : IsMovement credit
credit-IsMovement = record {
  process_length = refl;
  nonce_range = omega arith;
  positive = omega arith;
}

debit-IsMovement : IsMovement debit
debit-IsMovement = record {
  process_length = refl;
  nonce_range = omega arith;
  positive = omega arith;
}

abbrev empty_book : Book
empty_book = record { posted = λ p n c. false; balance = λ p q. 0 }

blank-Shows : Shows blank empty_book
blank-Shows = record { balances = λ p q h. refl; movements = λ p n c h k. refl }

memory-NoFaults : NoFaults
memory-NoFaults = record { reads = λ d k. refl; writes = λ d k. refl; commits = λ d. refl }

write_account_snapshot-posts_example :
    (d' : Disk) × (write_account_snapshot blank credit ≡ ok d') × Shows d' (post empty_book credit)
write_account_snapshot-posts_example =
    write_account_snapshot-posts blank empty_book credit memory-NoFaults credit-IsMovement
      blank-Shows (inr (inl refl))

overdraft_panics_example :
    (write_account_snapshot blank debit ≡ panic) × (check_account_snapshot blank debit ≡ ok false)
overdraft_panics_example =
    overdraft_panics blank empty_book debit memory-NoFaults debit-IsMovement blank-Shows refl refl
      (omega arith)

check_account_snapshot_lem_example : check_account_snapshot blank debit ≡ ok (false || leb 3 0)
check_account_snapshot_lem_example =
    check_account_snapshot_lem blank empty_book debit memory-NoFaults debit-IsMovement blank-Shows
      refl

-- A credit that is delivered twice, then a debit.
abbrev movements : List AccountSnapshot
movements = credit ∷ credit ∷ debit ∷ []

abbrev result_of : Outcome Disk → Disk
result_of (ok d) = d
result_of _ = blank

abbrev moved_disk : Disk
moved_disk = result_of (
    unfold write_account_snapshots write_account_snapshot account_snapshot_key account_balance_key
      beq uint64_bytes in
    write_account_snapshots blank movements)

Shows-write_account_snapshots_example : Shows moved_disk (post_all empty_book movements)
unfolding write_account_snapshots write_account_snapshot account_snapshot_key account_balance_key
    beq uint64_bytes
Shows-write_account_snapshots_example =
    Shows-write_account_snapshots movements blank moved_disk empty_book
      (credit-IsMovement, (credit-IsMovement, (debit-IsMovement, tt))) blank-Shows refl
