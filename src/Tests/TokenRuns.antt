-- ===== src/Tests/TokenRuns.antt =====
-- The token contract at work: a token is created, issued, sent to a user of Mixin and retired.
use trusted_group.Base.{ℕ, ◌≡◌, refl, List, [], ◌∷◌, text, ok}
use trusted_group.External.{ChainAsset}
use trusted_group.Contracts.{must_find}
use trusted_group.Contracts.Token.{
  Ledger, CurrencyStats, recipient, send_retireex, send_ontransfer, retire_ex, create, issue,
  transfer, master_account, sub_balance, add_balance,
}
use trusted_group.Contracts.Token.Backing.{IsBacked}
use trusted_group.Contracts.Token.Transfers.{run_transfer}
use trusted_group.Contracts.Token.Conservation.{
  finished, before, created, issued, transferred, is_retired_alone, some_retired_alone,
  transactions-IsBacked,
}
use trusted_group.Tests.Rows.{Row, tables_in_memory}
use trusted_group.Tests.Names.{asset_of, small_chain, call_of}

-- The symbol 1792 has the code 7; the account 60 stands for the user 99.
abbrev empty_ledger : Ledger
empty_ledger = record {
  accounts = [];
  stats = [];
  bindaccounts = (master_account, 60, record { eos_account = 60; client_id = 99 }) ∷ [];
  sent = [];
}

abbrev ledger_with : List (Row ChainAsset) → List (Row CurrencyStats) → Ledger
ledger_with accounts stats = record empty_ledger { accounts = accounts; stats = stats }

abbrev stats_of : ℕ → CurrencyStats
stats_of supply = record {
  supply = asset_of supply 1792;
  max_supply = asset_of 1000 1792;
  issuer = 50;
}

abbrev created_ledger : Ledger
created_ledger = ledger_with [] ((7, 7, stats_of 0) ∷ [])

abbrev issued_ledger : Ledger
issued_ledger =
    ledger_with ((50, 7, asset_of 300 1792) ∷ []) ((7, 7, stats_of 300) ∷ created_ledger.stats)

abbrev transferred_ledger : Ledger
transferred_ledger = record issued_ledger {
  accounts = (50, 7, asset_of 200 1792) ∷ issued_ledger.accounts;
  stats = (7, 7, stats_of 200) ∷ issued_ledger.stats;
  sent =
      recipient 60
      ∷ send_retireex 5 5 50 (asset_of 100 1792) (text "retire for transfer out")
      ∷ send_ontransfer 5 master_account 50 60 (asset_of 100 1792) []
      ∷ [];
}

create_run : create (call_of 5) 50 (asset_of 1000 1792) empty_ledger ≡ ok created_ledger
unfolding create
create_run = refl

issue_run : issue (call_of 5) 50 (asset_of 300 1792) [] created_ledger ≡ ok issued_ledger
unfolding issue must_find add_balance
issue_run = refl

transfer_run :
    run_transfer (call_of 5) 50 60 (asset_of 100 1792) [] issued_ledger ≡ ok transferred_ledger
unfolding run_transfer transfer retire_ex must_find sub_balance
transfer_run = refl

transactions-IsBacked_example : IsBacked transferred_ledger 7 0
transactions-IsBacked_example =
    transactions-IsBacked empty_ledger transferred_ledger
      (before (created (call_of 5) 50 (asset_of 1000 1792) create_run) (
        before (issued (call_of 5) 50 (asset_of 300 1792) [] issue_run)
          (before (transferred (call_of 5) 50 60 (asset_of 100 1792) [] transfer_run) finished)))
      7 (unfold some_retired_alone is_retired_alone in refl) (λ x. refl, refl)
