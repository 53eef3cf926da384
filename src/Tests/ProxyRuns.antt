-- ===== src/Tests/ProxyRuns.antt =====
-- The proxy contract at work: a user with an account, one event in time and one that came too late.
use trusted_group.Base.{
  ℕ, ◌≡◌, refl, List, [], ◌∷◌, none, ok, panic, Outcome, arith, Bytes, text, length, ◌+◌, ◌-◌, ◌%◌,
  ◌^◌,
}
use trusted_group.External.{ChainAsset, Call, Holds}
use trusted_group.Contracts.{signed_le, is_found}
use trusted_group.Contracts.Mtg.{TxRequest}
use trusted_group.Contracts.Proxy.{
  Proxy, TxEvent, mtg_xin, token_create, token_issue, token_transfer, group_txrequest,
}
use trusted_group.Contracts.Proxy.Nonces.{check_nonce}
use trusted_group.Contracts.Proxy.Nonces.Once.{
  Taken, IsRanged, Settled, check_nonce_fresh, check_nonce-Taken,
}
use trusted_group.Contracts.Proxy.Accounts.{account_letters, get_account}
use trusted_group.Contracts.Proxy.Accounts.Letters.{letters_value, letters_value-account_letters}
use trusted_group.Contracts.Proxy.Events.{handle_event_no_nonce_checking}
use trusted_group.Contracts.Proxy.Events.Expired.{Paid, late_event_twice}
use trusted_group.Contracts.Proxy.Transfers.{get_symbol, get_transfer_fee}
use trusted_group.Contracts.Proxy.Actions.Unopened.{run_opens_no_account}
use trusted_group.Contracts.Proxy.Actions.{Unpacking, on_event}
use trusted_group.Contracts.Proxy.Actions.Accepted.{start, event_taken, Accepts, run-Accepts}
use trusted_group.Tests.Rows.{Row, tables_in_memory}
use trusted_group.Tests.Names.{asset_of, small_chain, call_of}
use trusted_group.Tests.Toy.{zeros}

abbrev event_with : ℕ → TxEvent
event_with n = record {
  nonce = n;
  process = 9;
  asset = 5;
  members = 99 ∷ [];
  threshold = 1;
  amount = 100;
  extra = [];
  timestamp = 0;
  signatures = (1 ∷ []) ∷ [];
}

abbrev unpacked : Bytes → Outcome (TxEvent × ℕ)
unpacked [] = panic
unpacked (n ∷ rest) = ok (event_with n, length rest + 1)

instance abbrev first_byte : Unpacking
first_byte = record { unpack_event = unpacked; unpack_string = λ b. ok b }

abbrev a_proxy : Proxy
a_proxy = record {
  processes = (mtg_xin, 80, record { contract = 80; process = 9 }) ∷ [];
  signers = (mtg_xin, 1, record { account = 1; public_key = 1 ∷ [] }) ∷ [];
  token_stats = [];
  mixinassets = (80, 7, record { symbol = 1792; asset_id = 5 }) ∷ [];
  transferfees = [];
  totalfees = [];
  submittedevs = [];
  counters = [];
  errorevents = [];
  bindaccounts = (80, 60, record { eos_account = 60; client_id = 99 }) ∷ [];
  accountcache = none;
  createaccfee = none;
  sent = [];
}

a_proxy-IsRanged : IsRanged 80 a_proxy
a_proxy-IsRanged = record { notes = λ k v e. cc; counter = omega arith }

abbrev counted_proxy : Proxy
counted_proxy = record a_proxy { counters = (80, 1, 2) ∷ (80, 1, 1) ∷ [] }

abbrev first_total : List (Row ChainAsset)
first_total = (80, 7, asset_of 0 1792) ∷ []

abbrev event_proxy : Proxy
event_proxy = record counted_proxy {
  totalfees = first_total;
  sent =
      token_create 80 (asset_of 100000000000000 1792)
      ∷ token_issue 80 (asset_of 100 1792)
      ∷ token_transfer 80 80 60 (asset_of 100 1792) (text "transfer")
      ∷ [];
}

check_run : check_nonce (call_of 80) 1 a_proxy ≡ ok counted_proxy
unfolding check_nonce
check_run = refl

event_run : on_event (call_of 80) 9 (1 ∷ zeros 66) a_proxy ≡ ok event_proxy
unfolding on_event trusted_group.Base.beq trusted_group.Contracts.Proxy.Transfers.get_symbol
    trusted_group.Contracts.must_find trusted_group.Contracts.Proxy.Transfers.get_transfer_fee
    trusted_group.Contracts.Proxy.Transfers.add_fee trusted_group.Contracts.Proxy.Transfers.refund
    get_account
event_run = refl

check_nonce_fresh_example :
    (p' : Proxy) × (check_nonce (call_of 80) 1 a_proxy ≡ ok p')
    × Taken 80 1 a_proxy p'
    × IsRanged 80 p'
    × Settled 80 p'
check_nonce_fresh_example =
    check_nonce_fresh (call_of 80) 1 a_proxy (unfold is_found in refl) (omega arith)
      a_proxy-IsRanged

check_nonce-Taken_example : Taken 80 1 a_proxy counted_proxy × IsRanged 80 counted_proxy
check_nonce-Taken_example =
    check_nonce-Taken (call_of 80) 1 a_proxy counted_proxy (omega arith) a_proxy-IsRanged check_run

run-Accepts_example : Accepts 80 a_proxy event_proxy (1 ∷ [])
run-Accepts_example = run-Accepts 80 a_proxy event_proxy (1 ∷ []) a_proxy-IsRanged (
    event_taken (call_of 80) 9 (1 ∷ zeros 66) (event_with 1) 67 start refl refl (omega arith)
      event_run)

letters_value-account_letters_example :
    (letters_value (account_letters 9 27) ≡ 27) × (length (account_letters 9 27) ≡ 9)
letters_value-account_letters_example = letters_value-account_letters 9 27 (omega arith)

run_opens_no_account_example : event_proxy.bindaccounts ≡ a_proxy.bindaccounts
run_opens_no_account_example = run_opens_no_account 80 a_proxy event_proxy (1 ∷ []) (
    event_taken (call_of 80) 9 (1 ∷ zeros 66) (event_with 1) 67 start refl refl (omega arith)
      event_run)

-- The call comes a thousand seconds after the event.
abbrev late_call : Call
late_call = record (call_of 80) { current_seconds = 1000 }

abbrev late_request : TxRequest
late_request = record {
  nonce = 1;
  contract = 80;
  process = 9;
  asset = 5;
  members = 99 ∷ [];
  threshold = 1;
  amount = 100;
  extra = text "expired, refund";
  timestamp = 0;
}

abbrev late_proxy : Proxy
late_proxy = record a_proxy {
  totalfees = first_total;
  counters = (80, 2, 1) ∷ [];
  sent =
      group_txrequest late_request
      ∷ token_create 80 (asset_of 100000000000000 1792)
      ∷ token_issue 80 (asset_of 100 1792)
      ∷ token_transfer 80 80 60 (asset_of 100 1792) (text "transfer")
      ∷ [];
}

late_run : handle_event_no_nonce_checking late_call 9 (event_with 1) a_proxy ≡ ok late_proxy
unfolding handle_event_no_nonce_checking trusted_group.Contracts.Proxy.Transfers.add_fee
    trusted_group.Contracts.Proxy.Transfers.refund get_account
    trusted_group.Contracts.Proxy.Transfers.get_symbol trusted_group.Contracts.must_find
    trusted_group.Contracts.Proxy.Transfers.get_transfer_fee
late_run = refl

late_symbol : get_symbol late_call 5 a_proxy ≡ ok 1792
unfolding get_symbol trusted_group.Contracts.must_find
late_symbol = refl

late_event_twice_example :
    (r : TxRequest) × Holds (group_txrequest r) late_proxy.sent
    × (r.amount ≡ 100 - (get_transfer_fee late_call 1792 a_proxy).amount)
    × (r.members ≡ 99 ∷ [])
    × Paid late_call 60
        (asset_of
          ((100 + (2 ^ 64 - (get_transfer_fee late_call 1792 a_proxy).amount)) % 2 ^ 64)
          1792)
        late_proxy.sent
late_event_twice_example =
    late_event_twice late_call 9 60 99 1792 (event_with 1) a_proxy late_proxy refl refl refl
      (unfold get_account in refl) late_symbol refl
      (unfold signed_le in unfold get_transfer_fee in refl) late_run
