-- ===== src/Contracts/Token/Conservation.antt =====
-- The tokens of mvm/eos/contracts/mixinproxy/token/token.go are conserved: the balances of a symbol
-- and its supply, over the transactions of the contract.
use trusted_group.Base.{
  ℕ, ◌≡◌, Bool, false, ◌||◌, refl, sym, ◌∙◌, subst, ap, Bytes, ◌==◌, Option, none, some, arith, ok,
  >>=-eq-ok, ok_injective,
}
use trusted_group.External.{ChainAsset, Tables, Chaining, Call}
use trusted_group.Contracts.{must_find, must_find-eq-ok, check->>}
use trusted_group.Contracts.Token.{
  Ledger, code, create, issue, retire, retire_ex, open_account, open_row, close_account,
}
use trusted_group.Contracts.Token.Effects.{balance_in, amount_of}
use trusted_group.Contracts.Token.Backing.{Covers, Covers-same, IsBacked, kept}
use trusted_group.Contracts.Token.Apart.{
  create-Elsewhere, issue-Elsewhere, retire-Elsewhere, retire_ex-Elsewhere, run_transfer-Elsewhere,
}
use trusted_group.Contracts.Token.Supply.{create-Conserves, issue-Conserves, retire-Conserves}
use trusted_group.Contracts.Token.Transfers.{run_transfer, run_transfer-Conserves}

module _ ⦃tables : Tables⦄ ⦃chaining : Chaining⦄ where
  open tables use {find, put, store, remove, find-put, find-remove, store_new}
  open chaining use {symbol_code}

  -- A transaction with one action, with what the action sends to the token contract: every action of
  -- the token. `RetireEx` asks for the authority of the token contract itself. It runs as part of a
  -- transfer, and by that authority it also runs alone; then it lowers the supply and no balance.
  pub data Transaction : Ledger → Ledger → Type 0 where
    created :
        (call : Call) (issuer : ℕ) (maximum_supply : ChainAsset) {t t' : Ledger}
        → create call issuer maximum_supply t ≡ ok t'
        → Transaction t t'
    issued :
        (call : Call) (to : ℕ) (q : ChainAsset) (memo : Bytes) {t t' : Ledger}
        → issue call to q memo t ≡ ok t'
        → Transaction t t'
    retired :
        (call : Call) (q : ChainAsset) (memo : Bytes) {t t' : Ledger}
        → retire call q memo t ≡ ok t'
        → Transaction t t'
    retired_alone :
        (call : Call) (account : ℕ) (q : ChainAsset) (memo : Bytes) {t t' : Ledger}
        → retire_ex call account q memo t ≡ ok t'
        → Transaction t t'
    transferred :
        (call : Call) (from to : ℕ) (q : ChainAsset) (memo : Bytes) {t t' : Ledger}
        → run_transfer call from to q memo t ≡ ok t'
        → Transaction t t'
    opened :
        (call : Call) (owner symbol ram_payer : ℕ) {t t' : Ledger}
        → open_account call owner symbol ram_payer t ≡ ok t'
        → Transaction t t'
    closed :
        (call : Call) (owner symbol : ℕ) {t t' : Ledger}
        → close_account call owner symbol t ≡ ok t'
        → Transaction t t'

  -- Whether a transaction is a `RetireEx` of the symbol alone.
  unfoldable pub is_retired_alone : {t t' : Ledger} → Transaction t t' → ℕ → Bool
  is_retired_alone (retired_alone call account q memo h) c = code q == c
  is_retired_alone _ c = false

  pub data Transactions : Ledger → Ledger → Type 0 where
    finished : {t : Ledger} → Transactions t t
    before : {t t' t'' : Ledger} → Transaction t t' → Transactions t' t'' → Transactions t t''

  unfoldable pub some_retired_alone : {t t' : Ledger} → Transactions t t' → ℕ → Bool
  unfolding is_retired_alone
  some_retired_alone finished c = false
  some_retired_alone (before step rest) c = is_retired_alone step c || some_retired_alone rest c

  -- The same balances and the same supplies.
  same_view :
      (t t' : Ledger)
      → ((c x : ℕ) → balance_in t' c x ≡ balance_in t c x)
      → t'.stats ≡ t.stats
      → (c : ℕ) → IsBacked t c 0
      → IsBacked t' c 0
  same_view t t' balances stats c backed =
      rw stats
        (Covers-same (balance_in t c) (balance_in t' c) (find t.stats c c) 0 (balances c) backed)

  open_keeps :
      (owner symbol : ℕ) (t t' : Ledger) (o : Option ChainAsset)
      → find t.accounts owner (symbol_code symbol) ≡ o
      → open_row o owner symbol t ≡ ok t'
      → (c : ℕ) → IsBacked t c 0
      → IsBacked t' c 0
  unfolding open_row
  open_keeps owner symbol t t' (some b) e h c backed =
      subst (λ s. IsBacked s c 0) (ok_injective h) backed
  open_keeps owner symbol t t' none e h c backed =
      let zero_row : ChainAsset = record { amount = 0; symbol = symbol } in
      let k = symbol_code symbol in
      let (r, stored, h₁) = >>=-eq-ok (store t.accounts owner k zero_row) _ h in
      let same = ok_injective (sym (store_new t.accounts owner k zero_row e) ∙ stored) in
      let t₁ = record t { accounts = put t.accounts owner k zero_row } in
      let whole : t₁ ≡ t' = ap (λ a. record t { accounts = a }) same ∙ ok_injective h₁ in
      subst (λ s. IsBacked s c 0) whole
        (same_view t t₁
          (λ c x. rw (find-put t.accounts owner k zero_row x c) (ground (arith, ap amount_of e)))
          refl c backed)

  close_keeps :
      (call : Call) (owner symbol : ℕ) (t t' : Ledger)
      → close_account call owner symbol t ≡ ok t'
      → (c : ℕ) → IsBacked t c 0
      → IsBacked t' c 0
  unfolding close_account
  close_keeps call owner symbol t t' h c backed =
      let k = symbol_code symbol in
      let (_, h₁) = check->> (call.has_auth owner) _ h in
      let (b, f, h₂) = >>=-eq-ok (must_find t.accounts owner k) _ h₁ in
      let (zeroed, h₃) = check->> (b.amount == 0) _ h₂ in
      let e = must_find-eq-ok t.accounts owner k f in
      subst (λ s. IsBacked s c 0) (ok_injective h₃)
        (same_view t (record t { accounts = remove t.accounts owner k })
          (λ c x. rw (find-remove t.accounts owner k x c) (ground (arith, ap amount_of e))) refl c
          backed)

  transaction-IsBacked :
      (t t' : Ledger) (step : Transaction t t') (c : ℕ)
      → is_retired_alone step c ≡ false
      → IsBacked t c 0
      → IsBacked t' c 0
  unfolding open_account is_retired_alone
  transaction-IsBacked t t' (created call issuer ms h) c _ backed =
      kept t t' (code ms) c (create-Elsewhere call issuer ms t t' h)
        (create-Conserves call issuer ms t t' h) backed
  transaction-IsBacked t t' (issued call to q memo h) c _ backed =
      kept t t' (code q) c (issue-Elsewhere call to q memo t t' h)
        (issue-Conserves call to q memo t t' h) backed
  transaction-IsBacked t t' (retired call q memo h) c _ backed =
      kept t t' (code q) c (retire-Elsewhere call q memo t t' h)
        (retire-Conserves call q memo t t' h) backed
  transaction-IsBacked t t' (retired_alone call account q memo h) c apart backed =
      let (same, stats) = retire_ex-Elsewhere call account q memo t t' h c apart in
      subst (λ o. Covers (balance_in t' c) o 0) (sym stats)
        (Covers-same (balance_in t c) (balance_in t' c) (find t.stats c c) 0 same backed)
  transaction-IsBacked t t' (transferred call from to q memo h) c _ backed =
      kept t t' (code q) c (run_transfer-Elsewhere q call from to memo t t' h)
        (run_transfer-Conserves call from to q memo t t' h) backed
  transaction-IsBacked t t' (closed call owner symbol h) c _ backed =
      close_keeps call owner symbol t t' h c backed
  transaction-IsBacked t t' (opened call owner symbol payer h) c _ backed =
      let k = symbol_code symbol in
      let (_, h₁) = check->> (call.has_auth payer) _ h in
      let (_, h₂) = check->> (call.is_account owner) _ h₁ in
      let (st, f, h₃) = >>=-eq-ok (must_find t.stats k k) _ h₂ in
      let (_, h₄) = check->> (st.supply.symbol == symbol) _ h₃ in
      open_keeps owner symbol t t' (find t.accounts owner k) refl h₄ c backed

  -- Over any transactions of the token's actions that succeed, the balances of a symbol sum to its
  -- supply, which is at most its greatest supply, and a symbol without a token has no balances, if
  -- that holds of the symbol before them (as of empty tables) and none of them is a `RetireEx` of the
  -- symbol alone. Such a transaction, by the authority of the contract itself, lowers the supply and
  -- no balance; the `RetireEx` that a transfer sends is part of the transfer. The sum is over
  -- finitely many owners, all others have none.
  pub transactions-IsBacked :
      (t t' : Ledger) (run : Transactions t t') (c : ℕ)
      → some_retired_alone run c ≡ false
      → IsBacked t c 0
      → IsBacked t' c 0
  unfolding some_retired_alone
  transactions-IsBacked t _ finished c none_alone backed = backed
  transactions-IsBacked t t'' (before {t' = t'} step rest) c none_alone backed =
      transactions-IsBacked t' t'' rest c (ground arith)
        (transaction-IsBacked t t' step c (ground arith) backed)
