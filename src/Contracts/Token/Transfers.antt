-- ===== src/Contracts/Token/Transfers.antt =====
-- `Transfer`, `Open` and `Close` of mvm/eos/contracts/mixinproxy/token/token.go, and a transfer
-- together with the `retireex` action that it sends.
use trusted_group.Base.{
  ℕ, ◌^◌, ◌<◌, ◌≡◌, refl, sym, ◌∙◌, subst, ap, Bytes, Bool, true, false, not, ◌==◌, leb, length,
  List, [], ◌∷◌, ◌++◌, some, arith, Outcome, ok, ◌>>=◌, >>=-eq-ok, ok_injective, if◌then◌else◌,
  text,
}
use trusted_group.External.{ChainAsset, Tables, Chaining, Call}
use trusted_group.Contracts.{signed_le, is_positive, is_found, must_find, must_find-eq-ok, check->>}
use trusted_group.Contracts.Token.{
  Ledger, CurrencyStats, Sent, send_retireex, send_ontransfer, recipient, code, transfer, move,
  settle_transfer, tx_request, retire_ex, sub_balance, master_account,
}
use trusted_group.Contracts.Token.Backing.{
  IsBacked, Elsewhere, Elsewhere-trans, Conserves, Posted-Elsewhere, sub_balance-Backed,
  add_balance-Backed,
}
use trusted_group.Contracts.Token.Supply.{quantity_range, covered, uncovered, retire_ex_takes}

module _ ⦃tables : Tables⦄ ⦃chaining : Chaining⦄ where
  open tables use {find}
  open chaining use {asset_valid, asset_sub}

  -- The chain runs the inline actions of an action after it, in the same transaction, by the
  -- authority that each carries: those that the token contract sends to itself.
  unfoldable pub run_inline : Call → List Sent → Ledger → Outcome Ledger
  run_inline call [] t = ok t
  run_inline call (recipient n ∷ l) t = run_inline call l t
  run_inline call (send_ontransfer actor contract from to q memo ∷ l) t = run_inline call l t
  run_inline call (send_retireex actor contract account q memo ∷ l) t =
      retire_ex (record call { has_auth = λ n. n == actor }) account q memo t >>= λ t'.
      run_inline call l t'

  -- A transaction with one transfer.
  unfoldable pub run_transfer : Call → ℕ → ℕ → ChainAsset → Bytes → Ledger → Outcome Ledger
  unfolding run_inline
  run_transfer call from to q memo t = do
    t ← transfer call from to q memo (record t { sent = [] })
    run_inline call t.sent t

  module _ (q : ChainAsset) (st : CurrencyStats) (small : q.amount < 2 ^ 62) where
    move_conserves :
        (from to : ℕ) (t t' : Ledger)
        → find t.stats (code q) (code q) ≡ some st
        → move from to q t ≡ ok t'
        → IsBacked t (code q) 0
        → Elsewhere t t' (code q) × IsBacked t' (code q) 0 × (t'.sent ≡ t.sent)
    unfolding move
    move_conserves from to t t' known h backed =
        let c = code q in
        let b = uncovered t c 0 st known backed in
        let (t₁, taken, given) = >>=-eq-ok (sub_balance from q t) _ h in
        let (_, p, b₁) =
          sub_balance-Backed from q st 0 q.amount t t₁ (omega arith) (omega arith) b taken in
        let (p', b₂) = add_balance-Backed to q st q.amount 0 t₁ t' (omega arith) b₁ given in
        (
          Elsewhere-trans t t₁ t' c (Posted-Elsewhere t t₁ from c _ p)
              (Posted-Elsewhere t₁ t' to c _ p'),
          covered t' c 0 st (rw (p'.same_stats, p.same_stats) known) b₂,
          p'.same_sent ∙ p.same_sent,
        )

    -- A transfer out: the balance is pending until `retireex` takes it out of the supply.
    transfer_out-Conserves :
        (call : Call) (from : ℕ) (memo : Bytes) (t t₁ t₂ t' : Ledger)
        → find t.stats (code q) (code q) ≡ some st
        → sub_balance from q t ≡ ok t₁
        → t₂.accounts ≡ t₁.accounts
        → t₂.stats ≡ t₁.stats
        → retire_ex call from q memo t₂ ≡ ok t'
        → Conserves t t' (code q)
    transfer_out-Conserves call from memo t t₁ t₂ t' known taken same_accounts same_stats h backed =
        let c = code q in
        let b = uncovered t c 0 st known backed in
        let (_, p, b₁) =
          sub_balance-Backed from q st 0 q.amount t t₁ (omega arith) (omega arith) b taken in
        let known₂ : find t₂.stats c c ≡ some st = rw (same_stats, p.same_stats) known in
        let pending : IsBacked t₂ c q.amount =
          covered t₂ c q.amount st known₂ (rw same_accounts b₁) in
        let (other, backed') =
          retire_ex_takes call from q memo t₂ t' q.amount (omega arith) h pending in
        let other₂ : Elsewhere t t₂ c = λ d n.
          let (x, y) = Posted-Elsewhere t t₁ from c _ p d n in
          (λ a. rw same_accounts (x a), rw same_stats y) in
        (Elsewhere-trans t t₂ t' c other₂ other, subst (λ n. IsBacked t' c n) (omega arith) backed')

    abbrev sent_on : Call → ℕ → ℕ → Bytes → Ledger → Ledger
    sent_on call from to memo t = tx_request call from to q memo (record t {
      sent =
          t.sent
          ++ (send_retireex call.receiver call.receiver from q (text "retire for transfer out")
              ∷ []);
    })

    sub_balance-sent :
        (owner : ℕ) (t t' : Ledger) → sub_balance owner q t ≡ ok t' → t'.sent ≡ t.sent
    unfolding sub_balance
    sub_balance-sent owner t t' h =
        let (b, _, h₁) = >>=-eq-ok (must_find t.accounts owner (code q)) _ h in
        let (_, h₂) = check->> (signed_le q.amount b.amount) _ h₁ in
        let (b', _, h₃) = >>=-eq-ok (asset_sub b q) _ h₂ in
        sym (ap (λ (s : Ledger). s.sent) (ok_injective h₃))

    sent_out :
        (call : Call) (from to : ℕ) (memo : Bytes) (t t₂ t' : Ledger)
        → find t.stats (code q) (code q) ≡ some st
        → t.sent ≡ recipient to ∷ []
        → sub_balance from q t ≡ ok t₂
        → run_inline call (sent_on call from to memo t₂).sent (sent_on call from to memo t₂) ≡ ok t'
        → Conserves t t' (code q)
    unfolding run_inline tx_request
    sent_out call from to memo t t₂ t' known sent taken ran =
        let t₃ = sent_on call from to memo t₂ in
        let call' = record call { has_auth = λ n. n == call.receiver } in
        let m = send_ontransfer call.receiver master_account from to q memo in
        let r = send_retireex call.receiver call.receiver from q (text "retire for transfer out") in
        let ran' : run_inline call (((recipient to ∷ []) ++ (r ∷ [])) ++ (m ∷ [])) t₃ ≡ ok t' =
          subst (λ l. run_inline call ((l ++ (r ∷ [])) ++ (m ∷ [])) t₃ ≡ ok t')
            (sub_balance-sent from t t₂ taken ∙ sent) ran in
        let (t₄, retired, h₁) =
          >>=-eq-ok (retire_ex call' from q (text "retire for transfer out") t₃) _ ran' in
        transfer_out-Conserves call' from (text "retire for transfer out") t t₂ t₃ t' known taken
          refl refl (retired ∙ h₁)

    -- What a transfer comes to, once the actions that it sent have run.
    settle-Conserves :
        (call : Call) (from to : ℕ) (memo : Bytes) (t t₁ t' : Ledger)
        → find t.stats (code q) (code q) ≡ some st
        → t.sent ≡ recipient to ∷ []
        → settle_transfer call from to q memo t ≡ ok t₁
        → run_inline call t₁.sent t₁ ≡ ok t'
        → Conserves t t' (code q)
    unfolding settle_transfer
    settle-Conserves call from to memo t t₁ t' known sent h ran backed =
        go (from == master_account) (is_found (find t.bindaccounts master_account to)) h
      where
        moved : move from to q t ≡ ok t₁ → Elsewhere t t' (code q) × IsBacked t' (code q) 0
        moved h =
            let (other, backed', same) = move_conserves from to t t₁ known h backed in
            let ran' = subst (λ l. run_inline call l t₁ ≡ ok t') (same ∙ sent) ran in
            let whole : t₁ ≡ t' = unfold run_inline in ok_injective ran' in
            subst (λ s. Elsewhere t s (code q) × IsBacked s (code q) 0) whole (other, backed')

        go :
            (b₁ b₂ : Bool)
            → (if b₁
                then move from to q t
                else if not b₂
                then move from to q t
                else do t ← sub_balance from q t; ok (sent_on call from to memo t))
              ≡ ok t₁
            → Elsewhere t t' (code q) × IsBacked t' (code q) 0
        go true b₂ h = moved h
        go false false h = moved h
        go false true h =
            let (t₂, taken, h₁) = >>=-eq-ok (sub_balance from q t) _ h in
            sent_out call from to memo t t₂ t' known sent taken
              (subst (λ s. run_inline call s.sent s ≡ ok t') (sym (ok_injective h₁)) ran) backed

  -- A transaction with a transfer keeps the balances backed.
  pub run_transfer-Conserves :
      (call : Call) (from to : ℕ) (q : ChainAsset) (memo : Bytes) (t t' : Ledger)
      → run_transfer call from to q memo t ≡ ok t'
      → Conserves t t' (code q)
  unfolding run_transfer transfer
  run_transfer-Conserves call from to q memo t t' h =
      let c = code q in
      let (t₁, done, ran) = >>=-eq-ok (transfer call from to q memo (record t { sent = [] })) _ h in
      let (_, h₁) = check->> (not (from == to)) _ done in
      let (_, h₂) = check->> (call.has_auth from) _ h₁ in
      let (_, h₃) = check->> (call.is_account to) _ h₂ in
      let (st, f, h₄) = >>=-eq-ok (must_find t.stats c c) _ h₃ in
      let (valid, h₅) = check->> (asset_valid q) _ h₄ in
      let (pos, h₆) = check->> (is_positive q.amount) _ h₅ in
      let (_, h₇) = check->> (q.symbol == st.supply.symbol) _ h₆ in
      let (_, h₈) = check->> (leb (length memo) 256) _ h₇ in
      settle-Conserves q st (quantity_range q valid pos).1 call from to memo
        (record t { sent = recipient to ∷ [] }) t₁ t' (must_find-eq-ok t.stats c c f) refl h₈ ran
