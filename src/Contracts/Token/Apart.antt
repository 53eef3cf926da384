-- ===== src/Contracts/Token/Apart.antt =====
-- The actions of mvm/eos/contracts/mixinproxy/token/token.go leave the other symbols alone, whatever
-- the state of their own.
use trusted_group.Base.{
  ℕ, ◌≡◌, refl, sym, ◌∙◌, subst, ap, Bytes, Bool, true, false, not, ◌==◌, leb, length, [], ◌∷◌,
  ◌++◌, Option, none, some, text, if◌then◌else◌, ok, ◌>>=◌, >>=-eq-ok, ok_injective,
}
use trusted_group.External.{ChainAsset, Tables, Chaining, Call}
use trusted_group.Contracts.{signed_le, is_positive, is_found, must_find, check->>, stored}
use trusted_group.Contracts.Token.{
  Ledger, send_retireex, send_ontransfer, recipient, code, create, issue, retire, retire_ex,
  transfer, move, settle_transfer, tx_request, sub_balance, add_balance, add_to_row, master_account,
}
use trusted_group.Contracts.Token.Effects.{Posted, put-Posted}
use trusted_group.Contracts.Token.Backing.{Elsewhere, Elsewhere-trans, Posted-Elsewhere}
use trusted_group.Contracts.Token.Supply.{set_stats, set_stats-Elsewhere}
use trusted_group.Contracts.Token.Transfers.{run_inline, run_transfer}

module _ ⦃tables : Tables⦄ ⦃chaining : Chaining⦄ where
  open tables use {find, store}
  open chaining use {symbol_valid, asset_valid, asset_add, asset_sub}

  -- Only balances of one symbol moved, and nothing was sent.
  abbrev MovedOnly : Ledger → Ledger → ℕ → Type 0
  MovedOnly t t' c = Elsewhere t t' c × (t'.sent ≡ t.sent)

  Posted-MovedOnly : (t t' : Ledger) (owner c n : ℕ) → Posted t t' owner c n → MovedOnly t t' c
  Posted-MovedOnly t t' owner c n p = (Posted-Elsewhere t t' owner c n p, p.same_sent)

  sub_balance-MovedOnly :
      (owner : ℕ) (q : ChainAsset) (t t' : Ledger)
      → sub_balance owner q t ≡ ok t'
      → MovedOnly t t' (code q)
  unfolding sub_balance
  sub_balance-MovedOnly owner q t t' h =
      let (b, _, h₁) = >>=-eq-ok (must_find t.accounts owner (code q)) _ h in
      let (_, h₂) = check->> (signed_le q.amount b.amount) _ h₁ in
      let (b', _, h₃) = >>=-eq-ok (asset_sub b q) _ h₂ in
      Posted-MovedOnly t t' owner (code q) b'.amount
        (put-Posted t t' owner (code q) b'.amount b' refl h₃)

  row-MovedOnly :
      (o : Option ChainAsset) (owner : ℕ) (q : ChainAsset) (t t' : Ledger)
      → add_to_row o owner q t ≡ ok t'
      → MovedOnly t t' (code q)
  unfolding add_to_row
  row-MovedOnly none owner q t t' h =
      let (r, s, h₁) = >>=-eq-ok (store t.accounts owner (code q) q) _ h in
      let (_, made) = stored t.accounts r owner (code q) q s in
      Posted-MovedOnly t t' owner (code q) q.amount (
        put-Posted t t' owner (code q) q.amount q refl
          (subst (λ a. ok (record t { accounts = a }) ≡ ok t') made h₁))
  row-MovedOnly (some b) owner q t t' h =
      let (b', _, h₁) = >>=-eq-ok (asset_add b q) _ h in
      Posted-MovedOnly t t' owner (code q) b'.amount
        (put-Posted t t' owner (code q) b'.amount b' refl h₁)

  add_balance-MovedOnly :
      (owner : ℕ) (q : ChainAsset) (t t' : Ledger)
      → add_balance owner q t ≡ ok t'
      → MovedOnly t t' (code q)
  unfolding add_balance
  add_balance-MovedOnly owner q t t' h =
      row-MovedOnly (find t.accounts owner (code q)) owner q t t' h

  pub create-Elsewhere :
      (call : Call) (issuer : ℕ) (ms : ChainAsset) (t t' : Ledger)
      → create call issuer ms t ≡ ok t'
      → Elsewhere t t' (code ms)
  unfolding create set_stats
  create-Elsewhere call issuer ms t t' h =
      let c = code ms in
      let (_, h₁) = check->> (call.has_auth call.receiver) _ h in
      let (_, h₂) = check->> (symbol_valid ms.symbol) _ h₁ in
      let (_, h₃) = check->> (asset_valid ms) _ h₂ in
      let (_, h₄) = check->> (is_positive ms.amount) _ h₃ in
      let (_, h₅) = check->> (not (is_found (find t.stats c c))) _ h₄ in
      let (r, s, h₆) = >>=-eq-ok (store t.stats c c _) _ h₅ in
      let (_, made) = stored t.stats r c c _ s in
      subst (λ x. Elsewhere t x c) (ap (λ x. record t { stats = x }) (sym made) ∙ ok_injective h₆)
        (set_stats-Elsewhere t c _)

  pub issue-Elsewhere :
      (call : Call) (to : ℕ) (q : ChainAsset) (memo : Bytes) (t t' : Ledger)
      → issue call to q memo t ≡ ok t'
      → Elsewhere t t' (code q)
  unfolding issue set_stats
  issue-Elsewhere call to q memo t t' h =
      let c = code q in
      let (_, h₁) = check->> (symbol_valid q.symbol) _ h in
      let (_, h₂) = check->> (leb (length memo) 256) _ h₁ in
      let (item, f, h₃) = >>=-eq-ok (must_find t.stats c c) _ h₂ in
      let (_, h₄) = check->> (to == item.issuer) _ h₃ in
      let (_, h₅) = check->> (call.has_auth item.issuer) _ h₄ in
      let (_, h₆) = check->> (asset_valid q) _ h₅ in
      let (_, h₇) = check->> (is_positive q.amount) _ h₆ in
      let (_, h₈) = check->> (q.symbol == item.supply.symbol) _ h₇ in
      let (_, h₉) = check->> (signed_le q.amount _) _ h₈ in
      let (supply, _, h') = >>=-eq-ok (asset_add item.supply q) _ h₉ in
      let st = record item { supply = supply } in
      Elsewhere-trans t (set_stats t c st) t' c (set_stats-Elsewhere t c st)
        (add_balance-MovedOnly to q (set_stats t c st) t' h').0

  pub retire-Elsewhere :
      (call : Call) (q : ChainAsset) (memo : Bytes) (t t' : Ledger)
      → retire call q memo t ≡ ok t'
      → Elsewhere t t' (code q)
  unfolding retire set_stats
  retire-Elsewhere call q memo t t' h =
      let c = code q in
      let (_, h₁) = check->> (symbol_valid q.symbol) _ h in
      let (_, h₂) = check->> (leb (length memo) 256) _ h₁ in
      let (item, f, h₃) = >>=-eq-ok (must_find t.stats c c) _ h₂ in
      let (_, h₄) = check->> (call.has_auth item.issuer) _ h₃ in
      let (_, h₅) = check->> (asset_valid q) _ h₄ in
      let (_, h₆) = check->> (is_positive q.amount) _ h₅ in
      let (_, h₇) = check->> (q.symbol == item.supply.symbol) _ h₆ in
      let (supply, _, h') = >>=-eq-ok (asset_sub item.supply q) _ h₇ in
      let st = record item { supply = supply } in
      Elsewhere-trans t (set_stats t c st) t' c (set_stats-Elsewhere t c st)
        (sub_balance-MovedOnly item.issuer q (set_stats t c st) t' h').0

  pub retire_ex-Elsewhere :
      (call : Call) (account : ℕ) (q : ChainAsset) (memo : Bytes) (t t' : Ledger)
      → retire_ex call account q memo t ≡ ok t'
      → Elsewhere t t' (code q)
  unfolding retire_ex set_stats
  retire_ex-Elsewhere call account q memo t t' h =
      let c = code q in
      let (_, h₁) = check->> (call.has_auth call.receiver) _ h in
      let (_, h₂) = check->> (symbol_valid q.symbol) _ h₁ in
      let (_, h₃) = check->> (leb (length memo) 256) _ h₂ in
      let (item, f, h₄) = >>=-eq-ok (must_find t.stats c c) _ h₃ in
      let (_, h₅) = check->> (asset_valid q) _ h₄ in
      let (_, h₆) = check->> (is_positive q.amount) _ h₅ in
      let (_, h₇) = check->> (q.symbol == item.supply.symbol) _ h₆ in
      let (supply, _, h') = >>=-eq-ok (asset_sub item.supply q) _ h₇ in
      subst (λ s. Elsewhere t s c) (ok_injective h') (set_stats-Elsewhere t c _)

  module _ (q : ChainAsset) (call : Call) (from to : ℕ) (memo : Bytes) where
    abbrev requested : Ledger → Ledger
    requested t = tx_request call from to q memo (record t {
      sent =
          t.sent
          ++ (send_retireex call.receiver call.receiver from q (text "retire for transfer out")
              ∷ []);
    })

    out-Elsewhere :
        (t t₂ t' : Ledger)
        → t.sent ≡ recipient to ∷ []
        → sub_balance from q t ≡ ok t₂
        → run_inline call (requested t₂).sent (requested t₂) ≡ ok t'
        → Elsewhere t t' (code q)
    unfolding run_inline tx_request
    out-Elsewhere t t₂ t' sent taken ran =
        let (other, same) = sub_balance-MovedOnly from q t t₂ taken in
        let call' = record call { has_auth = λ n. n == call.receiver } in
        let m = send_ontransfer call.receiver master_account from to q memo in
        let r = send_retireex call.receiver call.receiver from q (text "retire for transfer out") in
        let ran' : run_inline call (((recipient to ∷ []) ++ (r ∷ [])) ++ (m ∷ [])) (requested t₂)
            ≡ ok t' =
          subst (λ l. run_inline call ((l ++ (r ∷ [])) ++ (m ∷ [])) (requested t₂) ≡ ok t')
            (same ∙ sent) ran in
        let (t₄, retired, h₁) =
          >>=-eq-ok (retire_ex call' from q (text "retire for transfer out") (requested t₂)) _
            ran' in
        let other' : Elsewhere t (requested t₂) (code q) = λ d n. other d n in
        Elsewhere-trans t (requested t₂) t' (code q) other' (
          retire_ex-Elsewhere call' from q (text "retire for transfer out") (requested t₂) t'
            (retired ∙ h₁))

    move-Elsewhere :
        (t t₁ t' : Ledger)
        → t.sent ≡ recipient to ∷ []
        → move from to q t ≡ ok t₁
        → run_inline call t₁.sent t₁ ≡ ok t'
        → Elsewhere t t' (code q)
    unfolding move run_inline
    move-Elsewhere t t₁ t' sent h ran =
        let (t₂, taken, given) = >>=-eq-ok (sub_balance from q t) _ h in
        let (other, same) = sub_balance-MovedOnly from q t t₂ taken in
        let (other', same') = add_balance-MovedOnly to q t₂ t₁ given in
        let ran' = subst (λ l. run_inline call l t₁ ≡ ok t') (same' ∙ same ∙ sent) ran in
        let whole : t₁ ≡ t' = ok_injective ran' in
        subst (λ s. Elsewhere t s (code q)) whole (Elsewhere-trans t t₂ t₁ (code q) other other')

    settle-Elsewhere :
        (t t₁ t' : Ledger)
        → t.sent ≡ recipient to ∷ []
        → settle_transfer call from to q memo t ≡ ok t₁
        → run_inline call t₁.sent t₁ ≡ ok t'
        → Elsewhere t t' (code q)
    unfolding settle_transfer
    settle-Elsewhere t t₁ t' sent h ran =
        go (from == master_account) (is_found (find t.bindaccounts master_account to)) h
      where
        go :
            (b₁ b₂ : Bool)
            → (if b₁
                then move from to q t
                else if not b₂
                then move from to q t
                else do t ← sub_balance from q t; ok (requested t))
              ≡ ok t₁
            → Elsewhere t t' (code q)
        go true b₂ h = move-Elsewhere t t₁ t' sent h ran
        go false false h = move-Elsewhere t t₁ t' sent h ran
        go false true h =
            let (t₂, taken, h₁) = >>=-eq-ok (sub_balance from q t) _ h in
            out-Elsewhere t t₂ t' sent taken
              (subst (λ s. run_inline call s.sent s ≡ ok t') (sym (ok_injective h₁)) ran)

    pub run_transfer-Elsewhere :
        (t t' : Ledger) → run_transfer call from to q memo t ≡ ok t' → Elsewhere t t' (code q)
    unfolding run_transfer transfer
    run_transfer-Elsewhere t t' h =
        let c = code q in
        let (t₁, done, ran) =
          >>=-eq-ok (transfer call from to q memo (record t { sent = [] })) _ h in
        let (_, h₁) = check->> (not (from == to)) _ done in
        let (_, h₂) = check->> (call.has_auth from) _ h₁ in
        let (_, h₃) = check->> (call.is_account to) _ h₂ in
        let (st, f, h₄) = >>=-eq-ok (must_find t.stats c c) _ h₃ in
        let (_, h₅) = check->> (asset_valid q) _ h₄ in
        let (_, h₆) = check->> (is_positive q.amount) _ h₅ in
        let (_, h₇) = check->> (q.symbol == st.supply.symbol) _ h₆ in
        let (_, h₈) = check->> (leb (length memo) 256) _ h₇ in
        settle-Elsewhere (record t { sent = recipient to ∷ [] }) t₁ t' refl h₈ ran
