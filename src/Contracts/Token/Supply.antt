-- ===== src/Contracts/Token/Supply.antt =====
-- `Create`, `Issue`, `Retire` and `RetireEx` of mvm/eos/contracts/mixinproxy/token/token.go, which
-- change the supply.
use trusted_group.Base.{
  ℕ, ◌+◌, ◌-◌, ◌%◌, ◌^◌, ◌<◌, ◌≤◌, ◌≡◌, refl, sym, ◌∙◌, subst, ap, Bytes, true, not, ◌==◌, leb,
  length, [], Option, none, some, inl, inr, arith, ok, >>=-eq-ok, ok_injective,
}
use trusted_group.External.{ChainAsset, Tables, Chaining, Call}
use trusted_group.Contracts.{
  is_positive, is_positive→lt, signed_le, signed_le→le, is_found, must_find, must_find-eq-ok,
  check->>,
}
use trusted_group.Contracts.Token.{
  Ledger, CurrencyStats, code, create, issue, retire, retire_ex, sub_balance, add_balance,
}
use trusted_group.Contracts.Token.Effects.{balance_in, Posted}
use trusted_group.Contracts.Token.Backing.{
  Backed, Covers, IsBacked, Elsewhere, Elsewhere-trans, Conserves, Posted-Elsewhere,
  sub_balance-Backed, add_balance-Backed,
}

module _ ⦃tables : Tables⦄ ⦃chaining : Chaining⦄ where
  open tables use {find, put, store, find-put, store_new}
  open chaining use {
    symbol_valid, asset_valid, asset_add, asset_sub, asset_valid_bounds, asset_add_ok, asset_sub_ok,
  }

  -- A checked quantity is a positive one below 2^62.
  pub quantity_range :
      (q : ChainAsset)
      → asset_valid q ≡ true
      → is_positive q.amount ≡ true
      → (0 < q.amount) × (q.amount < 2 ^ 62)
  quantity_range q valid pos = elim (asset_valid_bounds q valid) [
    | inl small ↦ ((is_positive→lt q.amount pos).0, small)
    | inr large ↦ absurd (let (a, b) = is_positive→lt q.amount pos in omega arith)
  ]

  unfoldable pub set_stats : Ledger → ℕ → CurrencyStats → Ledger
  set_stats t c st = record t { stats = put t.stats c c st }

  pub set_stats-Elsewhere :
      (t : Ledger) (c : ℕ) (st : CurrencyStats) → Elsewhere t (set_stats t c st) c
  unfolding set_stats
  set_stats-Elsewhere t c st d apart = (λ x. refl, rw (find-put t.stats c c st d d, apart) refl)

  -- The same, when the balances are covered by what the table is to hold.
  pub covered :
      (t' : Ledger) (c pending : ℕ) (st : CurrencyStats)
      → find t'.stats c c ≡ some st
      → Backed (balance_in t' c) st pending
      → IsBacked t' c pending
  covered t' c pending st e b = subst (λ o. Covers (balance_in t' c) o pending) (sym e) b

  pub uncovered :
      (t : Ledger) (c pending : ℕ) (st : CurrencyStats)
      → find t.stats c c ≡ some st
      → IsBacked t c pending
      → Backed (balance_in t c) st pending
  uncovered t c pending st e b = subst (λ o. Covers (balance_in t c) o pending) e b

  module _ (q : ChainAsset) (t t' : Ledger) (item : CurrencyStats) (supply : ChainAsset)
      (known : find t.stats (code q) (code q) ≡ some item) (small : q.amount < 2 ^ 62) where
    abbrev supplied : Ledger
    supplied = set_stats t (code q) (record item { supply = supply })

    found_supplied : find supplied.stats (code q) (code q) ≡ some (record item { supply = supply })
    unfolding set_stats
    found_supplied = rw (find-put) (ground arith)

    supplied-Elsewhere : Elsewhere t supplied (code q)
    supplied-Elsewhere = set_stats-Elsewhere t (code q) (record item { supply = supply })

    -- The balances did not move yet.
    balances_supplied :
        (pending : ℕ) (st : CurrencyStats)
        → Backed (balance_in t (code q)) st pending
        → Backed (balance_in supplied (code q)) st pending
    unfolding set_stats
    balances_supplied pending st b = b

    stats_after :
        (owner n : ℕ)
        → Posted supplied t' owner (code q) n
        → find t'.stats (code q) (code q) ≡ some (record item { supply = supply })
    stats_after owner n p = rw p.same_stats found_supplied

    -- The end of `Issue`.
    issue_end :
        (to : ℕ)
        → signed_le q.amount ((item.max_supply.amount + (2 ^ 64 - item.supply.amount)) % 2 ^ 64)
          ≡ true
        → asset_add item.supply q ≡ ok supply
        → add_balance to q supplied ≡ ok t'
        → Conserves t t' (code q)
    issue_end to room added h backed =
        let b = uncovered t (code q) 0 item known backed in
        let (_, _, sum) = asset_add_ok item.supply q supply added in
        let le =
          signed_le→le q.amount ((item.max_supply.amount + (2 ^ 64 - item.supply.amount)) % 2 ^ 64)
            (omega arith) (omega (arith, b.capped, b.limited)) room in
        let b' : Backed (balance_in t (code q)) (record item { supply = supply }) q.amount =
          record {
            circulating = b.circulating;
            spread = b.spread;
            supplied = omega (arith, b.supplied, sum, le, b.capped, b.limited);
            capped = omega (arith, sum, le, b.capped, b.limited);
            limited = b.limited;
          } in
        let (p, b'') =
          add_balance-Backed to q (record item { supply = supply }) q.amount 0 supplied t'
            (omega arith) (balances_supplied q.amount _ b') h in
        (
          Elsewhere-trans t supplied t' (code q) supplied-Elsewhere
              (Posted-Elsewhere supplied t' to (code q) _ p),
          covered t' (code q) 0 _ (stats_after to _ p) b'',
        )

    -- The end of `Retire`.
    retire_end :
        (owner : ℕ)
        → asset_sub item.supply q ≡ ok supply
        → sub_balance owner q supplied ≡ ok t'
        → Conserves t t' (code q)
    retire_end owner taken h backed =
        let b = uncovered t (code q) 0 item known backed in
        let (_, _, sum) = asset_sub_ok item.supply q supply taken in
        let (le, p, b') =
          sub_balance-Backed owner q item 0 q.amount supplied t' (omega arith) (omega arith)
            (balances_supplied 0 item b) h in
        let b'' : Backed (balance_in t' (code q)) (record item { supply = supply }) 0 = record {
          circulating = b'.circulating;
          spread = b'.spread;
          supplied = omega (arith, b'.supplied, sum, le, b.supplied, b.capped, b.limited);
          capped = omega (arith, sum, le, b.supplied, b.capped, b.limited);
          limited = b.limited;
        } in
        (
          Elsewhere-trans t supplied t' (code q) supplied-Elsewhere
              (Posted-Elsewhere supplied t' owner (code q) _ p),
          covered t' (code q) 0 _ (stats_after owner _ p) b'',
        )

    -- `RetireEx` takes what is pending out of the supply.
    retire_ex_end :
        (pending : ℕ)
        → q.amount ≤ pending
        → asset_sub item.supply q ≡ ok supply
        → IsBacked t (code q) pending
        → IsBacked supplied (code q) (pending - q.amount)
    retire_ex_end pending le taken backed =
        let b = uncovered t (code q) pending item known backed in
        let (_, _, sum) = asset_sub_ok item.supply q supply taken in
        covered supplied (code q) (pending - q.amount) _ found_supplied (
          balances_supplied (pending - q.amount) _ (record {
            circulating = b.circulating;
            spread = b.spread;
            supplied = omega (arith, b.supplied, sum, le, b.capped, b.limited);
            capped = omega (arith, sum, le, b.supplied, b.capped, b.limited);
            limited = b.limited;
          }))

  pub issue-Conserves :
      (call : Call) (to : ℕ) (q : ChainAsset) (memo : Bytes) (t t' : Ledger)
      → issue call to q memo t ≡ ok t'
      → Conserves t t' (code q)
  unfolding issue set_stats
  issue-Conserves call to q memo t t' h =
      let c = code q in
      let (_, h₁) = check->> (symbol_valid q.symbol) _ h in
      let (_, h₂) = check->> (leb (length memo) 256) _ h₁ in
      let (item, f, h₃) = >>=-eq-ok (must_find t.stats c c) _ h₂ in
      let (_, h₄) = check->> (to == item.issuer) _ h₃ in
      let (_, h₅) = check->> (call.has_auth item.issuer) _ h₄ in
      let (valid, h₆) = check->> (asset_valid q) _ h₅ in
      let (pos, h₇) = check->> (is_positive q.amount) _ h₆ in
      let (_, h₈) = check->> (q.symbol == item.supply.symbol) _ h₇ in
      let (room, h₉) = check->> (signed_le q.amount _) _ h₈ in
      let (supply, added, h') = >>=-eq-ok (asset_add item.supply q) _ h₉ in
      issue_end q t t' item supply (must_find-eq-ok t.stats c c f) (quantity_range q valid pos).1 to
        room added h'

  pub retire-Conserves :
      (call : Call) (q : ChainAsset) (memo : Bytes) (t t' : Ledger)
      → retire call q memo t ≡ ok t'
      → Conserves t t' (code q)
  unfolding retire set_stats
  retire-Conserves call q memo t t' h =
      let c = code q in
      let (_, h₁) = check->> (symbol_valid q.symbol) _ h in
      let (_, h₂) = check->> (leb (length memo) 256) _ h₁ in
      let (item, f, h₃) = >>=-eq-ok (must_find t.stats c c) _ h₂ in
      let (_, h₄) = check->> (call.has_auth item.issuer) _ h₃ in
      let (valid, h₅) = check->> (asset_valid q) _ h₄ in
      let (pos, h₆) = check->> (is_positive q.amount) _ h₅ in
      let (_, h₇) = check->> (q.symbol == item.supply.symbol) _ h₆ in
      let (supply, taken, h') = >>=-eq-ok (asset_sub item.supply q) _ h₇ in
      retire_end q t t' item supply (must_find-eq-ok t.stats c c f) (quantity_range q valid pos).1
        item.issuer taken h'

  pub retire_ex_takes :
      (call : Call) (account : ℕ) (q : ChainAsset) (memo : Bytes) (t t' : Ledger) (pending : ℕ)
      → q.amount ≤ pending
      → retire_ex call account q memo t ≡ ok t'
      → IsBacked t (code q) pending
      → Elsewhere t t' (code q) × IsBacked t' (code q) (pending - q.amount)
  unfolding retire_ex set_stats
  retire_ex_takes call account q memo t t' pending le h backed =
      let c = code q in
      let (_, h₁) = check->> (call.has_auth call.receiver) _ h in
      let (_, h₂) = check->> (symbol_valid q.symbol) _ h₁ in
      let (_, h₃) = check->> (leb (length memo) 256) _ h₂ in
      let (item, f, h₄) = >>=-eq-ok (must_find t.stats c c) _ h₃ in
      let (valid, h₅) = check->> (asset_valid q) _ h₄ in
      let (pos, h₆) = check->> (is_positive q.amount) _ h₅ in
      let (_, h₇) = check->> (q.symbol == item.supply.symbol) _ h₆ in
      let (supply, taken, h') = >>=-eq-ok (asset_sub item.supply q) _ h₇ in
      let st = record item { supply = supply } in
      subst (λ s. Elsewhere t s c × IsBacked s c (pending - q.amount)) (ok_injective h')
        (
          set_stats-Elsewhere t c st,
          retire_ex_end q t t' item supply (must_find-eq-ok t.stats c c f)
              (quantity_range q valid pos).1 pending le taken backed,
        )

  absent : {V : Type 0} (o : Option V) → not (is_found o) ≡ true → o ≡ none
  unfolding is_found
  absent none h = refl
  absent (some v) h = cc

  abbrev new_stats : ℕ → ChainAsset → CurrencyStats
  new_stats issuer ms = record {
    supply = record { amount = 0; symbol = ms.symbol };
    max_supply = ms;
    issuer = issuer;
  }

  pub create-Conserves :
      (call : Call) (issuer : ℕ) (ms : ChainAsset) (t t' : Ledger)
      → create call issuer ms t ≡ ok t'
      → Conserves t t' (code ms)
  unfolding create set_stats
  create-Conserves call issuer ms t t' h backed =
      let c = code ms in
      let (_, h₁) = check->> (call.has_auth call.receiver) _ h in
      let (_, h₂) = check->> (symbol_valid ms.symbol) _ h₁ in
      let (valid, h₃) = check->> (asset_valid ms) _ h₂ in
      let (pos, h₄) = check->> (is_positive ms.amount) _ h₃ in
      let (free, h₅) = check->> (not (is_found (find t.stats c c))) _ h₄ in
      let (r, stored, h') = >>=-eq-ok (store t.stats c c _) _ h₅ in
      let (_, small) = quantity_range ms valid pos in
      let none_there = absent (find t.stats c c) free in
      let st = new_stats issuer ms in
      let same : put t.stats c c st ≡ r =
        ok_injective (sym (store_new t.stats c c st none_there) ∙ stored) in
      let (zeros, _) = subst (λ o. Covers (balance_in t c) o 0) none_there backed in
      subst (λ s. Elsewhere t s c × IsBacked s c 0)
        (ap (λ stats. record t { stats = stats }) same ∙ ok_injective h')
        (
          set_stats-Elsewhere t c st,
          covered (set_stats t c st) c 0 st (rw (find-put) (ground arith)) (record {
            circulating = 0;
            spread = record { owners = []; distinct = tt; others = λ x _. zeros x; total = refl };
            supplied = refl;
            capped = omega arith;
            limited = small;
          }),
        )
